-- ===== src/Wire.antt =====
-- src/messages.hpp and src/messages.cpp: messages of two frames, and one request with its reply.
-- The serializer, alpaca, is a parameter for each type that is sent.
pub mod RoundTrip
pub mod Toy
use memo_coin.Prelude.{ℕ, ◌≡◌, Bool, true, List, [], ◌∷◌, Bytes, length}
use memo_coin.Data.{Transaction, Block, BlockHeader, Status}
use memo_coin.Messages.{MessageType, Payload, Reply, Result, ok, err, Error, ◌>>=◌}

-- `alpaca::serialize` and `alpaca::deserialize` of a type. The latter reports a failure in an error
-- code that the callers do not read, and returns a value all the same.
pub record Codec (A : Type 0) : Type 0 where
  pub serialize : A → Bytes
  pub deserialize : Bytes → A
  -- The values in the range of the type's members.
  pub fits : A → Bool
  pub deserialize-serialize : (a : A) → fits a ≡ true → deserialize (serialize a) ≡ a

pub record MessageHeader : Type 0 where
  pub type : MessageType
  pub size : ℕ

pub record Alpaca : Type 0 where
  pub message_header : Codec MessageHeader
  pub null_message : Codec (Unit {0})
  pub number : Codec ℕ
  pub status : Codec Status
  pub block_header : Codec BlockHeader
  pub block : Codec Block
  pub transaction : Codec Transaction
  pub transactions : Codec (List Transaction)
  pub key : Codec Bytes
  pub tx_key : Codec (Bytes × ℕ)

pub record Message (A : Type 0) : Type 0 where
  pub header : MessageHeader
  pub payload : A

-- The parts of a multipart message.
abbrev pub Frames : Type 0
Frames = List Bytes

-- A server on the other side: from its state and a request to its state and a reply.
abbrev pub Server : Type 0 → Type 0
Server S = Frames → S → Result (S × Frames)

-- `request_handler`: from a received message to the new state and the reply.
abbrev pub Handler : Type 0 → Type 0
Handler S = Message Bytes → S → Result (S × Reply)

module _ (alpaca : Alpaca) where
  abbrev pub header_of : MessageType → Bytes → MessageHeader
  header_of type payload_bytes = record { type = type; size = length payload_bytes }

  unfoldable pub send_message : {A : Type 0} → Codec A → A → MessageType → Frames
  send_message codec message type =
      let payload_bytes = codec.serialize message in
      alpaca.message_header.serialize (header_of type payload_bytes) ∷ payload_bytes ∷ []

  -- Of a `MessageBuffer`: the payload as it came.
  unfoldable pub recv_buffer : Frames → Result (Message Bytes)
  recv_buffer (header_buf ∷ payload_buf ∷ []) =
      ok (record { header = alpaca.message_header.deserialize header_buf; payload = payload_buf })
  recv_buffer [] = err Error.malformed_message
  recv_buffer (header_buf ∷ []) = err Error.malformed_message
  recv_buffer (header_buf ∷ payload_buf ∷ other ∷ rest) = err Error.malformed_message

  unfoldable pub recv_message : {A : Type 0} → Codec A → Frames → Result (Message A)
  recv_message codec (header_buf ∷ payload_buf ∷ []) = ok (record {
    header = alpaca.message_header.deserialize header_buf;
    payload = codec.deserialize payload_buf;
  })
  recv_message codec [] = err Error.malformed_message
  recv_message codec (header_buf ∷ []) = err Error.malformed_message
  recv_message codec (header_buf ∷ payload_buf ∷ other ∷ rest) = err Error.malformed_message

  -- How a handler sends its reply.
  unfoldable pub send_reply : Reply → Frames
  unfolding send_message
  send_reply r = elim r.payload [
    | Payload.null ↦ send_message alpaca.null_message tt r.type
    | Payload.number n ↦ send_message alpaca.number n r.type
    | Payload.status s ↦ send_message alpaca.status s r.type
    | Payload.header h ↦ send_message alpaca.block_header h r.type
    | Payload.transactions ts ↦ send_message alpaca.transactions ts r.type
  ]

  -- `send_message(requester, message, type)`, and `recv_message` of the reply.
  unfoldable pub call :
      {S A B : Type 0} → Server S → Codec A → A → MessageType → Codec B → S → Result (S × Message B)
  call server codec message type reply_codec s = do
    (s', frames) ← server (send_message codec message type) s
    reply ← recv_message reply_codec frames
    ok (s', reply)

  -- Receives a message, runs its handler and sends the reply.
  unfoldable pub serve : {S : Type 0} → Handler S → Server S
  serve handler frames s = do
    request ← recv_buffer frames
    (s', reply) ← handler request s
    ok (s', send_reply reply)
