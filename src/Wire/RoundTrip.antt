-- ===== src/Wire/RoundTrip.antt =====
-- src/messages.hpp: what the receiver of a message reads.
use memo_coin.Prelude.{◌≡◌, refl, Bool, true, false, ◌&&◌, [], ◌∷◌, Bytes, length, ◌==◌, arith}
use memo_coin.Messages.{MessageType, Reply, ok, err, Error}
use memo_coin.Wire.{
  Codec, Alpaca, Message, Frames, header_of, send_message, recv_buffer, recv_message, send_reply,
  Handler, call, serve,
}

module _ (alpaca : Alpaca) where
  -- A message whose header and payload are in range.
  abbrev pub is_sendable : {A : Type 0} → Codec A → A → MessageType → Bool
  is_sendable codec message type =
      codec.fits message
      && alpaca.message_header.fits (header_of alpaca type (codec.serialize message))

  abbrev pub message_of : {A : Type 0} → Codec A → A → MessageType → Message A
  message_of codec message type = record {
    header = header_of alpaca type (codec.serialize message);
    payload = message;
  }

  abbrev pub buffer_of : {A : Type 0} → Codec A → A → MessageType → Message Bytes
  buffer_of codec message type = record {
    header = header_of alpaca type (codec.serialize message);
    payload = codec.serialize message;
  }

  module _ {A : Type 0} (codec : Codec A) (message : A) (type : MessageType) where
    module _ (h : is_sendable codec message type ≡ true) where
      pub deserialize-serialize : codec.deserialize (codec.serialize message) ≡ message
      deserialize-serialize = codec.deserialize-serialize message (ground arith)

      header-serialize :
          alpaca.message_header.deserialize
            (alpaca.message_header.serialize (header_of alpaca type (codec.serialize message)))
          ≡ header_of alpaca type (codec.serialize message)
      header-serialize = alpaca.message_header.deserialize-serialize _ (ground arith)

      -- A message in range arrives as it was sent: with its type, the size of its payload, and the
      -- payload itself.
      pub recv_message-send_message :
          recv_message alpaca codec (send_message alpaca codec message type)
          ≡ ok (message_of codec message type)
      unfolding recv_message send_message
      recv_message-send_message = rw (header-serialize, deserialize-serialize) refl

      pub recv_buffer-send_message :
          recv_buffer alpaca (send_message alpaca codec message type)
          ≡ ok (buffer_of codec message type)
      unfolding recv_buffer send_message
      recv_buffer-send_message = rw header-serialize refl

  -- A multipart message of any number of parts but two ends the receiver.
  pub recv_message_malformed :
      {A : Type 0} (codec : Codec A) (frames : Frames)
      → (length frames == 2) ≡ false
      → recv_message alpaca codec frames ≡ err Error.malformed_message
  unfolding recv_message
  recv_message_malformed codec [] h = refl
  recv_message_malformed codec (a ∷ []) h = refl
  recv_message_malformed codec (a ∷ b ∷ []) h = absurd (ground arith)
  recv_message_malformed codec (a ∷ b ∷ c ∷ rest) h = refl

  module _ {S A B : Type 0} (handler : Handler S) (codec : Codec A) (reply_codec : Codec B) where
    -- A call of a server does to its state what the handler does on the serialized request, and
    -- returns what the handler replies, where the reply is one that the caller expects.
    pub call-serve :
        (message : A) (type : MessageType) (s s' : S) (r : Reply) (b : B)
        → is_sendable codec message type ≡ true
        → is_sendable reply_codec b r.type ≡ true
        → send_reply alpaca r ≡ send_message alpaca reply_codec b r.type
        → handler (buffer_of codec message type) s ≡ ok (s', r)
        → call alpaca (serve alpaca handler) codec message type reply_codec s
          ≡ ok (s', message_of reply_codec b r.type)
    unfolding call serve
    call-serve message type s s' r b h k e f =
        rw (recv_buffer-send_message codec message type h)
          (rw f (rw e (rw (recv_message-send_message reply_codec b r.type k) refl)))

    -- A request on which the handler throws ends the server, and no reply comes.
    pub call-serve_err :
        (message : A) (type : MessageType) (s : S) (e : Error)
        → is_sendable codec message type ≡ true
        → handler (buffer_of codec message type) s ≡ err e
        → call alpaca (serve alpaca handler) codec message type reply_codec s ≡ err e
    unfolding call serve
    call-serve_err message type s e h f =
        rw (recv_buffer-send_message codec message type h) (rw f refl)
