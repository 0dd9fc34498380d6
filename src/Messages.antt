-- ===== src/Messages.antt =====
-- src/messages.hpp: the message types, and replies before they are serialized.
use memo_coin.Prelude.{ℕ, ◌≡◌, refl, ◌⊎◌, inl, inr, Bool, true, false, List}
use memo_coin.Data.{Status, Transaction, BlockHeader, Block}

pub data MessageType : Type 0 where
  post_tx pop_tx query_tx_status status_good status_bad query_bal submit_block : MessageType
  query_difficulty query_last_block confirm_block query_tx_count query_num_addrs : MessageType
  query_coins register_validator query_num_validators : MessageType

-- The payloads that the servers send back.
pub data Payload : Type 0 where
  null : Payload
  number : ℕ → Payload
  status : Status → Payload
  header : BlockHeader → Payload
  transactions : List Transaction → Payload

pub record Reply : Type 0 where
  pub type : MessageType
  pub payload : Payload

-- What ends a server: no handler catches an exception, and one that leaves a worker ends the process.
pub data Error : Type 0 where
  unknown_message malformed_message encode_failed decode_failed : Error
  bad_conversion bad_difficulty undefined_behaviour out_of_fuel : Error

pub data Result {ℓ} (A : Type ℓ) : Type ℓ where
  ok : A → Result A
  err : Error → Result A

pub Result-cases {ℓ} :
    {A : Type ℓ} (r : Result A) → ((a : A) × (r ≡ ok a)) ⊎ ((e : Error) × (r ≡ err e))
Result-cases (ok a) = inl (a, refl)
Result-cases (err e) = inr (e, refl)

infixl 5 ◌>>=◌
abbrev pub ◌>>=◌ {ℓ κ} : {A : Type ℓ} {B : Type κ} → Result A → (A → Result B) → Result B
ok a >>= f = f a
err e >>= f = err e

-- A message to another server that carries a block.
pub record Sent : Type 0 where
  pub type : MessageType
  pub block : Block

-- `response.header.type == STATUS_GOOD`.
unfoldable pub is_good : MessageType → Bool
is_good MessageType.status_good = true
is_good type = false
