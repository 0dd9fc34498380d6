-- ===== src/Data.antt =====
-- src/defs.hpp, src/transaction.hpp, src/block.hpp, src/consensus.hpp: constants and structs.
use memo_coin.Prelude.{
  ℕ, ◌≡◌, ◌↔◌, Bool, true, ◌&&◌, List, ◌==◌, Bytes, bytes_eq, bytes_eq_iff, arith,
}

abbrev pub block_size : ℕ
block_size = 8191

-- Seconds.
abbrev pub block_time : ℕ
block_time = 6

abbrev pub min_difficulty : ℕ
min_difficulty = 20

abbrev pub miner_reward : ℕ
miner_reward = 50

pub data Status : Type 0 where
  confirmed unconfirmed submitted unknown : Status

pub record Transaction : Type 0 where
  pub src : Bytes
  pub dest : Bytes
  pub signature : Bytes
  pub id : ℕ
  pub amount : ℕ
  pub timestamp : ℕ

pub record HashInput : Type 0 where
  pub fingerprint : Bytes
  pub public_key : Bytes
  pub nonce : ℕ

pub record BlockHeader : Type 0 where
  pub input : HashInput
  pub hash : Bytes
  pub prev_hash : Bytes
  pub difficulty : ℕ
  pub timestamp : ℕ
  pub id : ℕ

pub record Block : Type 0 where
  pub header : BlockHeader
  pub transactions : List Transaction

-- Two transactions are one if the sender and the id agree.
unfoldable pub tx_eq : Transaction → Transaction → Bool
tx_eq lhs rhs = bytes_eq lhs.src rhs.src && lhs.id == rhs.id

pub tx_eq_iff : (t u : Transaction) → (tx_eq t u ≡ true) ↔ ((t.src ≡ u.src) × (t.id ≡ u.id))
unfolding tx_eq
tx_eq_iff t u = ground (arith, bytes_eq_iff t.src u.src)
