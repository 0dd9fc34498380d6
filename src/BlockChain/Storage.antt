-- ===== src/BlockChain/Storage.antt =====
-- src/blockchain.cpp: `write_block` and the reading of `start`, on the YAML document as a map in
-- order of insertion. A node holds a number or the base58 text of an array; YAML's own texts of
-- numbers are read back as they were written, or refused where they exceed the type asked for.
pub mod RoundTrip
use memo_coin.Prelude.{
  ℕ, ◌<◌, Bool, true, false, List, [], ◌∷◌, ◌++◌, Bytes, ltb, ◌==◌, if◌then◌else◌, u32_mod,
}
use memo_coin.Data.{Transaction, HashInput, BlockHeader, Block}
use memo_coin.Keys.{
  Base58, base58_encode_key, base58_decode, base58_encode_sig, base58_decode_sig,
  base58_encode_uuid, base58_decode_uuid,
}
use memo_coin.Messages.{Result, ok, err, Error, ◌>>=◌}

-- A name "Block" followed by the number, or a name without "Block".
pub data Name : Type 0 where
  block_name : ℕ → Name
  other_name : Bytes → Name

pub record StoredTx : Type 0 where
  pub src : Bytes
  pub dest : Bytes
  pub signature : Bytes
  pub id : ℕ
  pub amount : ℕ
  pub timestamp : ℕ

pub record StoredBlock : Type 0 where
  pub fingerprint : Bytes
  pub publickey : Bytes
  pub nonce : ℕ
  pub hash : Bytes
  pub prev_hash : Bytes
  pub difficulty : ℕ
  pub timestamp : ℕ
  pub id : ℕ
  pub transactions : List StoredTx

abbrev pub Stored : Type 0
Stored = List (Name × StoredBlock)

-- `stored_chain[block_name]` is the entry of that name, made at the end if there is none.
unfoldable pub put : ℕ → StoredBlock → Stored → Stored
put id node [] = (block_name id, node) ∷ []
put id node ((other_name n, old) ∷ s) = (other_name n, old) ∷ put id node s
put id node ((block_name n, old) ∷ s) =
    if n == id then (block_name n, node) ∷ s else (block_name n, old) ∷ put id node s

unfoldable pub write_tx : Base58 → Transaction → Result StoredTx
write_tx b t = do
  src ← base58_encode_key b t.src
  dest ← base58_encode_key b t.dest
  signature ← base58_encode_sig b t.signature
  ok (record {
    src = src;
    dest = dest;
    signature = signature;
    id = t.id;
    amount = t.amount;
    timestamp = t.timestamp;
  })

unfoldable pub write_txs : Base58 → List Transaction → Result (List StoredTx)
write_txs b [] = ok []
write_txs b (t ∷ ts) = do s ← write_tx b t; ss ← write_txs b ts; ok (s ∷ ss)

-- `prev_hash` is written from `b.header.hash`.
unfoldable pub encode_block : Base58 → Block → Result StoredBlock
encode_block b block = do
  let h = block.header
  fingerprint ← base58_encode_uuid b h.input.fingerprint
  publickey ← base58_encode_key b h.input.public_key
  hash ← base58_encode_key b h.hash
  prev_hash ← base58_encode_key b h.hash
  transactions ← write_txs b block.transactions
  ok (record {
    fingerprint = fingerprint;
    publickey = publickey;
    nonce = h.input.nonce;
    hash = hash;
    prev_hash = prev_hash;
    difficulty = h.difficulty;
    timestamp = h.timestamp;
    id = h.id;
    transactions = transactions;
  })

unfoldable pub write_node : Base58 → Block → Stored → Result Stored
write_node b block s = do node ← encode_block b block; ok (put block.header.id node s)

-- `as<uint32_t>()`.
unfoldable pub as_u32 : ℕ → Result ℕ
as_u32 n = if ltb n u32_mod then ok n else err Error.bad_conversion

unfoldable pub read_tx : Base58 → StoredTx → Result Transaction
read_tx b s = do
  src ← base58_decode b 32 s.src
  dest ← base58_decode b 32 s.dest
  amount ← as_u32 s.amount
  signature ← base58_decode_sig b s.signature
  id ← as_u32 s.id
  ok (record {
    src = src;
    dest = dest;
    signature = signature;
    id = id;
    amount = amount;
    timestamp = s.timestamp;
  })

unfoldable pub read_txs : Base58 → List StoredTx → Result (List Transaction)
read_txs b [] = ok []
read_txs b (s ∷ ss) = do t ← read_tx b s; ts ← read_txs b ss; ok (t ∷ ts)

-- The id of the header is not read: it stays `junk`.
unfoldable pub read_block : Base58 → ℕ → StoredBlock → Result Block
read_block b junk s = do
  hash ← base58_decode b 32 s.hash
  prev_hash ← base58_decode b 32 s.prev_hash
  difficulty ← as_u32 s.difficulty
  fingerprint ← base58_decode_uuid b s.fingerprint
  public_key ← base58_decode b 32 s.publickey
  transactions ← read_txs b s.transactions
  ok (record {
    header = record {
      input = record { fingerprint = fingerprint; public_key = public_key; nonce = s.nonce };
      hash = hash;
      prev_hash = prev_hash;
      difficulty = difficulty;
      timestamp = s.timestamp;
      id = junk;
    };
    transactions = transactions;
  })
