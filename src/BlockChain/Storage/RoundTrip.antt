-- ===== src/BlockChain/Storage/RoundTrip.antt =====
-- src/blockchain.cpp: a block that `write_block` stores, as `start` reads it.
use memo_coin.Prelude.{
  subst, ℕ, ◌≤◌, ◌<◌, ◌≡◌, refl, List, [], ◌∷◌, Bytes, length, u32_mod, All, arith,
}
use memo_coin.Data.{Transaction, Block}
use memo_coin.Keys.{Base58, base58_encode_key, base58_decode}
use memo_coin.Messages.{ok}
use memo_coin.BlockChain.Storage.{
  StoredTx, StoredBlock, write_tx, write_txs, encode_block, as_u32, read_tx, read_txs, read_block,
}

-- The sizes of the arrays, which their C++ types fix.
pub record TxSized (t : Transaction) : Type 0 where
  pub src : length t.src ≡ 32
  pub dest : length t.dest ≡ 32
  pub signature : length t.signature ≡ 64

-- The numbers that are read back as `uint32_t`.
pub record TxNarrow (t : Transaction) : Type 0 where
  pub id : t.id < u32_mod
  pub amount : t.amount < u32_mod

pub record BlockSized (b : Block) : Type 0 where
  pub fingerprint : length b.header.input.fingerprint ≡ 16
  pub public_key : length b.header.input.public_key ≡ 32
  pub hash : length b.header.hash ≡ 32
  pub difficulty : b.header.difficulty < u32_mod
  pub transactions : All TxSized b.transactions

-- What a restart makes of a block: its own hash for the previous one, and some id.
abbrev pub reread : ℕ → Block → Block
reread junk b = record {
  header = record {
    input = b.header.input;
    hash = b.header.hash;
    prev_hash = b.header.hash;
    difficulty = b.header.difficulty;
    timestamp = b.header.timestamp;
    id = junk;
  };
  transactions = b.transactions;
}

-- An array is encoded, and read back from its text.
pub encode_key_total :
    (b : Base58) (n : ℕ) (key : Bytes)
    → length key ≡ n
    → 0 < n
    → n ≤ 64
    → (s : Bytes) × (base58_encode_key b key ≡ ok s) × (base58_decode b n s ≡ ok key)
unfolding base58_encode_key base58_decode
encode_key_total b n key e h k =
    let (s, f) = b.enc_total key (omega arith) in
    (
      s,
      rw f,
      subst (λ m. base58_decode b m s ≡ ok key) e
          (rw (b.tobin_enc key s (omega arith) (omega arith) f)),
    )

as_u32_small : (n : ℕ) → n < u32_mod → as_u32 n ≡ ok n
unfolding as_u32
as_u32_small n h = ground arith

write_tx_total :
    (b : Base58) (t : Transaction)
    → TxSized t
    → (s : StoredTx) × (write_tx b t ≡ ok s) × (TxNarrow t → read_tx b s ≡ ok t)
unfolding write_tx read_tx
write_tx_total b t v =
    let (src, es, ds) = encode_key_total b 32 t.src v.src (omega arith) (omega arith) in
    let (dest, ed, dd) = encode_key_total b 32 t.dest v.dest (omega arith) (omega arith) in
    let (sig, eg, dg) = encode_key_total b 64 t.signature v.signature (omega arith) (omega arith) in
    (
      record {
        src = src;
        dest = dest;
        signature = sig;
        id = t.id;
        amount = t.amount;
        timestamp = t.timestamp;
      },
      rw (es, ed, eg),
      λ w. rw (ds, dd, as_u32_small t.amount w.amount, dg, as_u32_small t.id w.id),
    )

write_txs_total :
    (b : Base58) (ts : List Transaction)
    → All TxSized ts
    → (ss : List StoredTx) × (write_txs b ts ≡ ok ss) × (All TxNarrow ts → read_txs b ss ≡ ok ts)
unfolding write_txs read_txs
write_txs_total b [] v = ([], refl, λ w. refl)
write_txs_total b (t ∷ ts) v =
    let (s, e, d) = write_tx_total b t v.0 in
    let (ss, es, ds) = write_txs_total b ts v.1 in (s ∷ ss, rw (e, es), λ w. rw (d w.0, ds w.1))

-- A block is always stored; it can be read where its transactions' ids are small.
pub stored_block :
    (b : Base58) (x : Block)
    → BlockSized x
    → (node : StoredBlock) × (encode_block b x ≡ ok node)
      × (All TxNarrow x.transactions → (junk : ℕ) → read_block b junk node ≡ ok (reread junk x))
unfolding encode_block read_block
stored_block b x v =
    let h = x.header in
    let (f, ef, df) =
      encode_key_total b 16 h.input.fingerprint v.fingerprint (omega arith) (omega arith) in
    let (k, ek, dk) =
      encode_key_total b 32 h.input.public_key v.public_key (omega arith) (omega arith) in
    let (c, ec, dc) = encode_key_total b 32 h.hash v.hash (omega arith) (omega arith) in
    let (ts, et, dt) = write_txs_total b x.transactions v.transactions in
    (
      record {
        fingerprint = f;
        publickey = k;
        nonce = h.input.nonce;
        hash = c;
        prev_hash = c;
        difficulty = h.difficulty;
        timestamp = h.timestamp;
        id = h.id;
        transactions = ts;
      },
      rw (ef, ek, ec, et),
      λ w junk. rw (dc, as_u32_small h.difficulty v.difficulty, df, dk, dt w),
    )

-- A block whose transactions' ids and amounts are below 2 ^ 32 is stored, and a restart reads it
-- back with its transactions and all of its header but the previous hash, where its own hash
-- stands, and the id, which is not read.
pub read_block-encode_block :
    (b : Base58) (junk : ℕ) (x : Block)
    → BlockSized x
    → All TxNarrow x.transactions
    → (node : StoredBlock) × (encode_block b x ≡ ok node)
      × (read_block b junk node ≡ ok (reread junk x))
read_block-encode_block b junk x v w = let (node, e, d) = stored_block b x v in (node, e, d w junk)
