-- ===== src/Config/Genesis.antt =====
-- `get_genesis_block` of src/config.cpp, on the members of the genesis document.
use memo_coin.Prelude.{ℕ, List, [], ◌∷◌, Bytes, replicate}
use memo_coin.Data.{Transaction, Block}
use memo_coin.Keys.{Base58, base58_decode}
use memo_coin.Messages.{Result, ok, ◌>>=◌}
use memo_coin.BlockChain.Storage.{as_u32}

pub record GenesisTx : Type 0 where
  pub src : Bytes
  pub dest : Bytes
  pub amount : ℕ

pub record GenesisFile : Type 0 where
  pub hash : Bytes
  pub prev_hash : Bytes
  pub difficulty : ℕ
  pub timestamp : ℕ
  pub id : ℕ
  pub transactions : List GenesisTx

unfoldable pub read_genesis_tx : Base58 → GenesisTx → Result Transaction
read_genesis_tx b t = do
  src ← base58_decode b 32 t.src
  dest ← base58_decode b 32 t.dest
  amount ← as_u32 t.amount
  ok (record {
    src = src;
    dest = dest;
    signature = replicate 64 0;
    id = 0;
    amount = amount;
    timestamp = 0;
  })

unfoldable pub read_genesis_txs : Base58 → List GenesisTx → Result (List Transaction)
read_genesis_txs b [] = ok []
read_genesis_txs b (t ∷ ts) = do
  tx ← read_genesis_tx b t
  txs ← read_genesis_txs b ts
  ok (tx ∷ txs)

unfoldable pub get_genesis_block : Base58 → GenesisFile → Result Block
get_genesis_block b f = do
  hash ← base58_decode b 32 f.hash
  prev_hash ← base58_decode b 32 f.prev_hash
  difficulty ← as_u32 f.difficulty
  id ← as_u32 f.id
  transactions ← read_genesis_txs b f.transactions
  ok (record {
    header = record {
      input = record { fingerprint = replicate 16 0; public_key = replicate 32 0; nonce = 0 };
      hash = hash;
      prev_hash = prev_hash;
      difficulty = difficulty;
      timestamp = f.timestamp;
      id = id;
    };
    transactions = transactions;
  })
