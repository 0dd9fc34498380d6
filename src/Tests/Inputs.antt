-- ===== src/Tests/Inputs.antt =====
-- Keys, transactions and blocks for the tests.
use memo_coin.Prelude.{ℕ, ◌≡◌, ◌≢◌, refl, sym, List, [], ◌∷◌, Bytes, replicate, length, All, arith}
use memo_coin.Data.{Transaction, Block, BlockHeader}
use memo_coin.Keys.{zero_key}
use memo_coin.Consensus.{Blake3}
use memo_coin.BlockChain.Ledger.Balances.{IsTransfer}
use memo_coin.BlockChain.Storage.RoundTrip.{BlockSized}
use memo_coin.BlockChain.Chain.{IsBlock}

abbrev pub alice : Bytes
alice = replicate 32 1

abbrev pub bob : Bytes
bob = replicate 32 2

abbrev pub pay : Bytes → Bytes → ℕ → ℕ → Transaction
pay src dest id amount = record {
  src = src;
  dest = dest;
  signature = replicate 64 7;
  id = id;
  amount = amount;
  timestamp = 5;
}

abbrev pub header_at : ℕ → BlockHeader
header_at id = record {
  input = record { fingerprint = replicate 16 3; public_key = replicate 32 4; nonce = 9 };
  hash = replicate 32 5;
  prev_hash = replicate 32 6;
  difficulty = 20;
  timestamp = 1000;
  id = id;
}

abbrev pub genesis : Block
genesis = record { header = header_at 0; transactions = pay zero_key alice 0 100 ∷ [] }

abbrev pub first : Block
first = record {
  header = header_at 1;
  transactions = pay alice bob 1 30 ∷ pay zero_key bob 0 50 ∷ [];
}

abbrev pub second : Block
second = record { header = header_at 2; transactions = pay bob alice 7 10 ∷ [] }

pub zero_ne_alice : zero_key ≢ alice
unfolding zero_key
zero_ne_alice e = cc

pub zero_ne_bob : zero_key ≢ bob
unfolding zero_key
zero_ne_bob e = cc

pub zero_size : length zero_key ≡ 32
unfolding zero_key
zero_size = refl

pub genesis-transfers : All IsTransfer genesis.transactions
genesis-transfers =
    (record { key_size = zero_size; small = omega arith; apart = zero_ne_alice }, tt)

pub alice_ne_bob : alice ≢ bob
alice_ne_bob e = cc

pub first-IsBlock : IsBlock first
first-IsBlock = record {
  sized = record {
    fingerprint = refl;
    public_key = refl;
    hash = refl;
    difficulty = omega arith;
    transactions = (
      record { src = refl; dest = refl; signature = refl },
      (record { src = zero_size; dest = refl; signature = refl }, tt),
    );
  };
  transfers = (
    record { key_size = refl; small = omega arith; apart = alice_ne_bob },
    (record { key_size = zero_size; small = omega arith; apart = zero_ne_bob }, tt),
  );
}

pub second-sized : BlockSized second
second-sized = record {
  fingerprint = refl;
  public_key = refl;
  hash = refl;
  difficulty = omega arith;
  transactions = (record { src = refl; dest = refl; signature = refl }, tt);
}

pub second-IsBlock : IsBlock second
second-IsBlock = record {
  sized = second-sized;
  transfers =
      (record { key_size = refl; small = omega arith; apart = λ e. alice_ne_bob (sym e) }, tt);
}

abbrev pub added : List Block
added = first ∷ second ∷ []

pub added-IsBlock : All IsBlock added
added-IsBlock = (first-IsBlock, (second-IsBlock, tt))

abbrev head_or_zero : Bytes → ℕ
head_or_zero [] = 0
head_or_zero (x ∷ xs) = x

-- A digest of 32 bytes for the tests.
abbrev pub blurred : Blake3
blurred = record { digest = λ m. replicate 32 (head_or_zero m); digest_size = λ m. refl }
