-- ===== src/Validator/Created.antt =====
-- src/validator.cpp: the types of the blocks that a validator creates.
use memo_coin.Prelude.{
  ℕ, ◌<◌, ◌≡◌, ◌≢◌, refl, false, List, [], ◌∷◌, Bytes, length, u32_mod, All, All-append, arith,
}
use memo_coin.Data.{Transaction, BlockHeader, HashInput}
use memo_coin.Keys.{zero_key}
use memo_coin.Transactions.{create_reward_transaction, no_signature}
use memo_coin.BlockChain.Ledger.Balances.{IsTransfer, is_reward}
use memo_coin.BlockChain.Storage.RoundTrip.{TxSized}
use memo_coin.BlockChain.Chain.{IsBlock}
use memo_coin.Validator.{create_block}

-- A transaction of a client: the arrays have their sizes, it goes to another account, and it is no
-- reward.
pub record IsPayment (t : Transaction) : Type 0 where
  pub sized : TxSized t
  pub transfer : IsTransfer t
  pub paid : is_reward t ≡ false

-- The arrays and the number that a validator puts into a block, of the sizes that their C++ types
-- fix.
pub record Fills (pub_key : Bytes) (input : HashInput) (solution : Bytes) (difficulty : ℕ)
    : Type 0 where
  pub key_size : length pub_key ≡ 32
  pub fingerprint : length input.fingerprint ≡ 16
  pub public_key : length input.public_key ≡ 32
  pub hash : length solution ≡ 32
  pub small : difficulty < u32_mod

sized : (ts : List Transaction) → All IsPayment ts → All TxSized ts
sized [] v = tt
sized (t ∷ ts) v = (v.0.sized, sized ts v.1)

transfers : (ts : List Transaction) → All IsPayment ts → All IsTransfer ts
transfers [] v = tt
transfers (t ∷ ts) v = (v.0.transfer, transfers ts v.1)

zero_key-length : length zero_key ≡ 32
unfolding zero_key
zero_key-length = refl

reward-TxSized :
    (pub_key : Bytes) (reward_time : ℕ)
    → length pub_key ≡ 32
    → TxSized (create_reward_transaction pub_key reward_time)
unfolding create_reward_transaction no_signature
reward-TxSized pub_key reward_time e = record { src = zero_key-length; dest = e; signature = refl }

reward-IsTransfer :
    (pub_key : Bytes) (reward_time : ℕ)
    → zero_key ≢ pub_key
    → IsTransfer (create_reward_transaction pub_key reward_time)
unfolding create_reward_transaction
reward-IsTransfer pub_key reward_time n = record {
  key_size = zero_key-length;
  small = omega arith;
  apart = n;
}

module _ (pub_key : Bytes) (reward_time now difficulty : ℕ) (prev_block : BlockHeader) where
  module _ (input : HashInput) (solution : Bytes) where
    pub create_block-IsBlock :
        (txs : List Transaction)
        → Fills pub_key input solution difficulty
        → zero_key ≢ pub_key
        → All IsPayment txs
        → IsBlock (create_block pub_key txs reward_time now prev_block input solution difficulty)
    unfolding create_block
    create_block-IsBlock txs f n v =
        let reward = create_reward_transaction pub_key reward_time in
        record {
          sized = record {
            fingerprint = f.fingerprint;
            public_key = f.public_key;
            hash = f.hash;
            difficulty = f.small;
            transactions =
                All-append TxSized txs (reward ∷ []) (sized txs v)
                  (reward-TxSized pub_key reward_time f.key_size, tt);
          };
          transfers =
              All-append IsTransfer txs (reward ∷ []) (transfers txs v)
                (reward-IsTransfer pub_key reward_time n, tt);
        }
