-- ===== src/Network/Alone.antt =====
-- src/validator.cpp, src/tx_pool.cpp, src/metronome.cpp and src/blockchain.cpp together: the rounds of
-- a validator that goes on alone.
use memo_coin.Prelude.{
  ℕ, ◌-◌, ◌≡◌, ◌≢◌, ap, refl, sym, add32, true, false, none, some, List, [], ◌∷◌, ◌++◌, Bytes, take,
  drop, bytes_eq_iff, All, All-append, All-take, arith,
}
use memo_coin.Data.{Transaction, Block, BlockHeader, HashInput, block_size, tx_eq}
use memo_coin.Keys.{Base58, zero_key}
use memo_coin.Transactions.{create_reward_transaction}
use memo_coin.TxPool.Set.{contains}
use memo_coin.TxPool.Sync.{InSync}
use memo_coin.TxPool.Pop.{pop_transactions_lem}
use memo_coin.TxPool.History.{pops, confirms, step, step-InSync}
use memo_coin.TxPool.Kept.{held}
use memo_coin.TxPool.Typed.{AllHeld, step-AllHeld}
use memo_coin.BlockChain.Ledger.Balances.{is_reward}
use memo_coin.Validator.{create_block}
use memo_coin.Validator.Rounds.{block_of, round-confirm_transactions}
use memo_coin.Validator.Created.{IsPayment, Fills, create_block-IsBlock}
use memo_coin.BlockChain.{back}
use memo_coin.Network.Interleaving.{System, settles}
use memo_coin.Network.Validators.{
  Unpending, Mining, Run, here, next, looks, builds, serves, takes-Taken,
}

-- What a pool of payments is like, with no transaction in it twice.
pub record Sound (s : System) : Type 0 where
  pub in_sync : InSync s.pool
  pub payments : AllHeld IsPayment s.pool

pub no_rewards :
    (reward : Transaction) (ts : List Transaction)
    → is_reward reward ≡ true
    → All IsPayment ts
    → contains reward ts ≡ false
unfolding contains tx_eq
no_rewards reward [] e v = refl
no_rewards reward (t ∷ ts) e v = ground (
  arith,
  v.0.paid,
  bytes_eq_iff reward.src t.src,
  bytes_eq_iff reward.src zero_key,
  bytes_eq_iff t.src zero_key,
  no_rewards reward ts e v.1,
)

pub is_reward-create :
    (pub_key : Bytes) (now : ℕ) → is_reward (create_reward_transaction pub_key now) ≡ true
unfolding create_reward_transaction
is_reward-create pub_key now = (bytes_eq_iff zero_key zero_key).1 refl

-- A block of one validator, with the same hash and numbers each time.
abbrev pub MadeBy : Bytes → ℕ → ℕ → ℕ → HashInput → Bytes → Block → Type 0
MadeBy pub_key reward_time now difficulty input solution x =
    (h : BlockHeader) × (txs : List Transaction) × (x
      ≡ create_block pub_key txs reward_time now h input solution difficulty)

-- The header that validators get is that of the metronome's last block.
pub record Tip (s : System) : Type 0 where
  pub block : Block
  pub is_back : back s.chain.blocks ≡ some block
  pub same : block.header ≡ s.clock.last_block

-- One round of the validator: it takes the header and builds a block of what the pool hands out, and
-- the block is taken and confirmed.
pub record Rounded (b : Base58) (made : Block → Type 0) (w : Mining) : Type 0 where
  pub block : Block
  pub after : Mining
  pub steps : Run b Unpending w (pops ∷ confirms block ∷ []) (block ∷ []) after
  pub made_block : made block
  pub sound : Sound after.servers
  pub tip : Tip after.servers
  pub free : after.servers.pending ≡ none
  pub unconfirmed : after.servers.pool.unconfirmed_queue ≡ []
  pub submitted :
      after.servers.pool.submitted_queue
      ≡ drop (block_size - 1) w.servers.pool.submitted_queue ++ w.servers.pool.unconfirmed_queue

module _ (b : Base58) (pub_key : Bytes) (reward_time now difficulty : ℕ) where
  module _ (input : HashInput) (solution : Bytes) where
    pub round :
        (w : Mining)
        → Fills pub_key input solution difficulty
        → zero_key ≢ pub_key
        → w.servers.pending ≡ none
        → Sound w.servers
        → Tip w.servers
        → Rounded b (MadeBy pub_key reward_time now difficulty input solution) w
    unfolding step
    round w f n e v z =
        let s = w.servers in
        let txs = take (block_size - 1) s.pool.submitted_queue in
        let h = z.block.header in
        let x = block_of pub_key reward_time now difficulty h input solution txs in
        let typed =
          create_block-IsBlock pub_key reward_time now difficulty h input solution txs f n
            (All-take IsPayment (block_size - 1) s.pool.submitted_queue v.payments.submitted) in
        let reply = (pop_transactions_lem s.pool).0 in
        let w1 : Mining = record w { taken = h ∷ w.taken } in
        let w2 : Mining = record w1 {
          servers = record s { pool = step s.pool pops };
          built = x ∷ w.built;
        } in
        let k =
          takes-Taken b Unpending w2 [] w.built x refl typed e
            (unfold create_block in ap (λ y. add32 y.id 1) z.same) in
        let r =
          round-confirm_transactions pub_key reward_time now difficulty h input solution s.pool txs
            v.in_sync
            (no_rewards (create_reward_transaction pub_key reward_time) (held s.pool)
              (is_reward-create pub_key reward_time)
              (All-append IsPayment s.pool.submitted_queue s.pool.unconfirmed_queue
                v.payments.submitted v.payments.unconfirmed))
            reply in
        record {
          block = x;
          after = _;
          made_block = (h, txs, refl);
          steps =
              next
                (next
                  (next (next here (looks w z.block z.is_back)) (
                    builds w1 [] w.taken h pub_key txs reward_time now input solution difficulty
                      refl e reply))
                  k.step)
                (serves _ (settles k.servers x k.pending));
          sound = record {
            in_sync =
                rw k.pool (step-InSync _ (confirms x) tt (step-InSync s.pool pops tt v.in_sync));
            payments = rw k.pool (
                step-AllHeld IsPayment _ (confirms x) tt
                  (step-AllHeld IsPayment s.pool pops tt v.payments));
          };
          tip = record { block = x; is_back = k.back; same = sym k.last };
          free = refl;
          unconfirmed = rw k.pool r.1;
          submitted = rw k.pool r.2;
        }
