-- ===== src/Network/Twice.antt =====
-- src/validator.cpp beside the servers: `add_block` replies before it asks the pool to confirm, and
-- what validators can do in between.
use memo_coin.Prelude.{
  ℕ, ◌-◌, ◌≡◌, ◌≢◌, ◌∙◌, ap, refl, ap₂, sym, true, Option, none, List, [], ◌∷◌, ◌++◌, Bytes, take,
  drop, add32, All, arith,
}
use memo_coin.Data.{Transaction, Block, BlockHeader, HashInput, block_size, tx_eq}
use memo_coin.Keys.{Base58, zero_key}
use memo_coin.Messages.{Payload}
use memo_coin.Transactions.{create_reward_transaction}
use memo_coin.TxPool.{TxPool, init, good, batch, move_all, pop_transactions, add_transaction}
use memo_coin.TxPool.Set.{contains, tx_eq_refl, tx_eq_comm}
use memo_coin.TxPool.Pop.{pop_transactions_lem}
use memo_coin.TxPool.Confirm.{confirm_transactions_drains}
use memo_coin.TxPool.Kept.{posted}
use memo_coin.TxPool.History.{Request, posts, pops, confirms}
use memo_coin.TxPool.History as History
use memo_coin.BlockChain.Chain.{IsBlock}
use memo_coin.Validator.{create_block}
use memo_coin.Validator.Created.{IsPayment, Fills, create_block-IsBlock}
use memo_coin.Network.Interleaving.{System, settles, submits}
use memo_coin.Network.Alone.{no_rewards, is_reward-create}
use memo_coin.Network.Payments.{IsPaid, paid, payments}
use memo_coin.Network.Once.{Fresh}
use memo_coin.Network.Ready.{unreward}
use memo_coin.Network.Validators.{
  Mining, Run, takes-Taken, Run-append, here, next, serves, looks, builds,
}

-- Validators build at any time, as the code lets them.
abbrev pub Anytime : Option Block → Type 0
Anytime pending = Unit

queued :
    (p : TxPool) (t : Transaction)
    → p ≡ init
    → ((pop_transactions p).1 ≡ good (Payload.transactions []))
      × ((History.step (History.step p pops) (posts true t)).submitted_queue ≡ t ∷ [])
      × ((History.step (History.step p pops) (posts true t)).unconfirmed_queue ≡ [])
unfolding init History.step pop_transactions batch move_all add_transaction
queued p t e = rw e (refl, refl, refl)

module _ (b : Base58) (pub_key : Bytes) (reward_time now difficulty : ℕ) where
  module _ (input : HashInput) (solution : Bytes) where
    abbrev block_on : BlockHeader → List Transaction → Block
    block_on h txs = create_block pub_key txs reward_time now h input solution difficulty

    -- The built block `x` is taken, and `y` is built of `t` before the pool confirms `x`.
    record Again (w : Mining) (x : Block) (t : Transaction) : Type 0 where
      after : Mining
      steps : Run b Anytime w (pops ∷ confirms x ∷ []) (x ∷ []) after
      built : after.built ≡ block_on x.header (t ∷ []) ∷ w.built
      pending : after.servers.pending ≡ none
      last : after.servers.clock.last_block ≡ x.header
      pool : after.servers.pool ≡ History.step (History.step w.servers.pool pops) (confirms x)

    again :
        (w : Mining) (x : Block) (rest : List Block) (t : Transaction)
        → w.built ≡ x ∷ rest
        → IsBlock x
        → w.servers.pending ≡ none
        → x.header.id ≡ add32 w.servers.clock.last_block.id 1
        → w.servers.pool.submitted_queue ≡ t ∷ []
        → Again w x t
    again w x rest t e v p i q =
        let k = takes-Taken b Anytime w [] rest x e v p i in
        let w1 : Mining = record w { servers = k.servers } in
        let w2 : Mining = record w1 { taken = x.header ∷ w.taken } in
        let y = block_on x.header (t ∷ []) in
        let s2 = w2.servers in
        let s3 : System = record s2 { pool = History.step s2.pool pops } in
        let w3 : Mining = record w2 { servers = s3; built = y ∷ w2.built } in
        let (r, _, _) = pop_transactions_lem s2.pool in
        let f : (pop_transactions s2.pool).1 ≡ good (Payload.transactions (t ∷ [])) =
          r
          ∙ ap (λ u. good (Payload.transactions (take (block_size - 1) u)))
              (ap (λ u. u.submitted_queue) k.pool ∙ q) in
        record {
          after = _;
          steps =
              next
                (next (next (next here k.step) (looks w1 x k.back)) (
                  builds w2 [] w.taken x.header pub_key (t ∷ []) reward_time now input solution
                    difficulty refl tt f))
                (serves w3 (settles s3 x k.pending));
          built = refl;
          pending = refl;
          last = k.last;
          pool = rw k.pool refl;
        }

    -- The pool takes the handed out `t` back when it confirms a block of a reward only.
    comes_back :
        (h : BlockHeader) (p : TxPool) (t : Transaction)
        → IsPayment t
        → p.submitted_queue ≡ t ∷ []
        → p.unconfirmed_queue ≡ []
        → (History.step (History.step p pops) (confirms (block_on h []))).submitted_queue ≡ t ∷ []
    unfolding History.step create_block contains tx_eq
    comes_back h p t v e f =
        let reward = create_reward_transaction pub_key reward_time in
        let (_, s, u) = pop_transactions_lem p in
        let p1 = (pop_transactions p).0 in
        let s1 : p1.submitted_queue ≡ [] = s ∙ ap (drop (block_size - 1)) e in
        let u1 : p1.unconfirmed_queue ≡ t ∷ [] =
          u ∙ ap₂ (λ a q. a ++ take (block_size - 1) q) f e in
        let n = no_rewards reward (t ∷ []) (is_reward-create pub_key reward_time) (v, tt) in
        let d =
          confirm_transactions_drains (block_on h []) p1 reward (rw u1 (refl, tt))
            (ground (arith, tx_eq_refl reward)) (rw u1 n) in
        d.1 ∙ rw (s1, u1) (ground (arith, n, tx_eq_comm t reward))

    paid_by :
        (h : BlockHeader) (txs : List Transaction)
        → All IsPaid txs
        → payments (block_on h txs).transactions ≡ txs
    unfolding create_block
    paid_by h txs v = unreward txs pub_key reward_time v

    id_on : (h : BlockHeader) (txs : List Transaction) → (block_on h txs).header.id ≡ add32 h.id 1
    unfolding create_block
    id_on h txs = refl

    -- Validators that build at any time beside the servers, from an empty pool with no block
    -- pending, a waiting metronome whose last block is the chain's, and no header taken and no
    -- block built yet: for every transaction that has arrays of their types' sizes, an amount
    -- below 2 ^ 32, a receiver that is not the sender and a sender that is not the zero key, for
    -- any key of a validator but the zero key and any solution of the right sizes, there is a run
    -- in which only that transaction is posted, once, and the transactions of the taken blocks,
    -- rewards aside, are twice that transaction.
    pub Run-twice :
        {w0 : Mining} (last : Block) (t : Transaction)
        → Fresh w0 last
        → Fills pub_key input solution difficulty
        → zero_key ≢ pub_key
        → IsPayment t
        → (rs : List Request) × (xs : List Block) × (w : Mining) × Run b Anytime w0 rs xs w
          × (posted rs ≡ t ∷ [])
          × (paid xs ≡ t ∷ t ∷ [])
    Run-twice {w0 = w0} last t f l n v =
        let s0 = w0.servers in
        let (g, q, u) = queued s0.pool t f.pool in
        let w1 : Mining = record w0 { taken = last.header ∷ w0.taken } in
        let x1 = block_on last.header [] in
        let s2 : System = record s0 { pool = History.step s0.pool pops } in
        let w2 : Mining = record w1 { servers = s2; built = x1 ∷ w1.built } in
        let s3 : System = record s2 { pool = History.step s2.pool (posts true t) } in
        let w3 : Mining = record w2 { servers = s3 } in
        let made = create_block-IsBlock pub_key reward_time now difficulty in
        let a1 =
          again w3 x1 w0.built t refl (made last.header input solution [] l n tt) f.pending
            (id_on last.header [] ∙ ap (λ h. add32 h.id 1) f.clock) q in
        let x2 = block_on x1.header (t ∷ []) in
        let a2 =
          again a1.after x2 _ t a1.built (made x1.header input solution (t ∷ []) l n (v, tt))
            a1.pending (id_on x1.header (t ∷ []) ∙ ap (λ h. add32 h.id 1) (sym a1.last))
            (rw a1.pool (comes_back last.header s3.pool t v q u)) in
        let x3 = block_on x2.header (t ∷ []) in
        let k =
          takes-Taken b Anytime a2.after [] _ x3 a2.built
            (made x2.header input solution (t ∷ []) l n (v, tt)) a2.pending
            (id_on x2.header (t ∷ []) ∙ ap (λ h. add32 h.id 1) (sym a2.last)) in
        (
          _,
          _,
          _,
          next
              (Run-append
                (Run-append
                  (next
                    (next (next here (looks w0 last f.back)) (
                      builds w1 [] w0.taken last.header pub_key [] reward_time now input solution
                        difficulty refl tt g))
                    (serves w2 (submits s2 true t)))
                  a1.steps)
                a2.steps)
              k.step,
          refl,
          rw
              (
                paid_by last.header [] tt,
                paid_by x1.header (t ∷ []) (v.paid, tt),
                paid_by x2.header (t ∷ []) (v.paid, tt),
              )
              refl,
        )
