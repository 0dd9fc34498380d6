-- ===== src/Network/Apart.antt =====
-- src/tx_pool.cpp beside src/blockchain.cpp: the payments that the pool holds and those of the chain.
use memo_coin.Prelude.{
  ◌-◌, ◌≡◌, inl, inr, Bool, true, false, ◌||◌, Bool-cases, Option, none, some, List, [], ◌∷◌, ◌++◌,
  append-nil, take, All, arith,
}
use memo_coin.Data.{Transaction, Block, block_size}
use memo_coin.TxPool.{TxPool, add_transaction}
use memo_coin.TxPool.Set.{Distinct, contains, contains-append, tx_eq_refl}
use memo_coin.TxPool.Sync.{InSync}
use memo_coin.TxPool.Ghosts.{Within}
use memo_coin.TxPool.Pop.{pop_transactions_lem}
use memo_coin.TxPool.Kept.{
  held, posted, posted_by, contains-add_transaction, contains-pop_transactions,
}
use memo_coin.TxPool.History.{Request, posts, pops, confirms, init-InSync, step-InSync}
use memo_coin.TxPool.History as History
use memo_coin.TxPool.Typed.{AllHeld, step-AllHeld}
use memo_coin.Network.Interleaving.{System}
use memo_coin.Network.Drain.{posted-append}
use memo_coin.Network.Payments.{
  IsPaid, payments, paid, paid-snoc, confirmed_leaves, Distinct-append,
}

-- The payments of the pending block.
abbrev pub waiting : Option Block → List Transaction
waiting none = []
waiting (some x) = payments x.transactions

-- The pool with the requests `rs` behind it beside the blocks `xs`.
pub record Apart (s : System) (rs : List Request) (xs : List Block) : Type 0 where
  pub in_sync : InSync s.pool
  pub payers : AllHeld IsPaid s.pool
  pub held_posted : Within (held s.pool) (posted rs)
  pub paid_posted : Within (paid xs) (posted rs)
  pub once : Distinct (paid xs)
  pub apart :
      (t : Transaction)
      → contains t (held s.pool) ≡ true
      → contains t (paid xs) ≡ true
      → contains t (waiting s.pending) ≡ true
  pub waits : Within (waiting s.pending) s.pool.unconfirmed_queue

abbrev pub with_pool : TxPool → System → System
with_pool p s = record s { pool = p }

-- A request that keeps what is unconfirmed, and brings nothing that the chain has.
repool :
    (s : System) (rs : List Request) (xs : List Block) (r : Request)
    → Apart s rs xs
    → All IsPaid (posted_by r)
    → InSync (History.step s.pool r)
    → ((t : Transaction)
        → contains t (held (History.step s.pool r))
          ≡ (contains t (posted_by r) || contains t (held s.pool)))
    → ((t : Transaction) → contains t (posted_by r) ≡ true → contains t (posted rs) ≡ false)
    → Within s.pool.unconfirmed_queue (History.step s.pool r).unconfirmed_queue
    → Apart (with_pool (History.step s.pool r) s) (rs ++ r ∷ []) xs
repool s rs xs r a v i h f u = record {
  in_sync = i;
  payers = step-AllHeld IsPaid s.pool r v a.payers;
  held_posted = λ t m.
      rw (posted-append rs (r ∷ []), append-nil (posted_by r))
        (ground (arith, contains-append t (posted rs) (posted_by r), h t, a.held_posted t));
  paid_posted = λ t m.
      rw (posted-append rs (r ∷ []), append-nil (posted_by r))
        (ground (arith, contains-append t (posted rs) (posted_by r), a.paid_posted t));
  once = a.once;
  apart = λ t m k. ground (arith, h t, f t, a.paid_posted t, a.apart t);
  waits = λ t m. u t (a.waits t m);
}

pub pops_keep : (p : TxPool) → Within p.unconfirmed_queue (History.step p pops).unconfirmed_queue
unfolding contains History.step
pops_keep p t m = rw (pop_transactions_lem p).2 (
    ground (arith, contains-append t p.unconfirmed_queue (take (block_size - 1) p.submitted_queue)))

pub posts_keep :
    (valid : Bool) (tx : Transaction) (p : TxPool)
    → Within p.unconfirmed_queue (History.step p (posts valid tx)).unconfirmed_queue
unfolding History.step add_transaction
posts_keep false tx p t m = m
posts_keep true tx p t m = m

pub pops-Apart :
    (s : System) (rs : List Request) (xs : List Block)
    → Apart s rs xs
    → Apart (with_pool (History.step s.pool pops) s) (rs ++ pops ∷ []) xs
unfolding contains History.step
pops-Apart s rs xs a =
    repool s rs xs pops a tt (step-InSync s.pool pops tt a.in_sync)
      (λ t. contains-pop_transactions t s.pool) (λ t m. absurd cc) (pops_keep s.pool)

pub posts-Apart :
    (s : System) (rs : List Request) (xs : List Block) (valid : Bool) (tx : Transaction)
    → Apart s rs xs
    → All IsPaid (posted_by (posts valid tx))
    → ((t : Transaction)
        → contains t (posted_by (posts valid tx)) ≡ true
        → contains t (posted rs) ≡ false)
    → Apart (with_pool (History.step s.pool (posts valid tx)) s) (rs ++ posts valid tx ∷ []) xs
unfolding contains
posts-Apart s rs xs false tx a v f =
    repool s rs xs (posts false tx) a v (unfold History.step add_transaction in a.in_sync)
      (λ t. unfold History.step in contains-add_transaction t false tx s.pool) f
      (λ t m. unfold History.step add_transaction in m)
posts-Apart s rs xs true tx a v f =
    let n : contains tx (held s.pool) ≡ false =
      ground (arith, f tx, tx_eq_refl tx, a.held_posted tx) in
    repool s rs xs (posts true tx) a v (step-InSync s.pool (posts true tx) n a.in_sync)
      (λ t. unfold History.step in contains-add_transaction t true tx s.pool) f
      (λ t m. unfold History.step add_transaction in m)

-- The pool confirms the pending block.
pub settles-Apart :
    (s : System) (rs : List Request) (xs : List Block) (x : Block)
    → s.pending ≡ some x
    → Apart s rs xs
    → Apart
        (record s { pending = none; pool = History.step s.pool (confirms x) })
        (rs ++ confirms x ∷ [])
        xs
unfolding contains
settles-Apart s rs xs x e a =
    let w : Within (payments x.transactions) s.pool.unconfirmed_queue = rw e at a.waits in
    let l : (t : Transaction)
        → contains t (held (History.step s.pool (confirms x))) ≡ true
        → (contains t (payments x.transactions) ≡ false) × (contains t (held s.pool) ≡ true) =
      unfold History.step in λ t m. confirmed_leaves x s.pool t a.in_sync w m in
    record {
      in_sync = step-InSync s.pool (confirms x) tt a.in_sync;
      payers = step-AllHeld IsPaid s.pool (confirms x) tt a.payers;
      held_posted = λ t m.
          rw (posted-append rs (confirms x ∷ []), append-nil (posted rs))
            (a.held_posted t (l t m).1);
      paid_posted = λ t m.
          rw (posted-append rs (confirms x ∷ []), append-nil (posted rs)) (a.paid_posted t m);
      once = a.once;
      apart = λ t m k. let q = rw e at (a.apart t (l t m).1 k) in absurd (let n = (l t m).0 in cc);
      waits = λ t m. absurd cc;
    }

-- A block whose payments are unconfirmed goes on the chain, where none is pending.
pub commits-Apart :
    (s s' : System) (rs : List Request) (xs : List Block) (x : Block)
    → s.pending ≡ none
    → s'.pending ≡ some x
    → s'.pool ≡ s.pool
    → Distinct (payments x.transactions)
    → Within (payments x.transactions) s.pool.unconfirmed_queue
    → Apart s rs xs
    → Apart s' rs (xs ++ x ∷ [])
unfolding contains
commits-Apart s s' rs xs x e f g d h a =
    let p = payments x.transactions in
    let held_of : Within p (held s.pool) = λ t m.
      ground (arith, h t m, contains-append t s.pool.submitted_queue s.pool.unconfirmed_queue) in
    let new : (t : Transaction) → contains t (held s.pool) ≡ true → contains t (paid xs) ≡ false =
      λ t m. elim (Bool-cases (contains t (paid xs))) [
        | inr n ↦ n
        | inl k ↦ absurd (let q = rw e at (a.apart t m k) in cc)
      ] in
    record {
      in_sync = rw g a.in_sync;
      payers = rw g a.payers;
      held_posted = rw g a.held_posted;
      paid_posted = λ t m. elim (Bool-cases (contains t p)) [
        | inl k ↦ a.held_posted t (held_of t k)
        | inr k ↦
            a.paid_posted t
              (let q = rw (paid-snoc xs x) at m in ground (arith, contains-append t (paid xs) p))
      ];
      once =
          rw (paid-snoc xs x) (Distinct-append (paid xs) p a.once d (λ t m. new t (held_of t m)));
      apart = λ t m k. rw f (
          let q = rw (paid-snoc xs x) at k in
          ground (arith, new t (rw g at m), contains-append t (paid xs) p));
      waits = rw (f, g) h;
    }
