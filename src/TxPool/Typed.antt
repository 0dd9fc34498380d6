-- ===== src/TxPool/Typed.antt =====
-- src/tx_pool.cpp: what every posted transaction satisfies, the queues satisfy.
use memo_coin.Prelude.{
  ◌≡◌, refl, Bool, true, false, List, [], ◌∷◌, ◌-◌, take, All, All-append, All-take, All-drop,
  All-of-append,
}
use memo_coin.Data.{Transaction, block_size}
use memo_coin.TxPool.{
  TxPool, init, add_transaction, pop_transactions, confirm_one, confirm_loop, confirm_transactions,
}
use memo_coin.TxPool.Set.{contains, erase, from_list}
use memo_coin.TxPool.Sync.{unconfirmed_queue-confirm_one}
use memo_coin.TxPool.Pop.{pop_transactions_lem}
use memo_coin.TxPool.History.{Request, step, run}
use memo_coin.TxPool.Kept.{posted_by, posted}

-- Every transaction of the two queues satisfies `P`.
pub record AllHeld (P : Transaction → Type 0) (p : TxPool) : Type 0 where
  pub submitted : All P p.submitted_queue
  pub unconfirmed : All P p.unconfirmed_queue

module _ (P : Transaction → Type 0) where
  add_transaction-AllHeld :
      (valid : Bool) (tx : Transaction) (p : TxPool)
      → All P (posted_by (Request.posts valid tx))
      → AllHeld P p
      → AllHeld P (add_transaction valid tx p).0
  unfolding add_transaction
  add_transaction-AllHeld false tx p h v = v
  add_transaction-AllHeld true tx p h v = record {
    submitted = All-append P p.submitted_queue (tx ∷ []) v.submitted h;
    unconfirmed = v.unconfirmed;
  }

  pop_transactions-AllHeld : (p : TxPool) → AllHeld P p → AllHeld P (pop_transactions p).0
  pop_transactions-AllHeld p v =
      let (r, s, u) = pop_transactions_lem p in
      let n = block_size - 1 in
      let q = p.submitted_queue in
      record {
        submitted = rw s (All-drop P n q v.submitted);
        unconfirmed = rw u (
            All-append P p.unconfirmed_queue (take n q) v.unconfirmed (All-take P n q v.submitted));
      }

  confirm_one-AllHeld :
      (found : Bool) (tx : Transaction) (rest : List Transaction) (p : TxPool)
      → p.unconfirmed_queue ≡ tx ∷ rest
      → AllHeld P p
      → AllHeld P (confirm_one found tx rest p)
  unfolding confirm_one
  confirm_one-AllHeld true tx rest p e v =
      let u = rw e at v.unconfirmed in record { submitted = v.submitted; unconfirmed = u.1 }
  confirm_one-AllHeld false tx rest p e v =
      let u = rw e at v.unconfirmed in
      record {
        submitted = All-append P p.submitted_queue (tx ∷ []) v.submitted (u.0, tt);
        unconfirmed = u.1;
      }

  confirm_loop-AllHeld :
      (q c : List Transaction) (p : TxPool)
      → p.unconfirmed_queue ≡ q
      → AllHeld P p
      → AllHeld P (confirm_loop q c p)
  unfolding confirm_loop
  confirm_loop-AllHeld [] c p e v = v
  confirm_loop-AllHeld (tx ∷ rest) [] p e v = v
  confirm_loop-AllHeld (tx ∷ rest) (x ∷ xs) p e v =
      let found = contains tx (x ∷ xs) in
      confirm_loop-AllHeld rest (erase tx (x ∷ xs)) (confirm_one found tx rest p)
        (unconfirmed_queue-confirm_one found tx rest p) (confirm_one-AllHeld found tx rest p e v)

  pub step-AllHeld :
      (p : TxPool) (r : Request) → All P (posted_by r) → AllHeld P p → AllHeld P (step p r)
  unfolding step confirm_transactions
  step-AllHeld p (Request.posts valid tx) h v = add_transaction-AllHeld valid tx p h v
  step-AllHeld p Request.pops h v = pop_transactions-AllHeld p v
  step-AllHeld p (Request.confirms b) h v =
      confirm_loop-AllHeld p.unconfirmed_queue (from_list b.transactions) p refl v

  run-AllHeld :
      (p : TxPool) (rs : List Request) → All P (posted rs) → AllHeld P p → AllHeld P (run p rs)
  unfolding run
  run-AllHeld p [] h v = v
  run-AllHeld p (r ∷ rs) h v =
      let (k, l) = All-of-append P (posted_by r) (posted rs) h in
      run-AllHeld (step p r) rs l (step-AllHeld p r k v)

  -- After any history, what holds for every transaction that was posted with a valid signature holds
  -- for every transaction in the two queues.
  pub run-init-AllHeld : (rs : List Request) → All P (posted rs) → AllHeld P (run init rs)
  unfolding init
  run-init-AllHeld rs h = run-AllHeld init rs h (record { submitted = tt; unconfirmed = tt })
