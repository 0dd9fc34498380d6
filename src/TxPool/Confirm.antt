-- ===== src/TxPool/Confirm.antt =====
-- src/tx_pool.cpp: what `confirm_transactions` does to the two queues.
use memo_coin.Prelude.{
  ◌≡◌, ◌∙◌, ap, refl, sym, true, false, List, [], ◌∷◌, ◌++◌, append-nil, append_assoc, ◌⊎◌, ◌≢◌,
  inl, inr, if◌then◌else◌, Bool-cases, arith,
}
use memo_coin.Data.{Transaction, Block}
use memo_coin.TxPool.{TxPool, confirm_one, confirm_loop, confirm_transactions}
use memo_coin.TxPool.Set.{
  Distinct, contains, erase, from_list, contains-append, contains-erase, contains-from_list,
  tx_eq_refl, tx_eq_comm,
}
use memo_coin.TxPool.Sync.{unconfirmed_queue-confirm_one}

-- The transactions of `done` that are not among `c`, in their order.
abbrev pub leftover : List Transaction → List Transaction → List Transaction
leftover c [] = []
leftover c (t ∷ done) = if contains t c then leftover c done else t ∷ leftover c done

leftover-erase :
    (tx : Transaction) (c done : List Transaction)
    → contains tx done ≡ false
    → leftover (erase tx c) done ≡ leftover c done
unfolding contains
leftover-erase tx c [] n = refl
leftover-erase tx c (t ∷ done) n =
    ground (arith, leftover-erase tx c done, contains-erase t tx c, tx_eq_comm t tx)

leftover_congr :
    (c d : List Transaction) (done : List Transaction)
    → ((t : Transaction) → contains t c ≡ contains t d)
    → leftover c done ≡ leftover d done
leftover_congr c d [] h = refl
leftover_congr c d (t ∷ done) h = ground (arith, h t, leftover_congr c d done h)

-- A proper prefix of `done` misses a transaction of `c`.
abbrev pub Shortest : List Transaction → List Transaction → Type 0
Shortest c done =
    (init later : List Transaction)
    → done ≡ init ++ later
    → later ≢ []
    → (t : Transaction) × (contains t c ≡ true) × (contains t init ≡ false)

-- The queue `q` splits into the part that the loop takes off and the part that stays.
pub record Settled (q c : List Transaction) (p p' : TxPool) : Type 0 where
  pub done : List Transaction
  pub rest : List Transaction
  pub splits : q ≡ done ++ rest
  pub covers : (rest ≡ []) ⊎ ((t : Transaction) → contains t c ≡ true → contains t done ≡ true)
  pub shortest : Shortest c done
  pub unconfirmed : p'.unconfirmed_queue ≡ rest
  pub submitted : p'.submitted_queue ≡ p.submitted_queue ++ leftover c done

submitted_queue-confirm_one :
    (tx : Transaction) (rest c : List Transaction) (p : TxPool)
    → (confirm_one (contains tx c) tx rest p).submitted_queue
      ≡ p.submitted_queue ++ leftover c (tx ∷ [])
unfolding confirm_one
submitted_queue-confirm_one tx rest c p = elim (Bool-cases (contains tx c)) [
  | inl e ↦ rw (e, confirm_one) (sym (append-nil p.submitted_queue))
  | inr e ↦ rw (e, confirm_one)
]

leftover-cons :
    (c : List Transaction) (t : Transaction) (done : List Transaction)
    → leftover c (t ∷ []) ++ leftover c done ≡ leftover c (t ∷ done)
leftover-cons c t done = ground arith

Distinct-front :
    (tx : Transaction) (done rest : List Transaction)
    → Distinct (tx ∷ done ++ rest)
    → contains tx done ≡ false
Distinct-front tx done rest d = ground (arith, d.0, contains-append tx done rest)

-- One more transaction taken off before the rest of the loop.
resubmit :
    (tx : Transaction) (rest c done : List Transaction) (p : TxPool)
    → contains tx done ≡ false
    → (confirm_one (contains tx c) tx rest p).submitted_queue ++ leftover (erase tx c) done
      ≡ p.submitted_queue ++ leftover c (tx ∷ done)
resubmit tx rest c done p n =
    rw (submitted_queue-confirm_one tx rest c p, leftover-erase tx c done n)
      (append_assoc p.submitted_queue (leftover c (tx ∷ [])) (leftover c done)
        ∙ ap (◌++◌ p.submitted_queue) (leftover-cons c tx done))

covers_cons :
    (tx : Transaction) (c done rest : List Transaction)
    → (rest ≡ []) ⊎ ((t : Transaction) → contains t (erase tx c) ≡ true → contains t done ≡ true)
    → (rest ≡ []) ⊎ ((t : Transaction) → contains t c ≡ true → contains t (tx ∷ done) ≡ true)
unfolding contains
covers_cons tx c done rest (inl e) = inl e
covers_cons tx c done rest (inr h) =
    inr (λ t m. ground (arith, h t, contains-erase t tx c, tx_eq_comm t tx))

Shortest-nil : (c : List Transaction) → Shortest c []
Shortest-nil c [] later e n = absurd (n (sym e))
Shortest-nil c (x ∷ init) later e n = cc

Shortest-cons :
    (tx x : Transaction) (xs done : List Transaction)
    → Shortest (erase tx (x ∷ xs)) done
    → Shortest (x ∷ xs) (tx ∷ done)
Shortest-cons tx x xs done h [] later e n =
    (x, unfold contains in ground (arith, tx_eq_refl x), unfold contains in refl)
Shortest-cons tx x xs done h (i ∷ init) later e n =
    let (t, m, a) = h init later (ground arith) n in
    let k : i ≡ tx = ground arith in
    (
      t,
      ground (arith, contains-erase t tx (x ∷ xs)),
      unfold contains in rw k (ground (arith, contains-erase t tx (x ∷ xs), tx_eq_comm t tx)),
    )

confirm_loop-Settled :
    (q c : List Transaction) (p : TxPool)
    → p.unconfirmed_queue ≡ q
    → Distinct q
    → Settled q c p (confirm_loop q c p)
unfolding confirm_loop
confirm_loop-Settled [] c p e d = record {
  done = [];
  rest = [];
  splits = refl;
  covers = inl refl;
  shortest = Shortest-nil c;
  unconfirmed = e;
  submitted = sym (append-nil p.submitted_queue);
}
confirm_loop-Settled (tx ∷ q) [] p e d = record {
  done = [];
  rest = tx ∷ q;
  splits = refl;
  covers = inr (λ t h. unfold contains in cc);
  shortest = Shortest-nil [];
  unconfirmed = e;
  submitted = sym (append-nil p.submitted_queue);
}
confirm_loop-Settled (tx ∷ q) (x ∷ xs) p e d =
    let c = x ∷ xs in
    let p' = confirm_one (contains tx c) tx q p in
    let s =
      confirm_loop-Settled q (erase tx c) p' (unconfirmed_queue-confirm_one (contains tx c) tx q p)
        d.1 in
    record {
      done = tx ∷ s.done;
      rest = s.rest;
      splits = ap (◌∷◌ tx) s.splits;
      covers = covers_cons tx c s.done s.rest s.covers;
      shortest = Shortest-cons tx x xs s.done s.shortest;
      unconfirmed = s.unconfirmed;
      submitted =
          s.submitted
          ∙ resubmit tx q c s.done p (Distinct-front tx s.done s.rest (rw s.splits at d));
    }

covers_from_list :
    (c done rest : List Transaction)
    → (rest ≡ []) ⊎ ((t : Transaction) → contains t (from_list c) ≡ true → contains t done ≡ true)
    → (rest ≡ []) ⊎ ((t : Transaction) → contains t c ≡ true → contains t done ≡ true)
covers_from_list c done rest (inl e) = inl e
covers_from_list c done rest (inr h) = inr (λ t m. h t (contains-from_list t c ∙ m))

all_done :
    (t : Transaction) (c q done rest : List Transaction)
    → q ≡ done ++ rest
    → (rest ≡ []) ⊎ ((u : Transaction) → contains u c ≡ true → contains u done ≡ true)
    → contains t c ≡ true
    → contains t q ≡ false
    → (rest ≡ []) × (done ≡ q)
all_done t c q done rest e (inl r) m n = (r, sym (append-nil done) ∙ rw (← r) (sym e))
all_done t c q done rest e (inr h) m n =
    absurd (ground (arith, h t m, contains-append t done rest, ap (contains t) e))

-- While no two unconfirmed transactions share a sender and an id, a block takes off the unconfirmed
-- queue its shortest prefix that holds all transactions of the block, or the whole queue; what it
-- takes off and the block does not hold goes to the end of the submitted queue, in order.
pub confirm_transactions-Settled :
    (b : Block) (p : TxPool)
    → Distinct p.unconfirmed_queue
    → Settled p.unconfirmed_queue b.transactions p (confirm_transactions b p).0
unfolding confirm_transactions
confirm_transactions-Settled b p d =
    let s = confirm_loop-Settled p.unconfirmed_queue (from_list b.transactions) p refl d in
    record {
      done = s.done;
      rest = s.rest;
      splits = s.splits;
      covers = covers_from_list b.transactions s.done s.rest s.covers;
      shortest = λ init later e n.
          let (t, m, a) = s.shortest init later e n in
          (t, sym (contains-from_list t b.transactions) ∙ m, a);
      unconfirmed = s.unconfirmed;
      submitted =
          s.submitted
          ∙ ap (◌++◌ p.submitted_queue)
              (leftover_congr _ _ s.done (λ t. contains-from_list t b.transactions));
    }

-- While no two unconfirmed transactions share a sender and an id, a block with a transaction that is
-- not unconfirmed, such as a reward, empties the unconfirmed queue: all that the block does not
-- hold is submitted again.
pub confirm_transactions_drains :
    (b : Block) (p : TxPool) (t : Transaction)
    → Distinct p.unconfirmed_queue
    → contains t b.transactions ≡ true
    → contains t p.unconfirmed_queue ≡ false
    → ((confirm_transactions b p).0.unconfirmed_queue ≡ [])
      × ((confirm_transactions b p).0.submitted_queue
          ≡ p.submitted_queue ++ leftover b.transactions p.unconfirmed_queue)
confirm_transactions_drains b p t d m n =
    let s = confirm_transactions-Settled b p d in
    let e = all_done t b.transactions p.unconfirmed_queue s.done s.rest s.splits s.covers m n in
    (
      s.unconfirmed ∙ e.0,
      s.submitted ∙ ap (λ q. p.submitted_queue ++ leftover b.transactions q) e.1,
    )
