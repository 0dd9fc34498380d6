-- ===== src/TxPool/Sync.antt =====
-- src/tx_pool.cpp: the sets against the queues, for posts of transactions that the pool does not
-- hold.
use memo_coin.Prelude.{
  ◌≡◌, ◌∙◌, ap, refl, sym, Bool, true, false, List, [], ◌∷◌, ◌++◌, append-nil, append_assoc, drop,
  take-append-drop, arith,
}
use memo_coin.Data.{Transaction, Block}
use memo_coin.TxPool.{
  TxPool, add_transaction, batch, move_one, move_all, pop_transactions, confirm_one, confirm_loop,
  confirm_transactions,
}
use memo_coin.TxPool.Set.{
  Distinct, contains, insert, erase, from_list, contains-append, contains-insert, contains-erase,
  contains_congr, tx_eq_comm, Distinct-append_cons, Distinct-cons_append,
}

pub record InSync (p : TxPool) : Type 0 where
  pub submitted : (t : Transaction) → contains t p.submitted_set ≡ contains t p.submitted_queue
  pub unconfirmed :
      (t : Transaction) → contains t p.unconfirmed_set ≡ contains t p.unconfirmed_queue
  pub distinct : Distinct (p.submitted_queue ++ p.unconfirmed_queue)

-- A transaction that the pool does not hold yet.
abbrev pub IsFresh : Transaction → TxPool → Type 0
IsFresh tx p = contains tx (p.submitted_queue ++ p.unconfirmed_queue) ≡ false

push_back :
    (tx : Transaction) (s q : List Transaction)
    → ((t : Transaction) → contains t s ≡ contains t q)
    → (t : Transaction) → contains t (insert tx s) ≡ contains t (q ++ tx ∷ [])
unfolding contains
push_back tx s q h t = ground (arith, h t, contains-insert t tx s, contains-append t q (tx ∷ []))

pub add_transaction-InSync :
    (valid : Bool) (tx : Transaction) (p : TxPool)
    → IsFresh tx p
    → InSync p
    → InSync (add_transaction valid tx p).0
unfolding add_transaction
add_transaction-InSync false tx p fresh v = v
add_transaction-InSync true tx p fresh v = record {
  submitted = push_back tx p.submitted_set p.submitted_queue v.submitted;
  unconfirmed = v.unconfirmed;
  distinct =
      rw (append_assoc p.submitted_queue (tx ∷ []) p.unconfirmed_queue)
        (Distinct-cons_append p.submitted_queue tx p.unconfirmed_queue fresh v.distinct);
}

module _ (tx : Transaction) (rest : List Transaction) where
  Distinct-rotate :
      (u : List Transaction) → Distinct (tx ∷ rest ++ u) → Distinct (rest ++ (u ++ tx ∷ []))
  Distinct-rotate u d = rw (← append_assoc rest u (tx ∷ [])) (
      Distinct-cons_append (rest ++ u) tx [] (rw (append-nil (rest ++ u)) d.0)
        (rw (append-nil (rest ++ u)) d.1))

  -- Taking the front of a queue of distinct transactions from queue and set.
  erase_front :
      (s : List Transaction)
      → ((t : Transaction) → contains t s ≡ contains t (tx ∷ rest))
      → contains tx rest ≡ false
      → (t : Transaction) → contains t (erase tx s) ≡ contains t rest
  unfolding contains
  erase_front s h n t =
      ground (arith, h t, contains-erase t tx s, contains_congr tx t rest, tx_eq_comm t tx)

not_behind :
    (tx : Transaction) (rest u : List Transaction)
    → Distinct ((tx ∷ rest) ++ u)
    → contains tx rest ≡ false
not_behind tx rest u d = ground (arith, contains-append tx rest u, d.0)

module _ (tx : Transaction) (rest : List Transaction) (p : TxPool) where
  move_one-InSync : p.submitted_queue ≡ tx ∷ rest → InSync p → InSync (move_one tx p)
  unfolding move_one
  move_one-InSync e v =
      let d = rw e at v.distinct in
      record {
        submitted = rw e (
            erase_front tx rest p.submitted_set (λ t. v.submitted t ∙ ap (contains t) e)
              (not_behind tx rest p.unconfirmed_queue d));
        unconfirmed = push_back tx p.unconfirmed_set p.unconfirmed_queue v.unconfirmed;
        distinct = rw e (Distinct-rotate tx rest p.unconfirmed_queue d);
      }

move_all-InSync :
    (txs rest : List Transaction) (p : TxPool)
    → p.submitted_queue ≡ txs ++ rest
    → InSync p
    → InSync (move_all txs p)
unfolding move_all
move_all-InSync [] rest p e v = v
move_all-InSync (tx ∷ txs) rest p e v =
    move_all-InSync txs rest (move_one tx p) (unfold move_one in rw e)
      (move_one-InSync tx (txs ++ rest) p e v)

pub batch_prefix : (q : List Transaction) → (rest : List Transaction) × (q ≡ batch q ++ rest)
unfolding batch
batch_prefix q = (drop _ q, sym (take-append-drop _ q))

pub pop_transactions-InSync : (p : TxPool) → InSync p → InSync (pop_transactions p).0
unfolding pop_transactions
pop_transactions-InSync p v =
    let (rest, e) = batch_prefix p.submitted_queue in
    move_all-InSync (batch p.submitted_queue) rest p e v

module _ (tx : Transaction) (rest : List Transaction) (p : TxPool) where
  confirm_one-InSync :
      (found : Bool)
      → p.unconfirmed_queue ≡ tx ∷ rest
      → InSync p
      → InSync (confirm_one found tx rest p)
  unfolding confirm_one
  confirm_one-InSync found e v = go found
    where
      d : (contains tx (p.submitted_queue ++ rest) ≡ false) × Distinct (p.submitted_queue ++ rest)
      d = Distinct-append_cons p.submitted_queue tx rest (rw e at v.distinct)

      erased : (t : Transaction) → contains t (erase tx p.unconfirmed_set) ≡ contains t rest
      erased =
          erase_front tx rest p.unconfirmed_set (λ t. v.unconfirmed t ∙ ap (contains t) e)
            (ground (arith, d.0, contains-append tx p.submitted_queue rest))

      go : (found : Bool) → InSync (confirm_one found tx rest p)
      go true = record { submitted = v.submitted; unconfirmed = erased; distinct = d.1 }
      go false = record {
        submitted = push_back tx p.submitted_set p.submitted_queue v.submitted;
        unconfirmed = erased;
        distinct =
            rw (append_assoc p.submitted_queue (tx ∷ []) rest)
              (Distinct-cons_append p.submitted_queue tx rest d.0 d.1);
      }

pub unconfirmed_queue-confirm_one :
    (found : Bool) (tx : Transaction) (rest : List Transaction) (p : TxPool)
    → (confirm_one found tx rest p).unconfirmed_queue ≡ rest
unfolding confirm_one
unconfirmed_queue-confirm_one false tx rest p = refl
unconfirmed_queue-confirm_one true tx rest p = refl

confirm_loop-InSync :
    (q c : List Transaction) (p : TxPool)
    → p.unconfirmed_queue ≡ q
    → InSync p
    → InSync (confirm_loop q c p)
unfolding confirm_loop
confirm_loop-InSync [] c p e v = v
confirm_loop-InSync (tx ∷ rest) [] p e v = v
confirm_loop-InSync (tx ∷ rest) (x ∷ xs) p e v =
    let found = contains tx (x ∷ xs) in
    confirm_loop-InSync rest (erase tx (x ∷ xs)) (confirm_one found tx rest p)
      (unconfirmed_queue-confirm_one found tx rest p) (confirm_one-InSync tx rest p found e v)

pub confirm_transactions-InSync :
    (b : Block) (p : TxPool) → InSync p → InSync (confirm_transactions b p).0
unfolding confirm_transactions
confirm_transactions-InSync b p v =
    confirm_loop-InSync p.unconfirmed_queue (from_list b.transactions) p refl v
