-- ===== src/TxPool/Ghosts.antt =====
-- src/tx_pool.cpp: the sets against the queues, with no condition on what is posted.
use memo_coin.Prelude.{◌≡◌, ap, refl, Bool, true, false, List, [], ◌∷◌, ◌++◌, arith}
use memo_coin.Data.{Transaction, Block}
use memo_coin.TxPool.{
  TxPool, add_transaction, batch, move_one, move_all, pop_transactions, confirm_one, confirm_loop,
  confirm_transactions,
}
use memo_coin.TxPool.Set.{
  contains, insert, erase, from_list, contains-append, contains-insert, contains-erase, tx_eq_comm,
}
use memo_coin.TxPool.Sync.{batch_prefix, unconfirmed_queue-confirm_one}

abbrev pub Within : List Transaction → List Transaction → Type 0
Within s q = (t : Transaction) → contains t s ≡ true → contains t q ≡ true

pub record NoGhosts (p : TxPool) : Type 0 where
  pub submitted : Within p.submitted_set p.submitted_queue
  pub unconfirmed : Within p.unconfirmed_set p.unconfirmed_queue

push_back :
    (tx : Transaction) (s q : List Transaction) → Within s q → Within (insert tx s) (q ++ tx ∷ [])
unfolding contains
push_back tx s q h t = ground (arith, h t, contains-insert t tx s, contains-append t q (tx ∷ []))

erase_front :
    (tx : Transaction) (s q rest : List Transaction)
    → q ≡ tx ∷ rest
    → Within s q
    → Within (erase tx s) rest
unfolding contains
erase_front tx s q rest e h t =
    ground (arith, h t, contains-erase t tx s, tx_eq_comm t tx, ap (contains t) e)

pub add_transaction-NoGhosts :
    (valid : Bool) (tx : Transaction) (p : TxPool)
    → NoGhosts p
    → NoGhosts (add_transaction valid tx p).0
unfolding add_transaction
add_transaction-NoGhosts false tx p v = v
add_transaction-NoGhosts true tx p v = record {
  submitted = push_back tx p.submitted_set p.submitted_queue v.submitted;
  unconfirmed = v.unconfirmed;
}

move_all-NoGhosts :
    (txs rest : List Transaction) (p : TxPool)
    → p.submitted_queue ≡ txs ++ rest
    → NoGhosts p
    → NoGhosts (move_all txs p)
unfolding move_all
move_all-NoGhosts [] rest p e v = v
move_all-NoGhosts (tx ∷ txs) rest p e v =
    move_all-NoGhosts txs rest (move_one tx p) (unfold move_one in rw e) (
      unfold move_one in
      record {
        submitted =
            rw e (erase_front tx p.submitted_set p.submitted_queue (txs ++ rest) e v.submitted);
        unconfirmed = push_back tx p.unconfirmed_set p.unconfirmed_queue v.unconfirmed;
      })

pub pop_transactions-NoGhosts : (p : TxPool) → NoGhosts p → NoGhosts (pop_transactions p).0
unfolding pop_transactions
pop_transactions-NoGhosts p v =
    let (rest, e) = batch_prefix p.submitted_queue in
    move_all-NoGhosts (batch p.submitted_queue) rest p e v

confirm_one-NoGhosts :
    (found : Bool) (tx : Transaction) (rest : List Transaction) (p : TxPool)
    → p.unconfirmed_queue ≡ tx ∷ rest
    → NoGhosts p
    → NoGhosts (confirm_one found tx rest p)
unfolding confirm_one
confirm_one-NoGhosts true tx rest p e v = record {
  submitted = v.submitted;
  unconfirmed = erase_front tx p.unconfirmed_set p.unconfirmed_queue rest e v.unconfirmed;
}
confirm_one-NoGhosts false tx rest p e v = record {
  submitted = push_back tx p.submitted_set p.submitted_queue v.submitted;
  unconfirmed = erase_front tx p.unconfirmed_set p.unconfirmed_queue rest e v.unconfirmed;
}

confirm_loop-NoGhosts :
    (q c : List Transaction) (p : TxPool)
    → p.unconfirmed_queue ≡ q
    → NoGhosts p
    → NoGhosts (confirm_loop q c p)
unfolding confirm_loop
confirm_loop-NoGhosts [] c p e v = v
confirm_loop-NoGhosts (tx ∷ rest) [] p e v = v
confirm_loop-NoGhosts (tx ∷ rest) (x ∷ xs) p e v =
    let found = contains tx (x ∷ xs) in
    confirm_loop-NoGhosts rest (erase tx (x ∷ xs)) (confirm_one found tx rest p)
      (unconfirmed_queue-confirm_one found tx rest p) (confirm_one-NoGhosts found tx rest p e v)

pub confirm_transactions-NoGhosts :
    (b : Block) (p : TxPool) → NoGhosts p → NoGhosts (confirm_transactions b p).0
unfolding confirm_transactions
confirm_transactions-NoGhosts b p v =
    confirm_loop-NoGhosts p.unconfirmed_queue (from_list b.transactions) p refl v
