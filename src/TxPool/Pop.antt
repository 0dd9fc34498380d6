-- ===== src/TxPool/Pop.antt =====
-- src/tx_pool.cpp: what `pop_transactions` hands out, and what it leaves.
use memo_coin.Prelude.{
  ℕ, zero, suc, ◌-◌, ◌≤◌, ◌≡◌, ◌∙◌, refl, sym, List, [], ◌∷◌, ◌++◌, append-nil, append_assoc,
  length, take, drop, take-append-drop, Bool-cases, leb, inl, inr, arith,
}
use memo_coin.Data.{Transaction, block_size}
use memo_coin.Messages.{Payload}
use memo_coin.TxPool.{TxPool, good, batch, move_one, move_all, pop_transactions}

pub take_all {ℓ} : {A : Type ℓ} (n : ℕ) (xs : List A) → length xs ≤ n → take n xs ≡ xs
take_all zero [] h = refl
take_all zero (x ∷ xs) h = absurd (omega arith)
take_all (suc n) [] h = refl
take_all (suc n) (x ∷ xs) h = rw (take_all n xs (omega arith))

batch-take : (q : List Transaction) → batch q ≡ take (block_size - 1) q
unfolding batch
batch-take q = elim (Bool-cases (leb (block_size - 1) (length q))) [
  | inl e ↦ rw e
  | inr e ↦ rw e (take_all (length q) q (omega arith) ∙ sym (take_all 8190 q (ground arith)))
]

move_all_queues :
    (txs rest : List Transaction) (p : TxPool)
    → p.submitted_queue ≡ txs ++ rest
    → ((move_all txs p).submitted_queue ≡ rest)
      × ((move_all txs p).unconfirmed_queue ≡ p.unconfirmed_queue ++ txs)
unfolding move_all
move_all_queues [] rest p e = (e, sym (append-nil p.unconfirmed_queue))
move_all_queues (tx ∷ txs) rest p e =
    let ih = move_all_queues txs rest (move_one tx p) (unfold move_one in rw e) in
    (ih.0, ih.1 ∙ (unfold move_one in append_assoc p.unconfirmed_queue (tx ∷ []) txs))

-- The oldest `block_size - 1` submitted transactions, or all if there are fewer, are handed out
-- in order and move to the end of the unconfirmed queue; the others stay.
pub pop_transactions_lem :
    (p : TxPool)
    → ((pop_transactions p).1
        ≡ good (Payload.transactions (take (block_size - 1) p.submitted_queue)))
      × ((pop_transactions p).0.submitted_queue ≡ drop (block_size - 1) p.submitted_queue)
      × ((pop_transactions p).0.unconfirmed_queue
          ≡ p.unconfirmed_queue ++ take (block_size - 1) p.submitted_queue)
unfolding pop_transactions
pop_transactions_lem p =
    let q = p.submitted_queue in
    let b : batch q ≡ take (block_size - 1) q = batch-take q in
    let m =
      move_all_queues (take (block_size - 1) q) (drop (block_size - 1) q) p
        (sym (take-append-drop (block_size - 1) q)) in
    rw b (refl, m.0, m.1)
