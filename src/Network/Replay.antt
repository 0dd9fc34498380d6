-- ===== src/Network/Replay.antt =====
-- src/tx_pool.cpp and src/blockchain.cpp: a transaction that is posted twice.
use memo_coin.Prelude.{
  ◌+◌, ◌-◌, ◌%◌, ◌<◌, ◌≡◌, ◌∙◌, ap, refl, true, false, List, [], ◌∷◌, ◌++◌, append_assoc, length,
  take, bytes_eq_iff, u32_mod, arith,
}
use memo_coin.Data.{Transaction, block_size}
use memo_coin.Messages.{Payload}
use memo_coin.TxPool.{TxPool, good, add_transaction, pop_transactions}
use memo_coin.TxPool.Pop.{take_all, pop_transactions_lem}
use memo_coin.BlockChain.Ledger.{Ledger, value_of}
use memo_coin.BlockChain.Ledger.Balances.{
  IsTransfer, is_reward, settle, settle-value_of, received_by, sent_by,
}

abbrev pub posted_twice : Transaction → TxPool → TxPool
posted_twice t p = (add_transaction true t (add_transaction true t p).0).0

queued_twice :
    (t : Transaction) (p : TxPool)
    → (posted_twice t p).submitted_queue ≡ p.submitted_queue ++ t ∷ t ∷ []
unfolding add_transaction
queued_twice t p = append_assoc p.submitted_queue (t ∷ []) (t ∷ [])

length_twice : (t : Transaction) (q : List Transaction) → length (q ++ t ∷ t ∷ []) ≡ length q + 2
length_twice t [] = refl
length_twice t (u ∷ q) = omega (arith, length_twice t q)

-- What a transfer from one account to another sends and receives.
sent_twice :
    (t : Transaction)
    → is_reward t ≡ false
    → IsTransfer t
    → (sent_by t.src (t ∷ t ∷ []) ≡ t.amount + t.amount) × (received_by t.src (t ∷ t ∷ []) ≡ 0)
sent_twice t r v = ground (arith, r, v.apart, bytes_eq_iff t.src t.src, bytes_eq_iff t.dest t.src)

-- A payment from one account to another that is posted twice, with a valid signature and where the
-- batch has room, is handed out twice, and two of it in a block take the amount from its sender
-- twice, modulo 2 ^ 32 and whatever the sender has.
pub posted_twice-settle :
    (t : Transaction) (p : TxPool) (l : Ledger)
    → IsTransfer t
    → is_reward t ≡ false
    → length p.submitted_queue + 2 < block_size
    → ((pop_transactions (posted_twice t p)).1
        ≡ good (Payload.transactions (p.submitted_queue ++ t ∷ t ∷ [])))
      × ((value_of t.src (settle (t ∷ t ∷ []) l) + (t.amount + t.amount)) % u32_mod
          ≡ value_of t.src l % u32_mod)
posted_twice-settle t p l v r h =
    let q = p.submitted_queue ++ t ∷ t ∷ [] in
    let n = length_twice t p.submitted_queue in
    let k : take (block_size - 1) q ≡ q = take_all (block_size - 1) q (omega (arith, n, h)) in
    let (s, z) = sent_twice t r v in
    (
      (pop_transactions_lem (posted_twice t p)).0
          ∙ ap (λ x. good (Payload.transactions x))
              (ap (take (block_size - 1)) (queued_twice t p) ∙ k),
      omega (arith, settle-value_of t.src (t ∷ t ∷ []) l (v, (v, tt)), s, z),
    )
