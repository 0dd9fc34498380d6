-- ===== src/Network/Payments.antt =====
-- The transactions of blocks without the rewards, and what a confirmation leaves of them in the pool.
use memo_coin.Prelude.{
  ◌≡◌, ◌∙◌, ap, refl, sym, ◌⊎◌, inl, inr, true, false, Bool-cases, List, [], ◌∷◌, ◌++◌, append-nil,
  append_assoc, if◌then◌else◌, take, drop, take-append-drop, ℕ, All, arith,
}
use memo_coin.Data.{Transaction, Block}
use memo_coin.TxPool.{TxPool, confirm_transactions}
use memo_coin.TxPool.Set.{
  Distinct, contains, contains-append, contains_congr, Distinct-drop, tx_eq_refl,
}
use memo_coin.TxPool.Sync.{InSync}
use memo_coin.TxPool.Ghosts.{Within}
use memo_coin.TxPool.Kept.{held}
use memo_coin.TxPool.Confirm.{leftover, confirm_transactions-Settled}
use memo_coin.BlockChain.Ledger.Balances.{is_reward}
use memo_coin.Validator.Rounds.{Distinct-apart}

abbrev pub IsPaid : Transaction → Type 0
IsPaid t = is_reward t ≡ false

abbrev pub payments : List Transaction → List Transaction
payments [] = []
payments (t ∷ ts) = if is_reward t then payments ts else t ∷ payments ts

-- The payments of the blocks, oldest first.
abbrev pub paid : List Block → List Transaction
paid [] = []
paid (x ∷ xs) = payments x.transactions ++ paid xs

pub payments-append : (ts us : List Transaction) → payments (ts ++ us) ≡ payments ts ++ payments us
payments-append [] us = refl
payments-append (t ∷ ts) us = ground (arith, payments-append ts us)

pub payments_all : (ts : List Transaction) → All IsPaid ts → payments ts ≡ ts
payments_all [] v = refl
payments_all (t ∷ ts) v = rw (v.0, payments_all ts v.1) refl

pub paid-snoc :
    (xs : List Block) (x : Block) → paid (xs ++ x ∷ []) ≡ paid xs ++ payments x.transactions
paid-snoc [] x = append-nil (payments x.transactions)
paid-snoc (y ∷ xs) x =
    ap (◌++◌ (payments y.transactions)) (paid-snoc xs x)
    ∙ sym (append_assoc (payments y.transactions) (paid xs) (payments x.transactions))

payments-Within : (ts : List Transaction) → Within (payments ts) ts
unfolding contains
payments-Within [] t h = h
payments-Within (u ∷ ts) t h = ground (arith, payments-Within ts t)

leftover-Within : (c ts : List Transaction) → Within (leftover c ts) ts
unfolding contains
leftover-Within c [] t h = h
leftover-Within c (u ∷ ts) t h = ground (arith, leftover-Within c ts t)

leftover_avoids :
    (c ts : List Transaction) (t : Transaction)
    → contains t (leftover c ts) ≡ true
    → contains t c ≡ false
unfolding contains
leftover_avoids c [] t h = absurd cc
leftover_avoids c (u ∷ ts) t h = ground (arith, leftover_avoids c ts t, contains_congr t u c)

pub Distinct-append :
    (ts us : List Transaction)
    → Distinct ts
    → Distinct us
    → ((t : Transaction) → contains t us ≡ true → contains t ts ≡ false)
    → Distinct (ts ++ us)
unfolding contains
Distinct-append [] us d e h = e
Distinct-append (t ∷ ts) us d e h = (
  ground (arith, d.0, contains-append t ts us, h t, tx_eq_refl t),
  Distinct-append ts us d.1 e (λ u m. ground (arith, h u m)),
)

pub Distinct-front : (ts us : List Transaction) → Distinct (ts ++ us) → Distinct ts
unfolding contains
Distinct-front [] us d = tt
Distinct-front (t ∷ ts) us d =
    (ground (arith, d.0, contains-append t ts us), Distinct-front ts us d.1)

pub contains-take :
    (t : Transaction) (n : ℕ) (ts : List Transaction)
    → contains t (take n ts) ≡ true
    → contains t ts ≡ true
contains-take t n ts h =
    ground
      (arith, ap (contains t) (take-append-drop n ts), contains-append t (take n ts) (drop n ts))

-- `c` is the block, `s` the submitted queue, and `done` and `rest` the parts of the unconfirmed one.
left :
    (t : Transaction) (c s done rest : List Transaction)
    → Distinct (s ++ (done ++ rest))
    → Distinct (done ++ rest)
    → (rest ≡ []) ⊎ ((u : Transaction) → contains u c ≡ true → contains u done ≡ true)
    → contains t ((s ++ leftover c done) ++ rest) ≡ true
    → (contains t (s ++ (done ++ rest)) ≡ true)
      × (contains t c ≡ true → contains t (done ++ rest) ≡ true → ⊥)
unfolding contains
left t c s done rest d e v m =
    let a = contains-append t (s ++ leftover c done) rest in
    let a1 = contains-append t s (leftover c done) in
    let a2 = contains-append t s (done ++ rest) in
    let a3 = contains-append t done rest in
    (
      ground (arith, leftover-Within c done t),
      λ h k. elim v [
        | inl r ↦ ground (
          arith,
          ap (contains t) r,
          leftover_avoids c done t,
          Distinct-apart t s (done ++ rest) d,
        )
        | inr o ↦ ground (
          arith,
          o t,
          leftover_avoids c done t,
          Distinct-apart t s (done ++ rest) d,
          Distinct-apart t done rest e,
        )
      ],
    )

-- What the confirmation of a block leaves, where all payments of the block were unconfirmed.
pub confirmed_leaves :
    (x : Block) (p : TxPool) (t : Transaction)
    → InSync p
    → Within (payments x.transactions) p.unconfirmed_queue
    → contains t (held (confirm_transactions x p).0) ≡ true
    → (contains t (payments x.transactions) ≡ false) × (contains t (held p) ≡ true)
confirmed_leaves x p t v h m =
    let d = Distinct-drop p.submitted_queue p.unconfirmed_queue v.distinct in
    let s = confirm_transactions-Settled x p d in
    let (k, n) =
      left t x.transactions p.submitted_queue s.done s.rest (rw (← s.splits) v.distinct)
        (rw (← s.splits) d) s.covers (rw (← s.unconfirmed, ← s.submitted) m) in
    (
      elim (Bool-cases (contains t (payments x.transactions))) [
        | inr e ↦ e
        | inl e ↦ absurd (n (payments-Within x.transactions t e) (rw (← s.splits) (h t e)))
      ],
      rw s.splits k,
    )
