-- ===== src/BlockChain/Ledger/Totals.antt =====
-- src/blockchain.cpp: the sum of all balances under `sync_bal`.
use memo_coin.Prelude.{
  ℕ, ◌+◌, ◌-◌, ◌%◌, ◌<◌, ◌≡◌, ◌∙◌, ap, false, Option, none, some, List, [], ◌∷◌, Bytes,
  bytes_eq_iff, if◌then◌else◌, add32, sub32, u32_mod, All, Bool-cases, Option-cases, inl, inr,
  arith,
}
use memo_coin.Data.{Transaction}
use memo_coin.BlockChain.Ledger.{
  Ledger, find, assign, emplace, value_of, credit, debit, apply_tx, total,
}
use memo_coin.BlockChain.Ledger.Entries.{find_src-credit, emplace_found, find-emplace}
use memo_coin.BlockChain.Ledger.Balances.{IsTransfer, is_reward, settle}

-- What the rewards of the list amount to.
abbrev pub minted : List Transaction → ℕ
minted [] = 0
minted (t ∷ ts) = (if is_reward t then t.amount else 0) + minted ts

total-assign :
    (k : Bytes) (v w : ℕ) (l : Ledger) → find k l ≡ some w → total (assign k v l) + w ≡ total l + v
unfolding find assign total
total-assign k v w [] e = absurd (cc)
total-assign k v w ((j, u) ∷ l) e = ground (arith, total-assign k v w l)

total-emplace :
    (k : Bytes) (v : ℕ) (l : Ledger) → find k l ≡ none → total (emplace k v l) ≡ total l + v
unfolding emplace total
total-emplace k v l e = rw (e, emplace) (omega arith)

total-credit :
    (t : Transaction) (l : Ledger) → total (credit t l) % u32_mod ≡ (total l + t.amount) % u32_mod
unfolding credit add32
total-credit t l = elim (Option-cases (find t.dest l)) [
  | inl e ↦ rw (e, credit) (omega (arith, total-emplace t.dest t.amount l e))
  | inr (v, e) ↦
      rw (e, credit) (omega (arith, total-assign t.dest ((v + t.amount) % u32_mod) v l e))
]

total-debit :
    (t : Transaction) (found : Option ℕ) (l : Ledger)
    → t.amount < u32_mod
    → find t.src l ≡ found
    → (total (debit found t l) + t.amount) % u32_mod ≡ total l % u32_mod
unfolding debit sub32 value_of
total-debit t none l h e =
    omega (arith, total-emplace t.src ((0 + u32_mod - t.amount) % u32_mod) l e)
total-debit t (some v) l h e =
    rw (e, value_of) (omega (arith, total-assign t.src ((v + u32_mod - t.amount) % u32_mod) v l e))

total-apply_tx :
    (t : Transaction) (l : Ledger)
    → IsTransfer t
    → total (apply_tx (is_reward t) t l) % u32_mod ≡ (total l + minted (t ∷ [])) % u32_mod
unfolding apply_tx
total-apply_tx t l v = elim (Bool-cases (is_reward t)) [
  | inl e ↦ rw e (omega (arith, total-credit t l))
  | inr e ↦ rw e (
      omega (
        arith,
        total-credit t l,
        total-debit t (find t.src l) (credit t l) v.small (find_src-credit t l v.small v.apart),
      ))
]

-- On transfers between different accounts the sum of all balances grows by the rewards and by
-- nothing else, modulo 2 ^ 32.
pub settle-total :
    (ts : List Transaction) (l : Ledger)
    → All IsTransfer ts
    → total (settle ts l) % u32_mod ≡ (total l + minted ts) % u32_mod
unfolding settle
settle-total [] l v = ground arith
settle-total (t ∷ ts) l v =
    omega (arith, settle-total ts (apply_tx (is_reward t) t l) v.1, total-apply_tx t l v.0)

module _ (t : Transaction) (l : Ledger) (own : t.src ≡ t.dest) (absent : find t.src l ≡ none) where
  dest_absent : find t.dest l ≡ none
  dest_absent = rw (← own) absent

  credit-emplace : credit t l ≡ emplace t.dest t.amount l
  unfolding credit
  credit-emplace = rw (dest_absent, credit)

  debit_lost : debit none t (credit t l) ≡ credit t l
  unfolding debit
  debit_lost = emplace_found t.src (sub32 0 t.amount) t.amount (credit t l) (
      rw credit-emplace (
        find-emplace t.src t.dest t.amount l dest_absent
        ∙ ground (arith, own, bytes_eq_iff t.dest t.src)))

-- A payment from an account to itself, where the ledger has no such account, creates its amount:
-- the credit enters the account, and the debit, whose `emplace` finds it, is lost.
pub self_transfer_mints :
    (t : Transaction) (l : Ledger)
    → t.src ≡ t.dest
    → is_reward t ≡ false
    → find t.src l ≡ none
    → total (apply_tx (is_reward t) t l) ≡ total l + t.amount
unfolding apply_tx
self_transfer_mints t l own r absent =
    rw (r, absent)
      (ap total (debit_lost t l own absent ∙ credit-emplace t l own absent)
        ∙ total-emplace t.dest t.amount l (dest_absent t l own absent))
