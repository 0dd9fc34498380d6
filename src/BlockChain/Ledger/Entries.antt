-- ===== src/BlockChain/Ledger/Entries.antt =====
-- src/blockchain.cpp: the entries of the ledger after each write, and the balances that one
-- transaction leaves.
use memo_coin.Prelude.{
  ℕ, ◌<◌, ◌≡◌, ◌≢◌, ◌∙◌, ap, refl, true, false, none, some, [], ◌∷◌, Bytes, bytes_eq, bytes_eq_iff,
  if◌then◌else◌, add32, sub32, u32_mod, Option-cases, inl, inr, arith,
}
use memo_coin.Data.{Transaction}
use memo_coin.BlockChain.Ledger.{Ledger, find, assign, emplace, value_of, credit, debit}

pub bytes_eq_refl : (k : Bytes) → bytes_eq k k ≡ true
bytes_eq_refl k = (bytes_eq_iff k k).1 refl

pub find-assign :
    (k j : Bytes) (v : ℕ) (l : Ledger)
    → find k (assign j v l) ≡ (if bytes_eq j k then some v else find k l)
unfolding find assign
find-assign k j v [] = refl
find-assign k j v ((i, w) ∷ l) =
    ground (arith, bytes_eq_iff i j, bytes_eq_iff i k, bytes_eq_iff j k, find-assign k j v l)

pub find-emplace :
    (k j : Bytes) (v : ℕ) (l : Ledger)
    → find j l ≡ none
    → find k (emplace j v l) ≡ (if bytes_eq j k then some v else find k l)
unfolding find emplace
find-emplace k j v l e = rw (e, emplace)

pub emplace_found : (j : Bytes) (v w : ℕ) (l : Ledger) → find j l ≡ some w → emplace j v l ≡ l
unfolding emplace
emplace_found j v w l e = rw (e, emplace)

pub find-credit :
    (k : Bytes) (t : Transaction) (l : Ledger)
    → t.amount < u32_mod
    → find k (credit t l)
      ≡ (if bytes_eq t.dest k then some (add32 (value_of t.dest l) t.amount) else find k l)
unfolding credit value_of add32
find-credit k t l h = elim (Option-cases (find t.dest l)) [
  | inl e ↦ rw (e, credit) (find-emplace k t.dest t.amount l e ∙ ground arith)
  | inr (v, e) ↦ rw (e, credit) (find-assign k t.dest _ l)
]

pub value_of-credit :
    (k : Bytes) (t : Transaction) (l : Ledger)
    → t.amount < u32_mod
    → value_of k (credit t l)
      ≡ (if bytes_eq t.dest k then add32 (value_of k l) t.amount else value_of k l)
unfolding value_of
value_of-credit k t l h =
    ground (arith, find-credit k t l h, bytes_eq_iff t.dest k, ap (λ j. find j l))

module _ (t : Transaction) (l : Ledger) where
  dest_ne : t.src ≢ t.dest → bytes_eq t.dest t.src ≡ false
  dest_ne n = ground (arith, bytes_eq_iff t.dest t.src, n)

  pub find_src-credit : t.amount < u32_mod → t.src ≢ t.dest → find t.src (credit t l) ≡ find t.src l
  find_src-credit h n = rw (find-credit t.src t l h, dest_ne n)

  pub find-debit :
      (k : Bytes)
      → t.amount < u32_mod
      → t.src ≢ t.dest
      → find k (debit (find t.src l) t (credit t l)) ≡ (
          if bytes_eq t.src k
          then some (sub32 (value_of t.src l) t.amount)
          else find k (credit t l))
  unfolding debit value_of
  find-debit k h n = elim (Option-cases (find t.src l)) [
    | inl e ↦
        rw (e, debit)
          (find-emplace k t.src (sub32 0 t.amount) (credit t l) (find_src-credit h n ∙ e))
    | inr (v, e) ↦ ground (
      arith,
      find-assign k t.src (sub32 (value_of t.src (credit t l)) t.amount) (credit t l),
      find_src-credit h n,
    )
  ]
