-- ===== src/TxPool/Set.antt =====
-- `TransactionSet` of src/tx_pool.hpp: an unordered set under `operator==` on transactions, as a
-- list that holds at most one transaction of each sender and id.
use memo_coin.Prelude.{
  ◌≡◌, refl, Bool, true, false, ◌||◌, List, [], ◌∷◌, ◌++◌, if◌then◌else◌, arith, ℕ, ap, take, drop,
  take-append-drop, All,
}
use memo_coin.Data.{Transaction, tx_eq, tx_eq_iff}

-- `find(t) != end()`.
unfoldable pub contains : Transaction → List Transaction → Bool
contains t [] = false
contains t (u ∷ s) = tx_eq t u || contains t s

-- An element that is there already stays as it is.
unfoldable pub insert : Transaction → List Transaction → List Transaction
insert t s = if contains t s then s else t ∷ s

unfoldable pub erase : Transaction → List Transaction → List Transaction
erase t [] = []
erase t (u ∷ s) = if tx_eq t u then erase t s else u ∷ erase t s

unfoldable pub insert_all : List Transaction → List Transaction → List Transaction
insert_all [] s = s
insert_all (t ∷ ts) s = insert_all ts (insert t s)

-- `TransactionSet(begin, end)`.
unfoldable pub from_list : List Transaction → List Transaction
unfolding insert_all
from_list ts = insert_all ts []

pub tx_eq_refl : (t : Transaction) → tx_eq t t ≡ true
tx_eq_refl t = (tx_eq_iff t t).1 (refl, refl)

pub tx_eq_comm : (t u : Transaction) → tx_eq t u ≡ tx_eq u t
tx_eq_comm t u = ground (arith, tx_eq_iff t u, tx_eq_iff u t)

-- Equal transactions compare alike with any third.
pub tx_eq_congr : (t u v : Transaction) → tx_eq t u ≡ true → tx_eq t v ≡ tx_eq u v
tx_eq_congr t u v h = ground (arith, tx_eq_iff t u, tx_eq_iff t v, tx_eq_iff u v)

pub contains_congr :
    (t u : Transaction) (s : List Transaction) → tx_eq t u ≡ true → contains t s ≡ contains u s
unfolding contains
contains_congr t u [] h = refl
contains_congr t u (v ∷ s) h = ground (arith, tx_eq_congr t u v h, contains_congr t u s h)

pub contains-append :
    (t : Transaction) (s r : List Transaction)
    → contains t (s ++ r) ≡ (contains t s || contains t r)
unfolding contains
contains-append t [] r = refl
contains-append t (u ∷ s) r = ground (arith, contains-append t s r)

pub contains-insert :
    (t u : Transaction) (s : List Transaction)
    → contains t (insert u s) ≡ (tx_eq t u || contains t s)
unfolding insert contains
contains-insert t u s = ground (arith, contains_congr t u s)

pub contains-erase :
    (t u : Transaction) (s : List Transaction)
    → contains t (erase u s) ≡ (if tx_eq t u then false else contains t s)
unfolding erase contains
contains-erase t u [] = ground arith
contains-erase t u (v ∷ s) =
    ground (arith, contains-erase t u s, tx_eq_iff t u, tx_eq_iff t v, tx_eq_iff u v)

pub contains-insert_all :
    (t : Transaction) (ts s : List Transaction)
    → contains t (insert_all ts s) ≡ (contains t ts || contains t s)
unfolding insert_all contains
contains-insert_all t [] s = refl
contains-insert_all t (u ∷ ts) s =
    ground (arith, contains-insert t u s, contains-insert_all t ts (insert u s))

pub contains-from_list :
    (t : Transaction) (ts : List Transaction) → contains t (from_list ts) ≡ contains t ts
unfolding from_list contains
contains-from_list t ts = ground (arith, contains-insert_all t ts [])

-- No two transactions of the list have the same sender and id.
abbrev pub Distinct : List Transaction → Type 0
Distinct [] = Unit
Distinct (t ∷ s) = (contains t s ≡ false) × Distinct s

pub Distinct-append_cons :
    (s : List Transaction) (t : Transaction) (r : List Transaction)
    → Distinct (s ++ t ∷ r)
    → (contains t (s ++ r) ≡ false) × Distinct (s ++ r)
unfolding contains
Distinct-append_cons [] t r d = d
Distinct-append_cons (u ∷ s) t r d = ground (
  arith,
  Distinct-append_cons s t r d.1,
  contains-append u s (t ∷ r),
  contains-append u s r,
  tx_eq_comm t u,
)

pub Distinct-cons_append :
    (s : List Transaction) (t : Transaction) (r : List Transaction)
    → contains t (s ++ r) ≡ false
    → Distinct (s ++ r)
    → Distinct (s ++ t ∷ r)
unfolding contains
Distinct-cons_append [] t r n d = (n, d)
Distinct-cons_append (u ∷ s) t r n d = ground (
  arith,
  Distinct-cons_append s t r,
  contains-append u s (t ∷ r),
  contains-append u s r,
  tx_eq_comm t u,
)

pub Distinct-drop : (q r : List Transaction) → Distinct (q ++ r) → Distinct r
Distinct-drop [] r d = d
Distinct-drop (t ∷ q) r d = Distinct-drop q r d.1

pub contains_parts :
    (t : Transaction) (n : ℕ) (q u : List Transaction)
    → contains t (q ++ u) ≡ false
    → (contains t u ≡ false) × (contains t (u ++ take n q) ≡ false)
contains_parts t n q u e =
    let s = ap (contains t) (take-append-drop n q) in
    ground (
      arith,
      s,
      contains-append t q u,
      contains-append t (take n q) (drop n q),
      contains-append t u (take n q),
    )

pub All-contains :
    (P : Transaction → Type 0) (ts : List Transaction)
    → ((t : Transaction) → contains t ts ≡ true → P t)
    → All P ts
unfolding contains
All-contains P [] h = tt
All-contains P (t ∷ ts) h =
    (h t (ground (arith, tx_eq_refl t)), All-contains P ts (λ u m. h u (ground arith)))
