-- ===== src/Consensus/Lex.antt =====
-- `operator<` of `std::array<uint8_t, n>`: the lexicographic order of the bytes, and `std::sort`
-- by it.
use memo_coin.Prelude.{
  ℕ, zero, suc, ◌≤◌, ◌≡◌, inl, inr, refl, Bool, true, false, ltb, if◌then◌else◌, Bool-cases, List,
  [], ◌∷◌, Bytes, get_elem?, take, some, arith,
}
use mathlib.Core.List.{Perm}
use mathlib.Core.List.Perm

unfoldable pub lex_lt : Bytes → Bytes → Bool
lex_lt xs [] = false
lex_lt [] (y ∷ ys) = true
lex_lt (x ∷ xs) (y ∷ ys) = if ltb x y then true else if ltb y x then false else lex_lt xs ys

-- Not above.
abbrev pub Le : Bytes → Bytes → Type 0
Le xs ys = lex_lt ys xs ≡ false

pub lex_lt_trans : (xs ys zs : Bytes) → Le xs ys → lex_lt ys zs ≡ true → lex_lt xs zs ≡ true
unfolding lex_lt
lex_lt_trans [] [] (z ∷ zs) h k = refl
lex_lt_trans xs ys [] h k = cc
lex_lt_trans [] (y ∷ ys) (z ∷ zs) h k = refl
lex_lt_trans (x ∷ xs) [] (z ∷ zs) h k = cc
lex_lt_trans (x ∷ xs) (y ∷ ys) (z ∷ zs) h k = ground (arith, lex_lt_trans xs ys zs)

pub lex_lt_irrefl : (xs : Bytes) → lex_lt xs xs ≡ false
unfolding lex_lt
lex_lt_irrefl [] = refl
lex_lt_irrefl (x ∷ xs) = ground (arith, lex_lt_irrefl xs)

pub Le_trans : (xs ys zs : Bytes) → Le xs ys → Le ys zs → Le xs zs
unfolding lex_lt
Le_trans [] ys zs h k = refl
Le_trans (x ∷ xs) [] zs h k = cc
Le_trans (x ∷ xs) (y ∷ ys) [] h k = cc
Le_trans (x ∷ xs) (y ∷ ys) (z ∷ zs) h k = ground (arith, Le_trans xs ys zs)

pub Le_of_lt : (xs ys : Bytes) → lex_lt xs ys ≡ true → Le xs ys
unfolding lex_lt
Le_of_lt [] [] h = refl
Le_of_lt [] (y ∷ ys) h = refl
Le_of_lt (x ∷ xs) [] h = cc
Le_of_lt (x ∷ xs) (y ∷ ys) h = ground (arith, Le_of_lt xs ys)

-- The order of two arrays is that of their beginnings, unless these are equal.
pub take-Le : (k : ℕ) (xs ys : Bytes) → Le xs ys → Le (take k xs) (take k ys)
unfolding lex_lt
take-Le zero xs ys h = refl
take-Le (suc k) [] ys h = refl
take-Le (suc k) (x ∷ xs) [] h = cc
take-Le (suc k) (x ∷ xs) (y ∷ ys) h = ground (arith, take-Le k xs ys)

pub Le_antisymm : (xs ys : Bytes) → Le xs ys → Le ys xs → xs ≡ ys
unfolding lex_lt
Le_antisymm [] [] h k = refl
Le_antisymm [] (y ∷ ys) h k = cc
Le_antisymm (x ∷ xs) [] h k = cc
Le_antisymm (x ∷ xs) (y ∷ ys) h k = ground (arith, Le_antisymm xs ys)

unfoldable pub place : Bytes → List Bytes → List Bytes
place x [] = x ∷ []
place x (y ∷ ys) = if lex_lt y x then y ∷ place x ys else x ∷ y ∷ ys

-- `std::sort`, up to the order of equal elements, which are indistinguishable.
unfoldable pub sort : List Bytes → List Bytes
sort [] = []
sort (x ∷ xs) = place x (sort xs)

-- Each element is not above those behind it.
abbrev pub Bounds : Bytes → List Bytes → Type 0
Bounds x [] = Unit
Bounds x (y ∷ ys) = Le x y × Bounds x ys

abbrev pub IsSorted : List Bytes → Type 0
IsSorted [] = Unit
IsSorted (x ∷ xs) = Bounds x xs × IsSorted xs

Bounds-le : (x y : Bytes) (ys : List Bytes) → Le x y → Bounds y ys → Bounds x ys
Bounds-le x y [] h b = tt
Bounds-le x y (z ∷ zs) h b = (Le_trans x y z h b.0, Bounds-le x y zs h b.1)

Bounds-place : (y x : Bytes) (ys : List Bytes) → Le y x → Bounds y ys → Bounds y (place x ys)
unfolding place
Bounds-place y x [] h b = (h, tt)
Bounds-place y x (z ∷ zs) h b = ground (arith, Bounds-place y x zs h b.1)

place-IsSorted : (x : Bytes) (ys : List Bytes) → IsSorted ys → IsSorted (place x ys)
unfolding place
place-IsSorted x [] s = (tt, tt)
place-IsSorted x (y ∷ ys) s = elim (Bool-cases (lex_lt y x)) [
  | inl e ↦ rw e (Bounds-place y x ys (Le_of_lt y x e) s.0, place-IsSorted x ys s.1)
  | inr e ↦ rw e ((e, Bounds-le x y ys e s.0), s)
]

pub sort-IsSorted : (xs : List Bytes) → IsSorted (sort xs)
unfolding sort
sort-IsSorted [] = tt
sort-IsSorted (x ∷ xs) = place-IsSorted x (sort xs) (sort-IsSorted xs)

place-perm : (x : Bytes) (ys : List Bytes) → Perm (place x ys) (x ∷ ys)
unfolding place
place-perm x [] = Perm.refl (x ∷ [])
place-perm x (y ∷ ys) = elim (Bool-cases (lex_lt y x)) [
  | inl e ↦ rw e (Perm.trans (Perm.cons y (place-perm x ys)) (Perm.swap x y ys))
  | inr e ↦ rw e (Perm.refl (x ∷ y ∷ ys))
]

pub sort-perm : (xs : List Bytes) → Perm (sort xs) xs
unfolding sort
sort-perm [] = Perm.nil
sort-perm (x ∷ xs) = Perm.trans (place-perm x (sort xs)) (Perm.cons x (sort-perm xs))

of_some : (x y : Bytes) → some x ≡ some y → x ≡ y
of_some x y e = cc

Bounds-get :
    (x : Bytes) {y : Bytes} (ys : List Bytes) (j : ℕ)
    → Bounds x ys
    → get_elem? ys j ≡ some y
    → Le x y
Bounds-get x [] j b e = cc
Bounds-get x {y} (z ∷ zs) zero b e = rw (of_some z y e) at b.0
Bounds-get x (z ∷ zs) (suc j) b e = Bounds-get x zs j b.1 e

-- The elements of a sorted list are in order.
pub IsSorted-le :
    (xs : List Bytes) (i j : ℕ) {x y : Bytes}
    → IsSorted xs
    → i ≤ j
    → get_elem? xs i ≡ some x
    → get_elem? xs j ≡ some y
    → Le x y
IsSorted-le [] i j s h e f = cc
IsSorted-le (z ∷ zs) zero zero {x} {y} s h e f = ground (arith, lex_lt_irrefl x)
IsSorted-le (z ∷ zs) zero (suc j) {x} {y} s h e f = rw (of_some z x e) at (Bounds-get z zs j s.0 f)
IsSorted-le (z ∷ zs) (suc i) zero s h e f = absurd (omega arith)
IsSorted-le (z ∷ zs) (suc i) (suc j) s h e f = IsSorted-le zs i j s.1 (omega arith) e f
