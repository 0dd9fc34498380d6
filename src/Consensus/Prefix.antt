-- ===== src/Consensus/Prefix.antt =====
-- `check_leading_zeros` of src/pow.cpp and `check_prefix` of src/pom.cpp: counting bits, the lowest
-- bit of each byte first.
pub mod Agree
use memo_coin.Prelude.{
  ℕ, zero, suc, ◌+◌, ◌*◌, ◌/◌, ◌%◌, ◌^◌, ◌≤◌, ◌<◌, ◌≡◌, ◌↔◌, ◌∙◌, ap, refl, sym, Bool, true, false,
  ◌==◌, ==_iff, leb, ltb, if◌then◌else◌, Bool-cases, inl, inr, Option, some, none, List, [], ◌∷◌,
  ◌++◌, Bytes, length, length-append, get_elem?, replicate, arith,
}
use memo_coin.Messages.{Result, ok, err, Error}

-- `byte >> j & 1`.
unfoldable pub bit_at : ℕ → ℕ → ℕ
bit_at byte j = byte / 2 ^ j % 2

-- The inner loop returned with this count, or went on with it.
pub data Scan : Type 0 where
  stops goes : ℕ → Scan

-- `rounds` more bits of the byte, from `j` on.
unfoldable pub scan_byte : ℕ → ℕ → ℕ → ℕ → ℕ → Scan
scan_byte zero j byte target correct = goes correct
scan_byte (suc rounds) j byte target correct =
    let rest = scan_byte rounds (j + 1) byte target (correct + 1) in
    if bit_at byte j == bit_at target j then rest else stops correct

unfoldable pub scan_prefix : Bytes → Bytes → ℕ → Result ℕ
scan_prefix [] target correct = ok correct
scan_prefix (x ∷ xs) [] correct = err Error.undefined_behaviour
scan_prefix (x ∷ xs) (t ∷ ts) correct = elim (scan_byte 8 0 x t correct) [
  | stops c ↦ ok c
  | goes c ↦ scan_prefix xs ts c
]

abbrev pub at_least : ℕ → Result ℕ → Result Bool
at_least difficulty (ok correct) = ok (leb difficulty correct)
at_least difficulty (err e) = err e

unfoldable pub check_prefix : Bytes → Bytes → ℕ → Result Bool
check_prefix result target difficulty =
    if ltb (length result * 8) difficulty
    then err Error.bad_difficulty
    else at_least difficulty (scan_prefix result target 0)

unfoldable pub scan_zeros_byte : ℕ → ℕ → ℕ → ℕ → Scan
scan_zeros_byte zero j byte correct = goes correct
scan_zeros_byte (suc rounds) j byte correct =
    let rest = scan_zeros_byte rounds (j + 1) byte (correct + 1) in
    if bit_at byte j == 0 then rest else stops correct

unfoldable pub scan_zeros : Bytes → ℕ → ℕ
scan_zeros [] correct = correct
scan_zeros (x ∷ xs) correct = elim (scan_zeros_byte 8 0 x correct) [
  | stops c ↦ c
  | goes c ↦ scan_zeros xs c
]

unfoldable pub check_leading_zeros : Bytes → ℕ → Result Bool
check_leading_zeros result difficulty =
    if ltb (length result * 8) difficulty
    then err Error.bad_difficulty
    else ok (leb difficulty (scan_zeros result 0))

-- The bits of a byte from `j` on, and of an array.
unfoldable pub byte_bits : ℕ → ℕ → ℕ → List ℕ
byte_bits zero j byte = []
byte_bits (suc rounds) j byte = bit_at byte j ∷ byte_bits rounds (j + 1) byte

unfoldable pub bits : Bytes → List ℕ
bits [] = []
bits (x ∷ xs) = byte_bits 8 0 x ++ bits xs

-- How many elements two lists share at their beginning.
unfoldable pub common : List ℕ → List ℕ → ℕ
common [] bs = 0
common (a ∷ us) [] = 0
common (a ∷ us) (b ∷ bs) = if a == b then suc (common us bs) else 0

abbrev scanned : ℕ → List ℕ → List ℕ → Scan → ℕ
scanned c us bs (stops n) = n
scanned c us bs (goes n) = n + common us bs

-- A scan of the byte counts like `common`, whatever follows the byte.
scan_byte-common :
    (rounds j x t c : ℕ) (us bs : List ℕ)
    → scanned c us bs (scan_byte rounds j x t c)
      ≡ c + common (byte_bits rounds j x ++ us) (byte_bits rounds j t ++ bs)
unfolding scan_byte byte_bits common
scan_byte-common zero j x t c us bs = refl
scan_byte-common (suc r) j x t c us bs =
    ground (arith, scan_byte-common r (j + 1) x t (c + 1) us bs)

finish :
    (s : Scan) (f : ℕ → Result ℕ) (c n : ℕ) (us bs : List ℕ)
    → scanned c us bs s ≡ n
    → ((k : ℕ) → f k ≡ ok (k + common us bs))
    → (elim s as (λ _. Result ℕ) [ stops k ↦ ok k | goes k ↦ f k ]) ≡ ok n
finish (stops k) f c n us bs h g = ap ok h
finish (goes k) f c n us bs h g = g k ∙ ap ok h

-- `check_prefix` counts the bits that the two arrays share at their beginning.
pub scan_prefix-common :
    (xs ts : Bytes) (c : ℕ)
    → length xs ≡ length ts
    → scan_prefix xs ts c ≡ ok (c + common (bits xs) (bits ts))
unfolding scan_prefix bits
scan_prefix-common [] [] c e = unfold common in ground arith
scan_prefix-common [] (t ∷ ts) c e = absurd (omega arith)
scan_prefix-common (x ∷ xs) [] c e = absurd (omega arith)
scan_prefix-common (x ∷ xs) (t ∷ ts) c e =
    finish (scan_byte 8 0 x t c) (scan_prefix xs ts) c (c + common (bits (x ∷ xs)) (bits (t ∷ ts)))
      (bits xs) (bits ts) (scan_byte-common 8 0 x t c (bits xs) (bits ts))
      (λ k. scan_prefix-common xs ts k (omega arith))

bit_at_zero : (j : ℕ) → bit_at 0 j ≡ 0
unfolding bit_at
bit_at_zero j = grind arith

zeros_step :
    (s : Scan) (f : ℕ → Result ℕ) (g : ℕ → ℕ)
    → ((k : ℕ) → f k ≡ ok (g k))
    → (elim s as (λ _. Result ℕ) [ stops k ↦ ok k | goes k ↦ f k ])
      ≡ ok (elim s as (λ _. ℕ) [ stops k ↦ k | goes k ↦ g k ])
zeros_step (stops k) f g h = refl
zeros_step (goes k) f g h = h k

scan_zeros_byte-scan_byte :
    (rounds j x c : ℕ) → scan_zeros_byte rounds j x c ≡ scan_byte rounds j x 0 c
unfolding scan_zeros_byte scan_byte
scan_zeros_byte-scan_byte zero j x c = refl
scan_zeros_byte-scan_byte (suc r) j x c =
    ground (arith, scan_zeros_byte-scan_byte r (j + 1) x (c + 1), bit_at_zero j)

-- Counting zeros is matching the prefix of an array of zeros.
pub scan_zeros-scan_prefix :
    (xs : Bytes) (c : ℕ) → scan_prefix xs (replicate (length xs) 0) c ≡ ok (scan_zeros xs c)
unfolding scan_zeros scan_prefix
scan_zeros-scan_prefix [] c = refl
scan_zeros-scan_prefix (x ∷ xs) c =
    rw (scan_zeros_byte-scan_byte 8 0 x c, scan_zeros)
      (zeros_step (scan_byte 8 0 x 0 c) (scan_prefix xs (replicate (length xs) 0)) (scan_zeros xs)
        (scan_zeros-scan_prefix xs))
