-- ===== src/Consensus/Prefix/Agree.antt =====
-- src/pom.cpp and src/pow.cpp: what the difficulty checks decide, bit by bit.
use memo_coin.Prelude.{
  ℕ, zero, suc, ◌*◌, ◌≤◌, ◌<◌, ◌≡◌, ◌↔◌, ap, refl, Bool, true, false, leb, List, [], ◌∷◌, Bytes,
  length, get_elem?, replicate, arith,
}
use memo_coin.Messages.{Result, ok}
use memo_coin.Consensus.Prefix.{
  bits, byte_bits, common, check_prefix, check_leading_zeros, scan_prefix-common,
  scan_zeros-scan_prefix,
}

-- The first `d` bits are the same.
abbrev pub Agree : ℕ → List ℕ → List ℕ → Type 0
Agree d us bs = (i : ℕ) → i < d → get_elem? us i ≡ get_elem? bs i

le_of_Agree :
    (d : ℕ) (us bs : List ℕ)
    → d ≤ length us
    → length us ≡ length bs
    → Agree d us bs
    → d ≤ common us bs
unfolding common
le_of_Agree zero us bs h e a = omega arith
le_of_Agree (suc d) [] bs h e a = absurd (omega arith)
le_of_Agree (suc d) (u ∷ us) [] h e a = absurd (omega arith)
le_of_Agree (suc d) (u ∷ us) (b ∷ bs) h e a =
    let rest = le_of_Agree d us bs (omega arith) (omega arith) (λ i k. a (suc i) (omega arith)) in
    ground (arith, a 0 (omega arith), rest)

pub Agree-of_le : (d : ℕ) (us bs : List ℕ) → d ≤ common us bs → Agree d us bs
unfolding common
Agree-of_le d [] bs h i k = absurd (omega arith)
Agree-of_le d (u ∷ us) [] h i k = absurd (omega arith)
Agree-of_le zero (u ∷ us) (b ∷ bs) h i k = absurd (omega arith)
Agree-of_le (suc d) (u ∷ us) (b ∷ bs) h zero k = ground arith
Agree-of_le (suc d) (u ∷ us) (b ∷ bs) h (suc i) k =
    Agree-of_le d us bs (ground arith) i (omega arith)

length-bits : (xs : Bytes) → length (bits xs) ≡ length xs * 8
unfolding bits byte_bits
length-bits [] = refl
length-bits (x ∷ xs) = omega (arith, length-bits xs)

pub leb_iff : (a b : ℕ) → (leb a b ≡ true) ↔ (a ≤ b)
leb_iff a b = ground arith

decides_at :
    {P : Type 0} (found : Bool)
    → (found ≡ true) ↔ P
    → ((ok found ≡ ok true) ↔ P) × ((ok found ≡ ok false) ↔ (¬ P))
decides_at true h = ((λ e. h.0 refl, λ p. refl), (λ e p. cc, λ n. absurd (n (h.0 refl))))
decides_at false h = ((λ e. cc, λ p. cc (h.1 p)), (λ e p. cc (h.1 p), λ n. refl))

decides :
    {P : Type 0} {r : Result Bool} {found : Bool}
    → r ≡ ok found
    → (found ≡ true) ↔ P
    → ((r ≡ ok true) ↔ P) × ((r ≡ ok false) ↔ (¬ P))
decides {found = found} e h = rw e (decides_at found h)

module _ (result target : Bytes) (d : ℕ) (sizes : length result ≡ length target) where
  pub check_prefix-common :
      d ≤ length result * 8
      → check_prefix result target d ≡ ok (leb d (common (bits result) (bits target)))
  unfolding check_prefix
  check_prefix-common h = rw (scan_prefix-common result target 0 sizes) (ground arith)

  Agree-iff :
      d ≤ length result * 8
      → (leb d (common (bits result) (bits target)) ≡ true) ↔ Agree d (bits result) (bits target)
  Agree-iff h = (
    λ e. Agree-of_le d (bits result) (bits target) ((leb_iff d _).0 e),
    λ a. (leb_iff d _).1 (
        le_of_Agree d (bits result) (bits target) (rw (length-bits result) h)
          (rw (length-bits result, length-bits target) (ap (λ n. n * 8) sizes)) a),
  )

  -- On arrays of one size, and for a difficulty of at most the number of their bits,
  -- `check_prefix` returns, and decides whether the first `d` bits of the two agree, the lowest bit
  -- of each byte first.
  pub check_prefix_iff :
      d ≤ length result * 8
      → ((check_prefix result target d ≡ ok true) ↔ Agree d (bits result) (bits target))
        × ((check_prefix result target d ≡ ok false) ↔ (¬ Agree d (bits result) (bits target)))
  check_prefix_iff h = decides (check_prefix-common h) (Agree-iff h)

-- The proof of work's test is the prefix test against zeros: it throws for the same difficulties
-- and accepts the same arrays.
pub check_leading_zeros-check_prefix :
    (result : Bytes) (d : ℕ)
    → check_leading_zeros result d ≡ check_prefix result (replicate (length result) 0) d
unfolding check_leading_zeros check_prefix
check_leading_zeros-check_prefix result d = rw (scan_zeros-scan_prefix result 0)
