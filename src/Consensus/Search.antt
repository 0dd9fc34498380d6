-- ===== src/Consensus/Search.antt =====
-- `prefix_binary_search` of src/pom.cpp. The variable `hi` stands for `r + 1`, which is never
-- negative.
pub mod Complete
use memo_coin.Prelude.{
  ℕ, zero, suc, ◌+◌, ◌-◌, ◌*◌, ◌/◌, ◌≤◌, ◌<◌, ◌≡◌, ◌∙◌, ap, refl, sym, Bool, true, false, ltb,
  if◌then◌else◌, Bool-cases, inl, inr, Option, some, none, List, [], ◌∷◌, Bytes, length, get_elem?,
  All, arith,
}
use memo_coin.Messages.{Result, ok, err, Error}
use memo_coin.Consensus.Prefix.{check_prefix, bits, common}
use memo_coin.Consensus.Prefix.Agree.{check_prefix-common}
use memo_coin.Consensus.Lex.{lex_lt}

pub data Probe : Type 0 where
  fails : Error → Probe
  hit below above : Probe

-- The two tests of the loop's body, on the results of both.
abbrev pub verdict : Result Bool → Bool → Probe
verdict (err e) lower = fails e
verdict (ok true) lower = hit
verdict (ok false) true = below
verdict (ok false) false = above

abbrev pub probe : Bytes → ℕ → Option Bytes → Probe
probe target difficulty none = fails Error.undefined_behaviour
probe target difficulty (some h) = verdict (check_prefix h target difficulty) (lex_lt h target)

abbrev pub middle : ℕ → ℕ → ℕ
middle l hi = l + (hi - 1 - l) / 2

module _ (hashes : List Bytes) (target : Bytes) (difficulty : ℕ) where
  unfoldable pub search_loop : ℕ → ℕ → ℕ → Result (Option ℕ)
  search_loop zero l hi = err Error.out_of_fuel
  search_loop (suc fuel) l hi = elim (ltb l hi) [
    | false ↦ ok none
    | true ↦ elim (probe target difficulty (get_elem? hashes (middle l hi))) [
      | fails e ↦ err e
      | hit ↦ ok (some (middle l hi))
      | below ↦ search_loop fuel (middle l hi + 1) hi
      | above ↦ search_loop fuel l (middle l hi)
    ]
  ]

  unfoldable pub prefix_binary_search : Result (Option ℕ)
  prefix_binary_search = search_loop (length hashes + 1) 0 (length hashes)

ltb_of_lt : (a b : ℕ) → a < b → ltb a b ≡ true
ltb_of_lt a b h = ground arith

abbrev branch : ℕ → Result (Option ℕ) → Result (Option ℕ) → Probe → Result (Option ℕ)
branch m r s p = elim p [ fails e ↦ err e | hit ↦ ok (some m) | below ↦ r | above ↦ s ]

verdict_cases {ℓ} :
    (P : Result (Option ℕ) → Type ℓ) (m : ℕ) (r s : Result (Option ℕ)) (c lower : Bool)
    → (c ≡ true → P (ok (some m)))
    → (c ≡ false → lower ≡ true → P r)
    → (c ≡ false → lower ≡ false → P s)
    → P (branch m r s (verdict (ok c) lower))
verdict_cases P m r s true lower x y z = x refl
verdict_cases P m r s false true x y z = y refl refl
verdict_cases P m r s false false x y z = z refl refl

-- Every array has the size of the target.
abbrev pub SameSize : Bytes → List Bytes → Type 0
SameSize target = All (λ h. length h ≡ length target)

pub get_total :
    (target : Bytes) (hs : List Bytes) (i : ℕ)
    → SameSize target hs
    → i < length hs
    → (h : Bytes) × (get_elem? hs i ≡ some h) × (length h ≡ length target)
get_total target [] i v b = absurd (omega arith)
get_total target (h ∷ hs) zero v b = (h, refl, v.0)
get_total target (h ∷ hs) (suc i) v b = get_total target hs i v.1 (omega arith)

module _ (hashes : List Bytes) (target : Bytes) (d : ℕ) where
  -- A result, and if it is an index, then one whose array has the prefix.
  abbrev pub Sound : Result (Option ℕ) → Type 0
  Sound (err e) = ⊥
  Sound (ok none) = Unit
  Sound (ok (some m)) =
      (h : Bytes) × (get_elem? hashes m ≡ some h) × (check_prefix h target d ≡ ok true)

  module _ (sizes : SameSize target hashes) (small : d ≤ length target * 8) where
    -- What a probe in range is decided by.
    pub probe_total :
        (m : ℕ)
        → m < length hashes
        → (h : Bytes) × (get_elem? hashes m ≡ some h)
          × (check_prefix h target d ≡ ok (ltb d (suc (common (bits h) (bits target)))))
    probe_total m b =
        let (h, e, s) = get_total target hashes m sizes b in
        (h, e, check_prefix-common h target d s (rw s small) ∙ ground arith)

    -- One round of the loop: a property of its result holds if it holds in the three cases.
    pub round {ℓ} :
        (P : Result (Option ℕ) → Type ℓ) (fuel l hi : ℕ) (h : Bytes) (c : Bool)
        → l < hi
        → get_elem? hashes (middle l hi) ≡ some h
        → check_prefix h target d ≡ ok c
        → (c ≡ true → P (ok (some (middle l hi))))
        → (c ≡ false
            → lex_lt h target ≡ true
            → P (search_loop hashes target d fuel (middle l hi + 1) hi))
        → (c ≡ false
            → lex_lt h target ≡ false
            → P (search_loop hashes target d fuel l (middle l hi)))
        → P (search_loop hashes target d (suc fuel) l hi)
    unfolding search_loop
    round P fuel l hi h c lt g k x y z =
        rw (ltb_of_lt l hi lt, search_loop)
          (rw (g, k) (verdict_cases P (middle l hi) _ _ c (lex_lt h target) x y z))

    search_loop-Sound :
        (fuel l hi : ℕ)
        → hi - l < fuel
        → hi ≤ length hashes
        → Sound (search_loop hashes target d fuel l hi)
    search_loop-Sound zero l hi f b = absurd (omega arith)
    search_loop-Sound (suc fuel) l hi f b = elim (Bool-cases (ltb l hi)) [
      | inr e ↦ unfold search_loop in rw (e, search_loop) tt
      | inl e ↦
          let (h, g, k) = probe_total (middle l hi) (ground arith) in
          round Sound fuel l hi h _ (ground arith) g k (λ c. (h, g, k ∙ ap ok c))
            (λ c o. search_loop-Sound fuel (middle l hi + 1) hi (ground arith) b)
            (λ c o. search_loop-Sound fuel l (middle l hi) (ground arith) (ground arith))
    ]

    -- On a table of arrays of the target's size, sorted or not, and for a difficulty of at most the
    -- number of their bits, the search does not throw, does not read outside the table and ends
    -- within its fuel, and an index that it returns is one of an array that has the prefix.
    pub prefix_binary_search-Sound : Sound (prefix_binary_search hashes target d)
    unfolding prefix_binary_search
    prefix_binary_search-Sound =
        search_loop-Sound (length hashes + 1) 0 (length hashes) (omega arith) (omega arith)
