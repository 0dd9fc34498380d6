-- ===== src/Consensus/Search/Complete.antt =====
-- src/pom.cpp: what a search without a result tells. The table is sorted by bytes, highest bit
-- first, and the prefix is counted lowest bit first.
use memo_coin.Prelude.{
  ℕ, zero, suc, ◌+◌, ◌-◌, ◌*◌, ◌≤◌, ◌<◌, ◌≡◌, ◌≢◌, ◌∙◌, ap, ap₂, refl, sym, true, false, ltb, leb,
  ◌==◌, Bool-cases, inl, inr, Option, some, none, List, [], ◌∷◌, ◌++◌, Bytes, length, get_elem?,
  take, All, arith,
}
use native.Mathlib.Decide.{dec_lt}
use memo_coin.Messages.{Result, ok}
use memo_coin.Consensus.Prefix.{check_prefix, bits, byte_bits, bit_at, common}
use memo_coin.Consensus.Prefix.Agree.{check_prefix-common}
use memo_coin.Consensus.Lex.{lex_lt, Le_of_lt, Le_antisymm, take-Le, IsSorted, IsSorted-le}
use memo_coin.Consensus.Search.{
  middle, search_loop, prefix_binary_search, SameSize, probe_total, round,
}

abbrev pub IsBytes : Bytes → Type 0
IsBytes = All (λ x. x < 256)

abbrev SameBits : ℕ → ℕ → ℕ → ℕ → Type 0
SameBits zero j x y = Unit {0}
SameBits (suc r) j x y = (bit_at x j ≡ bit_at y j) × SameBits r (j + 1) x y

common-byte_bits :
    (r j x y n : ℕ) (us bs : List ℕ)
    → r + n ≤ common (byte_bits r j x ++ us) (byte_bits r j y ++ bs)
    → SameBits r j x y × (n ≤ common us bs)
unfolding common byte_bits
common-byte_bits zero j x y n us bs h = (tt, omega arith)
common-byte_bits (suc r) j x y n us bs h = elim (Bool-cases (bit_at x j == bit_at y j)) [
  | inl e ↦
      let (s, k) = common-byte_bits r (j + 1) x y n us bs (ground arith) in ((ground arith, s), k)
  | inr e ↦ absurd (ground arith)
]

byte_of_bits : (x y : ℕ) → x < 256 → y < 256 → SameBits 8 0 x y → x ≡ y
unfolding bit_at
byte_of_bits x y h k s = omega arith

common-append_self : (vs us bs : List ℕ) → common (vs ++ us) (vs ++ bs) ≡ length vs + common us bs
unfolding common
common-append_self [] us bs = omega arith
common-append_self (v ∷ vs) us bs = ground (arith, common-append_self vs us bs)

common_nil : (us : List ℕ) → common us [] ≡ 0
unfolding common
common_nil [] = refl
common_nil (u ∷ us) = refl

length-byte_bits : (r j x : ℕ) → length (byte_bits r j x) ≡ r
unfolding byte_bits
length-byte_bits zero j x = refl
length-byte_bits (suc r) j x = ap suc (length-byte_bits r (j + 1) x)

-- Sharing `8 k` bits is sharing `k` bytes.
take_of_common :
    (k : ℕ) (xs ys : Bytes)
    → IsBytes xs
    → IsBytes ys
    → k * 8 ≤ common (bits xs) (bits ys)
    → take k xs ≡ take k ys
unfolding bits common
take_of_common zero xs ys hx hy c = refl
take_of_common (suc k) [] ys hx hy c = absurd (omega arith)
take_of_common (suc k) (x ∷ xs) [] hx hy c = absurd (omega (arith, common_nil (bits (x ∷ xs))))
take_of_common (suc k) (x ∷ xs) (y ∷ ys) hx hy c =
    let (s, r) = common-byte_bits 8 0 x y (k * 8) (bits xs) (bits ys) (omega arith) in
    ap₂ ◌∷◌ (byte_of_bits x y hx.0 hy.0 s) (take_of_common k xs ys hx.1 hy.1 r)

common_of_take :
    (k : ℕ) (xs ys : Bytes)
    → k ≤ length xs
    → length xs ≡ length ys
    → take k xs ≡ take k ys
    → k * 8 ≤ common (bits xs) (bits ys)
unfolding bits
common_of_take zero xs ys h e t = omega arith
common_of_take (suc k) [] ys h e t = absurd (omega arith)
common_of_take (suc k) (x ∷ xs) [] h e t = absurd (omega arith)
common_of_take (suc k) (x ∷ xs) (y ∷ ys) h e t =
    let same : x ≡ y = ground arith in
    let rest = common_of_take k xs ys (omega arith) (omega arith) (ground arith) in
    rw same (
      omega (
        arith,
        rest,
        common-append_self (byte_bits 8 0 y) (bits xs) (bits ys),
        length-byte_bits 8 0 y,
      ))

none-some : {h : Bytes} → none ≡ some h → ⊥
none-some e = cc

some-some : {x h : Bytes} → some x ≡ some h → x ≡ h
some-some e = cc

false-true : ok false ≡ ok true → ⊥
false-true e = cc

of_leb : (a b : ℕ) → ok (leb a b) ≡ ok true → a ≤ b
of_leb a b e = ground arith

to_leb : (a b : ℕ) → a ≤ b → ok (leb a b) ≡ ok true
to_leb a b e = ground arith

All-get :
    (target : Bytes) {h : Bytes} (hashes : List Bytes) (i : ℕ)
    → SameSize target hashes
    → All IsBytes hashes
    → get_elem? hashes i ≡ some h
    → IsBytes h × (length h ≡ length target)
All-get target [] i s b g = absurd (none-some g)
All-get target (x ∷ hashes) zero s b g = let e = some-some g in (rw e at b.0, rw e at s.0)
All-get target (x ∷ hashes) (suc i) s b g = All-get target hashes i s.1 b.1 g

get_outside :
    {h : Bytes} (hashes : List Bytes) (i : ℕ) → length hashes ≤ i → get_elem? hashes i ≡ some h → ⊥
get_outside [] i b g = none-some g
get_outside (x ∷ hashes) zero b g = absurd (omega arith)
get_outside (x ∷ hashes) (suc i) b g = get_outside hashes i (omega arith) g

module _ (hashes : List Bytes) (target : Bytes) (k : ℕ) (sizes : SameSize target hashes)
    (inside : k ≤ length target) (sorted : IsSorted hashes) (bytes : All IsBytes hashes)
    (target_bytes : IsBytes target) where
  small : k * 8 ≤ length target * 8
  small = omega arith

  -- The array at `i` does not have the prefix.
  abbrev Missed : ℕ → Type 0
  Missed i = (h : Bytes) → get_elem? hashes i ≡ some h → check_prefix h target (k * 8) ≡ ok true → ⊥

  -- Two arrays of the table, and which have the first `k` bytes of the target.
  prefix_of_check :
      (i : ℕ) (h : Bytes)
      → get_elem? hashes i ≡ some h
      → check_prefix h target (k * 8) ≡ ok true
      → take k h ≡ take k target
  prefix_of_check i h g c =
      let (b, s) = All-get target hashes i sizes bytes g in
      take_of_common k h target b target_bytes
        (of_leb (k * 8) _ (sym (check_prefix-common h target (k * 8) s (rw s small)) ∙ c))

  check_of_prefix :
      (i : ℕ) (h : Bytes)
      → get_elem? hashes i ≡ some h
      → take k h ≡ take k target
      → check_prefix h target (k * 8) ≡ ok true
  check_of_prefix i h g e =
      let (b, s) = All-get target hashes i sizes bytes g in
      check_prefix-common h target (k * 8) s (rw s small)
      ∙ to_leb (k * 8) _ (common_of_take k h target (rw s inside) s e)

  -- What lies before an array below the target, or behind one above it, that has not the prefix.
  before :
      (i m : ℕ) (h : Bytes)
      → get_elem? hashes m ≡ some h
      → check_prefix h target (k * 8) ≡ ok false
      → lex_lt h target ≡ true
      → i ≤ m
      → Missed i
  before i m h g c l b x gx cx =
      let e = prefix_of_check i x gx cx in
      let xh = take-Le k x h (IsSorted-le hashes i m sorted b gx g) in
      let ht = take-Le k h target (Le_of_lt h target l) in
      let same = Le_antisymm (take k h) (take k target) ht (rw (← e) xh) in
      false-true (sym c ∙ check_of_prefix m h g same)

  behind :
      (i m : ℕ) (h : Bytes)
      → get_elem? hashes m ≡ some h
      → check_prefix h target (k * 8) ≡ ok false
      → lex_lt h target ≡ false
      → m ≤ i
      → Missed i
  behind i m h g c l b x gx cx =
      let e = prefix_of_check i x gx cx in
      let hx = take-Le k h x (IsSorted-le hashes m i sorted b g gx) in
      let th = take-Le k target h l in
      let same = Le_antisymm (take k h) (take k target) (rw (← e) hx) th in
      false-true (sym c ∙ check_of_prefix m h g same)

  abbrev Complete : Result (Option ℕ) → Type 0
  Complete (ok none) = (i : ℕ) → Missed i
  Complete _ = Unit

  All-Missed :
      (l hi i : ℕ)
      → ltb l hi ≡ false
      → ((j : ℕ) → j < l → Missed j)
      → ((j : ℕ) → hi ≤ j → Missed j)
      → Missed i
  All-Missed l hi i e lo up = elim (dec_lt i l) [ yes p ↦ lo i p | no p ↦ up i (ground arith) ]

  search_loop-Complete :
      (fuel l hi : ℕ)
      → hi - l < fuel
      → hi ≤ length hashes
      → ((i : ℕ) → i < l → Missed i)
      → ((i : ℕ) → hi ≤ i → Missed i)
      → Complete (search_loop hashes target (k * 8) fuel l hi)
  search_loop-Complete zero l hi f b lo up = absurd (omega arith)
  search_loop-Complete (suc fuel) l hi f b lo up = elim (Bool-cases (ltb l hi)) [
    | inr e ↦ unfold search_loop in rw (e, search_loop) (λ i. All-Missed l hi i e lo up)
    | inl e ↦
        let (h, g, c) =
          probe_total hashes target (k * 8) sizes small (middle l hi) (ground arith) in
        round hashes target (k * 8) sizes small Complete fuel l hi h _ (ground arith) g c (λ _. tt)
          (λ n o.
            search_loop-Complete fuel (middle l hi + 1) hi (ground arith) b
              (λ i q. before i (middle l hi) h g (c ∙ ap ok n) o (omega arith)) up)
          (λ n o.
            search_loop-Complete fuel l (middle l hi) (ground arith) (ground arith) lo
              (λ i q. behind i (middle l hi) h g (c ∙ ap ok n) o q))
  ]

  -- On a sorted table of arrays of the target's size, if the search for a prefix of `k` whole
  -- bytes returns nothing then no array of the table has that prefix.
  pub prefix_binary_search-Complete :
      prefix_binary_search hashes target (k * 8) ≡ ok none
      → (i : ℕ) (h : Bytes) → get_elem? hashes i ≡ some h
      → check_prefix h target (k * 8) ≢ ok true
  prefix_binary_search-Complete e = rw e at whole
    where
      whole : Complete (prefix_binary_search hashes target (k * 8))
      whole =
          unfold prefix_binary_search in
          search_loop-Complete (length hashes + 1) 0 (length hashes) (omega arith) (omega arith)
            (λ i q. absurd (omega arith)) (λ i q h g c. get_outside hashes i q g)
