-- ===== src/Validator/NullHash.antt =====
-- `is_null_hash` of src/utils.cpp.
use memo_coin.Prelude.{
  ℕ, zero, suc, ◌+◌, ◌≤◌, ◌≡◌, ◌↔◌, ◌∙◌, ap, refl, true, List, [], ◌∷◌, ◌++◌, Bytes, length, take,
  drop, replicate, arith,
}
use memo_coin.Consensus.{null_hash}
use memo_coin.Validator.{from_bytes, is_null_hash}

abbrev zero_bytes : ℕ → Bytes
zero_bytes n = replicate n 0

-- A word of zeros is the start of an array that is long enough.
zero_word :
    (n : ℕ) (xs : Bytes)
    → n ≤ length xs
    → from_bytes (take n xs) ≡ 0
    → xs ≡ zero_bytes n ++ drop n xs
unfolding from_bytes
zero_word zero xs h e = refl
zero_word (suc n) [] h e = absurd (omega arith)
zero_word (suc n) (x ∷ xs) h e = ground (arith, zero_word n xs)

length-drop {ℓ} : {A : Type ℓ} (n m : ℕ) (xs : List A) → length xs ≡ n + m → length (drop n xs) ≡ m
length-drop zero m xs e = omega arith
length-drop (suc n) m [] e = absurd (omega arith)
length-drop (suc n) m (x ∷ xs) e = length-drop n m xs (omega arith)

zero_bytes-append : (n m : ℕ) → zero_bytes n ++ zero_bytes m ≡ zero_bytes (n + m)
zero_bytes-append zero m = ground arith
zero_bytes-append (suc n) m =
    let e : suc n + m ≡ suc (n + m) = omega arith in
    rw e (ap (λ (bs : Bytes). 0 ∷ bs) (zero_bytes-append n m))

-- An array whose first word is 0, and zeros behind it.
zeros :
    (n m : ℕ) (xs : Bytes)
    → length xs ≡ n + m
    → from_bytes (take n xs) ≡ 0
    → drop n xs ≡ zero_bytes m
    → xs ≡ zero_bytes (n + m)
zeros n m xs e z d =
    zero_word n xs (omega arith) z ∙ ap (◌++◌ (zero_bytes n)) d ∙ zero_bytes-append n m

no_bytes : {A : Type 0} (xs : List A) → length xs ≡ 0 → xs ≡ []
no_bytes [] e = refl
no_bytes (x ∷ xs) e = absurd (omega arith)

-- A solution counts as missing exactly if it is the null hash.
pub is_null_hash_iff :
    (hash : Bytes) → length hash ≡ 32 → (is_null_hash hash ≡ true) ↔ (hash ≡ null_hash)
unfolding is_null_hash null_hash
is_null_hash_iff hash e =
    let e1 = length-drop 8 24 hash e in
    let e2 = length-drop 8 16 (drop 8 hash) e1 in
    let e3 = length-drop 8 8 (drop 8 (drop 8 hash)) e2 in
    let e4 = length-drop 8 0 (drop 8 (drop 8 (drop 8 hash))) e3 in
    (
      λ h. zeros 8 24 hash e (ground arith) (
          zeros 8 16 (drop 8 hash) e1 (ground arith) (
            zeros 8 8 (drop 8 (drop 8 hash)) e2 (ground arith)
              (zeros 8 0 (drop 8 (drop 8 (drop 8 hash))) e3 (ground arith) (no_bytes _ e4)))),
      λ h. rw h (unfold from_bytes in refl),
    )
