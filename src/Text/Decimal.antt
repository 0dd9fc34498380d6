-- ===== src/Text/Decimal.antt =====
-- `find` and `stoi` on a decimal number with a unit behind it.
use memo_coin.Prelude.{
  ℕ, ◌+◌, ◌-◌, ◌*◌, ◌<◌, ◌≡◌, ◌≢◌, ◌∙◌, ap, refl, true, false, ◌==◌, none, some, List, [], ◌∷◌,
  ◌++◌, Bytes, length, take, All, arith,
}
use memo_coin.Text.{starts_with, find, is_space, is_digit, digits, to_int, signed, stoi}

abbrev pub AreDigits : Bytes → Type 0
AreDigits = All (λ c. is_digit c ≡ true)

-- The number that digits stand for, the last one the lowest.
unfoldable pub value_from : ℕ → Bytes → ℕ
value_from n [] = n
value_from n (c ∷ s) = value_from (n * 10 + (c - b'0')) s

pub find-unit :
    (s : Bytes) (u : ℕ)
    → AreDigits s
    → b'A' < u
    → find (u ∷ b'B' ∷ []) (s ++ u ∷ b'B' ∷ []) ≡ some (length s)
unfolding find starts_with
find-unit [] u d h = ground arith
find-unit (c ∷ s) u d h = ground (arith, find-unit s u d.1 h)

pub find-other :
    (s : Bytes) (u v : ℕ)
    → AreDigits s
    → b'B' < u
    → b'B' < v
    → u ≢ v
    → find (u ∷ b'B' ∷ []) (s ++ v ∷ b'B' ∷ []) ≡ none
unfolding find starts_with
find-other [] u v d h k n = ground arith
find-other (c ∷ s) u v d h k n = ground (arith, find-other s u v d.1 h k n)

pub take-length_append {ℓ} : {A : Type ℓ} (s t : List A) → take (length s) (s ++ t) ≡ s
take-length_append [] t = refl
take-length_append (x ∷ s) t = ap (◌∷◌ x) (take-length_append s t)

digits-value_from : (n : ℕ) (s : Bytes) → AreDigits s → digits n s ≡ value_from n s
unfolding digits value_from
digits-value_from n [] d = refl
digits-value_from n (c ∷ s) d = rw d.0 (digits-value_from (n * 10 + (c - b'0')) s d.1)

stoi-signed : (c : ℕ) (s : Bytes) → is_digit c ≡ true → stoi (c ∷ s) ≡ signed false (c ∷ s)
unfolding stoi
stoi-signed c s d =
    let a : is_space c ≡ false = ground arith in
    let m : (c == b'-') ≡ false = ground arith in
    let p : (c == b'+') ≡ false = ground arith in rw a (rw m (rw p refl))

signed-to_int :
    (c : ℕ) (s : Bytes) → is_digit c ≡ true → signed false (c ∷ s) ≡ to_int false (digits 0 (c ∷ s))
unfolding signed
signed-to_int c s d = rw d refl

pub stoi-value_from : (s : Bytes) → AreDigits s → s ≢ [] → stoi s ≡ to_int false (value_from 0 s)
stoi-value_from [] d n = absurd (n refl)
stoi-value_from (c ∷ s) d n =
    stoi-signed c s d.0 ∙ signed-to_int c s d.0 ∙ ap (to_int false) (digits-value_from 0 (c ∷ s) d)
