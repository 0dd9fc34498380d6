-- ===== src/Text.antt =====
-- What the code uses of `std::string` and `std::stoi`, on the bytes of a text.
pub mod Decimal
use memo_coin.Prelude.{
  ℕ, suc, ◌+◌, ◌-◌, ◌*◌, Bool, true, false, ◌&&◌, ◌||◌, ◌==◌, leb, ltb, if◌then◌else◌, Option, none,
  some, List, [], ◌∷◌, Bytes, u32_mod,
}
use memo_coin.Messages.{Result, ok, err, Error, ◌>>=◌}

unfoldable pub starts_with : Bytes → Bytes → Bool
starts_with [] s = true
starts_with (p ∷ ps) [] = false
starts_with (p ∷ ps) (x ∷ xs) = p == x && starts_with ps xs

abbrev pub later : Option ℕ → Option ℕ
later none = none
later (some n) = some (suc n)

-- `find`: where the pattern occurs first, `none` being `npos`.
unfoldable pub find : Bytes → Bytes → Option ℕ
unfolding starts_with
find pattern_bytes [] = if starts_with pattern_bytes [] then some 0 else none
find pattern_bytes (x ∷ xs) =
    let rest = later (find pattern_bytes xs) in
    if starts_with pattern_bytes (x ∷ xs) then some 0 else rest

abbrev pub is_space : ℕ → Bool
is_space c = c == b' ' || leb 9 c && leb c 13

abbrev pub is_digit : ℕ → Bool
is_digit c = leb b'0' c && leb c b'9'

-- The digits in front, read after `n`; what follows them is not looked at.
unfoldable pub digits : ℕ → Bytes → ℕ
digits n [] = n
digits n (c ∷ s) = let rest = digits (n * 10 + (c - b'0')) s in if is_digit c then rest else n

abbrev pub i32_limit : ℕ
i32_limit = 0x8000_0000

-- An `int` as its bit pattern, or the exception where it is out of range.
unfoldable pub to_int : Bool → ℕ → Result ℕ
to_int false n = if ltb n i32_limit then ok n else err Error.bad_conversion
to_int true n =
    if leb n i32_limit then ok (if n == 0 then 0 else u32_mod - n) else err Error.bad_conversion

-- At least one digit has to stand behind the sign.
unfoldable pub signed : Bool → Bytes → Result ℕ
unfolding digits to_int
signed negative [] = err Error.bad_conversion
signed negative (c ∷ s) =
    if is_digit c then to_int negative (digits 0 (c ∷ s)) else err Error.bad_conversion

unfoldable pub stoi : Bytes → Result ℕ
unfolding signed
stoi [] = err Error.bad_conversion
stoi (c ∷ s) =
    let rest = stoi s in
    if is_space c
    then rest
    else if c == b'-'
    then signed true s
    else if c == b'+'
    then signed false s
    else signed false (c ∷ s)

-- A product of an `int` with a positive constant; overflow is undefined.
unfoldable pub mul_int : ℕ → ℕ → Result ℕ
mul_int p k =
    if ltb p i32_limit
    then (if ltb (p * k) i32_limit then ok (p * k) else err Error.undefined_behaviour)
    else if leb ((u32_mod - p) * k) i32_limit
    then ok (u32_mod - (u32_mod - p) * k)
    else err Error.undefined_behaviour
