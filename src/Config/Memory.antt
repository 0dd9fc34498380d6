-- ===== src/Config/Memory.antt =====
-- `get_validator_memory` of src/config.cpp.
use memo_coin.Prelude.{
  ℕ, ◌*◌, ◌≡◌, ◌≢◌, refl, Bool-cases, inl, inr, if◌then◌else◌, ltb, [], ◌∷◌, ◌++◌, Bytes, length,
  arith,
}
use memo_coin.Messages.{Result, ok, err, Error}
use memo_coin.Text.{i32_limit, to_int, mul_int}
use memo_coin.Text.Decimal.{
  AreDigits, value_from, find-unit, find-other, take-length_append, stoi-value_from,
}
use memo_coin.Config.{scaled, parse_memory}

pub data Scale : Type 0 where
  kilo mega giga : Scale

abbrev pub letter : Scale → ℕ
letter kilo = b'K'
letter mega = b'M'
letter giga = b'G'

abbrev pub factor : Scale → ℕ
factor kilo = 1000
factor mega = 1000000
factor giga = 1000000000

-- What an `int` can hold of a size, and what happens to one that it cannot.
abbrev pub bounded : ℕ → ℕ → Result ℕ
bounded n unit =
    if ltb n i32_limit
    then (if ltb (n * unit) i32_limit then ok (n * unit) else err Error.undefined_behaviour)
    else err Error.bad_conversion

scaled-bounded :
    (s t : Bytes) (unit : ℕ)
    → AreDigits s
    → s ≢ []
    → scaled (s ++ t) (length s) unit ≡ bounded (value_from 0 s) unit
unfolding to_int mul_int
scaled-bounded s t unit d n =
    rw (take-length_append s t, stoi-value_from s d n)
      (elim (Bool-cases (ltb (value_from 0 s) i32_limit)) [
        | inl e ↦ rw e (rw e refl)
        | inr e ↦ rw e refl
      ])

-- A size of decimal digits with the unit KB, MB or GB is read as the number times the unit, but in an
-- `int`: a number of 2 ^ 31 or more throws, and a product of 2 ^ 31 or more overflows.
pub parse_memory_lem :
    (s : Bytes) (g : Scale)
    → AreDigits s
    → s ≢ []
    → parse_memory (s ++ letter g ∷ b'B' ∷ []) ≡ bounded (value_from 0 s) (factor g)
unfolding parse_memory
parse_memory_lem s kilo d n =
    rw (find-unit s b'K' d (omega arith), parse_memory) (scaled-bounded s _ 1000 d n)
parse_memory_lem s mega d n =
    rw (find-other s b'K' b'M' d (omega arith) (omega arith) (omega arith), parse_memory)
      (rw (find-unit s b'M' d (omega arith), parse_memory) (scaled-bounded s _ 1000000 d n))
parse_memory_lem s giga d n =
    rw (find-other s b'K' b'G' d (omega arith) (omega arith) (omega arith), parse_memory)
      (rw (find-other s b'M' b'G' d (omega arith) (omega arith) (omega arith), parse_memory)
        (rw (find-unit s b'G' d (omega arith), parse_memory) (scaled-bounded s _ 1000000000 d n)))
