-- ===== src/Keys/Toy.antt =====
-- A stand-in for external/base58 that meets the interface: one character for each byte, from `1` on.
use memo_coin.Prelude.{◌+◌, ◌-◌, ◌≡◌, ◌∙◌, ap, refl, sym, some, [], ◌∷◌, Bytes, map, arith}
use memo_coin.Keys.{Base58, zero_key, ones}

abbrev pub shift : Bytes → Bytes
shift = map (λ c. c + b'1')

abbrev pub unshift : Bytes → Bytes
unshift = map (λ c. c - b'1')

pub unshift-shift : (key : Bytes) → unshift (shift key) ≡ key
unshift-shift [] = refl
unshift-shift (c ∷ key) = ground (arith, unshift-shift key)

pub of_some : (a b : Bytes) → some a ≡ some b → a ≡ b
of_some a b e = cc

pub shift-zero_key : shift zero_key ≡ ones
unfolding zero_key ones
shift-zero_key = refl

pub unshift-ones : unshift ones ≡ zero_key
unfolding zero_key ones
unshift-ones = refl

abbrev pub toy : Base58
toy = record {
  b58enc = λ size key. some (shift key);
  b58tobin = λ len str. some (unshift str);
  enc_total = λ key h. (shift key, refl);
  enc_zero = λ key. (
    λ e. sym (unshift-shift key) ∙ ap unshift (of_some _ _ e) ∙ unshift-ones,
    λ e. ap some (ap shift e ∙ shift-zero_key),
  );
  tobin_enc = λ key s h k e. ap some (ap unshift (sym (of_some _ _ e)) ∙ unshift-shift key);
}
