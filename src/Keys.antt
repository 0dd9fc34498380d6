-- ===== src/Keys.antt =====
-- src/keys.cpp: keys as base58 texts. The encoder itself, external/base58, is a parameter.
pub mod Toy
pub mod Generate
use memo_coin.Prelude.{ℕ, ◌≤◌, ◌<◌, ◌≡◌, ◌↔◌, Option, none, some, Bytes, length, replicate, arith}
use memo_coin.Messages.{Result, ok, err, Error}

-- Thirty-two bytes 0, the sender of a reward.
unfoldable pub zero_key : Bytes
zero_key = replicate 32 0

-- "11111111111111111111111111111111".
unfoldable pub ones : Bytes
ones = replicate 32 b'1'

-- `b58enc` with its buffer's size, and `b58tobin` with the number of bytes wanted.
pub record Base58 : Type 0 where
  pub b58enc : ℕ → Bytes → Option Bytes
  pub b58tobin : ℕ → Bytes → Option Bytes
  -- 128 characters hold the text of 64 bytes.
  pub enc_total : (key : Bytes) → length key ≤ 64 → (s : Bytes) × (b58enc 128 key ≡ some s)
  -- A digit 1 in front stands for a byte 0.
  pub enc_zero : (key : Bytes) → (b58enc 128 key ≡ some ones) ↔ (key ≡ zero_key)
  pub tobin_enc :
      (key s : Bytes)
      → 0 < length key
      → length key ≤ 64
      → b58enc 128 key ≡ some s
      → b58tobin (length key) s ≡ some key

abbrev or_throw : Option Bytes → Error → Result Bytes
or_throw none e = err e
or_throw (some s) e = ok s

unfoldable pub base58_encode_key : Base58 → Bytes → Result Bytes
base58_encode_key b key = or_throw (b.b58enc 128 key) Error.encode_failed

-- `base58_decode_key`, and its copies, with the size of the array.
unfoldable pub base58_decode : Base58 → ℕ → Bytes → Result Bytes
base58_decode b len str = or_throw (b.b58tobin len str) Error.decode_failed

-- The copies for arrays of 64 and of 16 bytes: their code is that of the conversions of a key.
abbrev pub base58_encode_sig : Base58 → Bytes → Result Bytes
base58_encode_sig b sig = base58_encode_key b sig

abbrev pub base58_decode_sig : Base58 → Bytes → Result Bytes
base58_decode_sig b str = base58_decode b 64 str

abbrev pub base58_encode_uuid : Base58 → Bytes → Result Bytes
base58_encode_uuid b uuid = base58_encode_key b uuid

abbrev pub base58_decode_uuid : Base58 → Bytes → Result Bytes
base58_decode_uuid b str = base58_decode b 16 str

-- What `base58_encode_key` writes of an array that is not empty, `base58_decode_key` reads back.
pub decode-encode :
    (b : Base58) (key s : Bytes)
    → 0 < length key
    → length key ≤ 64
    → base58_encode_key b key ≡ ok s
    → base58_decode b (length key) s ≡ ok key
unfolding base58_encode_key base58_decode
decode-encode b key s h k e =
    let (t, f) = b.enc_total key k in ground (arith, b.tobin_enc key t h k f)
