-- ===== src/Transactions.antt =====
-- src/transaction.cpp, and the signatures of src/keys.cpp. OpenSSL's Ed25519 is a parameter. The
-- signed bytes are those of the struct in memory, with the four bytes between `amount` and
-- `timestamp` that no member owns: they are an argument, `padding`.
pub mod Signed
use memo_coin.Prelude.{
  ℕ, ◌≡◌, ◌∙◌, ap, refl, Bool, true, not, ◌==◌, List, [], ◌∷◌, ◌++◌, Bytes, length, replicate,
  arith,
}
use memo_coin.Data.{Transaction, miner_reward}
use memo_coin.Keys.{zero_key}
use memo_coin.Consensus.{le_bytes}

-- `digest_verify` is what EVP_DigestVerify returns, an `int`.
pub record Ed25519 : Type 0 where
  pub public_of : Bytes → Bytes
  pub digest_sign : Bytes → Bytes → Bytes
  pub digest_verify : Bytes → Bytes → Bytes → ℕ
  pub verify_sign :
      (priv_key data_bytes : Bytes)
      → digest_verify (public_of priv_key) (digest_sign priv_key data_bytes) data_bytes ≡ 1

unfoldable pub sign_data_ed25519 : Ed25519 → Bytes → Bytes → Bytes
sign_data_ed25519 e priv_key data_bytes = e.digest_sign priv_key data_bytes

-- `is_valid = EVP_DigestVerify(...)`: every number but 0 becomes `true`.
unfoldable pub verify_signature_ed25519 : Ed25519 → Bytes → Bytes → Bytes → Bool
verify_signature_ed25519 e pub_key signature data_bytes =
    not (e.digest_verify pub_key signature data_bytes == 0)

unfoldable pub no_signature : Bytes
no_signature = replicate 64 0

-- `(uint8_t*) &tx`.
unfoldable pub tx_bytes : Bytes → Transaction → Bytes
tx_bytes padding t =
    t.src
    ++ (t.dest
        ++ (t.signature
            ++ (le_bytes 8 t.id ++ (le_bytes 4 t.amount ++ (padding ++ le_bytes 8 t.timestamp)))))

-- `tx.signature.fill(0)`.
unfoldable pub clear_signature : Transaction → Transaction
clear_signature t = record t { signature = no_signature }

unfoldable pub sign_transaction : Ed25519 → Bytes → Bytes → Transaction → Transaction
sign_transaction e padding priv_key t = record t {
  signature = sign_data_ed25519 e priv_key (tx_bytes padding (clear_signature t));
}

unfoldable pub verify_transaction_signature : Ed25519 → Bytes → Transaction → Bool
verify_transaction_signature e padding t =
    verify_signature_ed25519 e t.src t.signature (tx_bytes padding (clear_signature t))

-- `now` is the clock's reading.
unfoldable pub create_transaction :
    Ed25519 → Bytes → ℕ → Bytes → Bytes → Bytes → ℕ → ℕ → Transaction
create_transaction e padding now priv_key pub_key dest amount id =
    sign_transaction e padding priv_key (record {
      src = pub_key;
      dest = dest;
      signature = [];
      id = id;
      amount = amount;
      timestamp = now;
    })

unfoldable pub create_reward_transaction : Bytes → ℕ → Transaction
create_reward_transaction pub_key now = record {
  src = zero_key;
  dest = pub_key;
  signature = no_signature;
  id = 0;
  amount = miner_reward;
  timestamp = now;
}

-- A transaction that the wallet of a private key creates passes the check of its signature, where
-- the bytes of padding are the same when it is signed and when it is checked.
pub verify-create_transaction :
    (e : Ed25519) (padding priv_key dest : Bytes) (now amount id : ℕ)
    → verify_transaction_signature e padding
        (create_transaction e padding now priv_key (e.public_of priv_key) dest amount id)
      ≡ true
unfolding verify_transaction_signature verify_signature_ed25519 create_transaction sign_transaction
    sign_data_ed25519 clear_signature
verify-create_transaction e padding priv_key dest now amount id = rw (e.verify_sign priv_key _) refl
