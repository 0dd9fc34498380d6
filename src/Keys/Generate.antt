-- ===== src/Keys/Generate.antt =====
-- src/keys.cpp and src/wallet.cpp: new keys. OpenSSL's generator is a parameter: the private key that
-- it makes, or none if it leaves `pkey` NULL.
use memo_coin.Prelude.{Option, none, some, Bytes}
use memo_coin.Config.{Wallet}
use memo_coin.Transactions.{Ed25519}

-- What `pub_key` and `priv_key` hold afterwards, of what they held before.
unfoldable pub gen_keys_ed25519 : Ed25519 → Option Bytes → Bytes × Bytes → Bytes × Bytes
gen_keys_ed25519 e none keys = keys
gen_keys_ed25519 e (some raw) keys = (e.public_of raw, raw)

-- `junk` is what the two arrays, which are created without a value, happen to hold.
unfoldable pub create_wallet : Ed25519 → Option Bytes → Bytes × Bytes → Wallet
unfolding gen_keys_ed25519
create_wallet e pkey junk =
    let (pub_key, priv_key) = gen_keys_ed25519 e pkey junk in
    record { priv_key = priv_key; pub_key = pub_key }
