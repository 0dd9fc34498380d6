-- ===== src/CommandLine/Commands/Create.antt =====
-- src/dsc.cpp: a wallet from its creation to its first transaction.
use memo_coin.Prelude.{◌≡◌, refl, inl, inr, Option, Bytes, length, arith}
use memo_coin.Keys.{Base58, base58_encode_key}
use memo_coin.Keys.Generate.{create_wallet}
use memo_coin.Messages.{ok, Result-cases}
use memo_coin.TxPool.{TxPool}
use memo_coin.Config.{Yaml, Wallet, load_wallet, store_wallet}
use memo_coin.Config.Wallets.{load_wallet-store_wallet}
use memo_coin.Transactions.{Ed25519}
use memo_coin.CommandLine.Commands.{WalletText, display_wallet, cl_wallet_create}

displayed :
    (b : Base58) (w : Wallet)
    → length w.pub_key ≡ 32
    → length w.priv_key ≡ 32
    → (text : WalletText) × (display_wallet b w ≡ ok text)
unfolding display_wallet base58_encode_key
displayed b w h k =
    let (s, f) = b.enc_total w.pub_key (omega arith) in
    let (t, g) = b.enc_total w.priv_key (omega arith) in
    (record { pub_key = s; priv_key = t }, rw f (rw g refl))

module _ (y : Yaml) (b : Base58) (e : Ed25519) where
  open y use {Node, as_string, as_u64}

  -- The wallet of a private key.
  abbrev pub made : Bytes → Wallet
  made raw = record { priv_key = raw; pub_key = e.public_of raw }

  -- What a command leaves of the files' other entries.
  abbrev pub Kept : Node → Node → Type 0
  Kept config c =
      (as_u64 c "wallet" "nonce" ≡ as_u64 config "wallet" "nonce")
      × (as_string c "tx_pool" "address" ≡ as_string config "tx_pool" "address")

  store_wallet-Kept :
      (w : Wallet) (config key_file c k : Node)
      → store_wallet y b w config key_file ≡ ok (c, k)
      → Kept config c
  unfolding store_wallet
  store_wallet-Kept w config key_file c k h = elim (Result-cases (base58_encode_key b w.pub_key)) [
    | inr (_, f) ↦ absurd (let d = rw f at h in cc)
    | inl (s, f) ↦ elim (Result-cases (base58_encode_key b w.priv_key)) [
      | inr (_, g) ↦ absurd (let d = rw (f, g) at h in cc)
      | inl (t, g) ↦
          let d = rw (f, g) at h in
          let i : y.set_string config "wallet" "public_key" s ≡ c = cc in
          rw (← i) (
            y.as_u64-set_string config "wallet" "public_key" "wallet" "nonce" s refl,
            y.as_string-set_string config "wallet" "public_key" "tx_pool" "address" s,
          )
    ]
  ]

  -- Where the keys that `create_wallet` returns have 32 bytes, those that it has from OpenSSL or what
  -- its uninitialised arrays held: `wallet create` succeeds, `load_wallet` reads these keys from the
  -- two files afterwards, and the counter and the pool's address stay.
  pub cl_wallet_create-create_wallet :
      (pkey : Option Bytes) (junk : Bytes × Bytes) (config key_file : Node)
      → length (create_wallet e pkey junk).pub_key ≡ 32
      → length (create_wallet e pkey junk).priv_key ≡ 32
      → (c : Node) × (k : Node) × (text : WalletText) × (cl_wallet_create y b e pkey junk config
            key_file
          ≡ ok ((c, k), text))
        × (load_wallet y b c k ≡ ok (create_wallet e pkey junk))
        × Kept config c
  unfolding cl_wallet_create
  cl_wallet_create-create_wallet pkey junk config key_file h g =
      let w = create_wallet e pkey junk in
      let (c, k, s, l) = load_wallet-store_wallet y b w config key_file h g in
      let (text, d) = displayed b w h g in
      (c, k, text, rw s (rw d refl), l, store_wallet-Kept w config key_file c k s)
