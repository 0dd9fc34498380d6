-- ===== src/Config/Wallets.antt =====
-- src/config.cpp: wallets and their counters of transaction ids, stored and read back.
use memo_coin.Prelude.{ℕ, ◌+◌, ◌%◌, ◌≡◌, refl, subst, Bytes, length, arith}
use memo_coin.Keys.{Base58, base58_encode_key, base58_decode, decode-encode}
use memo_coin.Messages.{ok}
use memo_coin.Config.{Yaml, Wallet, u64_mod, load_wallet, store_wallet, get_tx_id}
use memo_coin.Wallet

-- The text of a key, and what is read of it.
written :
    (b : Base58) (key : Bytes)
    → length key ≡ 32
    → (s : Bytes) × (base58_encode_key b key ≡ ok s) × (base58_decode b 32 s ≡ ok key)
unfolding base58_encode_key
written b key e =
    let (s, f) = b.enc_total key (omega arith) in
    let w : base58_encode_key b key ≡ ok s = rw f refl in
    (
      s,
      w,
      subst (λ m. base58_decode b m s ≡ ok key) e
          (decode-encode b key s (omega arith) (omega arith) w),
    )

module _ (y : Yaml) (b : Base58) where
  open y use {Node, as_string, as_u64, set_string, set_u64}

  -- Storing a wallet with keys of 32 bytes in any two files does not throw, and what is loaded from
  -- the files afterwards is the wallet.
  pub load_wallet-store_wallet :
      (w : Wallet) (config private_config : Node)
      → length w.pub_key ≡ 32
      → length w.priv_key ≡ 32
      → (c : Node) × (k : Node) × (store_wallet y b w config private_config ≡ ok (c, k))
        × (load_wallet y b c k ≡ ok w)
  unfolding store_wallet load_wallet
  load_wallet-store_wallet w config private_config h g =
      let (s, e, d) = written b w.pub_key h in
      let (t, f, q) = written b w.priv_key g in
      (
        set_string config "wallet" "public_key" s,
        set_string private_config "wallet" "private_key" t,
        rw e (rw f refl),
        rw (y.as_string-set_string config "wallet" "public_key" "wallet" "public_key" s) (
            rw
              (y.as_string-set_string private_config "wallet" "private_key" "wallet" "private_key"
                t)
              (rw d (rw q refl))),
      )

  -- The counter in the file behaves as the number that `send` and `send_multi` count with, and
  -- handing out an id leaves the wallet's key as it was.
  pub get_tx_id-as_u64 :
      (config private_config : Node) (nonce : ℕ)
      → as_u64 config "wallet" "nonce" ≡ ok nonce
      → (c : Node) × (get_tx_id y config ≡ ok ((Wallet.get_tx_id nonce).0, c))
        × (as_u64 c "wallet" "nonce" ≡ ok (Wallet.get_tx_id nonce).1)
        × (load_wallet y b c private_config ≡ load_wallet y b config private_config)
  unfolding get_tx_id Wallet.get_tx_id load_wallet
  get_tx_id-as_u64 config private_config nonce e =
      let n = (nonce + 1) % u64_mod in
      (
        set_u64 config "wallet" "nonce" n,
        rw e refl,
        y.as_u64-set_u64 config "wallet" "nonce" "wallet" "nonce" n (omega arith),
        rw (y.as_string-set_u64 config "wallet" "nonce" "wallet" "public_key" n refl) refl,
      )
