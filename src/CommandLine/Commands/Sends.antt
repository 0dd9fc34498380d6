-- ===== src/CommandLine/Commands/Sends.antt =====
-- src/dsc.cpp: what the commands that send do to the configuration and to the pool.
use memo_coin.Prelude.{
  ℕ, ◌+◌, ◌%◌, ◌≤◌, ◌<◌, ◌≡◌, refl, true, Bool-cases, inl, inr, ltb, Bytes, length, add32, u32_mod,
  arith,
}
use memo_coin.Data.{Transaction}
use memo_coin.Keys.{Base58, base58_encode_key, base58_decode}
use memo_coin.Messages.{ok}
use memo_coin.Wire.{Alpaca, Server}
use memo_coin.Text.{i32_limit, stoi}
use memo_coin.TxPool.{TxPool, add_transaction}
use memo_coin.Config.{Yaml, Wallet, load_wallet, get_tx_id, set_tx_id, get_tx_pool_address, u64_mod}
use memo_coin.Transactions.{Ed25519, create_transaction, sign_transaction}
use memo_coin.Clients.{as_int}
use memo_coin.CommandLine.Commands.{
  TransactionText, World, display_transaction, cl_wallet_send, cl_wallet_send_multi,
}
use memo_coin.Wallet
use memo_coin.CommandLine.Commands.Posts.{
  valid, pool, tx_of, Reaches, post_all, looped, posted, created_valid,
}

module _ (y : Yaml) (b : Base58) (alpaca : Alpaca) {E : Type 0} where
  open y use {Node, as_string, as_u64, set_u64}

  module _ (e : Ed25519) (padding : Bytes) (asked : Server E) where
    -- The arguments and the files are ones that the commands can read.
    pub record Reads (w : World Node (TxPool × E)) (arg_amount arg_address : Bytes)
        (wallet : Wallet) (dest : Bytes) (amount nonce : ℕ) (address : Bytes) : Type 0 where
      pub decoded : base58_decode b 32 arg_address ≡ ok dest
      pub parsed : stoi arg_amount ≡ ok amount
      pub loaded : load_wallet y b w.config w.key_file ≡ ok wallet
      pub counter : as_u64 w.config "wallet" "nonce" ≡ ok nonce
      pub located : as_string w.config "tx_pool" "address" ≡ ok address

    -- The configuration after an id was handed out.
    abbrev counted : Node → ℕ → Node
    counted config nonce = set_u64 config "wallet" "nonce" ((nonce + 1) % u64_mod)

    counted-as_u64 :
        (config : Node) (n : ℕ)
        → as_u64 (counted config n) "wallet" "nonce" ≡ ok ((n + 1) % u64_mod)
    counted-as_u64 config n =
        y.as_u64-set_u64 config "wallet" "nonce" "wallet" "nonce" _ (omega arith)

    shown :
        (tx : Transaction)
        → length tx.src ≤ 64
        → length tx.dest ≤ 64
        → (text : TransactionText) × (display_transaction b tx ≡ ok text)
    unfolding display_transaction base58_encode_key
    shown tx h k =
        let (s, f) = b.enc_total tx.src h in
        let (t, g) = b.enc_total tx.dest k in
        let text : TransactionText = record {
          src = s;
          dest = t;
          amount = as_int tx.amount;
          id = tx.id;
          timestamp = tx.timestamp;
          signature = tx.signature;
        } in
        (text, rw f (rw g refl))

    module _ (w : World Node (TxPool × E)) (arg_amount arg_address : Bytes) (wallet : Wallet)
        (dest : Bytes) (amount nonce : ℕ) (address : Bytes) where
      -- Where the arguments and files can be read and the time, the id and the messages are in
      -- range: a send with a
      -- wallet whose keys belong together posts one transaction, signed by that wallet, with the
      -- id that the counter holds, and leaves the counter one higher, modulo 2 ^ 64.
      pub cl_wallet_send-add_transaction :
          (now : ℕ)
          → now < u64_mod
          → nonce < u64_mod
          → Reads w arg_amount arg_address wallet dest amount nonce address
          → Reaches y b alpaca e padding asked wallet dest amount
          → wallet.pub_key ≡ e.public_of wallet.priv_key
          → length wallet.pub_key ≤ 64
          → length dest ≤ 64
          → (config : Node) × (text : TransactionText) × (cl_wallet_send y b alpaca e padding
                (pool y b alpaca e padding asked)
                now
                arg_amount
                arg_address
                w
              ≡ ok (
                record w {
                  config = config;
                  servers = (
                    (add_transaction true
                        (tx_of y b alpaca e padding asked wallet dest amount now nonce)
                        w.servers.0).0,
                    w.servers.1,
                  );
                },
                (text, true),
              ))
            × (as_u64 config "wallet" "nonce" ≡ ok ((nonce + 1) % u64_mod))
      unfolding cl_wallet_send get_tx_id get_tx_pool_address create_transaction sign_transaction
      cl_wallet_send-add_transaction now t u r h k g l =
          let tx = tx_of y b alpaca e padding asked wallet dest amount now nonce in
          let v : valid y b alpaca e padding asked tx ≡ true =
            created_valid y b alpaca e padding asked wallet dest amount now nonce k in
          let q =
            posted y b alpaca e padding asked tx w.servers (h.sendable now nonce t u) h.acknowledges
              v in
          let (text, d) = shown tx g l in
          let a =
            y.as_string-set_u64 w.config "wallet" "nonce" "tx_pool" "address"
              ((nonce + 1) % u64_mod) refl in
          (
            counted w.config nonce,
            text,
            rw (r.decoded)
                (rw r.parsed (rw r.loaded (rw r.counter (rw d (rw a (rw r.located (rw q refl))))))),
            counted-as_u64 w.config nonce,
          )

      -- Where the arguments and files can be read, every reading of the clock is below 2 ^ 64, and
      -- the pool's replies and the transactions with times and ids of 64 bits are in range, for a
      -- count below 2 ^ 31: `send_multi` on the files and with the pool's server does what the model of
      -- it on a counter does: the pool takes the same transactions, one after another, the
      -- command succeeds in the same cases, and the counter ends at the same number.
      pub cl_wallet_send_multi-send_multi :
          (clock : ℕ → ℕ) (arg_count : Bytes) (count : ℕ)
          → Reads w arg_amount arg_address wallet dest amount nonce address
          → Reaches y b alpaca e padding asked wallet dest amount
          → stoi arg_count ≡ ok count
          → count < i32_limit
          → ((j : ℕ) → clock j < u64_mod)
          → (let o =
                Wallet.send_multi e padding wallet.priv_key wallet.pub_key dest amount clock
                  (valid y b alpaca e padding asked)
                  count
                  nonce in
              (config : Node) × (cl_wallet_send_multi y b alpaca e padding
                  (pool y b alpaca e padding asked)
                  clock
                  arg_amount
                  arg_address
                  arg_count
                  w
                ≡ ok (
                  record w {
                    config = config;
                    servers = (post_all o.taken w.servers.0, w.servers.1);
                  },
                  o.succeeds,
                ))
              × (as_u64 config "wallet" "nonce" ≡ ok o.nonce))
      unfolding cl_wallet_send_multi Wallet.send_multi get_tx_id get_tx_pool_address
          Wallet.get_tx_id Wallet.set_tx_id set_tx_id
      cl_wallet_send_multi-send_multi clock arg_count count r h k m z =
          let q =
            looped y b alpaca e padding asked clock wallet dest amount (nonce % u32_mod) count
              w.servers h z in
          let o =
            Wallet.send_loop e padding wallet.priv_key wallet.pub_key dest amount clock
              (valid y b alpaca e padding asked) (nonce % u32_mod) 0 count in
          let small : ltb count i32_limit ≡ true = ground arith in
          elim (Bool-cases o.0) [
            | inl v ↦ (
              set_u64 (counted w.config nonce) "wallet" "nonce" (add32 (nonce % u32_mod) count),
              rw r.decoded (
                  rw r.parsed (
                    rw k
                      (rw r.loaded (rw r.located (rw r.counter (rw small (rw q (rw v refl)))))))),
              rw v (
                  y.as_u64-set_u64 (counted w.config nonce) "wallet" "nonce" "wallet" "nonce"
                    (add32 (nonce % u32_mod) count) (unfold add32 in omega arith)),
            )
            | inr v ↦ (
              counted w.config nonce,
              rw r.decoded (
                  rw r.parsed (
                    rw k
                      (rw r.loaded (rw r.located (rw r.counter (rw small (rw q (rw v refl)))))))),
              rw v (counted-as_u64 w.config nonce),
            )
          ]
