-- ===== src/CommandLine/Commands/Posts.antt =====
-- src/dsc.cpp: the transactions that the commands post to the pool.
use memo_coin.Prelude.{
  ℕ, zero, suc, ◌+◌, ◌<◌, ◌≡◌, arith, refl, Bool, true, false, Bool-cases, inl, inr, List, [], ◌∷◌,
  Bytes, add32,
}
use memo_coin.Data.{Transaction}
use memo_coin.Keys.{Base58}
use memo_coin.Messages.{MessageType, ok}
use memo_coin.Wire.{Alpaca, Server}
use memo_coin.TxPool.{TxPool, add_transaction}
use memo_coin.Config.{Yaml, Wallet, u64_mod}
use memo_coin.Transactions.{Ed25519, verify_transaction_signature, verify-create_transaction}
use memo_coin.Clients.{submit_transaction}
use memo_coin.Network.{tx_pool}
use memo_coin.Network.Submit.{Acknowledges, Sendable, submit_transaction-add_transaction}
use memo_coin.CommandLine.Commands.{created, submit_loop}
use memo_coin.Wallet

-- The pool after it took the transactions, one after another.
abbrev pub post_all : List Transaction → TxPool → TxPool
post_all [] p = p
post_all (t ∷ ts) p = post_all ts (add_transaction true t p).0

refused : (tx : Transaction) (p : TxPool) → (add_transaction false tx p).0 ≡ p
unfolding add_transaction
refused tx p = refl

module _ (y : Yaml) (b : Base58) (alpaca : Alpaca) {E : Type 0} where
  module _ (e : Ed25519) (padding : Bytes) (asked : Server E) where
    abbrev pub valid : Transaction → Bool
    valid = verify_transaction_signature e padding

    abbrev pub pool : Server (TxPool × E)
    pool = tx_pool alpaca b valid asked

    abbrev pub tx_of : Wallet → Bytes → ℕ → ℕ → ℕ → Transaction
    tx_of = created y b alpaca e padding pool

    -- The pool's replies are in range, and the transaction at any time and with any id of 64 bits.
    pub record Reaches (wallet : Wallet) (dest : Bytes) (amount : ℕ) : Type 0 where
      pub acknowledges : Acknowledges alpaca b valid asked
      pub sendable :
          (now id : ℕ)
          → now < u64_mod
          → id < u64_mod
          → Sendable alpaca b valid asked alpaca.transaction
              (tx_of wallet dest amount now id)
              MessageType.post_tx

    submit_loop-send_loop :
        (clock : ℕ → ℕ) (wallet : Wallet) (dest : Bytes) (amount id i n : ℕ) (p : TxPool) (s : E)
        → Reaches wallet dest amount
        → ((j : ℕ) → clock j < u64_mod)
        → submit_loop y b alpaca e padding pool clock wallet dest amount id i n (p, s) ≡ (
            let r =
              Wallet.send_loop e padding wallet.priv_key wallet.pub_key dest amount clock valid id i
                n in
            ok ((post_all r.1 p, s), r.0))
    unfolding submit_loop Wallet.send_loop
    submit_loop-send_loop clock wallet dest amount id i zero p s h w = refl
    submit_loop-send_loop clock wallet dest amount id i (suc n) p s h w =
        let tx = tx_of wallet dest amount (clock i) (add32 id i) in
        let q =
          submit_transaction-add_transaction alpaca b valid asked tx p s h.acknowledges
            (h.sendable (clock i) (add32 id i) (w i) (unfold add32 in omega arith)) in
        rw q (elim (Bool-cases (valid tx)) [
          | inl v ↦ rw v (
              submit_loop-send_loop clock wallet dest amount id (i + 1) n
                (add_transaction true tx p).0 s h w)
          | inr v ↦ rw v (rw (refused tx p) refl)
        ])

    pub looped :
        (clock : ℕ → ℕ) (wallet : Wallet) (dest : Bytes) (amount id n : ℕ) (s : TxPool × E)
        → Reaches wallet dest amount
        → ((j : ℕ) → clock j < u64_mod)
        → submit_loop y b alpaca e padding pool clock wallet dest amount id 0 n s ≡ (
            let r =
              Wallet.send_loop e padding wallet.priv_key wallet.pub_key dest amount clock valid id 0
                n in
            ok ((post_all r.1 s.0, s.1), r.0))
    looped clock wallet dest amount id n s h w =
        submit_loop-send_loop clock wallet dest amount id 0 n s.0 s.1 h w

    pub posted :
        (tx : Transaction) (s : TxPool × E)
        → Sendable alpaca b valid asked alpaca.transaction tx MessageType.post_tx
        → Acknowledges alpaca b valid asked
        → valid tx ≡ true
        → submit_transaction alpaca pool tx s ≡ ok (((add_transaction true tx s.0).0, s.1), true)
    posted tx s h a v =
        rw (submit_transaction-add_transaction alpaca b valid asked tx s.0 s.1 a h) (rw v refl)

    pub created_valid :
        (wallet : Wallet) (dest : Bytes) (amount now id : ℕ)
        → wallet.pub_key ≡ e.public_of wallet.priv_key
        → valid (tx_of wallet dest amount now id) ≡ true
    created_valid wallet dest amount now id k =
        rw k (verify-create_transaction e padding wallet.priv_key dest now amount id)
