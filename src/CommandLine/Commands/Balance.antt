-- ===== src/CommandLine/Commands/Balance.antt =====
-- src/dsc.cpp: the balance that a wallet prints.
use memo_coin.Prelude.{ℕ, ◌<◌, ◌≡◌, ◌↔◌, refl, Bool, true, Bytes, arith}
use memo_coin.Data.{Transaction}
use memo_coin.Keys.{Base58}
use memo_coin.Messages.{MessageType, Payload, ok}
use memo_coin.Wire.{Alpaca, Server, send_reply}
use memo_coin.Wire.RoundTrip.{is_sendable, call-serve, deserialize-serialize}
use memo_coin.TxPool.{TxPool}
use memo_coin.BlockChain.{BlockChain, good, get_balance}
use memo_coin.BlockChain.Ledger.{value_of}
use memo_coin.BlockChain.Dispatch as Chain
use memo_coin.Text.{i32_limit}
use memo_coin.Config.{Yaml, Wallet, load_wallet, get_blockchain_address}
use memo_coin.Clients.{query_balance}
use memo_coin.Network.{tx_pool, blockchain}
use memo_coin.CommandLine.Commands.{sign_extend, cl_wallet_balance}

sign_extend_iff : (n : ℕ) → (sign_extend n ≡ n) ↔ (n < i32_limit)
unfolding sign_extend
sign_extend_iff n = ground arith

module _ (y : Yaml) (b : Base58) (alpaca : Alpaca) {E : Type 0} where
  open y use {Node}

  module _ (valid : Transaction → Bool) (asked : Server E) where
    abbrev Sendable : MessageType → ℕ → Type 0
    Sendable type n = is_sendable alpaca alpaca.number n type ≡ true

    answered :
        (pub_key : Bytes) (c : BlockChain) (s : TxPool × E)
        → is_sendable alpaca alpaca.key pub_key MessageType.query_bal ≡ true
        → Sendable MessageType.status_good (value_of pub_key c.ledger)
        → query_balance alpaca (blockchain alpaca b valid asked) pub_key (c, s)
          ≡ ok ((c, s), value_of pub_key c.ledger)
    unfolding query_balance Chain.request_handler
    answered pub_key c s h k =
        let r =
          call-serve alpaca (Chain.request_handler alpaca b (tx_pool alpaca b valid asked))
            alpaca.key alpaca.number pub_key MessageType.query_bal (c, s) (c, s)
            (good (Payload.number (value_of pub_key c.ledger))) (value_of pub_key c.ledger) h k
            (unfold send_reply in refl)
            (rw (deserialize-serialize alpaca alpaca.key pub_key MessageType.query_bal h)
              (unfold get_balance in refl)) in
        rw r refl

    -- A wallet that loads, asks for its balance and has its messages in range changes no server
    -- and prints a number, which is the balance in the blockchain's ledger exactly if that
    -- balance is below 2 ^ 31.
    pub cl_wallet_balance_lem :
        (wallet : Wallet) (config key_file : Node) (address : Bytes) (c : BlockChain)
        (s : TxPool × E)
        → get_blockchain_address y config ≡ ok address
        → load_wallet y b config key_file ≡ ok wallet
        → is_sendable alpaca alpaca.key wallet.pub_key MessageType.query_bal ≡ true
        → Sendable MessageType.status_good (value_of wallet.pub_key c.ledger)
        → (printed : ℕ) × (cl_wallet_balance y b alpaca
              (blockchain alpaca b valid asked)
              config
              key_file
              (c, s)
            ≡ ok ((c, s), printed))
          × ((printed ≡ value_of wallet.pub_key c.ledger)
              ↔ (value_of wallet.pub_key c.ledger < i32_limit))
    unfolding cl_wallet_balance
    cl_wallet_balance_lem wallet config key_file address c s a l h k =
        (_, rw a (rw l (rw (answered wallet.pub_key c s h k) refl)), sign_extend_iff _)
