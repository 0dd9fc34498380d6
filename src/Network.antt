-- ===== src/Network.antt =====
-- The servers together: the metronome, which asks the blockchain, which asks the pool. A state holds
-- the three records, and `E` for what the pool asks, which these paths do not reach.
pub mod Submit
pub mod Monitor
pub mod Round
pub mod Lifecycle
pub mod Interleaving
pub mod Accounts
pub mod Outcomes
pub mod Progress
pub mod Alone
pub mod Drain
pub mod Confirmable
pub mod Locks
pub mod Replay
pub mod Recovery
pub mod Answers
pub mod Validators
pub mod Payments
pub mod Apart
pub mod Ready
pub mod Steady
pub mod Once
pub mod Origin
pub mod Exactly
pub mod Balances
pub mod Twice
use memo_coin.Prelude.{ℕ, Bool}
use memo_coin.Data.{Transaction}
use memo_coin.Keys.{Base58}
use memo_coin.Messages.{Result, ok, err, ◌>>=◌}
use memo_coin.Wire.{Alpaca, Frames, Server, serve}
use memo_coin.TxPool.{TxPool}
use memo_coin.BlockChain.{BlockChain}
use memo_coin.Metronome.{Metronome}
use memo_coin.TxPool.Dispatch as Pool
use memo_coin.BlockChain.Dispatch as Chain
use memo_coin.Metronome.Dispatch as Clock

-- A server of a part of the state.
abbrev pub within : {A S : Type 0} → Server S → Server (A × S)
within server frames (a, s) = do (s', reply) ← server frames s; ok ((a, s'), reply)

module _ (alpaca : Alpaca) (b : Base58) {E : Type 0} where
  module _ (valid : Transaction → Bool) (asked : Server E) where
    abbrev pub tx_pool : Server (TxPool × E)
    tx_pool = serve alpaca (Pool.request_handler alpaca valid asked)

    abbrev pub blockchain : Server (BlockChain × (TxPool × E))
    blockchain = serve alpaca (Chain.request_handler alpaca b tx_pool)

    abbrev pub metronome : Server (Metronome × (BlockChain × (TxPool × E)))
    metronome = serve alpaca (Clock.request_handler alpaca blockchain)
