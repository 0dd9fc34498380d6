-- ===== src/Network/Interleaving.antt =====
-- The metronome, the blockchain and the pool side by side: one step is what one of them does under
-- its lock (`block_mutex` of src/metronome.cpp, `blockmutex` of src/blockchain.cpp, `tx_lock` of
-- src/tx_pool.cpp). The blockchain replies to a block before it asks the pool to confirm it, so that
-- posts, pops and the metronome's own steps come in between.
use memo_coin.Prelude.{ℕ, zero, suc, ◌≡◌, Bool, Option, none, some, List, [], ◌∷◌, ◌++◌}
use memo_coin.Data.{Transaction, Block}
use memo_coin.Keys.{Base58}
use memo_coin.Messages.{Reply, Sent, ok}
use memo_coin.TxPool.{TxPool}
use memo_coin.BlockChain.{BlockChain, add_block}
use memo_coin.Metronome.{Metronome}
use memo_coin.TxPool.History.{Request, posts, pops, confirms}
use memo_coin.TxPool.History as History
use memo_coin.Metronome.Steps.{Phase, waiting}
use memo_coin.Metronome.Steps as Clock

-- `pending` is the block that `add_block` has taken, while it still holds `blockmutex` and the pool
-- has not confirmed it.
pub record System : Type 0 where
  pub phase : Phase
  pub clock : Metronome
  pub chain : BlockChain
  pub pending : Option Block
  pub pool : TxPool

-- One step, with the request that the pool served in it and the block that the blockchain took.
pub data Step (b : Base58) : System → List Request → List Block → System → Type 0 where
  -- The metronome wakes, times out, updates the difficulty, registers a validator, or refuses a block.
  ticks :
      (s : System) {g : Phase} {m : Metronome}
      → Clock.Step s.phase s.clock [] g m
      → Step b s [] [] (record s { phase = g; clock = m })
  -- The metronome sends a block and holds its lock until the blockchain, which has to have its own
  -- lock for it, replies that it took the block.
  commits :
      (s : System) (x : Block) {g : Phase} {m : Metronome} {c : BlockChain} {reply : Reply}
      {sent : Sent}
      → Clock.Step s.phase s.clock (x ∷ []) g m
      → s.pending ≡ none
      → add_block b x s.chain ≡ ok (c, reply, sent)
      → Step b s []
          (x ∷ [])
          (record s { phase = g; clock = m; chain = c; pending = some sent.block })
  -- The pool confirms the block, and `add_block` returns.
  settles :
      (s : System) (x : Block)
      → s.pending ≡ some x
      → Step b s
          (confirms x ∷ [])
          []
          (record s { pending = none; pool = History.step s.pool (confirms x) })
  -- A client posts a transaction.
  submits :
      (s : System) (valid : Bool) (tx : Transaction)
      → Step b s (posts valid tx ∷ []) [] (record s { pool = History.step s.pool (posts valid tx) })
  -- A validator takes transactions.
  hands_out : (s : System) → Step b s (pops ∷ []) [] (record s { pool = History.step s.pool pops })

-- `Reach b s n rs xs s'`: in `n` steps from `s`, the requests `rs` of the pool and the blocks `xs`
-- of the chain, oldest first.
pub data Reach (b : Base58) (s : System) : ℕ → List Request → List Block → System → Type 0 where
  here : Reach b s zero [] [] s
  next :
      {n : ℕ} {rs qs : List Request} {xs ys : List Block} {s1 s2 : System}
      → Reach b s n rs xs s1
      → Step b s1 qs ys s2
      → Reach b s (suc n) (rs ++ qs) (xs ++ ys) s2
