-- ===== src/Network/Locks.antt =====
-- Who waits for whom: `query_tx_status` of src/tx_pool.cpp asks the blockchain and holds `tx_lock`,
-- `add_block` of src/blockchain.cpp asks the pool, which needs `tx_lock`, and holds `blockmutex` and a
-- worker, and the metronome sends one block at a time, until the reply. The other handlers end by
-- themselves and are left out.
use memo_coin.Prelude.{ℕ, suc, ◌≡◌, Bool, true, false, if◌then◌else◌}

-- `free` are the blockchain's workers that wait for a request. Some `add_block` waits for
-- `blockmutex`; some has it and waits for the pool; a query of the pool waits for the blockchain.
pub record Locks : Type 0 where
  pub free : ℕ
  pub waiting : Bool
  pub settling : Bool
  pub asking : Bool

abbrev pub idle_with : ℕ → Locks
idle_with workers = record { free = workers; waiting = false; settling = false; asking = false }

-- A step of the metronome: it is not waiting and sends a block, and a worker takes it.
pub data ClockStep (l : Locks) : Locks → Type 0 where
  sends :
      (n : ℕ)
      → l.free ≡ suc n
      → l.waiting ≡ false
      → ClockStep l (record l { free = n; waiting = true })

-- A step of `add_block`: `lock(blockmutex)`, and then the reply to the metronome; and the pool takes
-- `tx_lock` to confirm the block, and `add_block` returns.
pub data ChainStep (l : Locks) : Locks → Type 0 where
  locks :
      l.waiting ≡ true
      → l.settling ≡ false
      → ChainStep l (record l { waiting = false; settling = true })
  settles :
      l.settling ≡ true
      → l.asking ≡ false
      → ChainStep l (record l { free = suc l.free; settling = false })

-- A step of `query_tx_status`: it takes `tx_lock` and asks the blockchain; a worker of that answers.
pub data PoolStep (l : Locks) : Locks → Type 0 where
  asks : l.asking ≡ false → PoolStep l (record l { asking = true })
  answers : (n : ℕ) → l.free ≡ suc n → l.asking ≡ true → PoolStep l (record l { asking = false })

pub data Step (l k : Locks) : Type 0 where
  clock : ClockStep l k → Step l k
  chain : ChainStep l k → Step l k
  pool : PoolStep l k → Step l k

pub data Reach (l : Locks) : Locks → Type 0 where
  here : Reach l l
  next : {m k : Locks} → Reach l m → Step m k → Reach l k

-- No handler can go on, and none can start.
abbrev pub IsStuck : Locks → Type 0
IsStuck l = (k : Locks) → Step l k → ⊥

abbrev count : Bool → ℕ
count b = if b then 1 else 0

-- What a run from idle servers can end in.
abbrev pub Deadlocks : ℕ → Type 0
Deadlocks workers = (l : Locks) × Reach (idle_with workers) l × IsStuck l

abbrev locks_at : ℕ → Bool → Bool → Bool → Locks
locks_at free w s a = record { free = free; waiting = w; settling = s; asking = a }

-- From whatever the idle servers have come to, they can come to be idle again.
abbrev pub Recovers : ℕ → Type 0
Recovers workers = (l : Locks) → Reach (idle_with workers) l → Reach l (idle_with workers)
