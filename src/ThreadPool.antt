-- ===== src/ThreadPool.antt =====
-- src/thread_pool.cpp: the queue of jobs, the workers, and the shutdown, one step at a time. A job is
-- its number. A worker holds `queue_lock` from its test until it takes a job, returns or sleeps.
pub mod Jobs
pub mod Shutdown
use memo_coin.Prelude.{
  ℕ, zero, suc, ◌≡◌, Bool, true, false, Option, none, some, List, [], ◌∷◌, ◌++◌, if◌then◌else◌,
  replicate, get_elem?,
}

-- About to take the lock; with the lock, the test having failed; in `notify_work.wait`; in a job;
-- out of `thread_loop`.
pub data Worker : Type 0 where
  locking deciding sleeping returned : Worker
  running : ℕ → Worker

-- `started` is the history of the jobs that workers took.
pub record ThreadPool : Type 0 where
  pub work_queue : List ℕ
  pub started : List ℕ
  pub interrupt : Bool
  pub workers : List Worker

unfoldable pub init : ℕ → ThreadPool
init num_threads = record {
  work_queue = [];
  started = [];
  interrupt = false;
  workers = replicate num_threads locking;
}

abbrev pub set_worker : ℕ → Worker → List Worker → List Worker
set_worker i w [] = []
set_worker zero w (v ∷ ws) = w ∷ ws
set_worker (suc i) w (v ∷ ws) = v ∷ set_worker i w ws

-- A worker holds the lock.
abbrev pub locked : List Worker → Bool
locked [] = false
locked (deciding ∷ ws) = true
locked (locking ∷ ws) = locked ws
locked (sleeping ∷ ws) = locked ws
locked (returned ∷ ws) = locked ws
locked (running j ∷ ws) = locked ws

abbrev wake : Worker → Worker
wake locking = locking
wake deciding = deciding
wake sleeping = locking
wake returned = returned
wake (running j) = running j

abbrev pub wake_all : List Worker → List Worker
wake_all [] = []
wake_all (w ∷ ws) = wake w ∷ wake_all ws

-- The test of `wait` and what follows it, for worker `i` on the queue `q`.
abbrev pub look : ℕ → Bool → List ℕ → ThreadPool → ThreadPool
look i true q p = record p { workers = set_worker i returned p.workers }
look i false [] p = record p { workers = set_worker i deciding p.workers }
look i false (j ∷ q) p = record p {
  work_queue = q;
  started = p.started ++ j ∷ [];
  workers = set_worker i (running j) p.workers;
}

-- `queue_job` up to the unlock; worker `i` takes the lock and looks, falls asleep, ends its job, or
-- is woken, by `notify_one` or without cause; the two first statements of `~ThreadPool`.
pub data Label : Type 0 where
  pushes looks sleeps ends wakes : ℕ → Label
  interrupts notifies : Label

abbrev move : ℕ → Worker → ThreadPool → ThreadPool
move i w p = record p { workers = set_worker i w p.workers }

abbrev pub looking : ℕ → Option Worker → ThreadPool → Option ThreadPool
looking i (some locking) p = some (look i p.interrupt p.work_queue p)
looking i (some deciding) p = none
looking i (some sleeping) p = none
looking i (some returned) p = none
looking i (some (running j)) p = none
looking i none p = none

abbrev pub sleeping_at : ℕ → Option Worker → ThreadPool → Option ThreadPool
sleeping_at i (some deciding) p = some (move i sleeping p)
sleeping_at i (some locking) p = none
sleeping_at i (some sleeping) p = none
sleeping_at i (some returned) p = none
sleeping_at i (some (running j)) p = none
sleeping_at i none p = none

abbrev pub ending : ℕ → Option Worker → ThreadPool → Option ThreadPool
ending i (some (running j)) p = some (move i locking p)
ending i (some locking) p = none
ending i (some deciding) p = none
ending i (some sleeping) p = none
ending i (some returned) p = none
ending i none p = none

abbrev pub waking : ℕ → Option Worker → ThreadPool → Option ThreadPool
waking i (some sleeping) p = some (move i locking p)
waking i (some locking) p = none
waking i (some deciding) p = none
waking i (some returned) p = none
waking i (some (running j)) p = none
waking i none p = none

-- No state where the step cannot be taken.
unfoldable pub step : Label → ThreadPool → Option ThreadPool
step (pushes j) p =
    if locked p.workers then none else some (record p { work_queue = p.work_queue ++ j ∷ [] })
step (looks i) p = if locked p.workers then none else looking i (get_elem? p.workers i) p
step (sleeps i) p = sleeping_at i (get_elem? p.workers i) p
step (ends i) p = ending i (get_elem? p.workers i) p
step (wakes i) p = waking i (get_elem? p.workers i) p
step interrupts p = some (record p { interrupt = true })
step notifies p = some (record p { workers = wake_all p.workers })

unfoldable pub run : List Label → ThreadPool → Option ThreadPool
run [] p = some p
run (l ∷ ls) p = elim (step l p) [ none ↦ none | some q ↦ run ls q ]
