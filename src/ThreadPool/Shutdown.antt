-- ===== src/ThreadPool/Shutdown.antt =====
-- src/thread_pool.cpp: a worker that falls asleep behind `notify_all` of the destructor.
use memo_coin.Prelude.{
  ℕ, zero, suc, ◌≡◌, ◌≢◌, refl, Bool, true, false, Option, none, some, List, [], ◌∷◌, if◌then◌else◌,
  get_elem?,
}
use memo_coin.ThreadPool.{
  ThreadPool, Worker, Label, wake_all, set_worker, look, looking, sleeping_at, ending, step, run,
  locked, looks, sleeps, ends, wakes, pushes, interrupts, notifies, locking, deciding, sleeping,
  returned, running,
}
use memo_coin.ThreadPool.Jobs.{Then}

-- The worker still sleeps.
abbrev pub Asleep : ℕ → ThreadPool → Type 0
Asleep i p = get_elem? p.workers i ≡ some sleeping

-- Steps of the workers alone: nobody is woken, and nobody calls the pool any more.
abbrev pub AreQuiet : List Label → Type 0
AreQuiet [] = Unit
AreQuiet (looks i ∷ ls) = AreQuiet ls
AreQuiet (sleeps i ∷ ls) = AreQuiet ls
AreQuiet (ends i ∷ ls) = AreQuiet ls
AreQuiet (pushes j ∷ ls) = ⊥
AreQuiet (wakes i ∷ ls) = ⊥
AreQuiet (interrupts ∷ ls) = ⊥
AreQuiet (notifies ∷ ls) = ⊥

-- Setting a worker that does not sleep leaves a sleeping one.
set_other :
    (i j : ℕ) (w v : Worker) (ws : List Worker)
    → get_elem? ws i ≡ some sleeping
    → get_elem? ws j ≡ some v
    → v ≢ sleeping
    → get_elem? (set_worker j w ws) i ≡ some sleeping
set_other i j w v [] e f n = e
set_other zero zero w v (x ∷ ws) e f n = absurd (n (cc (e, f)))
set_other zero (suc j) w v (x ∷ ws) e f n = e
set_other (suc i) zero w v (x ∷ ws) e f n = e
set_other (suc i) (suc j) w v (x ∷ ws) e f n = set_other i j w v ws e f n

look-Asleep :
    (i j : ℕ) (stop : Bool) (q : List ℕ) (p : ThreadPool)
    → Asleep i p
    → get_elem? p.workers j ≡ some locking
    → Asleep i (look j stop q p)
look-Asleep i j true q p e f = set_other i j returned locking p.workers e f (λ h. cc)
look-Asleep i j false [] p e f = set_other i j deciding locking p.workers e f (λ h. cc)
look-Asleep i j false (k ∷ q) p e f = set_other i j (running k) locking p.workers e f (λ h. cc)

looking-Asleep :
    (i j : ℕ) (w : Option Worker) (p : ThreadPool)
    → Asleep i p
    → get_elem? p.workers j ≡ w
    → Then (Asleep i) (looking j w p)
looking-Asleep i j (some locking) p e f = look-Asleep i j p.interrupt p.work_queue p e f
looking-Asleep i j (some deciding) p e f = tt
looking-Asleep i j (some sleeping) p e f = tt
looking-Asleep i j (some returned) p e f = tt
looking-Asleep i j (some (running k)) p e f = tt
looking-Asleep i j none p e f = tt

sleeping_at-Asleep :
    (i j : ℕ) (w : Option Worker) (p : ThreadPool)
    → Asleep i p
    → get_elem? p.workers j ≡ w
    → Then (Asleep i) (sleeping_at j w p)
sleeping_at-Asleep i j (some deciding) p e f =
    set_other i j sleeping deciding p.workers e f (λ h. cc)
sleeping_at-Asleep i j (some locking) p e f = tt
sleeping_at-Asleep i j (some sleeping) p e f = tt
sleeping_at-Asleep i j (some returned) p e f = tt
sleeping_at-Asleep i j (some (running k)) p e f = tt
sleeping_at-Asleep i j none p e f = tt

ending-Asleep :
    (i j : ℕ) (w : Option Worker) (p : ThreadPool)
    → Asleep i p
    → get_elem? p.workers j ≡ w
    → Then (Asleep i) (ending j w p)
ending-Asleep i j (some (running k)) p e f =
    set_other i j locking (running k) p.workers e f (λ h. cc)
ending-Asleep i j (some locking) p e f = tt
ending-Asleep i j (some deciding) p e f = tt
ending-Asleep i j (some sleeping) p e f = tt
ending-Asleep i j (some returned) p e f = tt
ending-Asleep i j none p e f = tt

went :
    (i : ℕ) (ls : List Label) (o : Option ThreadPool)
    → Then (Asleep i) o
    → ((q : ThreadPool) → Asleep i q → Then (Asleep i) (run ls q))
    → Then (Asleep i) (elim o as (λ _. Option ThreadPool) [ none ↦ none | some q ↦ run ls q ])
went i ls none v w = tt
went i ls (some q) v w = w q v

unless :
    (i : ℕ) (l : Bool) (o : Option ThreadPool)
    → Then (Asleep i) o
    → Then (Asleep i) (if l then none else o)
unless i true o h = tt
unless i false o h = h

run-Asleep :
    (i : ℕ) (ls : List Label) (p : ThreadPool)
    → AreQuiet ls
    → Asleep i p
    → Then (Asleep i) (run ls p)
unfolding run step
run-Asleep i [] p v e = e
run-Asleep i (looks j ∷ ls) p v e =
    went i ls _
      (unless i (locked p.workers) (looking j (get_elem? p.workers j) p)
        (looking-Asleep i j (get_elem? p.workers j) p e refl))
      (λ q f. run-Asleep i ls q v f)
run-Asleep i (sleeps j ∷ ls) p v e =
    went i ls _ (sleeping_at-Asleep i j (get_elem? p.workers j) p e refl)
      (λ q f. run-Asleep i ls q v f)
run-Asleep i (ends j ∷ ls) p v e =
    went i ls _ (ending-Asleep i j (get_elem? p.workers j) p e refl) (λ q f. run-Asleep i ls q v f)
run-Asleep i (pushes j ∷ ls) p v e = absurd v
run-Asleep i (wakes j ∷ ls) p v e = absurd v
run-Asleep i (interrupts ∷ ls) p v e = absurd v
run-Asleep i (notifies ∷ ls) p v e = absurd v

wake_all-deciding :
    (i : ℕ) (ws : List Worker)
    → get_elem? ws i ≡ some deciding
    → get_elem? (wake_all ws) i ≡ some deciding
wake_all-deciding i [] e = e
wake_all-deciding zero (deciding ∷ ws) e = refl
wake_all-deciding zero (locking ∷ ws) e = absurd cc
wake_all-deciding zero (sleeping ∷ ws) e = absurd cc
wake_all-deciding zero (returned ∷ ws) e = absurd cc
wake_all-deciding zero (running j ∷ ws) e = absurd cc
wake_all-deciding (suc i) (w ∷ ws) e = wake_all-deciding i ws e

set_self :
    (i : ℕ) (w v : Worker) (ws : List Worker)
    → get_elem? ws i ≡ some v
    → get_elem? (set_worker i w ws) i ≡ some w
set_self i w v [] e = absurd cc
set_self zero w v (x ∷ ws) e = refl
set_self (suc i) w v (x ∷ ws) e = set_self i w v ws e

-- Both statements of the destructor that come before the joins, and then the sleep of worker `i`.
abbrev pub torn_down : ℕ → ThreadPool → ThreadPool
torn_down i p = record p { interrupt = true; workers = set_worker i sleeping (wake_all p.workers) }

-- The destructor sets `interrupt` without the lock. If it does so, and calls `notify_all`, while
-- a worker holds the lock and has found its test false, then the worker falls asleep afterwards,
-- and sleeps in every state that is reached unless it is woken without cause or another call comes:
-- it does not return, and the destructor's join waits for it.
pub run-shutdown-Asleep :
    (i : ℕ) (p : ThreadPool) (ls : List Label)
    → get_elem? p.workers i ≡ some deciding
    → AreQuiet ls
    → (run (interrupts ∷ notifies ∷ sleeps i ∷ ls) p ≡ run ls (torn_down i p))
      × Asleep i (torn_down i p)
      × Then (Asleep i) (run ls (torn_down i p))
unfolding run step
run-shutdown-Asleep i p ls e v =
    let d = wake_all-deciding i p.workers e in
    let s = set_self i sleeping deciding (wake_all p.workers) d in
    (rw (d, run) refl, s, run-Asleep i ls (torn_down i p) v s)
