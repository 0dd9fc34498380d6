-- ===== src/Tests/Threads.antt =====
-- src/thread_pool.cpp at concrete inputs.
use memo_coin.Prelude.{◌≡◌, refl, false, some, List, [], ◌∷◌}
use memo_coin.ThreadPool.{
  ThreadPool, Label, init, step, run, pushes, looks, sleeps, ends, interrupts, notifies, deciding,
  running, locking,
}
use memo_coin.ThreadPool.Jobs.{Then}
use memo_coin.ThreadPool.Shutdown.{Asleep, torn_down, run-shutdown-Asleep}

abbrev labels : List Label
labels = pushes 5 ∷ pushes 6 ∷ looks 1 ∷ looks 0 ∷ ends 1 ∷ []

both_start :
    run labels (init 2)
    ≡ some (record {
      work_queue = [];
      started = 5 ∷ 6 ∷ [];
      interrupt = false;
      workers = running 6 ∷ locking ∷ [];
    })
unfolding run step init
both_start = refl

-- The first worker has looked at the empty queue.
abbrev waiting : ThreadPool
waiting = record {
  work_queue = [];
  started = [];
  interrupt = false;
  workers = deciding ∷ locking ∷ [];
}

waiting_reached : run (looks 0 ∷ []) (init 2) ≡ some waiting
unfolding run step init
waiting_reached = refl

run-shutdown-Asleep_example :
    (run (interrupts ∷ notifies ∷ sleeps 0 ∷ looks 1 ∷ []) waiting
      ≡ run (looks 1 ∷ []) (torn_down 0 waiting))
    × Asleep 0 (torn_down 0 waiting)
    × Then (Asleep 0) (run (looks 1 ∷ []) (torn_down 0 waiting))
run-shutdown-Asleep_example = run-shutdown-Asleep 0 waiting (looks 1 ∷ []) refl tt
