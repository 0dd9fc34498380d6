-- ===== src/ThreadPool/Jobs.antt =====
-- src/thread_pool.cpp: what happens to the jobs, whatever the interleaving.
use memo_coin.Prelude.{
  ℕ, ◌≡◌, ◌∙◌, ap, refl, sym, Bool, true, false, Option, none, some, List, [], ◌∷◌, ◌++◌,
  append-nil, append_assoc, if◌then◌else◌, get_elem?,
}
use memo_coin.ThreadPool.{
  ThreadPool, Worker, init, Label, look, looking, sleeping_at, ending, waking, step, run, locked,
  pushes, looks, sleeps, ends, wakes, interrupts, notifies, locking, deciding, sleeping, returned,
  running,
}

-- Of every state that is reached.
abbrev pub Then : (ThreadPool → Type 0) → Option ThreadPool → Type 0
Then P none = Unit
Then P (some p) = P p

-- The jobs that a run queues.
abbrev pub pushed : List Label → List ℕ
pushed [] = []
pushed (pushes j ∷ ls) = j ∷ pushed ls
pushed (looks i ∷ ls) = pushed ls
pushed (sleeps i ∷ ls) = pushed ls
pushed (ends i ∷ ls) = pushed ls
pushed (wakes i ∷ ls) = pushed ls
pushed (interrupts ∷ ls) = pushed ls
pushed (notifies ∷ ls) = pushed ls

-- From `p` to `q` the jobs `js` are queued.
pub record Keeps (p : ThreadPool) (js : List ℕ) (q : ThreadPool) : Type 0 where
  pub jobs : q.started ++ q.work_queue ≡ (p.started ++ p.work_queue) ++ js
  pub stopped : p.interrupt ≡ true → (q.interrupt ≡ true) × (q.started ≡ p.started)

Keeps-same :
    (p q : ThreadPool)
    → q.work_queue ≡ p.work_queue
    → q.started ≡ p.started
    → q.interrupt ≡ p.interrupt
    → Keeps p [] q
Keeps-same p q e f g = record {
  jobs = rw (e, f) (sym (append-nil (p.started ++ p.work_queue)));
  stopped = λ h. (g ∙ h, f);
}

look-Keeps :
    (i : ℕ) (stop : Bool) (q : List ℕ) (p : ThreadPool)
    → p.interrupt ≡ stop
    → p.work_queue ≡ q
    → Keeps p [] (look i stop q p)
look-Keeps i true q p e f = Keeps-same p _ refl refl refl
look-Keeps i false [] p e f = Keeps-same p _ refl refl refl
look-Keeps i false (j ∷ q) p e f = record {
  jobs =
      append_assoc p.started (j ∷ []) q
      ∙ ap (◌++◌ p.started) (sym f)
      ∙ sym (append-nil (p.started ++ p.work_queue));
  stopped = λ h. absurd (cc (e, h));
}

looking-Keeps : (i : ℕ) (w : Option Worker) (p : ThreadPool) → Then (Keeps p []) (looking i w p)
looking-Keeps i (some locking) p = look-Keeps i p.interrupt p.work_queue p refl refl
looking-Keeps i (some deciding) p = tt
looking-Keeps i (some sleeping) p = tt
looking-Keeps i (some returned) p = tt
looking-Keeps i (some (running j)) p = tt
looking-Keeps i none p = tt

sleeping_at-Keeps :
    (i : ℕ) (w : Option Worker) (p : ThreadPool) → Then (Keeps p []) (sleeping_at i w p)
sleeping_at-Keeps i (some deciding) p = Keeps-same p _ refl refl refl
sleeping_at-Keeps i (some locking) p = tt
sleeping_at-Keeps i (some sleeping) p = tt
sleeping_at-Keeps i (some returned) p = tt
sleeping_at-Keeps i (some (running j)) p = tt
sleeping_at-Keeps i none p = tt

ending-Keeps : (i : ℕ) (w : Option Worker) (p : ThreadPool) → Then (Keeps p []) (ending i w p)
ending-Keeps i (some (running j)) p = Keeps-same p _ refl refl refl
ending-Keeps i (some locking) p = tt
ending-Keeps i (some deciding) p = tt
ending-Keeps i (some sleeping) p = tt
ending-Keeps i (some returned) p = tt
ending-Keeps i none p = tt

waking-Keeps : (i : ℕ) (w : Option Worker) (p : ThreadPool) → Then (Keeps p []) (waking i w p)
waking-Keeps i (some sleeping) p = Keeps-same p _ refl refl refl
waking-Keeps i (some locking) p = tt
waking-Keeps i (some deciding) p = tt
waking-Keeps i (some returned) p = tt
waking-Keeps i (some (running j)) p = tt
waking-Keeps i none p = tt

unless_locked :
    (P : ThreadPool → Type 0) (l : Bool) (o : Option ThreadPool)
    → Then P o
    → Then P (if l then none else o)
unless_locked P true o h = tt
unless_locked P false o h = h

step-Keeps : (l : Label) (p : ThreadPool) → Then (Keeps p (pushed (l ∷ []))) (step l p)
unfolding step
step-Keeps (pushes j) p =
    unless_locked (Keeps p (j ∷ [])) (locked p.workers) _ (record {
      jobs = sym (append_assoc p.started p.work_queue (j ∷ []));
      stopped = λ h. (h, refl);
    })
step-Keeps (looks i) p =
    unless_locked (Keeps p []) (locked p.workers) _ (looking-Keeps i (get_elem? p.workers i) p)
step-Keeps (sleeps i) p = sleeping_at-Keeps i (get_elem? p.workers i) p
step-Keeps (ends i) p = ending-Keeps i (get_elem? p.workers i) p
step-Keeps (wakes i) p = waking-Keeps i (get_elem? p.workers i) p
step-Keeps interrupts p = record {
  jobs = sym (append-nil (p.started ++ p.work_queue));
  stopped = λ h. (refl, refl);
}
step-Keeps notifies p = Keeps-same p _ refl refl refl

pushed_cons : (l : Label) (ls : List Label) → pushed (l ∷ []) ++ pushed ls ≡ pushed (l ∷ ls)
pushed_cons (pushes j) ls = refl
pushed_cons (looks i) ls = refl
pushed_cons (sleeps i) ls = refl
pushed_cons (ends i) ls = refl
pushed_cons (wakes i) ls = refl
pushed_cons interrupts ls = refl
pushed_cons notifies ls = refl

Keeps-trans :
    (p q r : ThreadPool) (js ks : List ℕ) → Keeps p js q → Keeps q ks r → Keeps p (js ++ ks) r
Keeps-trans p q r js ks v w = record {
  jobs = w.jobs ∙ ap (λ xs. xs ++ ks) v.jobs ∙ append_assoc (p.started ++ p.work_queue) js ks;
  stopped = λ h. let (i, s) = v.stopped h in let (k, t) = w.stopped i in (k, t ∙ s);
}

Then-trans :
    (p q : ThreadPool) (js ks : List ℕ) (o : Option ThreadPool)
    → Keeps p js q
    → Then (Keeps q ks) o
    → Then (Keeps p (js ++ ks)) o
Then-trans p q js ks none v w = tt
Then-trans p q js ks (some r) v w = Keeps-trans p q r js ks v w

ran :
    (p : ThreadPool) (js ks : List ℕ) (ls : List Label) (o : Option ThreadPool)
    → Then (Keeps p js) o
    → ((q : ThreadPool) → Then (Keeps q ks) (run ls q))
    → Then
        (Keeps p (js ++ ks))
        (elim o as (λ _. Option ThreadPool) [ none ↦ none | some q ↦ run ls q ])
ran p js ks ls none v w = tt
ran p js ks ls (some q) v w = Then-trans p q js ks (run ls q) v (w q)

run-Keeps : (ls : List Label) (p : ThreadPool) → Then (Keeps p (pushed ls)) (run ls p)
unfolding run
run-Keeps [] p = Keeps-same p p refl refl refl
run-Keeps (l ∷ ls) p =
    rw (← pushed_cons l ls)
      (ran p (pushed (l ∷ [])) (pushed ls) ls (step l p) (step-Keeps l p) (run-Keeps ls))

Then-map :
    (P Q : ThreadPool → Type 0) (o : Option ThreadPool)
    → ((p : ThreadPool) → P p → Q p)
    → Then P o
    → Then Q o
Then-map P Q none f h = tt
Then-map P Q (some p) f h = f p h

-- Under every interleaving of the workers, the callers of `queue_job` and the shutdown, the jobs
-- that workers took and those still in the queue are together the queued jobs, each once, in the
-- order in which they were queued.
pub run-init-jobs :
    (num_threads : ℕ) (ls : List Label)
    → Then (λ p. p.started ++ p.work_queue ≡ pushed ls) (run ls (init num_threads))
unfolding init
run-init-jobs n ls =
    Then-map (Keeps (init n) (pushed ls)) (λ p. p.started ++ p.work_queue ≡ pushed ls)
      (run ls (init n)) (λ p k. k.jobs) (run-Keeps ls (init n))

-- Once `interrupt` is set, no worker takes a job any more: those still queued are lost.
pub run-interrupted :
    (ls : List Label) (p : ThreadPool)
    → p.interrupt ≡ true
    → Then (λ q. (q.interrupt ≡ true) × (q.started ≡ p.started)) (run ls p)
run-interrupted ls p h =
    Then-map (Keeps p (pushed ls)) (λ q. (q.interrupt ≡ true) × (q.started ≡ p.started)) (run ls p)
      (λ q k. k.stopped h) (run-Keeps ls p)
