-- ===== src/Server/Linear.antt =====
-- src/server.cpp: the workers of a server against one worker alone, and against its destructor.
use mathlib.Core.List.{Perm, perm_append_comm, perm_middle}
use mathlib.Core.List.Perm
use memo_coin.Prelude.{
  ℕ, suc, ◌+◌, ◌≤◌, ◌≡◌, ◌∙◌, ap, refl, sym, subst, All-of-append, Bool, true, false, List, [], ◌∷◌,
  ◌++◌, append-nil, append_assoc, length, All, arith,
}
use memo_coin.Messages.{Result, ok, err, ◌>>=◌}
use memo_coin.Wire.{Alpaca, Frames, Handler, serve}
use memo_coin.Server.{Turn, server_loop}
use memo_coin.Server.Workers.{
  WorkerPhase, testing, receiving, returned, handling, ServerState, start, after_test, Step, begins,
  tests, receives, handles, accesses, ends, interrupts, Reach, here, next,
}

abbrev pub requests_of : List (Frames × Frames) → List Frames
requests_of [] = []
requests_of ((request, reply) ∷ log) = request ∷ requests_of log

abbrev pub replies_of : List (Frames × Frames) → List Frames
replies_of [] = []
replies_of ((request, reply) ∷ log) = reply ∷ replies_of log

-- The requests that workers hold.
abbrev pub in_hand : List WorkerPhase → List Frames
in_hand [] = []
in_hand (handling request ∷ ws) = request ∷ in_hand ws
in_hand (testing ∷ ws) = in_hand ws
in_hand (receiving ∷ ws) = in_hand ws
in_hand (returned ∷ ws) = in_hand ws

-- How many workers wait in `recv_message`.
abbrev pub idle : List WorkerPhase → ℕ
idle [] = 0
idle (receiving ∷ ws) = 1 + idle ws
idle (testing ∷ ws) = idle ws
idle (returned ∷ ws) = idle ws
idle (handling request ∷ ws) = idle ws

abbrev pub turns : List Frames → List Turn
turns [] = []
turns (request ∷ rs) = (false, request) ∷ turns rs

requests_of-append :
    (log more : List (Frames × Frames))
    → requests_of (log ++ more) ≡ requests_of log ++ requests_of more
requests_of-append [] more = refl
requests_of-append ((request, reply) ∷ log) more = ap (◌∷◌ request) (requests_of-append log more)

replies_of-append :
    (log more : List (Frames × Frames))
    → replies_of (log ++ more) ≡ replies_of log ++ replies_of more
replies_of-append [] more = refl
replies_of-append ((request, reply) ∷ log) more = ap (◌∷◌ reply) (replies_of-append log more)

in_hand-append : (ws vs : List WorkerPhase) → in_hand (ws ++ vs) ≡ in_hand ws ++ in_hand vs
in_hand-append [] vs = refl
in_hand-append (handling request ∷ ws) vs = ap (◌∷◌ request) (in_hand-append ws vs)
in_hand-append (testing ∷ ws) vs = in_hand-append ws vs
in_hand-append (receiving ∷ ws) vs = in_hand-append ws vs
in_hand-append (returned ∷ ws) vs = in_hand-append ws vs

idle-append : (ws vs : List WorkerPhase) → idle (ws ++ vs) ≡ idle ws + idle vs
idle-append [] vs = omega arith
idle-append (handling request ∷ ws) vs = idle-append ws vs
idle-append (testing ∷ ws) vs = idle-append ws vs
idle-append (receiving ∷ ws) vs = omega (arith, idle-append ws vs)
idle-append (returned ∷ ws) vs = idle-append ws vs

in_hand-tested :
    (b : Bool) (ws vs : List WorkerPhase)
    → in_hand (ws ++ after_test b ∷ vs) ≡ in_hand (ws ++ testing ∷ vs)
in_hand-tested true ws vs =
    in_hand-append ws (returned ∷ vs) ∙ sym (in_hand-append ws (testing ∷ vs))
in_hand-tested false ws vs =
    in_hand-append ws (receiving ∷ vs) ∙ sym (in_hand-append ws (testing ∷ vs))

idle-tested :
    (b : Bool) (ws vs : List WorkerPhase)
    → idle (ws ++ testing ∷ vs) ≤ idle (ws ++ after_test b ∷ vs)
idle-tested true ws vs =
    omega (arith, idle-append ws (returned ∷ vs), idle-append ws (testing ∷ vs))
idle-tested false ws vs =
    omega (arith, idle-append ws (receiving ∷ vs), idle-append ws (testing ∷ vs))

module _ (alpaca : Alpaca) {S : Type 0} (message_handler : Handler S) where
  abbrev follow : List Frames → S × List Frames → Result (S × List Frames)
  follow earlier r = ok (r.0, earlier ++ r.1)

  follow_nil : (r : Result (S × List Frames)) → r ≡ (r >>= follow [])
  follow_nil (ok a) = refl
  follow_nil (err e) = refl

  follow_snoc :
      (earlier : List Frames) (reply : Frames) (r : Result (S × List Frames))
      → ((r >>= λ a. ok (a.0, reply ∷ a.1)) >>= follow earlier)
        ≡ (r >>= follow (earlier ++ reply ∷ []))
  follow_snoc earlier reply (err e) = refl
  follow_snoc earlier reply (ok a) =
      ap (λ l. ok (a.0, l)) (sym (append_assoc earlier (reply ∷ []) a.1))

  -- One worker alone that has taken the answered requests stands where the server stands.
  abbrev Stands : S → ServerState S → Type 0
  Stands s0 s =
      (more : List Frames)
      → server_loop alpaca message_handler (turns (requests_of s.answered ++ more)) s0 ≡ (
          server_loop alpaca message_handler (turns more) s.state
          >>= follow (replies_of s.answered))

  Stands-handles :
      (s0 : S) (s : ServerState S) (request reply : Frames) (t : S)
      → Stands s0 s
      → serve alpaca message_handler request s.state ≡ ok (t, reply)
      → (more : List Frames)
      → server_loop alpaca message_handler
          (turns (requests_of (s.answered ++ (request, reply) ∷ []) ++ more))
          s0
        ≡ (server_loop alpaca message_handler (turns more) t
            >>= follow (replies_of (s.answered ++ (request, reply) ∷ [])))
  unfolding server_loop
  Stands-handles s0 s request reply t h e more =
      rw
        (
          requests_of-append s.answered ((request, reply) ∷ []),
          replies_of-append s.answered ((request, reply) ∷ []),
          append_assoc (requests_of s.answered) (request ∷ []) more,
        )
        (h (request ∷ more) ∙ rw e (follow_snoc (replies_of s.answered) reply _))

module _ (alpaca : Alpaca) {S : Type 0} (message_handler : Handler S) (locked : Frames → Bool)
    (alters : Frames → S → S → Type 0) where
  -- What holds after the requests `rs` were handed out.
  record Kept (size : ℕ) (s0 : S) (rs : List Frames) (s : ServerState S) : Type 0 where
    stands :
        ((f : Frames) (t u : S) → alters f t u → t ≡ u)
        → All (λ f. locked f ≡ true) (requests_of s.answered)
        → Stands alpaca message_handler s0 s
    accounts : Perm rs (requests_of s.answered ++ in_hand s.workers)
    fits : s.queued + length s.workers ≡ size

  length-replaced :
      (w v : WorkerPhase) (ws vs : List WorkerPhase) → length (ws ++ w ∷ vs) ≡ length (ws ++ v ∷ vs)
  length-replaced w v [] vs = refl
  length-replaced w v (x ∷ ws) vs = ap suc (length-replaced w v ws vs)

  handed_out :
      (rs a : List Frames) (request : Frames) (ws vs : List WorkerPhase)
      → Perm rs (a ++ in_hand (ws ++ receiving ∷ vs))
      → Perm (rs ++ request ∷ []) (a ++ in_hand (ws ++ handling request ∷ vs))
  handed_out rs a request ws vs p =
      let w = in_hand ws in
      let v = in_hand vs in
      rw (in_hand-append ws (handling request ∷ vs), ← append_assoc a w (request ∷ v))
        (Perm.trans (perm_append_comm rs (request ∷ [])) (
          Perm.trans
            (Perm.cons request (rw (in_hand-append ws (receiving ∷ vs), ← append_assoc a w v) at p))
            (Perm.symm (perm_middle (a ++ w) v))))

  answers :
      (rs : List Frames) (log : List (Frames × Frames)) (request reply : Frames)
      (ws vs : List WorkerPhase)
      → Perm rs (requests_of log ++ in_hand (ws ++ handling request ∷ vs))
      → Perm rs (requests_of (log ++ (request, reply) ∷ []) ++ in_hand (ws ++ testing ∷ vs))
  answers rs log request reply ws vs p =
      let a = requests_of log in
      let w = in_hand ws in
      let v = in_hand vs in
      rw
        (
          requests_of-append log ((request, reply) ∷ []),
          append_assoc a (request ∷ []) (in_hand (ws ++ testing ∷ vs)),
          in_hand-append ws (testing ∷ vs),
        )
        (Perm.trans (rw (in_hand-append ws (handling request ∷ vs)) at p)
          (Perm.append_left a (perm_middle w v)))

  Step-Kept :
      {size : ℕ} {s0 : S} {rs qs : List Frames} {s s' : ServerState S}
      → Kept size s0 rs s
      → Step alpaca message_handler locked alters s qs s'
      → Kept size s0 (rs ++ qs) s'
  Step-Kept {rs = rs} {s = s} k (begins n e) = record {
    stands = k.stands;
    accounts = rw (append-nil rs) k.accounts;
    fits = omega (arith, e, k.fits);
  }
  Step-Kept {rs = rs} {s = s} k (tests ws vs e) = record {
    stands = k.stands;
    accounts = rw (append-nil rs, in_hand-tested s.interrupt ws vs) (rw e at k.accounts);
    fits = ap (◌+◌ s.queued) (length-replaced _ testing ws vs) ∙ (rw e at k.fits);
  }
  Step-Kept {rs = rs} {s = s} k (receives ws vs request e) = record {
    stands = k.stands;
    accounts = handed_out rs (requests_of s.answered) request ws vs (rw e at k.accounts);
    fits = ap (◌+◌ s.queued) (length-replaced _ receiving ws vs) ∙ (rw e at k.fits);
  }
  Step-Kept {s0 = s0} {rs = rs} {s = s} k (handles ws vs request reply t e o f) = record {
    stands = λ a v.
        Stands-handles alpaca message_handler s0 s request reply t
          (k.stands a
            (All-of-append _ (requests_of s.answered) (request ∷ [])
              (rw (requests_of-append s.answered ((request, reply) ∷ [])) at v)).0)
          f;
    accounts = rw (append-nil rs) (answers rs s.answered request reply ws vs (rw e at k.accounts));
    fits = ap (◌+◌ s.queued) (length-replaced testing (handling request) ws vs) ∙ (rw e at k.fits);
  }
  Step-Kept {s0 = s0} {rs = rs} {s = s} k (accesses ws vs request t e o x) = record {
    stands = λ a v.
        subst (λ z. Stands alpaca message_handler s0 (record s { state = z }))
          (a request s.state t x) (k.stands a v);
    accounts = rw (append-nil rs) k.accounts;
    fits = k.fits;
  }
  Step-Kept {rs = rs} {s = s} k (ends ws vs request reply e o) = record {
    stands = λ a v.
        let u =
          All-of-append _ (requests_of s.answered) (request ∷ [])
            (rw (requests_of-append s.answered ((request, reply) ∷ [])) at v) in
        absurd (let c = u.1.0 in cc);
    accounts = rw (append-nil rs) (answers rs s.answered request reply ws vs (rw e at k.accounts));
    fits = ap (◌+◌ s.queued) (length-replaced testing (handling request) ws vs) ∙ (rw e at k.fits);
  }
  Step-Kept {rs = rs} {s = s} k interrupts = record {
    stands = k.stands;
    accounts = rw (append-nil rs) k.accounts;
    fits = k.fits;
  }

  Reach-Kept :
      {size : ℕ} {s0 : S} {rs : List Frames} {s : ServerState S}
      → Reach alpaca message_handler locked alters (start size s0) rs s
      → Kept size s0 rs s
  unfolding start
  Reach-Kept here = record {
    stands = λ a v more. follow_nil alpaca message_handler _;
    accounts = Perm.nil;
    fits = omega arith;
  }
  Reach-Kept (next r t) = Step-Kept (Reach-Kept r) t

  -- However the workers of a server interleave, where the other accesses do not change the state and
  -- all answered requests are ones whose handler holds the lock: one worker alone, given the answered
  -- requests in the order in which they were handled, ends in the same state with the same replies.
  pub Reach-server_loop :
      (size : ℕ) (s0 : S) (rs : List Frames) (s : ServerState S)
      → ((f : Frames) (t u : S) → alters f t u → t ≡ u)
      → Reach alpaca message_handler locked alters (start size s0) rs s
      → All (λ f. locked f ≡ true) (requests_of s.answered)
      → server_loop alpaca message_handler (turns (requests_of s.answered)) s0
        ≡ ok (s.state, replies_of s.answered)
  unfolding server_loop
  Reach-server_loop size s0 rs s a r v =
      let e = (Reach-Kept r).stands a v [] in
      rw (append-nil (requests_of s.answered), append-nil (replies_of s.answered)) at e

  Step-idle :
      {s s' : ServerState S} {qs : List Frames}
      → Step alpaca message_handler locked alters s qs s'
      → idle s.workers ≤ idle s'.workers + length qs
  Step-idle (begins n e) = omega arith
  Step-idle {s = s} (tests ws vs e) = rw e (omega (arith, idle-tested s.interrupt ws vs))
  Step-idle (receives ws vs request e) =
      rw e (omega (arith, idle-append ws (receiving ∷ vs), idle-append ws (handling request ∷ vs)))
  Step-idle (handles ws vs request reply t e o f) =
      rw e (omega (arith, idle-append ws (testing ∷ vs), idle-append ws (handling request ∷ vs)))
  Step-idle (accesses ws vs request t e o x) = omega arith
  Step-idle {s = s} (ends ws vs request reply e o) =
      rw e (omega (arith, idle-append ws (testing ∷ vs), idle-append ws (handling request ∷ vs)))
  Step-idle interrupts = omega arith

  length-append : (xs ys : List Frames) → length (xs ++ ys) ≡ length xs + length ys
  length-append [] ys = omega arith
  length-append (x ∷ xs) ys = omega (arith, length-append xs ys)

  Reach-idle :
      {s s' : ServerState S} {rs : List Frames}
      → Reach alpaca message_handler locked alters s rs s'
      → idle s.workers ≤ idle s'.workers + length rs
  Reach-idle here = omega arith
  Reach-idle (next {rs = rs} {qs = qs} r t) =
      omega (arith, Reach-idle r, Step-idle t, length-append rs qs)

  idle-returned : (ws : List WorkerPhase) → All (λ w. w ≡ returned) ws → idle ws ≡ 0
  idle-returned [] h = refl
  idle-returned (returned ∷ ws) h = idle-returned ws h.1
  idle-returned (receiving ∷ ws) h = absurd (let e = h.0 in cc)
  idle-returned (testing ∷ ws) h = idle-returned ws h.1
  idle-returned (handling request ∷ ws) h = idle-returned ws h.1

  -- From any state, interrupted or not: all workers can only have returned, which the destructor
  -- waits for, after at least as many further requests as workers waited in `recv_message`.
  pub Reach-returned :
      (s s' : ServerState S) (rs : List Frames)
      → Reach alpaca message_handler locked alters s rs s'
      → All (λ w. w ≡ returned) s'.workers
      → idle s.workers ≤ length rs
  Reach-returned s s' rs r h = omega (arith, Reach-idle r, idle-returned s'.workers h)
