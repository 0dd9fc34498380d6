-- ===== src/Network/Accounts.antt =====
-- What holds after any interleaving of the metronome, the blockchain and the pool.
use memo_coin.Prelude.{
  ℕ, suc, ◌≡◌, ◌∙◌, ap, refl, sym, inl, inr, Option, none, some, List, [], ◌∷◌, ◌++◌, append-nil,
  append_assoc,
}
use memo_coin.Data.{Block}
use memo_coin.Keys.{Base58}
use memo_coin.Messages.{Reply, Sent, ok, Result-cases}
use memo_coin.TxPool.{TxPool}
use memo_coin.BlockChain.{BlockChain, add_block, push_block, write_block}
use memo_coin.BlockChain.Ledger.{sync_bal}
use memo_coin.BlockChain.Storage.{write_node}
use memo_coin.TxPool.History.{Request, posts, pops, confirms, step, run}
use memo_coin.Network.Interleaving.{
  System, Step, ticks, commits, settles, submits, hands_out, Reach, here, next,
}
use memo_coin.Metronome.Steps as Clock

pub run-append : (p : TxPool) (rs qs : List Request) → run p (rs ++ qs) ≡ run (run p rs) qs
unfolding run
run-append p [] qs = refl
run-append p (r ∷ rs) qs = run-append (step p r) rs qs

abbrev pub pending_blocks : Option Block → List Block
pending_blocks none = []
pending_blocks (some x) = x ∷ []

-- The blocks that the pool was asked to confirm.
abbrev pub settled_by : Request → List Block
settled_by (posts valid tx) = []
settled_by pops = []
settled_by (confirms x) = x ∷ []

abbrev pub settled : List Request → List Block
settled [] = []
settled (r ∷ rs) = settled_by r ++ settled rs

settled-append : (rs qs : List Request) → settled (rs ++ qs) ≡ settled rs ++ settled qs
settled-append [] qs = refl
settled-append (r ∷ rs) qs =
    ap (◌++◌ (settled_by r)) (settled-append rs qs)
    ∙ sym (append_assoc (settled_by r) (settled rs) (settled qs))

-- What `add_block` did where it returned.
pub record Took (x : Block) (c c' : BlockChain) (sent : Sent) : Type 0 where
  pub blocks : c'.blocks ≡ c.blocks ++ x ∷ []
  pub block : sent.block ≡ x

pub add_block-Took :
    (b : Base58) (x : Block) (c c' : BlockChain) (reply : Reply) (sent : Sent)
    → add_block b x c ≡ ok (c', reply, sent)
    → Took x c c' sent
unfolding add_block push_block write_block
add_block-Took b x c c' reply sent e = elim (Result-cases (sync_bal b x.transactions c.ledger)) [
  | inr (_, f) ↦ absurd (let d = rw f at e in cc)
  | inl (l, f) ↦ elim (Result-cases (write_node b x c.stored_chain)) [
    | inr (_, g) ↦ absurd (let d = rw (f, g) at e in cc)
    | inl (n, g) ↦ let d = rw (f, g) at e in record { blocks = cc; block = cc }
  ]
]

-- The pool ran the requests one after another, the chain took the blocks, and the pool confirmed them
-- in their order, all but the pending one.
pub record Accounted (s0 : System) (rs : List Request) (xs : List Block) (s : System) : Type 0 where
  pub pool : s.pool ≡ run s0.pool rs
  pub blocks : s.chain.blocks ≡ s0.chain.blocks ++ xs
  pub order : settled rs ++ pending_blocks s.pending ≡ pending_blocks s0.pending ++ xs

serves :
    {s0 : System} (rs : List Request) (xs : List Block) (s : System) (r : Request)
    (pending : Option Block)
    → Accounted s0 rs xs s
    → settled_by r ++ pending_blocks pending ≡ pending_blocks s.pending
    → Accounted s0 (rs ++ r ∷ []) (xs ++ []) (record s { pending = pending; pool = step s.pool r })
unfolding run
serves {s0} rs xs s r pending a e = rw (append-nil xs) record {
  pool = rw a.pool (sym (run-append s0.pool rs (r ∷ [])));
  blocks = a.blocks;
  order =
      rw (settled-append rs (r ∷ []), append-nil (settled_by r))
        (append_assoc (settled rs) (settled_by r) (pending_blocks pending)
          ∙ ap (◌++◌ (settled rs)) e
          ∙ a.order);
}

Step-Accounted :
    {b : Base58} {s0 : System} {rs qs : List Request} {xs ys : List Block} {s s' : System}
    → Accounted s0 rs xs s
    → Step b s qs ys s'
    → Accounted s0 (rs ++ qs) (xs ++ ys) s'
Step-Accounted {rs = rs} {xs = xs} a (ticks s t) =
    rw (append-nil rs, append-nil xs) record { pool = a.pool; blocks = a.blocks; order = a.order }
Step-Accounted {b = b} {s0 = s0} {rs = rs} {xs = xs} a
      (commits s x {c = c} {reply = reply} {sent = sent} t e f) =
    let k = add_block-Took b x s.chain c reply sent f in
    let o = rw e at a.order in
    rw (append-nil rs) record {
      pool = a.pool;
      blocks = k.blocks ∙ rw a.blocks (append_assoc s0.chain.blocks xs (x ∷ []));
      order = rw k.block (
          ap (λ zs. zs ++ x ∷ []) (sym (append-nil (settled rs)) ∙ o)
          ∙ append_assoc (pending_blocks s0.pending) xs (x ∷ []));
    }
Step-Accounted {rs = rs} {xs = xs} a (settles s x e) =
    serves rs xs s (confirms x) none a (rw e refl)
Step-Accounted {rs = rs} {xs = xs} a (submits s valid tx) =
    serves rs xs s (posts valid tx) s.pending a refl
Step-Accounted {rs = rs} {xs = xs} a (hands_out s) = serves rs xs s pops s.pending a refl

pub Reach-Accounted :
    {b : Base58} {s0 s : System} {n : ℕ} {rs : List Request} {xs : List Block}
    → Reach b s0 n rs xs s
    → Accounted s0 rs xs s
unfolding run
Reach-Accounted {s0 = s0} here = record {
  pool = refl;
  blocks = sym (append-nil s0.chain.blocks);
  order = sym (append-nil (pending_blocks s0.pending));
}
Reach-Accounted (next r t) = Step-Accounted (Reach-Accounted r) t

-- The metronome's part of a run is a run of the metronome.
pub Reach-clock :
    {b : Base58} {s0 s : System} {n : ℕ} {rs : List Request} {xs : List Block}
    → s0.phase ≡ Clock.waiting
    → Reach b s0 n rs xs s
    → (k : ℕ) × Clock.Reach s0.clock k xs s.phase s.clock
Reach-clock e here = (0, rw e Clock.here)
Reach-clock e (next r (ticks s t)) = let (k, c) = Reach-clock e r in (suc k, Clock.next c t)
Reach-clock e (next r (commits s x t p f)) = let (k, c) = Reach-clock e r in (suc k, Clock.next c t)
Reach-clock e (next {xs = xs} r (settles s x p)) = rw (append-nil xs) (Reach-clock e r)
Reach-clock e (next {xs = xs} r (submits s valid tx)) = rw (append-nil xs) (Reach-clock e r)
Reach-clock e (next {xs = xs} r (hands_out s)) = rw (append-nil xs) (Reach-clock e r)
