-- ===== src/Network/Validators.antt =====
-- src/validator.cpp beside the servers: any number of validators take headers, build blocks of what
-- the pool hands out and submit them, in any order; a step of theirs is one request and its reply.
use memo_coin.Prelude.{
  ℕ, suc, ◌≡◌, Option, none, some, refl, append_assoc, add32, List, [], ◌∷◌, ◌++◌, append-nil,
  Bytes,
}
use memo_coin.Data.{Transaction, Block, BlockHeader, HashInput}
use memo_coin.Keys.{Base58}
use memo_coin.Messages.{Payload}
use memo_coin.TxPool.{good, pop_transactions}
use memo_coin.TxPool.History.{Request, pops}
use memo_coin.TxPool.History as History
use memo_coin.BlockChain.{back}
use memo_coin.Metronome.{empty_block}
use memo_coin.Validator.{create_block}
use memo_coin.Network.Interleaving.{System, hands_out}
use memo_coin.Network.Interleaving as Servers
use memo_coin.BlockChain.Chain.{IsBlock, add_block-with_block}
use memo_coin.BlockChain.Storage.RoundTrip.{stored_block}
use memo_coin.Metronome.Accepted.{Step-Extends}
use memo_coin.Network.Progress.{takes}

-- The servers, the headers that validators have taken, and the blocks that they have built; a
-- validator may build more than one block on a header, and submit a block more than once or never.
pub record Mining : Type 0 where
  pub servers : System
  pub taken : List BlockHeader
  pub built : List Block

abbrev pub Unpending : Option Block → Type 0
Unpending pending = pending ≡ none

-- `may` tells with which pending block a validator may build; the code does not look at it.
module _ (b : Base58) (may : Option Block → Type 0) where
  pub data Step : Mining → List Request → List Block → Mining → Type 0 where
    -- A step of the servers that brings no block, the pops of validators that stop there among them.
    serves :
        (w : Mining) {qs : List Request} {s : System}
        → Servers.Step b w.servers qs [] s
        → Step w qs [] (record w { servers = s })
    -- `request_new_block_header`: the reply is the header of the last block.
    looks :
        (w : Mining) (last : Block)
        → back w.servers.chain.blocks ≡ some last
        → Step w [] [] (record w { taken = last.header ∷ w.taken })
    -- `create_block`, with the reply of the pool.
    builds :
        (w : Mining) (before after : List BlockHeader) (h : BlockHeader) (pub_key : Bytes)
        (txs : List Transaction) (reward_time now : ℕ) (input : HashInput) (solution : Bytes)
        (difficulty : ℕ)
        → w.taken ≡ before ++ h ∷ after
        → may w.servers.pending
        → (pop_transactions w.servers.pool).1 ≡ good (Payload.transactions txs)
        → Step w (pops ∷ []) [] (record w {
          servers = record w.servers { pool = History.step w.servers.pool pops };
          built = create_block pub_key txs reward_time now h input solution difficulty ∷ w.built;
        })
    -- A block that was built reaches the metronome, and the blockchain takes it.
    commits :
        (w : Mining) (before after : List Block) (x : Block) {s : System}
        → w.built ≡ before ++ x ∷ after
        → Servers.Step b w.servers [] (x ∷ []) s
        → Step w [] (x ∷ []) (record w { servers = s })
    -- The metronome's own block.
    empties :
        (w : Mining) (x : Block) (hash : Bytes) (now : ℕ) {s : System}
        → x ≡ empty_block hash now w.servers.clock
        → Servers.Step b w.servers [] (x ∷ []) s
        → Step w [] (x ∷ []) (record w { servers = s })

  -- The requests of the pool and the blocks of the chain, oldest first.
  pub data Run (w : Mining) : List Request → List Block → Mining → Type 0 where
    here : Run w [] [] w
    next :
        {rs qs : List Request} {xs ys : List Block} {w1 w2 : Mining}
        → Run w rs xs w1
        → Step w1 qs ys w2
        → Run w (rs ++ qs) (xs ++ ys) w2

-- The servers of a run are a run of the servers.
pub Run-Reach :
    {b : Base58} {may : Option Block → Type 0} {w0 w : Mining} {rs : List Request} {xs : List Block}
    → Run b may w0 rs xs w
    → (n : ℕ) × Servers.Reach b w0.servers n rs xs w.servers
Run-Reach here = (0, Servers.here)
Run-Reach (next r (serves w t)) = let (n, q) = Run-Reach r in (suc n, Servers.next q t)
Run-Reach (next {rs = rs} {xs = xs} r (looks w last e)) =
    let (n, q) = Run-Reach r in (n, rw (append-nil rs, append-nil xs) q)
Run-Reach (next r (builds w before after h pub_key txs reward_time now input solution d e m f)) =
    let (n, q) = Run-Reach r in (suc n, Servers.next q (hands_out w.servers))
Run-Reach (next r (commits w before after x e t)) =
    let (n, q) = Run-Reach r in (suc n, Servers.next q t)
Run-Reach (next r (empties w x hash now e t)) =
    let (n, q) = Run-Reach r in (suc n, Servers.next q t)

pub Run-append :
    {b : Base58} {may : Option Block → Type 0} {w w1 w2 : Mining} {rs qs : List Request}
    {xs ys : List Block}
    → Run b may w rs xs w1
    → Run b may w1 qs ys w2
    → Run b may w (rs ++ qs) (xs ++ ys) w2
Run-append {rs = rs} {xs = xs} r here = rw (append-nil rs, append-nil xs) r
Run-append {rs = rs} {xs = xs} r (next {rs = qs} {qs = qs1} {xs = ys} {ys = ys1} v t) =
    rw (← append_assoc rs qs qs1, ← append_assoc xs ys ys1) (next (Run-append r v) t)

back-snoc : (xs : List Block) (x : Block) → back (xs ++ x ∷ []) ≡ some x
back-snoc [] x = refl
back-snoc (y ∷ []) x = refl
back-snoc (y ∷ z ∷ xs) x = back-snoc (z ∷ xs) x

-- The built block `x` is taken.
pub record Taken (b : Base58) (may : Option Block → Type 0) (w : Mining) (x : Block) : Type 0 where
  pub servers : System
  pub step : Step b may w [] (x ∷ []) (record w { servers = servers })
  pub pending : servers.pending ≡ some x
  pub pool : servers.pool ≡ w.servers.pool
  pub last : servers.clock.last_block ≡ x.header
  pub back : back servers.chain.blocks ≡ some x

pub takes-Taken :
    (b : Base58) (may : Option Block → Type 0) (w : Mining) (before after : List Block) (x : Block)
    → w.built ≡ before ++ x ∷ after
    → IsBlock x
    → w.servers.pending ≡ none
    → x.header.id ≡ add32 w.servers.clock.last_block.id 1
    → Taken b may w x
takes-Taken b may w before after x e v p i =
    let s = w.servers in
    let (node, n, _) = stored_block b x v.sized in
    let a = add_block-with_block b x s.chain node v.transfers n in
    let t = takes s.phase x s.clock i in
    record {
      servers = _;
      step = commits w before after x e (Servers.commits s x t p a);
      pending = refl;
      pool = refl;
      last = (Step-Extends t).last;
      back = back-snoc s.chain.blocks x;
    }
