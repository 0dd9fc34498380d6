-- ===== src/TxPool/Kept.antt =====
-- src/tx_pool.cpp: no request loses or makes up a transaction.
use memo_coin.Prelude.{
  ◌≤◌, length, length-append, ◌≡◌, ◌∙◌, ap, refl, Bool, true, false, ◌||◌, List, [], ◌∷◌, ◌++◌,
  if◌then◌else◌, drop, take, ◌-◌, take-append-drop, Bool-cases, inl, inr, arith,
}
use memo_coin.Data.{Transaction, Block, block_size}
use memo_coin.TxPool.{
  TxPool, init, add_transaction, pop_transactions, confirm_one, confirm_loop, confirm_transactions,
}
use memo_coin.TxPool.Set.{
  contains, erase, from_list, contains-append, contains-erase, contains-from_list, contains_congr,
}
use memo_coin.TxPool.Sync.{unconfirmed_queue-confirm_one}
use memo_coin.TxPool.Pop.{pop_transactions_lem}
use memo_coin.TxPool.History.{Request, step, run}

-- What the pool holds.
abbrev pub held : TxPool → List Transaction
held p = p.submitted_queue ++ p.unconfirmed_queue

-- The transactions that a request brings with a valid signature.
abbrev pub posted_by : Request → List Transaction
posted_by (Request.posts valid tx) = if valid then tx ∷ [] else []
posted_by Request.pops = []
posted_by (Request.confirms b) = []

abbrev pub confirmed_by : Request → List Transaction
confirmed_by (Request.posts valid tx) = []
confirmed_by Request.pops = []
confirmed_by (Request.confirms b) = b.transactions

abbrev pub posted : List Request → List Transaction
posted [] = []
posted (r ∷ rs) = posted_by r ++ posted rs

abbrev pub confirmed : List Request → List Transaction
confirmed [] = []
confirmed (r ∷ rs) = confirmed_by r ++ confirmed rs

pub contains-add_transaction :
    (t : Transaction) (valid : Bool) (tx : Transaction) (p : TxPool)
    → contains t (held (add_transaction valid tx p).0)
      ≡ (contains t (posted_by (Request.posts valid tx)) || contains t (held p))
unfolding add_transaction contains
contains-add_transaction t false tx p = refl
contains-add_transaction t true tx p = ground (
  arith,
  contains-append t p.submitted_queue p.unconfirmed_queue,
  contains-append t (p.submitted_queue ++ tx ∷ []) p.unconfirmed_queue,
  contains-append t p.submitted_queue (tx ∷ []),
)

contains_rotate :
    (t : Transaction) (a d u : List Transaction)
    → contains t (d ++ (u ++ a)) ≡ contains t ((a ++ d) ++ u)
contains_rotate t a d u = ground (
  arith,
  contains-append t d (u ++ a),
  contains-append t u a,
  contains-append t (a ++ d) u,
  contains-append t a d,
)

pub contains-pop_transactions :
    (t : Transaction) (p : TxPool) → contains t (held (pop_transactions p).0) ≡ contains t (held p)
contains-pop_transactions t p =
    let (r, s, u) = pop_transactions_lem p in
    let n = block_size - 1 in
    let q = p.submitted_queue in
    rw (s, u)
      (contains_rotate t (take n q) (drop n q) p.unconfirmed_queue
        ∙ ap (λ r. contains t (r ++ p.unconfirmed_queue)) (take-append-drop n q))

-- One round of the loop: only a confirmed transaction leaves the pool.
contains-confirm_one :
    (t tx : Transaction) (rest c : List Transaction) (p : TxPool)
    → p.unconfirmed_queue ≡ tx ∷ rest
    → (contains t (held (confirm_one (contains tx c) tx rest p)) || contains t c)
      ≡ (contains t (held p) || contains t c)
unfolding confirm_one contains
contains-confirm_one t tx rest c p e = elim (Bool-cases (contains tx c)) [
  | inl f ↦
      rw (e, f, confirm_one)
        (ground (
          arith,
          contains_congr t tx c,
          contains-append t p.submitted_queue rest,
          contains-append t p.submitted_queue (tx ∷ rest),
        ))
  | inr f ↦
      rw (e, f, confirm_one)
        (ground (
          arith,
          contains-append t (p.submitted_queue ++ tx ∷ []) rest,
          contains-append t p.submitted_queue (tx ∷ []),
          contains-append t p.submitted_queue (tx ∷ rest),
        ))
]

contains-confirm_loop :
    (t : Transaction) (q c : List Transaction) (p : TxPool)
    → p.unconfirmed_queue ≡ q
    → (contains t (held (confirm_loop q c p)) || contains t c)
      ≡ (contains t (held p) || contains t c)
unfolding confirm_loop
contains-confirm_loop t [] c p e = refl
contains-confirm_loop t (tx ∷ q) [] p e = refl
contains-confirm_loop t (tx ∷ q) (x ∷ xs) p e =
    let c = x ∷ xs in
    let f = contains tx c in
    ground (
      arith,
      contains-confirm_loop t q (erase tx c) (confirm_one f tx q p)
          (unconfirmed_queue-confirm_one f tx q p),
      contains-confirm_one t tx q c p e,
      contains-erase t tx c,
      contains_congr t tx c,
    )

pub contains-confirm_transactions :
    (t : Transaction) (b : Block) (p : TxPool)
    → (contains t (held (confirm_transactions b p).0) || contains t b.transactions)
      ≡ (contains t (held p) || contains t b.transactions)
unfolding confirm_transactions
contains-confirm_transactions t b p = ground (
  arith,
  contains-confirm_loop t p.unconfirmed_queue (from_list b.transactions) p refl,
  contains-from_list t b.transactions,
)

-- What a request leaves in the pool or confirms is what was there and what it posts or confirms.
contains-step :
    (t : Transaction) (r : Request) (p : TxPool)
    → (contains t (held (step p r)) || contains t (confirmed_by r))
      ≡ (contains t (posted_by r) || (contains t (held p) || contains t (confirmed_by r)))
unfolding step contains
contains-step t (Request.posts valid tx) p = ground (arith, contains-add_transaction t valid tx p)
contains-step t Request.pops p = ground (arith, contains-pop_transactions t p)
contains-step t (Request.confirms b) p = ground (arith, contains-confirm_transactions t b p)

contains-run :
    (t : Transaction) (rs : List Request) (p : TxPool)
    → (contains t (held (run p rs)) || contains t (confirmed rs))
      ≡ (contains t (posted rs) || (contains t (held p) || contains t (confirmed rs)))
unfolding run contains
contains-run t [] p = refl
contains-run t (r ∷ rs) p = ground (
  arith,
  contains-run t rs (step p r),
  contains-step t r p,
  contains-append t (posted_by r) (posted rs),
  contains-append t (confirmed_by r) (confirmed rs),
)

-- After any history of posts, pops and confirmations, duplicates included, a sender and id is among
-- the transactions that the pool holds or that some block of the history confirmed exactly if it is
-- among those posted with a valid signature or confirmed: no transaction is lost while it waits,
-- is handed out or comes back, and none is made up.
pub contains-run-init :
    (t : Transaction) (rs : List Request)
    → (contains t (held (run init rs)) || contains t (confirmed rs))
      ≡ (contains t (posted rs) || contains t (confirmed rs))
unfolding init contains
contains-run-init t rs = contains-run t rs init

module _ (tx : Transaction) (rest : List Transaction) (p : TxPool) where
  length-confirm_one :
      (found : Bool)
      → p.unconfirmed_queue ≡ tx ∷ rest
      → length (held (confirm_one found tx rest p)) ≤ length (held p)
  unfolding confirm_one
  length-confirm_one true e = rw e (
      omega
        (arith, length-append p.submitted_queue rest, length-append p.submitted_queue (tx ∷ rest)))
  length-confirm_one false e = rw e (
      omega (
        arith,
        length-append (p.submitted_queue ++ tx ∷ []) rest,
        length-append p.submitted_queue (tx ∷ []),
        length-append p.submitted_queue (tx ∷ rest),
      ))

length-confirm_loop :
    (q c : List Transaction) (p : TxPool)
    → p.unconfirmed_queue ≡ q
    → length (held (confirm_loop q c p)) ≤ length (held p)
unfolding confirm_loop
length-confirm_loop [] c p e = omega arith
length-confirm_loop (tx ∷ rest) [] p e = omega arith
length-confirm_loop (tx ∷ rest) (x ∷ xs) p e =
    let found = contains tx (x ∷ xs) in
    omega (
      arith,
      length-confirm_loop rest (erase tx (x ∷ xs)) (confirm_one found tx rest p)
          (unconfirmed_queue-confirm_one found tx rest p),
      length-confirm_one tx rest p found e,
    )

-- A block does not make the pool longer.
pub length-confirm_transactions :
    (b : Block) (p : TxPool) → length (held (confirm_transactions b p).0) ≤ length (held p)
unfolding confirm_transactions
length-confirm_transactions b p =
    length-confirm_loop p.unconfirmed_queue (from_list b.transactions) p refl
