-- ===== src/TxPool/History.antt =====
-- src/tx_pool.cpp: histories of requests from the empty pool, and what a status query answers.
use memo_coin.Prelude.{ℕ, ◌≡◌, refl, Bool, List, [], ◌∷◌, Bytes, if◌then◌else◌}
use memo_coin.Data.{Transaction, Block, Status}
use memo_coin.TxPool.{
  TxPool, init, add_transaction, pop_transactions, confirm_transactions, query_tx_status, probe,
}
use memo_coin.TxPool.Set.{contains}
use memo_coin.TxPool.Sync.{
  InSync, IsFresh, add_transaction-InSync, pop_transactions-InSync, confirm_transactions-InSync,
}
use memo_coin.TxPool.Ghosts.{
  NoGhosts, add_transaction-NoGhosts, pop_transactions-NoGhosts, confirm_transactions-NoGhosts,
}

-- The requests that change the pool, one at a time: each handler holds `tx_lock` while it runs.
pub data Request : Type 0 where
  posts : Bool → Transaction → Request
  pops : Request
  confirms : Block → Request

unfoldable pub step : TxPool → Request → TxPool
step p (posts valid tx) = (add_transaction valid tx p).0
step p pops = (pop_transactions p).0
step p (confirms b) = (confirm_transactions b p).0

unfoldable pub run : TxPool → List Request → TxPool
run p [] = p
run p (r ∷ rs) = run (step p r) rs

-- No request posts a transaction that the pool holds at that time.
abbrev pub IsNew : TxPool → Request → Type 0
IsNew p (posts valid tx) = IsFresh tx p
IsNew p pops = Unit
IsNew p (confirms b) = Unit

abbrev pub NewAlong : TxPool → List Request → Type 0
NewAlong p [] = Unit
NewAlong p (r ∷ rs) = IsNew p r × NewAlong (step p r) rs

pub init-InSync : InSync init
unfolding init contains
init-InSync = record { submitted = λ t. refl; unconfirmed = λ t. refl; distinct = tt }

init-NoGhosts : NoGhosts init
unfolding init
init-NoGhosts = record { submitted = λ t h. h; unconfirmed = λ t h. h }

pub step-InSync : (p : TxPool) (r : Request) → IsNew p r → InSync p → InSync (step p r)
unfolding step
step-InSync p (posts valid tx) n v = add_transaction-InSync valid tx p n v
step-InSync p pops n v = pop_transactions-InSync p v
step-InSync p (confirms b) n v = confirm_transactions-InSync b p v

step-NoGhosts : (p : TxPool) (r : Request) → NoGhosts p → NoGhosts (step p r)
unfolding step
step-NoGhosts p (posts valid tx) v = add_transaction-NoGhosts valid tx p v
step-NoGhosts p pops v = pop_transactions-NoGhosts p v
step-NoGhosts p (confirms b) v = confirm_transactions-NoGhosts b p v

run-InSync : (p : TxPool) (rs : List Request) → NewAlong p rs → InSync p → InSync (run p rs)
unfolding run
run-InSync p [] n v = v
run-InSync p (r ∷ rs) n v = run-InSync (step p r) rs n.1 (step-InSync p r n.0 v)

run-NoGhosts : (p : TxPool) (rs : List Request) → NoGhosts p → NoGhosts (run p rs)
unfolding run
run-NoGhosts p [] v = v
run-NoGhosts p (r ∷ rs) v = run-NoGhosts (step p r) rs (step-NoGhosts p r v)

-- After any history of posts, pops and confirmations in which no transaction is posted while the
-- pool holds one of the same sender and id, the sets hold exactly what the queues hold, and no two
-- transactions of the two queues share a sender and an id.
pub run-init-InSync : (rs : List Request) → NewAlong init rs → InSync (run init rs)
run-init-InSync rs n = run-InSync init rs n init-InSync

-- After any history, duplicates included, a transaction that a set of the pool names is in the
-- queue of that set.
pub run-init-NoGhosts : (rs : List Request) → NoGhosts (run init rs)
run-init-NoGhosts rs = run-NoGhosts init rs init-NoGhosts

-- After any history in which no transaction is posted while the pool holds one of the same sender
-- and id, a status query answers `submitted` for a transaction in the submitted queue,
-- `unconfirmed` for one in the unconfirmed queue, and otherwise what the blockchain answers.
pub query_tx_status-run :
    (remote : Status) (src : Bytes) (id : ℕ) (rs : List Request)
    → NewAlong init rs
    → query_tx_status remote src id (run init rs) ≡ (
        if contains (probe src id) (run init rs).submitted_queue
        then Status.submitted
        else if contains (probe src id) (run init rs).unconfirmed_queue
        then Status.unconfirmed
        else remote)
unfolding query_tx_status
query_tx_status-run remote src id rs n =
    let v = run-init-InSync rs n in rw (v.submitted (probe src id), v.unconfirmed (probe src id))
