-- ===== src/Tests/Pool.antt =====
-- src/tx_pool.cpp at concrete inputs.
use memo_coin.Prelude.{refl, true, List, [], ◌∷◌, bytes_eq}
use memo_coin.Data.{tx_eq}
use memo_coin.TxPool.{TxPool, init, add_transaction, confirm_transactions}
use memo_coin.TxPool.Set.{contains, Distinct}
use memo_coin.TxPool.Confirm.{Settled, confirm_transactions-Settled}
use memo_coin.TxPool.History.{Request, posts, step, NewAlong}
use memo_coin.Tests.Inputs.{alice, bob, pay, first}

abbrev pub requests : List Request
requests = posts true (pay alice bob 1 30) ∷ posts true (pay alice bob 2 5) ∷ []

requests-NewAlong : NewAlong init requests
unfolding init step add_transaction contains tx_eq bytes_eq
requests-NewAlong = (refl, (refl, tt))

-- Two transactions handed out; the block holds the first, and a reward.
abbrev pub waiting : TxPool
waiting = record {
  submitted_queue = [];
  unconfirmed_queue = pay alice bob 1 30 ∷ pay alice bob 2 5 ∷ [];
  submitted_set = [];
  unconfirmed_set = pay alice bob 1 30 ∷ pay alice bob 2 5 ∷ [];
}

waiting-Distinct : Distinct waiting.unconfirmed_queue
unfolding contains tx_eq bytes_eq
waiting-Distinct = (refl, (refl, tt))

confirm_transactions-Settled_example :
    Settled waiting.unconfirmed_queue first.transactions waiting
      (confirm_transactions first waiting).0
confirm_transactions-Settled_example = confirm_transactions-Settled first waiting waiting-Distinct
