-- ===== src/TxPool.antt =====
-- src/tx_pool.cpp: the transaction pool's queues and sets, and its handlers on decoded payloads.
pub mod Set
pub mod Sync
pub mod Ghosts
pub mod Confirm
pub mod Pop
pub mod History
pub mod Dispatch
pub mod Hash
pub mod Late
pub mod Kept
pub mod Typed
use memo_coin.Prelude.{
  ℕ, ◌+◌, ◌-◌, ◌%◌, Bool, true, false, List, [], ◌∷◌, ◌++◌, Bytes, leb, if◌then◌else◌, length, take,
  u32_mod,
}
use memo_coin.Data.{Transaction, Block, Status, block_size}
use memo_coin.Messages.{MessageType, Payload, Reply}
use Set.{contains, insert, erase, from_list}

pub record TxPool : Type 0 where
  pub submitted_queue : List Transaction
  pub unconfirmed_queue : List Transaction
  pub submitted_set : List Transaction
  pub unconfirmed_set : List Transaction

unfoldable pub init : TxPool
init = record {
  submitted_queue = [];
  unconfirmed_queue = [];
  submitted_set = [];
  unconfirmed_set = [];
}

abbrev pub good : Payload → Reply
good p = record { type = MessageType.status_good; payload = p }

abbrev pub bad : Reply
bad = record { type = MessageType.status_bad; payload = Payload.null }

-- `valid` is the result of `verify_transaction_signature(tx)`.
unfoldable pub add_transaction : Bool → Transaction → TxPool → TxPool × Reply
add_transaction false tx p = (p, bad)
add_transaction true tx p = (
  record p {
    submitted_queue = p.submitted_queue ++ tx ∷ [];
    submitted_set = insert tx p.submitted_set;
  },
  good Payload.null,
)

-- The transactions between `begin` and `end`.
unfoldable pub batch : List Transaction → List Transaction
batch q = take (if leb (block_size - 1) (length q) then block_size - 1 else length q) q

abbrev pop_front : List Transaction → List Transaction
pop_front [] = []
pop_front (t ∷ q) = q

-- One round of the loop `for(auto tx : txs)`.
unfoldable pub move_one : Transaction → TxPool → TxPool
move_one tx p = record p {
  submitted_queue = pop_front p.submitted_queue;
  submitted_set = erase tx p.submitted_set;
  unconfirmed_queue = p.unconfirmed_queue ++ tx ∷ [];
  unconfirmed_set = insert tx p.unconfirmed_set;
}

unfoldable pub move_all : List Transaction → TxPool → TxPool
move_all [] p = p
move_all (tx ∷ txs) p = move_all txs (move_one tx p)

unfoldable pub pop_transactions : TxPool → TxPool × Reply
unfolding batch
pop_transactions p =
    let txs = batch p.submitted_queue in (move_all txs p, good (Payload.transactions txs))

-- The body of the loop of `confirm_transactions`, with the front `tx` of the unconfirmed queue
-- taken off; `found` tells whether `confirmed_set.erase(tx)` erased an element.
unfoldable pub confirm_one : Bool → Transaction → List Transaction → TxPool → TxPool
confirm_one true tx rest p = record p {
  unconfirmed_queue = rest;
  unconfirmed_set = erase tx p.unconfirmed_set;
}
confirm_one false tx rest p = record p {
  unconfirmed_queue = rest;
  unconfirmed_set = erase tx p.unconfirmed_set;
  submitted_queue = p.submitted_queue ++ tx ∷ [];
  submitted_set = insert tx p.submitted_set;
}

-- `while(!confirmed_set.empty() && !unconfirmed_queue.empty())`: the first argument is the
-- unconfirmed queue of the pool, the second the confirmed set.
unfoldable pub confirm_loop : List Transaction → List Transaction → TxPool → TxPool
confirm_loop [] c p = p
confirm_loop (tx ∷ rest) [] p = p
confirm_loop (tx ∷ rest) (x ∷ xs) p =
    confirm_loop rest (erase tx (x ∷ xs)) (confirm_one (contains tx (x ∷ xs)) tx rest p)

unfoldable pub confirm_transactions : Block → TxPool → TxPool × Reply
confirm_transactions b p =
    (confirm_loop p.unconfirmed_queue (from_list b.transactions) p, good Payload.null)

-- The transaction that stands for a key in a lookup: only `src` and `id` are compared.
abbrev pub probe : Bytes → ℕ → Transaction
probe src id = record { src = src; dest = []; signature = []; id = id; amount = 0; timestamp = 0 }

-- `remote` is the answer of the blockchain to the same query, which is asked for last.
unfoldable pub query_tx_status : Status → Bytes → ℕ → TxPool → Status
query_tx_status remote src id p =
    if contains (probe src id) p.submitted_set
    then Status.submitted
    else if contains (probe src id) p.unconfirmed_set
    then Status.unconfirmed
    else remote

unfoldable pub query_tx_count : TxPool → Reply
query_tx_count p =
    good (Payload.number ((length p.submitted_queue + length p.unconfirmed_queue) % u32_mod))
