-- ===== src/BlockChain.antt =====
-- src/blockchain.cpp: the chain of blocks, its ledger and its stored form, and the handlers on
-- decoded payloads. An `int` in a reply is its bit pattern.
pub mod Ledger
pub mod Storage
pub mod Chain
pub mod Restart
pub mod Queries
pub mod Unordered
pub mod Dispatch
use memo_coin.Prelude.{
  ℕ, ◌%◌, Bool, true, false, ◌&&◌, ◌||◌, ◌==◌, Option, none, some, List, [], ◌∷◌, ◌++◌, Bytes,
  bytes_eq, if◌then◌else◌, length, add32, u32_mod,
}
use memo_coin.Data.{Transaction, Block, BlockHeader, Status}
use memo_coin.Keys.{Base58}
use memo_coin.Messages.{MessageType, Payload, Reply, Sent, Result, ok, err, Error, ◌>>=◌}
use Ledger.{value_of, sync_bal}
use Storage.{Stored, StoredBlock, write_node, read_block}

-- `file` is the content of the file `file_name`.
pub record BlockChain : Type 0 where
  pub blocks : List Block
  pub ledger : Ledger.Ledger
  pub stored_chain : Stored
  pub file : Stored

abbrev pub good : Payload → Reply
good p = record { type = MessageType.status_good; payload = p }

-- `this->blocks.push_back(b); sync_bal(b);`
unfoldable pub push_block : Base58 → Block → BlockChain → Result BlockChain
push_block b block c = do
  l ← sync_bal b block.transactions c.ledger
  ok (record c { blocks = c.blocks ++ block ∷ []; ledger = l })

unfoldable pub load_genesis : Base58 → Block → BlockChain → Result BlockChain
load_genesis b genesis c = push_block b genesis c

unfoldable pub write_block : Base58 → Block → BlockChain → Result BlockChain
write_block b block c = do
  s ← write_node b block c.stored_chain
  ok (record c { stored_chain = s; file = s })

-- The reply to the client, and the message to the transaction pool whose answer is awaited.
unfoldable pub add_block : Base58 → Block → BlockChain → Result (BlockChain × Reply × Sent)
add_block b block c = do
  c ← push_block b block c
  c ← write_block b block c
  ok (c, good Payload.null, record { type = MessageType.confirm_block; block = block })

unfoldable pub get_balance : Bytes → BlockChain → Reply
get_balance pub_key c = good (Payload.number (value_of pub_key c.ledger))

abbrev pub back : List Block → Option Block
back [] = none
back (b ∷ []) = some b
back (b ∷ c ∷ bs) = back (c ∷ bs)

abbrev header_reply : Option Block → Result Reply
header_reply none = err Error.undefined_behaviour
header_reply (some b) = ok (good (Payload.header b.header))

unfoldable pub last_block : BlockChain → Result Reply
last_block c = header_reply (back c.blocks)

-- The inner loop of `tx_status`.
unfoldable pub in_block : Bytes → ℕ → List Transaction → Bool
in_block src id [] = false
in_block src id (t ∷ ts) = bytes_eq t.src src && t.id == id || in_block src id ts

unfoldable pub in_blocks : Bytes → ℕ → List Block → Bool
in_blocks src id [] = false
in_blocks src id (b ∷ bs) = in_block src id b.transactions || in_blocks src id bs

unfoldable pub tx_status : Bytes → ℕ → BlockChain → Status
tx_status src id c = if in_blocks src id c.blocks then Status.confirmed else Status.unknown

unfoldable pub get_num_addr : BlockChain → Reply
get_num_addr c = good (Payload.number (length c.ledger % u32_mod))

-- `sum += entry.second` over the ledger.
unfoldable pub add_entries : ℕ → Ledger.Ledger → ℕ
add_entries sum [] = sum
add_entries sum ((k, v) ∷ l) = add_entries (add32 sum v) l

unfoldable pub get_total_coins : BlockChain → Reply
get_total_coins c = good (Payload.number (add_entries 0 c.ledger))

-- The loop of `start` over the stored blocks; `junk` is what `b.header.id`, which the loop leaves
-- as it was created, happens to hold.
unfoldable pub load_blocks : Base58 → ℕ → Stored → BlockChain → Result BlockChain
load_blocks b junk [] c = ok c
load_blocks b junk ((Storage.other_name name, node) ∷ rest) c = ok c
load_blocks b junk ((Storage.block_name id, node) ∷ rest) c = do
  block ← read_block b junk node
  c ← push_block b block c
  load_blocks b junk rest c

-- `BlockChain` and `start` up to the server: no file is configured if `stored` is `none`.
unfoldable pub start : Base58 → ℕ → Block → Option Stored → Result BlockChain
start b junk genesis none =
    load_genesis b genesis (record { blocks = []; ledger = []; stored_chain = []; file = [] })
start b junk genesis (some s) = do
  c ← load_genesis b genesis (record { blocks = []; ledger = []; stored_chain = s; file = s })
  load_blocks b junk s c
