-- ===== src/BlockChain/Chain.antt =====
-- src/blockchain.cpp: the chain after any sequence of added blocks, and what its queries answer.
use memo_coin.Prelude.{
  ℕ, ◌≡◌, ◌∙◌, refl, sym, none, List, [], ◌∷◌, ◌++◌, append_assoc, append-nil, length, All,
  All-append,
}
use memo_coin.Data.{Transaction, Block}
use memo_coin.Keys.{Base58}
use memo_coin.Messages.{Result, ok, Payload, MessageType, ◌>>=◌}
use memo_coin.BlockChain.{BlockChain, good, push_block, load_genesis, write_block, add_block, start}
use memo_coin.BlockChain.Ledger.{Ledger}
use memo_coin.BlockChain.Ledger.Balances.{IsTransfer, settle, sync_bal-settle}
use memo_coin.BlockChain.Storage.{StoredBlock, encode_block, write_node, put}
use memo_coin.BlockChain.Storage.RoundTrip.{BlockSized, stored_block}

-- The blocks that reach `add_block`, one after another under `blockmutex`.
unfoldable pub add_blocks : Base58 → List Block → BlockChain → Result BlockChain
add_blocks b [] c = ok c
add_blocks b (x ∷ xs) c = add_block b x c >>= λ r. add_blocks b xs r.0

abbrev pub all_txs : List Block → List Transaction
all_txs [] = []
all_txs (x ∷ xs) = x.transactions ++ all_txs xs

-- The arrays have their sizes, and the amounts are of accounts to others.
pub record IsBlock (x : Block) : Type 0 where
  pub sized : BlockSized x
  pub transfers : All IsTransfer x.transactions

key_sizes : (ts : List Transaction) → All IsTransfer ts → All (λ t. length t.src ≡ 32) ts
key_sizes [] v = tt
key_sizes (t ∷ ts) v = (v.0.key_size, key_sizes ts v.1)

pub all_txs-transfers : (xs : List Block) → All IsBlock xs → All IsTransfer (all_txs xs)
all_txs-transfers [] v = tt
all_txs-transfers (x ∷ xs) v =
    All-append IsTransfer x.transactions (all_txs xs) v.0.transfers (all_txs-transfers xs v.1)

pub settle-append :
    (ts us : List Transaction) (l : Ledger) → settle (ts ++ us) l ≡ settle us (settle ts l)
unfolding settle
settle-append [] us l = refl
settle-append (t ∷ ts) us l = settle-append ts us _

pub push_block-settle :
    (b : Base58) (x : Block) (c : BlockChain)
    → All IsTransfer x.transactions
    → push_block b x c
      ≡ ok (record c { blocks = c.blocks ++ x ∷ []; ledger = settle x.transactions c.ledger })
unfolding push_block
push_block-settle b x c v =
    rw (sync_bal-settle b x.transactions c.ledger (key_sizes x.transactions v))

-- The state with a block at its end, its transactions settled and its node stored.
abbrev pub with_block : Block → StoredBlock → BlockChain → BlockChain
with_block x node c = record {
  blocks = c.blocks ++ x ∷ [];
  ledger = settle x.transactions c.ledger;
  stored_chain = put x.header.id node c.stored_chain;
  file = put x.header.id node c.stored_chain;
}

pub add_block-with_block :
    (b : Base58) (x : Block) (c : BlockChain) (node : StoredBlock)
    → All IsTransfer x.transactions
    → encode_block b x ≡ ok node
    → add_block b x c
      ≡ ok (
        with_block x node c,
        good Payload.null,
        record { type = MessageType.confirm_block; block = x },
      )
unfolding add_block write_block write_node
add_block-with_block b x c node v e = rw (push_block-settle b x c v, e)

-- Where the blocks went and what the ledger became.
pub record Added (xs : List Block) (c c' : BlockChain) : Type 0 where
  pub blocks : c'.blocks ≡ c.blocks ++ xs
  pub ledger : c'.ledger ≡ settle (all_txs xs) c.ledger

pub add_blocks-Added :
    (b : Base58) (xs : List Block) (c : BlockChain)
    → All IsBlock xs
    → (c' : BlockChain) × (add_blocks b xs c ≡ ok c') × Added xs c c'
unfolding add_blocks settle
add_blocks-Added b [] c v = (c, refl, record { blocks = sym (append-nil c.blocks); ledger = refl })
add_blocks-Added b (x ∷ xs) c v =
    let (node, e, _) = stored_block b x v.0.sized in
    let (c', f, a) = add_blocks-Added b xs (with_block x node c) v.1 in
    (
      c',
      rw (add_block-with_block b x c node v.0.transfers e) f,
      record {
        blocks = a.blocks ∙ append_assoc c.blocks (x ∷ []) xs;
        ledger = a.ledger ∙ sym (settle-append x.transactions (all_txs xs) c.ledger);
      },
    )

-- A chain that starts with no file: the genesis block and the blocks added after it.
unfoldable pub history : Base58 → ℕ → Block → List Block → Result BlockChain
history b junk genesis xs = start b junk genesis none >>= add_blocks b xs

pub history_total :
    (b : Base58) (junk : ℕ) (genesis : Block) (xs : List Block)
    → All IsTransfer genesis.transactions
    → All IsBlock xs
    → (c : BlockChain) × (history b junk genesis xs ≡ ok c)
      × (c.blocks ≡ genesis ∷ xs)
      × (c.ledger ≡ settle (all_txs (genesis ∷ xs)) [])
unfolding history start load_genesis
history_total b junk genesis xs g v =
    let c0 : BlockChain = record {
      blocks = genesis ∷ [];
      ledger = settle genesis.transactions [];
      stored_chain = [];
      file = [];
    } in
    let (c, f, a) = add_blocks-Added b xs c0 v in
    (
      c,
      rw
          (push_block-settle b genesis
            (record { blocks = []; ledger = []; stored_chain = []; file = [] }) g)
          f,
      a.blocks,
      a.ledger ∙ sym (settle-append genesis.transactions (all_txs xs) []),
    )
