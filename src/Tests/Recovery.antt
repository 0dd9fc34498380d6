-- ===== src/Tests/Recovery.antt =====
-- A restart in the middle of a run, and a payment that is posted twice.
use memo_coin.Prelude.{◌+◌, ◌%◌, ◌≡◌, refl, false, none, some, [], ◌∷◌, ◌++◌, map, u32_mod, arith}
use memo_coin.Keys.{zero_key, base58_encode_key, ones}
use memo_coin.Keys.Toy.{toy as toy_base58}
use memo_coin.Messages.{ok, Payload}
use memo_coin.TxPool.{init, good, pop_transactions}
use memo_coin.BlockChain.{BlockChain, start, load_genesis, push_block}
use memo_coin.BlockChain.Ledger.{value_of, sync_bal, sync_tx, apply_tx, credit, find, emplace}
use memo_coin.BlockChain.Ledger.Balances.{is_reward, settle}
use memo_coin.BlockChain.Storage.RoundTrip.{reread}
use memo_coin.Network.Recovery.{Reach-start}
use memo_coin.Network.Replay.{posted_twice, posted_twice-settle}
use memo_coin.Tests.Inputs.{alice, bob, pay, genesis, genesis-transfers, first, first-IsBlock}
use memo_coin.Tests.Network.{chain}
use memo_coin.Tests.Chain.{added-narrow}
use memo_coin.Tests.Interleaving.{busy, walk}

pub fresh : start toy_base58 0 genesis none ≡ ok chain
unfolding start load_genesis push_block sync_bal sync_tx apply_tx credit find emplace
    base58_encode_key zero_key ones memo_coin.Prelude.bytes_eq
fresh = refl

Reach-start_example :
    (c : BlockChain) × (start toy_base58 0 genesis (some busy.chain.file) ≡ ok c)
    × (c.ledger ≡ busy.chain.ledger)
    × (c.blocks ≡ genesis ∷ map (reread 0) (first ∷ []))
Reach-start_example =
    Reach-start 0 genesis refl fresh genesis-transfers (first-IsBlock, tt) (added-narrow.0, tt)
      (omega arith) walk

payment : is_reward (pay alice bob 1 30) ≡ false
unfolding zero_key memo_coin.Prelude.bytes_eq
payment = refl

posted_twice-settle_example :
    ((pop_transactions (posted_twice (pay alice bob 1 30) init)).1
      ≡ good (
          Payload.transactions
            (init.submitted_queue ++ pay alice bob 1 30 ∷ pay alice bob 1 30 ∷ [])))
    × ((value_of alice (settle (pay alice bob 1 30 ∷ pay alice bob 1 30 ∷ []) ((alice, 100) ∷ []))
            + (30 + 30))
          % u32_mod
        ≡ value_of alice ((alice, 100) ∷ []) % u32_mod)
posted_twice-settle_example =
    posted_twice-settle (pay alice bob 1 30) init ((alice, 100) ∷ []) first-IsBlock.transfers.0
      payment (unfold init in omega arith)
