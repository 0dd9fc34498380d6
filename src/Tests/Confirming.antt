-- ===== src/Tests/Confirming.antt =====
-- A validator that empties the pool, and the queries while the servers run, at concrete inputs.
use memo_coin.Prelude.{
  ◌≡◌, ◌*◌, ◌+◌, refl, sym, false, List, [], ◌∷◌, ◌++◌, replicate, length, ◌≤◌, All, arith,
}
use memo_coin.Keys.{zero_key}
use memo_coin.Keys.Toy.{toy as toy_base58}
use memo_coin.BlockChain.Ledger.Balances.{is_reward}
use memo_coin.BlockChain.Chain.{all_txs}
use memo_coin.TxPool.{init, add_transaction, pop_transactions, batch, move_all, move_one}
use memo_coin.TxPool.History.{run, step}
use memo_coin.TxPool.Kept.{held, posted}
use memo_coin.Validator.Created.{IsPayment, Fills}
use memo_coin.Metronome.{Metronome}
use memo_coin.Metronome.Timeout.{Punished, handles-Punished}
use memo_coin.Tests.Network.{clock}
use memo_coin.Network.Answers.{Answers, Reach-Answers}
use memo_coin.Network.Alone.{MadeBy}
use memo_coin.Network.Confirmable.{Confirms, Reach-Confirms}
use memo_coin.Tests.Inputs.{
  alice, bob, pay, header_at, alice_ne_bob, zero_ne_bob, genesis, genesis-transfers, first,
  first-IsBlock,
}
use memo_coin.Tests.Interleaving.{busy, requests, walk, new}
use memo_coin.Tests.Recovery.{fresh}

pub alice_paid : is_reward (pay alice bob 1 30) ≡ false
unfolding zero_key memo_coin.Prelude.bytes_eq
alice_paid = refl

pub bob_paid : is_reward (pay bob alice 7 10) ≡ false
unfolding zero_key memo_coin.Prelude.bytes_eq
bob_paid = refl

pub alice-IsPayment : IsPayment (pay alice bob 1 30)
alice-IsPayment = record {
  sized = record { src = refl; dest = refl; signature = refl };
  transfer = record { key_size = refl; small = omega arith; apart = alice_ne_bob };
  paid = alice_paid;
}

pub bob-IsPayment : IsPayment (pay bob alice 7 10)
bob-IsPayment = record {
  sized = record { src = refl; dest = refl; signature = refl };
  transfer = record { key_size = refl; small = omega arith; apart = λ e. alice_ne_bob (sym e) };
  paid = bob_paid;
}

payments : All IsPayment (posted requests)
payments = (alice-IsPayment, (bob-IsPayment, tt))

pub fills : Fills bob (header_at 4).input (replicate 32 1) 20
fills = record {
  key_size = refl;
  fingerprint = refl;
  public_key = refl;
  hash = refl;
  small = omega arith;
}

one_round : length (held busy.pool) ≤ 1 * 8190
unfolding run step init add_transaction pop_transactions batch move_all move_one
one_round = omega arith

Reach-Confirms_example :
    Confirms toy_base58
      (MadeBy bob 9 10 20 (header_at 4).input (replicate 32 1))
      busy
      requests
      (1 + 1)
Reach-Confirms_example =
    Reach-Confirms bob 9 10 20 (header_at 4).input (replicate 32 1) 1 genesis fills zero_ne_bob refl
      refl refl refl refl new payments walk one_round

Reach-Answers_example : Answers (all_txs (genesis ∷ first ∷ [])) busy.chain
Reach-Answers_example = Reach-Answers 0 genesis fresh genesis-transfers (first-IsBlock, tt) walk

abbrev solved_fast : Metronome
solved_fast = record clock { difficulty = 21 }

handles-Punished_example : Punished solved_fast first
handles-Punished_example =
    handles-Punished solved_fast first (replicate 32 8) 7 (unfold memo_coin.Prelude.add32 in refl)
      (omega arith)
