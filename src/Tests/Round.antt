-- ===== src/Tests/Round.antt =====
-- A round of a validator with the servers at concrete inputs.
use memo_coin.Prelude.{◌≡◌, [], ◌∷◌, refl, true, false, replicate, arith, u32_mod, ◌-◌}
use memo_coin.Data.{Transaction, BlockHeader, Status}
use memo_coin.Keys.Toy.{toy as toy_base58}
use memo_coin.Messages.{ok}
use memo_coin.Wire.Toy.{toy}
use memo_coin.Consensus.{Solution}
use memo_coin.TxPool.{TxPool, add_transaction, pop_transactions, confirm_transactions}
use memo_coin.BlockChain.Chain.{IsBlock, with_block}
use memo_coin.BlockChain.Storage.{StoredBlock, encode_block}
use memo_coin.BlockChain.{BlockChain, tx_status}
use memo_coin.Metronome.{Metronome, handle_block}
use memo_coin.Clients.{submit_transaction}
use memo_coin.Network.{tx_pool}
use memo_coin.Network.Lifecycle.{submit_transaction-tx_status}
use memo_coin.Transactions.{create_reward_transaction, no_signature}
use memo_coin.Validator.{is_new, is_null_hash, from_bytes, create_block}
use memo_coin.Validator.Loop.{Surroundings, iterate}
use memo_coin.Network.Round.{Reaches, validator, built, iterate-with_block}
use memo_coin.Tests.Inputs.{
  alice, bob, pay, header_at, genesis, alice_ne_bob, zero_ne_bob, zero_size,
}
use memo_coin.Tests.Network.{silent, valid, chain, clock}
use memo_coin.Tests.Rounds.{posted}

abbrev solution : Solution
solution = record { input = (header_at 0).input; hash = replicate 32 5 }

abbrev found : Surroundings
found = record { requests = 1; solve = λ hash d t. ok solution; reward_time = 9; now = 12 }

-- `start` begins with the id UINT32_MAX.
abbrev curr_block : BlockHeader
curr_block = header_at (u32_mod - 1)

reaches : Reaches toy toy_base58 valid silent bob clock chain posted tt found genesis solution
reaches = record {
  acknowledges = record { good = refl; bad = refl };
  query = λ type. refl;
  header = refl;
  difficulty = refl;
  txs = refl;
  block = λ type. refl;
}

curr_is_old : is_new curr_block genesis.header ≡ true
unfolding is_new
curr_is_old = refl

solved_at : is_null_hash solution.hash ≡ false
unfolding is_null_hash from_bytes
solved_at = refl

built-IsBlock :
    IsBlock
      (built toy toy_base58 valid silent bob clock chain posted tt found genesis.header solution)
unfolding create_block create_reward_transaction no_signature
built-IsBlock = record {
  sized = record {
    fingerprint = refl;
    public_key = refl;
    hash = refl;
    difficulty = omega arith;
    transactions = (
      record { src = refl; dest = refl; signature = refl },
      (record { src = zero_size; dest = refl; signature = refl }, tt),
    );
  };
  transfers = (
    record { key_size = refl; small = omega arith; apart = alice_ne_bob },
    (record { key_size = zero_size; small = omega arith; apart = zero_ne_bob }, tt),
  );
}

iterate-with_block_example :
    (let x =
        built toy toy_base58 valid silent bob clock chain posted tt found genesis.header solution in
      (node : StoredBlock) × (encode_block toy_base58 x ≡ ok node)
      × (iterate toy
            (validator toy toy_base58 valid silent bob)
            found
            curr_block
            (clock, (chain, (posted, tt)))
          ≡ ok (
            (
              (handle_block true x clock).0,
              (
                with_block x node chain,
                ((confirm_transactions x (pop_transactions posted).0).0, tt),
              ),
            ),
            genesis.header,
          )))
iterate-with_block_example =
    iterate-with_block toy toy_base58 valid silent bob clock chain posted tt found genesis solution
      reaches 0 curr_block refl refl curr_is_old refl solved_at refl built-IsBlock

abbrev before : TxPool
before = record {
  submitted_queue = [];
  unconfirmed_queue = pay alice bob 1 30 ∷ [];
  submitted_set = [];
  unconfirmed_set = pay alice bob 1 30 ∷ [];
}

abbrev sent : Transaction
sent = pay alice bob 2 5

abbrev after_post : TxPool
after_post = (add_transaction true sent before).0

posted-Reaches :
    Reaches toy toy_base58 valid silent bob clock chain after_post tt found genesis solution
posted-Reaches = record {
  acknowledges = record { good = refl; bad = refl };
  query = λ type. refl;
  header = refl;
  difficulty = refl;
  txs = refl;
  block = λ type. refl;
}

posted-IsBlock :
    IsBlock (
      built toy toy_base58 valid silent bob clock chain after_post tt found genesis.header solution)
unfolding add_transaction
posted-IsBlock = built-IsBlock

submit_transaction-tx_status_example :
    (p1 : TxPool) × (m' : Metronome) × (c' : BlockChain) × (p' : TxPool) × (submit_transaction toy
        (tx_pool toy toy_base58 valid silent)
        sent
        (before, tt)
      ≡ ok ((p1, tt), true))
    × (iterate toy
          (validator toy toy_base58 valid silent bob)
          found
          curr_block
          (clock, (chain, (p1, tt)))
        ≡ ok ((m', (c', (p', tt))), genesis.header))
    × (tx_status alice 2 c' ≡ Status.confirmed)
submit_transaction-tx_status_example =
    submit_transaction-tx_status toy toy_base58 valid silent bob sent clock chain before tt found
      genesis solution 0 curr_block refl (omega arith) refl posted-Reaches refl refl curr_is_old
      refl solved_at refl posted-IsBlock
