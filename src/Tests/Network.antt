-- ===== src/Tests/Network.antt =====
-- The servers together at concrete inputs, with a serializer that meets the interface.
use memo_coin.Prelude.{◌≡◌, refl, Bool, true, [], ◌∷◌}
use memo_coin.Data.{Transaction}
use memo_coin.Messages.{ok, err, Error}
use memo_coin.Keys.Toy.{toy as toy_base58}
use memo_coin.Wire.{Server}
use memo_coin.Wire.Toy.{toy}
use memo_coin.BlockChain.{BlockChain, add_entries}
use memo_coin.Metronome.{Metronome}
use memo_coin.Clients.{Line, as_int, print_monitor_stats}
use memo_coin.Clients
use memo_coin.Network.{within, tx_pool, blockchain, metronome}
use memo_coin.Network.Submit.{Acknowledges}
use memo_coin.Network.Monitor.{Shows, print_monitor_stats_lem}
use memo_coin.Tests.Inputs.{alice, header_at, genesis}
use memo_coin.Tests.Pool.{waiting}

abbrev pub Outside : Type 0
Outside = Unit

-- What the pool would ask is not there.
abbrev pub silent : Server Outside
silent frames e = err Error.malformed_message

abbrev pub valid : Transaction → Bool
valid t = true

abbrev pub acknowledges : Acknowledges toy toy_base58 valid silent
acknowledges = record { good = refl; bad = refl }

abbrev pub chain : BlockChain
chain = record { blocks = genesis ∷ []; ledger = (alice, 100) ∷ []; stored_chain = []; file = [] }

abbrev pub clock : Metronome
clock = record {
  sleeping = true;
  prev_solved_time = 0;
  curr_solved_time = 0;
  difficulty = 20;
  last_block = header_at 0;
  active_validators = 3;
}

shows : Shows toy toy_base58 valid silent clock chain waiting genesis
shows = record {
  last = refl;
  header = refl;
  count = refl;
  validators = refl;
  wallets = refl;
  coins = refl;
  query = λ type. refl;
}

print_monitor_stats_lem_example :
    print_monitor_stats toy
      (within (blockchain toy toy_base58 valid silent))
      (within (within (tx_pool toy toy_base58 valid silent)))
      (metronome toy toy_base58 valid silent)
      10
      20
      (clock, (chain, (waiting, tt)))
    ≡ ok (
      (clock, (chain, (waiting, tt))),
      Line.timestamp 10
          ∷ Clients.header_line genesis.header
          ∷ Line.queue_size (as_int 2)
          ∷ Line.validators (as_int 3)
          ∷ Line.wallets (as_int 1)
          ∷ Line.coins (as_int (add_entries 0 chain.ledger))
          ∷ Line.no_hashes_per_second
          ∷ Line.no_hashes_stored
          ∷ Line.end_timestamp 20
          ∷ [],
    )
print_monitor_stats_lem_example =
    print_monitor_stats_lem toy toy_base58 valid silent clock chain waiting tt genesis shows 10 20
