-- ===== src/Tests/Files.antt =====
-- The configuration and the commands at concrete inputs.
use memo_coin.Prelude.{◌<◌, ◌≡◌, ◌↔◌, refl, [], ◌∷◌, length}
use memo_coin.Messages.{err, Error}
use memo_coin.Text.{i32_limit, stoi}
use memo_coin.Config.{Wallet, parse_memory}
use memo_coin.Config.Memory.{Scale, letter, factor, bounded, parse_memory_lem}
use memo_coin.CommandLine.{main}
use memo_coin.CommandLine.Arguments.{args_of, needs, main_iff}
use memo_coin.Tests.Inputs.{alice}

abbrev pub own : Wallet
own = record { priv_key = alice; pub_key = alice }

-- "3GB" overflows.
parse_memory_lem_example :
    parse_memory (b'3' ∷ letter Scale.giga ∷ b'B' ∷ []) ≡ bounded 3 (factor Scale.giga)
unfolding memo_coin.Text.Decimal.value_from
parse_memory_lem_example = parse_memory_lem (b'3' ∷ []) Scale.giga (refl, tt) λ e. cc

main_iff_example :
    (main ("metronome" ∷ []) ≡ err Error.undefined_behaviour)
    ↔ (length (args_of ("metronome" ∷ [])) < needs ("metronome" ∷ []))
main_iff_example = main_iff ("metronome" ∷ [])
