-- ===== src/CommandLine.antt =====
-- src/dsc.cpp: which command the arguments name. An argument that is missing is a read outside the
-- vector.
pub mod Arguments
pub mod Commands
use Prim.Native.String.{String}
use text.Mathlib.Text.{◌==◌ as str_eq}
use memo_coin.Prelude.{
  ℕ, Bool, true, false, ◌&&◌, leb, if◌then◌else◌, Option, none, some, List, [], ◌∷◌, length,
  get_elem?,
}
use memo_coin.Messages.{Result, ok, err, Error, ◌>>=◌}

-- What `run_wallet` calls, with the files and the texts that it passes on.
pub data WalletCommand : Type 0 where
  help wrong : WalletCommand
  create key balance : String → String → WalletCommand
  send : String → String → String → String → WalletCommand
  send_multi : String → String → String → String → String → WalletCommand
  transaction : String → String → String → WalletCommand

-- What `main` runs.
pub data Component : Type 0 where
  missing unknown : Component
  wallet : WalletCommand → Component
  pool metronome monitor : String → Component
  validator blockchain : String → String → Component

-- The words that the first argument is compared with.
pub data Word : Type 0 where
  help_word create_word key_word balance_word send_word transaction_word other_word : Word

unfoldable pub word : String → Word
word s =
    if str_eq s "help"
    then help_word
    else if str_eq s "create"
    then create_word
    else if str_eq s "key"
    then key_word
    else if str_eq s "balance"
    then balance_word
    else if str_eq s "send"
    then send_word
    else if str_eq s "transaction"
    then transaction_word
    else other_word

-- `args[1] == "multi"`, where there is such an argument.
abbrev pub second_is_multi : List String → Bool
second_is_multi (a ∷ b ∷ args) = str_eq b "multi"
second_is_multi [] = false
second_is_multi (a ∷ []) = false

-- The calls with `args[1]` and `args[2]`.
unfoldable pub with_files : (String → String → WalletCommand) → List String → Result WalletCommand
with_files command (a ∷ b ∷ c ∷ args) = ok (command b c)
with_files command args = err Error.undefined_behaviour

unfoldable pub call_send_multi : List String → Result WalletCommand
call_send_multi (a ∷ b ∷ c ∷ d ∷ e ∷ f ∷ g ∷ args) = ok (send_multi c d e f g)
call_send_multi args = err Error.undefined_behaviour

unfoldable pub call_send : List String → Result WalletCommand
call_send (a ∷ b ∷ c ∷ d ∷ e ∷ args) = ok (send b c d e)
call_send args = err Error.undefined_behaviour

unfoldable pub call_transaction : List String → Result WalletCommand
call_transaction (a ∷ b ∷ c ∷ d ∷ args) = ok (transaction b c d)
call_transaction args = err Error.undefined_behaviour

-- The chain of tests, by the first argument; where `args` are too few for a command that counts
-- them, the tests that follow fail, and the last line is reached.
unfoldable pub dispatch : Word → List String → Result WalletCommand
unfolding with_files call_send_multi call_send call_transaction
dispatch help_word args = ok help
dispatch create_word args = with_files create args
dispatch key_word args = if leb 3 (length args) then with_files key args else ok wrong
dispatch balance_word args = with_files balance args
dispatch send_word args =
    if leb 7 (length args) && second_is_multi args
    then call_send_multi args
    else if leb 5 (length args)
    then call_send args
    else ok wrong
dispatch transaction_word args = if leb 4 (length args) then call_transaction args else ok wrong
dispatch other_word args = ok wrong

unfoldable pub run_wallet : List String → Result WalletCommand
unfolding dispatch word
run_wallet [] = ok help
run_wallet (first ∷ args) = dispatch (word first) (first ∷ args)

abbrev pub run : Result WalletCommand → Result Component
run (ok c) = ok (wallet c)
run (err e) = err e

-- The calls with `args[0]`; with `args[0]` and `args[1]`; with `args[1]`.
unfoldable pub with_first : (String → Component) → List String → Result Component
with_first component (a ∷ args) = ok (component a)
with_first component [] = err Error.undefined_behaviour

unfoldable pub with_two : (String → String → Component) → List String → Result Component
with_two component (a ∷ b ∷ args) = ok (component a b)
with_two component args = err Error.undefined_behaviour

unfoldable pub with_second : (String → Component) → List String → Result Component
with_second component (a ∷ b ∷ args) = ok (component b)
with_second component args = err Error.undefined_behaviour

pub data Program : Type 0 where
  wallet_program pool_program metronome_program validator_program : Program
  blockchain_program monitor_program no_program : Program

unfoldable pub program : String → Program
program s =
    if str_eq s "wallet"
    then wallet_program
    else if str_eq s "pool"
    then pool_program
    else if str_eq s "metronome"
    then metronome_program
    else if str_eq s "validator"
    then validator_program
    else if str_eq s "blockchain"
    then blockchain_program
    else if str_eq s "monitor"
    then monitor_program
    else no_program

unfoldable pub start : Program → List String → Result Component
unfolding with_first with_two with_second run_wallet
start wallet_program args = run (run_wallet args)
start pool_program args = with_first pool args
start metronome_program args = with_first metronome args
start validator_program args = with_two validator args
start blockchain_program args = with_two blockchain args
start monitor_program args = with_second monitor args
start no_program args = ok unknown

-- `main` on the arguments behind the program's name.
unfoldable pub main : List String → Result Component
unfolding start program
main [] = ok missing
main (command ∷ args) = start (program command) args
