-- ===== src/CommandLine/Arguments.antt =====
-- src/dsc.cpp: which arguments make the program read outside its vector of arguments.
use Prim.Native.String.{String}
use memo_coin.Prelude.{ℕ, ◌<◌, ◌≡◌, ◌↔◌, List, [], ◌∷◌, length, arith}
use memo_coin.Messages.{Result, ok, err, Error}
use memo_coin.CommandLine.{
  WalletCommand, Word, Program, word, program, with_files, call_send, call_send_multi,
  call_transaction, dispatch, run_wallet, run, start, main,
}

-- How many arguments a command takes for granted, its own word counted.
abbrev pub word_needs : Word → ℕ
word_needs Word.help_word = 0
word_needs Word.create_word = 3
word_needs Word.key_word = 0
word_needs Word.balance_word = 3
word_needs Word.send_word = 0
word_needs Word.transaction_word = 0
word_needs Word.other_word = 0

abbrev pub wallet_needs : List String → ℕ
wallet_needs [] = 0
wallet_needs (first ∷ args) = word_needs (word first)

abbrev pub program_needs : Program → List String → ℕ
program_needs Program.wallet_program args = wallet_needs args
program_needs Program.pool_program args = 1
program_needs Program.metronome_program args = 1
program_needs Program.validator_program args = 2
program_needs Program.blockchain_program args = 2
program_needs Program.monitor_program args = 2
program_needs Program.no_program args = 0

abbrev Fails : {A : Type 0} → Result A → Type 0
Fails r = r ≡ err Error.undefined_behaviour

files_iff :
    (command : String → String → WalletCommand) (args : List String)
    → Fails (with_files command args) ↔ (length args < 3)
unfolding with_files
files_iff command [] = ground arith
files_iff command (a ∷ []) = ground arith
files_iff command (a ∷ b ∷ []) = ground arith
files_iff command (a ∷ b ∷ c ∷ args) = ground arith

key_total : (args : List String) → Fails (dispatch Word.key_word args) ↔ (length args < 0)
unfolding dispatch with_files
key_total [] = ground arith
key_total (a ∷ []) = ground arith
key_total (a ∷ b ∷ []) = ground arith
key_total (a ∷ b ∷ c ∷ args) = ground arith

transaction_total :
    (args : List String) → Fails (dispatch Word.transaction_word args) ↔ (length args < 0)
unfolding dispatch call_transaction
transaction_total [] = ground arith
transaction_total (a ∷ []) = ground arith
transaction_total (a ∷ b ∷ []) = ground arith
transaction_total (a ∷ b ∷ c ∷ []) = ground arith
transaction_total (a ∷ b ∷ c ∷ d ∷ args) = ground arith

send_total : (args : List String) → Fails (dispatch Word.send_word args) ↔ (length args < 0)
unfolding dispatch call_send call_send_multi
send_total [] = ground arith
send_total (a ∷ []) = ground arith
send_total (a ∷ b ∷ []) = ground arith
send_total (a ∷ b ∷ c ∷ []) = ground arith
send_total (a ∷ b ∷ c ∷ d ∷ []) = ground arith
send_total (a ∷ b ∷ c ∷ d ∷ e ∷ []) = ground arith
send_total (a ∷ b ∷ c ∷ d ∷ e ∷ f ∷ []) = ground arith
send_total (a ∷ b ∷ c ∷ d ∷ e ∷ f ∷ g ∷ args) = ground arith

dispatch_iff :
    (w : Word) (args : List String) → Fails (dispatch w args) ↔ (length args < word_needs w)
unfolding dispatch
dispatch_iff Word.help_word args = ground arith
dispatch_iff Word.create_word args = files_iff _ args
dispatch_iff Word.key_word args = key_total args
dispatch_iff Word.balance_word args = files_iff _ args
dispatch_iff Word.send_word args = send_total args
dispatch_iff Word.transaction_word args = transaction_total args
dispatch_iff Word.other_word args = ground arith

wallet_iff : (args : List String) → Fails (run_wallet args) ↔ (length args < wallet_needs args)
unfolding run_wallet
wallet_iff [] = ground arith
wallet_iff (first ∷ args) = dispatch_iff (word first) (first ∷ args)

run_iff : (r : Result WalletCommand) → Fails (run r) ↔ Fails r
run_iff (ok c) = ground arith
run_iff (err e) = ground arith

start_iff :
    (p : Program) (args : List String) → Fails (start p args) ↔ (length args < program_needs p args)
unfolding start
start_iff Program.wallet_program args =
    ((λ h. (wallet_iff args).0 ((run_iff _).0 h)), (λ h. (run_iff _).1 ((wallet_iff args).1 h)))
start_iff Program.pool_program [] = ground arith
start_iff Program.pool_program (a ∷ args) = ground arith
start_iff Program.metronome_program [] = ground arith
start_iff Program.metronome_program (a ∷ args) = ground arith
start_iff Program.validator_program [] = ground arith
start_iff Program.validator_program (a ∷ []) = ground arith
start_iff Program.validator_program (a ∷ b ∷ args) = ground arith
start_iff Program.blockchain_program [] = ground arith
start_iff Program.blockchain_program (a ∷ []) = ground arith
start_iff Program.blockchain_program (a ∷ b ∷ args) = ground arith
start_iff Program.monitor_program [] = ground arith
start_iff Program.monitor_program (a ∷ []) = ground arith
start_iff Program.monitor_program (a ∷ b ∷ args) = ground arith
start_iff Program.no_program args = ground arith

abbrev pub needs : List String → ℕ
needs [] = 0
needs (command ∷ args) = program_needs (program command) args

abbrev pub args_of : List String → List String
args_of [] = []
args_of (command ∷ args) = args

-- The program reads outside its arguments exactly if a command gets fewer than it takes for
-- granted: `wallet create` and `wallet balance` two files, the pool and the metronome one, the
-- validator and the blockchain two, and the monitor two, of which it reads the second.
pub main_iff :
    (argv : List String)
    → (main argv ≡ err Error.undefined_behaviour) ↔ (length (args_of argv) < needs argv)
unfolding main
main_iff [] = ground arith
main_iff (command ∷ args) = start_iff (program command) args
