-- ===== src/Lib.antt =====
-- MEMO-coin is a small block chain of separate servers: a block chain server keeps the blocks and
-- the ledger, a transaction pool keeps what was submitted and not yet confirmed, a metronome sets
-- the difficulty and admits one block per round, and validators solve a proof of work or of memory
-- and submit blocks. They talk by request and reply. A client posts a transaction to the pool
-- (`add_transaction`); a validator takes a batch of them (`pop_transactions`), solves the hash
-- problem for the last header and sends a block to the metronome (`handle_block`), which passes it
-- to the block chain (`add_block`), which sends it on to the pool (`confirm_transactions`). Where
-- nobody solves in time the metronome submits an empty block itself.
--
-- The files and the code, whose paths are from the repository's root:
--   Prelude    helpers: Lists (association lists, queues), Arrays (bytes), Words (32-bit words).
--   Data       the constants and structs of src/defs.hpp, src/transaction.hpp, src/block.hpp and
--              src/consensus.hpp.
--   Messages   the message types of src/messages.hpp, replies before they are serialized, and
--              `Result` for code that throws.
--   Keys       the base58 wrappers of src/keys.cpp; Keys/Toy is an encoder that satisfies what is
--              assumed of external/base58, and Generate is `gen_keys_ed25519` and `create_wallet`.
--   Wire       src/messages.hpp and src/messages.cpp: the two frames of a message, and a call of a
--              server. RoundTrip is about calls, and Toy is a serializer that satisfies what is
--              assumed of alpaca.
--   Server     src/server.cpp: the loop of one worker, and Workers, the steps of all workers from
--              `start` to the destructor, where a handler that holds its server's lock is one step
--              and of any other only single accesses to the state are known. Linear compares the
--              two, Pool and PoolWorkers are about either with the handlers of the pool.
--   Text       `std::string::find` and `std::stoi` on bytes; Decimal is about decimal numbers.
--   Config     src/config.cpp on documents: Wallets, Memory and Genesis are its parts, and Toy is a
--              kind of document that satisfies what is assumed of yaml-cpp.
--   TxPool     src/tx_pool.cpp: the two queues are lists with the front first, the two sets are
--              lists without repetition that compare `src` and `id` alone (Set). Pop and Confirm
--              are about one handler each, Late about a pop before a confirmation, Sync and Ghosts
--              about an invariant each, and History is the step relation of all the handlers. Kept
--              is about what the pool holds after a history, compared with what came in,
--              Typed is about what every posted transaction has in common, Hash
--              has the hash functions, and Dispatch, here and in the next two parts, is
--              `request_handler` on messages.
--   BlockChain src/blockchain.cpp: Ledger is `sync_bal` on the map of balances (Entries, Balances
--              and Totals prove what it does to one entry, to balances and to the sum), Storage is
--              `write_block` and the reading of `start`, Chain is a chain grown by `add_block`,
--              Restart the start from the file, Queries the read handlers on a grown chain, and
--              Unordered what the order of the transactions and of the map's entries changes.
--   Metronome  src/metronome.cpp: handlers, and Steps, the interleavings of the handlers with the
--              loop of `start`; Difficulty and Accepted prove invariants of these, and Timeout is
--              about a wait that ends when a block comes.
--   Consensus  src/pow.cpp and src/pom.cpp: Prefix (the bit tests), Lex (the order of arrays and
--              sorting), Search (the binary search; Complete), ProofOfWork and
--              ProofOfMemory (`solve_hash`, `verify_solution`, `gen_hashes`). Model is the
--              interface of src/consensus.hpp with both of them.
--   Transactions  src/transaction.cpp: signing, its check, and the creation of transactions; Signed
--              is about the bytes that are signed.
--   Wallet     the counter of transaction ids of src/config.cpp, and the sending commands of
--              src/dsc.cpp.
--   Validator  src/validator.cpp: one round. NullHash is `is_null_hash` of src/utils.cpp, Rounds the
--              wait for a header and a round with the pool, Created the types of a block,
--              Submits the submitted blocks against the consensus model and the metronome. Loop
--              is `start` with its requests.
--   ThreadPool src/thread_pool.cpp: the steps of the workers, of `queue_job` and of the destructor;
--              Jobs is about the jobs, Shutdown about the end.
--   Clients    the requests of src/transaction.cpp, src/wallet.cpp, src/validator.cpp and
--              src/monitor.cpp, with the lines that the monitor prints.
--   Network    the three servers, each with its calls of the next. Submit follows a request through
--              them, Monitor is what src/monitor.cpp prints, Round is a round of a validator, and
--              Lifecycle the way of a transaction from its client to its block. Interleaving has
--              the three servers side by side, one step for what stands under one lock, with the
--              early reply of `add_block`; Accounts, Outcomes and Progress are about its runs.
--              Locks is about who waits for whom, Recovery about a restart in a run, Answers about
--              the queries in a run, and Replay about a payment that is posted twice. Alone has
--              a round of one validator in a run, Drain its rounds, and Confirmable where they
--              end. Validators adds to the three servers any number of validators; Payments,
--              Apart, Ready and Steady are the invariant that Once draws on, Origin is about
--              where payments come from, Exactly and Balances about what the chain holds in the
--              end, and Twice is about the early reply.
--   CommandLine  src/dsc.cpp: which command the arguments name (Arguments), and what each does with
--              the files and the servers (Commands; Create, Sends, Balance, Setup and Servers).
--   Tests      concrete inputs, runs of the code on them, and instances of the results.
--
-- State is passed explicitly: a handler is a function from the decoded request and the server's
-- record to the new record and the reply. The handlers that change a server's state take its lock,
-- but for the count of validators, so a history is a sequence of handler steps, and what runs side
-- by side is a relation of steps: the metronome's handlers and its loop, the workers of a server,
-- and the three servers. An `int` and a `uint32_t` are a natural number below 2 ^ 32, with the
-- wrap-around written out (`add32`, `sub32`); a `uint64_t` one below 2 ^ 64. No handler catches an
-- exception, and one that leaves a worker thread ends the process: it is the result `err`, as is a
-- read outside an array.
--
-- Loops are recursion on a list or on a count where the code has one. The binary search has fuel:
-- the number of arrays and one more, which is enough since each round shortens the interval. The
-- proof of work has the list of the clock's readings, one for each round, and the wait for a
-- header has the list of the blockchain's answers, or in Loop a number of requests; they are
-- enough where some reading reaches the end or some answer is new, and the constructor
-- `out_of_fuel` answers otherwise.
--
-- Parameters: external/base58 is the record `Base58` (round trip, total on 64 bytes, and 32 digits
-- 1 for 32 bytes 0 only), external/blake3 the record `Blake3` (a digest has 32 bytes), and
-- OpenSSL's signatures the record `Ed25519` (its check accepts what it signed). alpaca is the
-- record `Alpaca`, a `Codec` for each type that is sent, whose reader reads back what its writer
-- wrote of a value in range. yaml-cpp is the record `Yaml` for the configuration (a read after a
-- write), and for the stored chain a list of named nodes, since yaml-cpp keeps a map in order of
-- insertion. The padding inside a transaction, the clock, random numbers, what OpenSSL generates
-- and what uninitialised arrays hold are arguments. The handlers in TxPool, BlockChain, Metronome
-- and Validator take the replies of other servers as arguments; in the Dispatch modules, Clients
-- and Network they are those servers' own.
--
-- Not modelled: the sockets of ZeroMQ and its proxy, which hands each request to a waiting worker;
-- in Network/Round and what rests on it a request is answered before the next one starts, and only
-- Network/Interleaving, Network/Validators and Network/Locks have the reply of `add_block` before the
-- pool's. Left out
-- too are queries that read a server's state while a handler changes it, but in Server/Workers; two names for one file;
-- what a command has written to its files when it throws; and the texts that are only printed.
-- external/base58 and external/blake3 are copies of other projects' libraries.
mod Prelude
pub mod Data
pub mod Messages
pub mod Keys
pub mod Wire
pub mod Text
pub mod Server
pub mod Config
pub mod TxPool
pub mod BlockChain
pub mod Metronome
pub mod Consensus
pub mod Transactions
pub mod Wallet
pub mod Validator
pub mod ThreadPool
pub mod Clients
pub mod Network
pub mod CommandLine
mod Tests
