-- ===== src/Network/Round.antt =====
-- One round of a validator with the three servers: from the last header to the block on the chain.
use memo_coin.Prelude.{ℕ, suc, ◌-◌, ◌≡◌, refl, Bool, true, false, some, List, Bytes, take}
use memo_coin.Data.{Transaction, Block, BlockHeader, block_size}
use memo_coin.Keys.{Base58}
use memo_coin.Messages.{MessageType, Payload, ok}
use memo_coin.Wire.{Alpaca, Server, send_reply}
use memo_coin.Wire.RoundTrip.{call-serve}
use memo_coin.Consensus.{Solution}
use memo_coin.TxPool.{TxPool, pop_transactions, confirm_transactions}
use memo_coin.BlockChain.{BlockChain, good, back, last_block}
use memo_coin.BlockChain.Chain.{IsBlock, with_block}
use memo_coin.BlockChain.Storage.{StoredBlock, encode_block}
use memo_coin.Metronome.{Metronome, get_difficulty, handle_block}
use memo_coin.BlockChain.Dispatch as Chain
use memo_coin.Metronome.Dispatch as Clock
use memo_coin.Clients.{request_difficulty, request_txs}
use memo_coin.Validator.{is_new, is_null_hash, create_block, deadline}
use memo_coin.Validator.Loop.{Validator, Surroundings, request_header, submit_solution, iterate}
use memo_coin.Network.{within, tx_pool, blockchain, metronome}
use memo_coin.Network.Submit.{Acknowledges, Sendable, pops, submit_block-with_block}
use memo_coin.Network.Monitor.{call-within, asked_number}

module _ (alpaca : Alpaca) (b : Base58) {E : Type 0} where
  module _ (valid : Transaction → Bool) (asked : Server E) (pub_key : Bytes) where
    abbrev State : Type 0
    State = Metronome × (BlockChain × (TxPool × E))

    abbrev pub validator : Validator State
    validator = record {
      blockchain = within (blockchain alpaca b valid asked);
      metronome = metronome alpaca b valid asked;
      tx_pool = within (within (tx_pool alpaca b valid asked));
      pub_key = pub_key;
    }

    module _ (m : Metronome) (c : BlockChain) (p : TxPool) (e : E) where
      abbrev pub handed_out : List Transaction
      handed_out = take (block_size - 1) p.submitted_queue

      abbrev pub built : Surroundings → BlockHeader → Solution → Block
      built g header s =
          create_block pub_key handed_out g.reward_time g.now header s.input s.hash m.difficulty

      -- The messages of a round are in range.
      pub record Reaches (g : Surroundings) (last : Block) (solution : Solution) : Type 0 where
        pub acknowledges : Acknowledges alpaca b valid asked
        pub query : (type : MessageType) → Sendable alpaca b valid asked alpaca.null_message tt type
        pub header :
            Sendable alpaca b valid asked alpaca.block_header last.header MessageType.status_good
        pub difficulty :
            Sendable alpaca b valid asked alpaca.number m.difficulty MessageType.status_good
        pub txs :
            Sendable alpaca b valid asked alpaca.transactions handed_out MessageType.status_good
        pub block :
            (type : MessageType)
            → Sendable alpaca b valid asked alpaca.block (built g last.header solution) type

      module _ (g : Surroundings) (last : Block) (solution : Solution)
          (r : Reaches g last solution) where
        takes_header :
            (n : ℕ) (curr_block : BlockHeader)
            → back c.blocks ≡ some last
            → is_new curr_block last.header ≡ true
            → request_header alpaca validator (suc n) curr_block (m, (c, (p, e)))
              ≡ ok ((m, (c, (p, e))), last.header)
        unfolding request_header Chain.request_handler
        takes_header n curr_block h k =
            let f : last_block c ≡ ok (good (Payload.header last.header)) =
              unfold last_block in rw h refl in
            let q =
              call-within alpaca (blockchain alpaca b valid asked) alpaca.null_message tt
                MessageType.query_last_block alpaca.block_header m (c, (p, e)) (c, (p, e)) _
                (call-serve alpaca (Chain.request_handler alpaca b (tx_pool alpaca b valid asked))
                  alpaca.null_message alpaca.block_header tt MessageType.query_last_block
                  (c, (p, e)) (c, (p, e)) (good (Payload.header last.header)) last.header
                  (r.query MessageType.query_last_block) r.header (unfold send_reply in refl)
                  (rw f refl)) in
            rw q (rw k refl)

        takes_difficulty :
            request_difficulty alpaca (metronome alpaca b valid asked) (m, (c, (p, e)))
            ≡ ok ((m, (c, (p, e))), m.difficulty)
        unfolding request_difficulty Clock.request_handler
        takes_difficulty =
            rw
              (asked_number alpaca b valid asked
                (Clock.request_handler alpaca (blockchain alpaca b valid asked))
                MessageType.query_difficulty m.difficulty (m, (c, (p, e)))
                (r.query MessageType.query_difficulty) r.difficulty (unfold get_difficulty in refl))
              refl

        takes_txs :
            request_txs alpaca validator.tx_pool (m, (c, (p, e)))
            ≡ ok ((m, (c, ((pop_transactions p).0, e))), handed_out)
        unfolding request_txs
        takes_txs =
            let q = pops alpaca b valid asked p e (r.query MessageType.pop_tx) r.txs in
            let t =
              call-within alpaca (tx_pool alpaca b valid asked) alpaca.null_message tt
                MessageType.pop_tx alpaca.transactions c (p, e) ((pop_transactions p).0, e) _ q in
            rw
              (call-within alpaca (within (tx_pool alpaca b valid asked)) alpaca.null_message tt
                MessageType.pop_tx alpaca.transactions m (c, (p, e))
                (c, ((pop_transactions p).0, e)) _ t)
              refl

        -- A round of a validator that finds the last block of the chain new, solves its problem
        -- and builds a block of transfers, where the metronome has that last block too and the
        -- messages are in range: the oldest `block_size - 1` submitted transactions of the pool
        -- and a reward for the validator become the next block, which the metronome takes, the
        -- blockchain adds, settles and stores, and the pool, which handed them out, confirms; the
        -- validator goes on from the header that it took.
        pub iterate-with_block :
            (n : ℕ) (curr_block : BlockHeader)
            → g.requests ≡ suc n
            → back c.blocks ≡ some last
            → is_new curr_block last.header ≡ true
            → g.solve last.header.hash m.difficulty (deadline last.header) ≡ ok solution
            → is_null_hash solution.hash ≡ false
            → last.header.id ≡ m.last_block.id
            → IsBlock (built g last.header solution)
            → (node : StoredBlock) × (encode_block b (built g last.header solution) ≡ ok node)
              × (iterate alpaca validator g curr_block (m, (c, (p, e))) ≡ (
                  let x = built g last.header solution in
                  ok (
                    (
                      (handle_block true x m).0,
                      (with_block x node c, ((confirm_transactions x (pop_transactions p).0).0, e)),
                    ),
                    last.header,
                  )))
        unfolding iterate submit_solution create_block
        iterate-with_block n curr_block f h k s z i v =
            let x = built g last.header solution in
            let (node, d, q) =
              submit_block-with_block alpaca b valid asked x m c (pop_transactions p).0 e v
                (rw i refl) r.acknowledges (r.block MessageType.confirm_block)
                (r.block MessageType.submit_block) in
            (
              node,
              d,
              rw f (
                  rw (takes_header n curr_block h k)
                    (rw takes_difficulty (rw s (rw z (rw takes_txs (rw q refl)))))),
            )
