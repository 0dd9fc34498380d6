-- ===== src/Network/Monitor.antt =====
-- src/monitor.cpp: what the monitor prints of the servers.
use memo_coin.Prelude.{ℕ, ◌+◌, ◌%◌, ◌≡◌, refl, Bool, true, some, [], ◌∷◌, length, u32_mod}
use memo_coin.Data.{Transaction, Block}
use memo_coin.Keys.{Base58}
use memo_coin.Messages.{MessageType, Payload, Result, ok, err, ◌>>=◌}
use memo_coin.Wire.{
  Alpaca, Codec, Message, Frames, Server, Handler, call, serve, send_reply, send_message,
  recv_message,
}
use memo_coin.Wire.RoundTrip.{is_sendable, buffer_of, message_of, call-serve}
use memo_coin.TxPool.{TxPool, query_tx_count}
use memo_coin.BlockChain.{
  BlockChain, good, back, last_block, get_num_addr, get_total_coins, add_entries,
}
use memo_coin.Metronome.{Metronome, query_validators}
use memo_coin.TxPool.Dispatch as Pool
use memo_coin.BlockChain.Dispatch as Chain
use memo_coin.Metronome.Dispatch as Clock
use memo_coin.Clients.{
  ℤ, Line, as_int, num_trans, num_validators, num_wallets, num_coins, print_monitor_stats,
  query_number,
}
use memo_coin.Clients
use memo_coin.Network.{within, tx_pool, blockchain, metronome}

abbrev paired : {R M : Type 0} → R → M → Result (R × M)
paired r m = ok (r, m)

abbrev finish : {R U : Type 0} → Alpaca → Codec U → R × Frames → Result (R × Message U)
finish alpaca codec (r, frames) = recv_message alpaca codec frames >>= paired r

abbrev lift : {A S : Type 0} → A → S × Frames → Result ((A × S) × Frames)
lift a (s, frames) = ok ((a, s), frames)

kept :
    {A S M : Type 0} (a : A) (t s : S) (r : M) (o : Result M)
    → (o >>= paired t) ≡ ok (s, r)
    → (o >>= paired {R = A × S} (a, t)) ≡ ok ((a, s), r)
kept a t s r (err x) e = absurd cc
kept a t s r (ok m) e = cc e

received :
    {A S U : Type 0} (alpaca : Alpaca) (codec : Codec U) (a : A) (s : S) (r : Message U)
    (o : Result (S × Frames))
    → (o >>= finish alpaca codec) ≡ ok (s, r)
    → (o >>= lift a >>= finish alpaca codec) ≡ ok ((a, s), r)
received alpaca codec a s r (err x) e = absurd cc
received alpaca codec a s r (ok (t, frames)) e = kept a t s r (recv_message alpaca codec frames) e

-- A call of a server of a part of the state.
pub call-within :
    {A S T U : Type 0} (alpaca : Alpaca) (server : Server S) (codec : Codec T) (t : T)
    (type : MessageType) (reply_codec : Codec U) (a : A) (s s' : S) (r : Message U)
    → call alpaca server codec t type reply_codec s ≡ ok (s', r)
    → call alpaca (within server) codec t type reply_codec (a, s) ≡ ok ((a, s'), r)
unfolding call
call-within alpaca server codec t type reply_codec a s s' r e =
    received alpaca reply_codec a s' r (server (send_message alpaca codec t type) s) e

module _ (alpaca : Alpaca) (b : Base58) {E : Type 0} where
  module _ (valid : Transaction → Bool) (asked : Server E) where
    abbrev pub SendableHere : {A : Type 0} → Codec A → A → MessageType → Type 0
    SendableHere codec message type = is_sendable alpaca codec message type ≡ true

    pub asked_number :
        {S : Type 0} (handler : Handler S) (type : MessageType) (n : ℕ) (s : S)
        → SendableHere alpaca.null_message tt type
        → SendableHere alpaca.number n MessageType.status_good
        → handler (buffer_of alpaca alpaca.null_message tt type) s ≡ ok (s, good (Payload.number n))
        → call alpaca (serve alpaca handler) alpaca.null_message tt type alpaca.number s
          ≡ ok (s, message_of alpaca alpaca.number n MessageType.status_good)
    asked_number handler type n s h k e =
        call-serve alpaca handler alpaca.null_message alpaca.number tt type s s
          (good (Payload.number n)) n h k (unfold send_reply in refl) e

    -- What the servers hold when the monitor asks them.
    pub record Shows (m : Metronome) (c : BlockChain) (p : TxPool) (x : Block) : Type 0 where
      pub last : back c.blocks ≡ some x
      pub header : SendableHere alpaca.block_header x.header MessageType.status_good
      pub count :
          SendableHere alpaca.number
            ((length p.submitted_queue + length p.unconfirmed_queue) % u32_mod)
            MessageType.status_good
      pub validators : SendableHere alpaca.number m.active_validators MessageType.status_good
      pub wallets : SendableHere alpaca.number (length c.ledger % u32_mod) MessageType.status_good
      pub coins : SendableHere alpaca.number (add_entries 0 c.ledger) MessageType.status_good
      pub query : (type : MessageType) → SendableHere alpaca.null_message tt type

    abbrev State : Type 0
    State = Metronome × (BlockChain × (TxPool × E))

    module _ (m : Metronome) (c : BlockChain) (p : TxPool) (e : E) (x : Block)
        (v : Shows m c p x) where
      abbrev s : State
      s = (m, (c, (p, e)))

      abbrev chain : Handler (BlockChain × (TxPool × E))
      chain = Chain.request_handler alpaca b (tx_pool alpaca b valid asked)

      header_shown : last_block c ≡ ok (good (Payload.header x.header))
      unfolding last_block
      header_shown = rw v.last refl

      shows_last_block :
          Clients.last_block alpaca (within (blockchain alpaca b valid asked)) s
          ≡ ok (s, Clients.header_line x.header)
      unfolding Clients.last_block Chain.request_handler
      shows_last_block =
          let q =
            call-within alpaca (blockchain alpaca b valid asked) alpaca.null_message tt
              MessageType.query_last_block alpaca.block_header m (c, (p, e)) (c, (p, e)) _
              (call-serve alpaca chain alpaca.null_message alpaca.block_header tt
                MessageType.query_last_block (c, (p, e)) (c, (p, e))
                (good (Payload.header x.header)) x.header (v.query MessageType.query_last_block)
                v.header (unfold send_reply in refl) (rw header_shown refl)) in
          rw q refl

      shows_chain :
          (line : ℤ → Line) (type : MessageType) (n : ℕ)
          → SendableHere alpaca.number n MessageType.status_good
          → chain (buffer_of alpaca alpaca.null_message tt type) (c, (p, e))
            ≡ ok ((c, (p, e)), good (Payload.number n))
          → query_number alpaca line type (within (blockchain alpaca b valid asked)) s
            ≡ ok (s, line (as_int n))
      shows_chain line type n k h =
          let q =
            call-within alpaca (blockchain alpaca b valid asked) alpaca.null_message tt type
              alpaca.number m (c, (p, e)) (c, (p, e)) _
              (asked_number chain type n (c, (p, e)) (v.query type) k h) in
          rw q refl

      shows_pool :
          num_trans alpaca (within (within (tx_pool alpaca b valid asked))) s
          ≡ ok (
            s,
            Line.queue_size
                (as_int ((length p.submitted_queue + length p.unconfirmed_queue) % u32_mod)),
          )
      unfolding num_trans Pool.request_handler
      shows_pool =
          let type = MessageType.query_tx_count in
          let n = (length p.submitted_queue + length p.unconfirmed_queue) % u32_mod in
          let q =
            call-within alpaca (tx_pool alpaca b valid asked) alpaca.null_message tt type
              alpaca.number c (p, e) (p, e) _
              (asked_number (Pool.request_handler alpaca valid asked) type n (p, e) (v.query type)
                v.count (unfold query_tx_count in refl)) in
          rw
            (call-within alpaca (within (tx_pool alpaca b valid asked)) alpaca.null_message tt type
              alpaca.number m (c, (p, e)) (c, (p, e)) _ q)
            refl

      shows_metronome :
          num_validators alpaca (metronome alpaca b valid asked) s
          ≡ ok (s, Line.validators (as_int m.active_validators))
      unfolding num_validators Clock.request_handler
      shows_metronome =
          rw
            (asked_number (Clock.request_handler alpaca (blockchain alpaca b valid asked))
              MessageType.query_num_validators m.active_validators s
              (v.query MessageType.query_num_validators) v.validators
              (unfold query_validators in refl))
            refl

      shows_wallets :
          num_wallets alpaca (within (blockchain alpaca b valid asked)) s
          ≡ ok (s, Line.wallets (as_int (length c.ledger % u32_mod)))
      unfolding num_wallets Chain.request_handler
      shows_wallets =
          shows_chain Line.wallets MessageType.query_num_addrs (length c.ledger % u32_mod) v.wallets
            (unfold get_num_addr in refl)

      shows_coins :
          num_coins alpaca (within (blockchain alpaca b valid asked)) s
          ≡ ok (s, Line.coins (as_int (add_entries 0 c.ledger)))
      unfolding num_coins Chain.request_handler
      shows_coins =
          shows_chain Line.coins MessageType.query_coins (add_entries 0 c.ledger) v.coins
            (unfold get_total_coins in refl)

      -- Where the chain has a block and the messages are in range, the monitor changes no server,
      -- and prints the header of the last block, the number of the transactions that wait in the
      -- pool, the validators that registered, the number of the ledger's accounts and the sum of
      -- their balances, in this order. The counts and the sum are modulo 2 ^ 32, and each `uint32_t`
      -- is printed as the `int` of its bits, which is negative from 2 ^ 31.
      pub print_monitor_stats_lem :
          (first last : ℕ)
          → print_monitor_stats alpaca
              (within (blockchain alpaca b valid asked))
              (within (within (tx_pool alpaca b valid asked)))
              (metronome alpaca b valid asked)
              first
              last
              s
            ≡ ok (
              s,
              Line.timestamp first
                  ∷ Clients.header_line x.header
                  ∷ Line.queue_size
                      (as_int ((length p.submitted_queue + length p.unconfirmed_queue) % u32_mod))
                  ∷ Line.validators (as_int m.active_validators)
                  ∷ Line.wallets (as_int (length c.ledger % u32_mod))
                  ∷ Line.coins (as_int (add_entries 0 c.ledger))
                  ∷ Line.no_hashes_per_second
                  ∷ Line.no_hashes_stored
                  ∷ Line.end_timestamp last
                  ∷ [],
            )
      unfolding print_monitor_stats
      print_monitor_stats_lem first last =
          rw shows_last_block
            (rw shows_pool (rw shows_metronome (rw shows_wallets (rw shows_coins refl))))
