-- ===== src/Tests/Rabbit.antt =====
-- A consumer of src/ingest/rabbit_ingestor.cpp on a small queue, and the connections that
-- src/source/rabbit_conn.cpp and src/store/redis_conn.cpp hold.
use cdr_processor.Base.{
  u64_mod, ◌%◌, ◌==◌, Bool, ℕ, ◌≡◌, refl, Option, some, none, List, [], ◌∷◌, Bytes, true, false,
  length, All,
}
use cdr_processor.Record.{CdrRecord, moc, sample}
use cdr_processor.Source.Rabbit.{take_message, next, Delivery, message, timeout, lost, new_source}
use cdr_processor.Source.RabbitConn.{Outcome, opened, dropped, uses, open_queue, new_state}
use cdr_processor.Source.RabbitConn.Balance.{IsBalanced, uses-Opens}
use cdr_processor.Ingest.Rabbit.{
  after_read, sunk, acked, waited, Attempt, serve, consume, new_consumer,
}
use cdr_processor.Ingest.Rabbit.Acks.{received, Used, sunk_records, session-acked}
use cdr_processor.Ingest.Rabbit.Silence.{serve-silent}
use cdr_processor.Ingest.Rabbit.Totals.{consume-Counts, InBounds}
use cdr_processor.Store.RedisConn.{Call, got, dropped, calls, new_holder, new_ledger}
use cdr_processor.Store.RedisConn.Owned.{IsOwned, calls-IsOwned}
use cdr_processor.Source.Rabbit.Batches.{records_of}

-- A parser for tests: a body is one byte, the record's sequence.
abbrev one_byte : Bytes → Option CdrRecord
one_byte [] = none
one_byte (c ∷ []) = some (sample c moc 1 2 60)
one_byte (c ∷ e ∷ s) = none

abbrev at_sequence : ℕ → CdrRecord
at_sequence n = sample n moc 1 2 60

-- Two messages and one that does not parse, a quiet moment, one more, and the connection lost.
abbrev queue : List Delivery
queue =
    message (record { tag = 1; body = 65 ∷ [] })
    ∷ message (record { tag = 2; body = [] })
    ∷ message (record { tag = 3; body = 66 ∷ [] })
    ∷ timeout
    ∷ message (record { tag = 4; body = 67 ∷ [] })
    ∷ timeout
    ∷ lost
    ∷ []

abbrev polls : List Bool
polls = false ∷ false ∷ false ∷ true ∷ []

served :
    (serve one_byte polls (true ∷ true ∷ []) queue new_source).events
    ≡ sunk (at_sequence 65 ∷ at_sequence 66 ∷ [])
      ∷ acked 3
      ∷ sunk (at_sequence 67 ∷ [])
      ∷ acked 4
      ∷ []
unfolding serve next take_message after_read
served = refl

session-acked_example :
    (rest : List Delivery) × Used one_byte 0 queue
      (sunk_records
        (sunk (at_sequence 65 ∷ at_sequence 66 ∷ []) ∷ acked 3 ∷ sunk (at_sequence 67 ∷ []) ∷ []))
      4
      rest
session-acked_example =
    session-acked one_byte polls (true ∷ true ∷ []) queue
      (sunk (at_sequence 65 ∷ at_sequence 66 ∷ []) ∷ acked 3 ∷ sunk (at_sequence 67 ∷ []) ∷ []) 4 []
      served

-- Messages none of which parses.
abbrev malformed : List Delivery
malformed =
    message (record { tag = 1; body = [] })
    ∷ timeout
    ∷ message (record { tag = 2; body = [] })
    ∷ timeout
    ∷ []

serve-silent_example : (serve one_byte polls [] malformed new_source).events ≡ []
unfolding records_of received
serve-silent_example = serve-silent one_byte polls [] malformed new_source refl

-- Two attempts that fail, and one session.
abbrev attempts : List Attempt
attempts =
    record { stop = false; opened = false; polls = []; acks = []; deliveries = [] }
    ∷ record { stop = false; opened = false; polls = []; acks = []; deliveries = [] }
    ∷ record {
      stop = false;
      opened = true;
      polls = polls;
      acks = true ∷ true ∷ [];
      deliveries = queue;
    }
    ∷ []

consumed :
    (consume one_byte attempts new_consumer).events
    ≡ waited 250
      ∷ waited 500
      ∷ sunk (at_sequence 65 ∷ at_sequence 66 ∷ [])
      ∷ acked 3
      ∷ sunk (at_sequence 67 ∷ [])
      ∷ acked 4
      ∷ []
unfolding consume serve next take_message after_read
consumed = refl

consume-Counts_example :
    let c = consume one_byte attempts new_consumer in
    (c.total ≡ length (sunk_records c.events) % u64_mod) × All InBounds c.events
consume-Counts_example = consume-Counts one_byte attempts

-- The login fails once the connection is made.
abbrev no_login : Outcome
no_login = record {
  url_parsed = true;
  connection_made = true;
  socket_made = true;
  socket_opened = true;
  logged_in = false;
  channel_opened = true;
  qos_set = true;
  consuming = true;
}

abbrev all_well : Outcome
all_well = record no_login { logged_in = true }

uses-Opens_example :
    let s = uses (opened no_login ∷ opened all_well ∷ []) new_state in
    IsBalanced s
    × IsBalanced (open_queue no_login s).1
    × ((open_queue no_login s).1.0.connected ≡ (open_queue no_login s).0)
    × ((open_queue no_login s).1.0.channel_open ≡ (open_queue no_login s).0)
uses-Opens_example = uses-Opens (opened no_login ∷ opened all_well ∷ []) no_login

-- Contexts are numbers; 0 is one with an error.
abbrev errs : ℕ → Bool
errs c = c == 0

abbrev thread_calls : List (Call ℕ)
thread_calls =
    got errs 1000 1010 (some 0)
    ∷ got errs 1050 1050 (some 7)
    ∷ got errs 1200 1201 (some 8)
    ∷ dropped
    ∷ []

calls-IsOwned_example : IsOwned (calls thread_calls (new_holder, new_ledger))
calls-IsOwned_example = calls-IsOwned thread_calls

reconnected : (calls thread_calls (new_holder, new_ledger)).1.made ≡ 8 ∷ 0 ∷ []
unfolding calls
reconnected = refl
