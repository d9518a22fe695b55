-- ===== src/Ingest/Rabbit.antt =====
-- src/ingest/rabbit_ingestor.cpp: one consumer thread. What it meets at each pass of the outer loop is
-- an `Attempt`: what `m_stop` holds at the test, whether `connection.open` succeeds, and, on the
-- open connection, what the tests of the inner loop find in `m_stop`, what `connection.ack` returns
-- and what `connection.consume` delivers. Where one of these lists is at its end the thread is
-- still in that pass. The log lines are left out.
pub mod Acks
pub mod Silence
pub mod Totals
use cdr_processor.Base.{
  add64, not, ℕ, suc, ◌+◌, Bool, true, false, Option, none, some, List, [], ◌∷◌, ◌++◌, Bytes,
  length, if◌then◌else◌,
}
use cdr_processor.Record.{CdrRecord}
use cdr_processor.Source.Rabbit.{Delivery, Status, ok, done, fail, RabbitSource, new_source, next}
use cdr_processor.Ingest.Backoff.{longer}

-- What the thread does that others see: batches to `m_sink.consume`, tags to `connection.ack`, and
-- delays to `backoff`.
pub data Event : Type 0 where
  sunk : List CdrRecord → Event
  acked : ℕ → Event
  waited : ℕ → Event

-- The inner loop so far.
pub record Session : Type 0 where
  pub source : RabbitSource
  pub events : List Event
  pub total : ℕ
  pub ended : Bool

pub record Attempt : Type 0 where
  pub stop : Bool
  pub opened : Bool
  pub polls : List Bool
  pub acks : List Bool
  pub deliveries : List Delivery

-- Where the thread stands: at the outer test, in the inner loop, or behind the outer loop.
pub data Place : Type 0 where
  testing reading finished : Place

-- The locals of `consume`, with the events so far. `total` and `rejected` are of 64 bits and wrap.
pub record Consumer : Type 0 where
  pub delay_ms : ℕ
  pub down : Bool
  pub total : ℕ
  pub rejected : ℕ
  pub events : List Event
  pub place : Place

-- `kRabbitBackoffMinMs`
abbrev pub backoff_min : ℕ
backoff_min = 250

-- `kRabbitBackoffMaxMs`
abbrev pub backoff_max : ℕ
backoff_max = 10000

-- The inner loop left, or still in a call.
abbrev pub left_loop : RabbitSource → Bool → Session
left_loop s ended = record { source = s; events = []; total = 0; ended = ended }

-- A batch handed to the sink and its last tag acknowledged, before the rest of the session.
abbrev pub after_batch : List CdrRecord → RabbitSource → Session → Session
after_batch batch s rest = record rest {
  events = sunk batch ∷ acked s.last_tag ∷ rest.events;
  total = add64 (length batch) rest.total;
}

-- What follows a call of `next` that did not fail; `go` is the loop's next test.
unfoldable pub after_read :
    List CdrRecord → List Bool → RabbitSource → (List Bool → Session) → Session
after_read [] acks s go = go acks
after_read (r ∷ rs) [] s go = after_batch (r ∷ rs) s (left_loop s false)
after_read (r ∷ rs) (true ∷ acks) s go = after_batch (r ∷ rs) s (go acks)
after_read (r ∷ rs) (false ∷ acks) s go = after_batch (r ∷ rs) s (left_loop s true)

module _ (parse : Bytes → Option CdrRecord) where
  -- The inner loop, from a test of `m_stop`.
  unfoldable pub serve : List Bool → List Bool → List Delivery → RabbitSource → Session
  serve [] acks ds s = left_loop s false
  serve (true ∷ polls) acks ds s = left_loop s true
  serve (false ∷ polls) acks ds s = elim (next parse s ds) [
    | none ↦ left_loop s false
    | some (status, batch, s', rest) ↦ elim status [
      | fail ↦ left_loop s' true
      | _ ↦ after_read batch acks s' (λ acks'. serve polls acks' rest s')
    ]
  ]

  -- One pass of the outer loop. `RabbitSource` begins anew on each connection.
  unfoldable pub pass : Attempt → Consumer → Consumer
  unfolding serve longer
  pass a c =
      if a.stop
      then record c { place = finished }
      else if not a.opened
      then (let delay = longer backoff_min backoff_max c.delay_ms in
          record c { delay_ms = delay; down = true; events = c.events ++ waited delay ∷ [] })
      else (let session = serve a.polls a.acks a.deliveries new_source in
          record c {
            delay_ms = 0;
            down = false;
            total = add64 c.total session.total;
            rejected = add64 c.rejected (if session.ended then session.source.rejected else 0);
            events = c.events ++ session.events;
            place = if session.ended then testing else reading;
          })

  -- `RabbitIngestor::consume`
  unfoldable pub consume : List Attempt → Consumer → Consumer
  unfolding pass
  consume [] c = c
  consume (a ∷ rest) c = elim c.place [
    | testing ↦ consume rest (pass a c)
    | reading ↦ c
    | finished ↦ c
  ]

-- The locals at the start of `consume`.
abbrev pub new_consumer : Consumer
new_consumer = record {
  delay_ms = 0;
  down = false;
  total = 0;
  rejected = 0;
  events = [];
  place = testing;
}
