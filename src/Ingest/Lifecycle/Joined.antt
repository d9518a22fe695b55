-- ===== src/Ingest/Lifecycle/Joined.antt =====
-- What the ingestors of src/ingest hold between their calls.
use cdr_processor.Base.{
  ◌&&◌, ℕ, ◌≡◌, refl, Bool, true, false, ◌||◌, not, List, [], ◌∷◌, arith, if◌then◌else◌,
}
use cdr_processor.Ingest.Lifecycle.{
  destroy_file, destroy_rabbit, FileIngestor, FileSetup, new_file_ingestor, start_file, stop_file,
  RabbitIngestor, new_rabbit_ingestor, start_rabbit, stop_rabbit, Call, started, stopped,
  file_calls, rabbit_calls,
}

-- There is a feeder exactly while the ingestor runs, and the pool's readers are there exactly until
-- `m_stop` is set.
abbrev pub FileJoined : FileIngestor → Type 0
FileJoined i = (i.feeder ≡ i.running) × (i.pool ≡ not i.stop)

-- While it runs there is one thread for each consumer, with a connection of its own, none of them
-- stopped; else there is neither.
abbrev pub RabbitJoined : ℕ → RabbitIngestor → Type 0
RabbitJoined consumers i =
    let held = if i.running then consumers else 0 in
    (i.conns ≡ held) × (i.threads ≡ held) × (not i.running || not i.stop ≡ true)

start_file-FileJoined :
    (setup : FileSetup) (i : FileIngestor) → FileJoined i → FileJoined (start_file setup i).1
unfolding start_file
start_file-FileJoined setup i h = ground arith

stop_file-FileJoined : (i : FileIngestor) → FileJoined i → FileJoined (stop_file i)
unfolding stop_file
stop_file-FileJoined i h = ground arith

start_rabbit-RabbitJoined :
    (has_parser : Bool) (consumers : ℕ) (i : RabbitIngestor)
    → RabbitJoined consumers i
    → RabbitJoined consumers (start_rabbit has_parser consumers i).1
unfolding start_rabbit
start_rabbit-RabbitJoined has_parser consumers i h = ground arith

stop_rabbit-RabbitJoined :
    (consumers : ℕ) (i : RabbitIngestor)
    → RabbitJoined consumers i
    → RabbitJoined consumers (stop_rabbit i)
unfolding stop_rabbit
stop_rabbit-RabbitJoined consumers i h = ground arith

file_calls-FileJoined :
    (calls : List (Call FileSetup)) (i : FileIngestor)
    → FileJoined i
    → FileJoined (file_calls calls i)
unfolding file_calls
file_calls-FileJoined [] i h = h
file_calls-FileJoined (started setup ∷ rest) i h =
    file_calls-FileJoined rest _ (start_file-FileJoined setup i h)
file_calls-FileJoined (stopped ∷ rest) i h = file_calls-FileJoined rest _ (stop_file-FileJoined i h)

rabbit_calls-RabbitJoined :
    (calls : List (Call Bool)) (consumers : ℕ) (i : RabbitIngestor)
    → RabbitJoined consumers i
    → RabbitJoined consumers (rabbit_calls calls consumers i)
unfolding rabbit_calls
rabbit_calls-RabbitJoined [] consumers i h = h
rabbit_calls-RabbitJoined (started has_parser ∷ rest) consumers i h =
    rabbit_calls-RabbitJoined rest consumers _ (start_rabbit-RabbitJoined has_parser consumers i h)
rabbit_calls-RabbitJoined (stopped ∷ rest) consumers i h =
    rabbit_calls-RabbitJoined rest consumers _ (stop_rabbit-RabbitJoined consumers i h)

-- A file ingestor that was stopped once finds `m_stop` set after every later call of `start`.
file_calls_stopped :
    (calls : List (Call FileSetup)) (i : FileIngestor)
    → i.stop ≡ true
    → (file_calls calls i).stop ≡ true
unfolding file_calls start_file stop_file
file_calls_stopped [] i h = h
file_calls_stopped (started setup ∷ rest) i h = file_calls_stopped rest _ (ground (arith, h))
file_calls_stopped (stopped ∷ rest) i h = file_calls_stopped rest _ (ground (arith, h))

-- Whatever calls of `start` and `stop` were made of the two ingestors: the file ingestor has a feeder
-- exactly while it runs, and the readers of its pool from the constructor on until the first `stop`
-- of it while it runs, which sets `m_stop` and drains and joins them; a `stop` leaves a pool only
-- where it did not run. The other has one thread and one connection for each consumer while it runs,
-- and neither else. The destructors leave no feeder, no reader, no thread and no connection.
pub calls-Joined :
    (file : List (Call FileSetup)) (rabbit : List (Call Bool)) (consumers : ℕ)
    → let i = file_calls file new_file_ingestor in
      let j = rabbit_calls rabbit consumers new_rabbit_ingestor in
      FileJoined i
      × ((stop_file i).pool ≡ (not i.running && i.pool))
      × RabbitJoined consumers j
      × ((destroy_file i).feeder ≡ false)
      × ((destroy_file i).pool ≡ false)
      × ((destroy_rabbit j).threads ≡ 0)
      × ((destroy_rabbit j).conns ≡ 0)
unfolding stop_file stop_rabbit destroy_file destroy_rabbit
calls-Joined file rabbit consumers =
    let f = file_calls-FileJoined file new_file_ingestor (refl, refl) in
    let r = rabbit_calls-RabbitJoined rabbit consumers new_rabbit_ingestor (refl, refl, refl) in
    (
      f,
      ground (arith, f),
      r,
      ground (arith, f),
      ground (arith, f),
      ground (arith, r),
      ground (arith, r),
    )
