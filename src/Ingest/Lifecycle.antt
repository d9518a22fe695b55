-- ===== src/Ingest/Lifecycle.antt =====
-- `start` and `stop` of src/ingest/file_ingestor.cpp and src/ingest/rabbit_ingestor.cpp, called by one
-- thread. What a call finds outside is its argument; a thread that is made and not yet joined is
-- counted. A join returns once the thread has left its loop, which it does after `m_stop` is set.
-- The log lines are left out.
pub mod Joined
use cdr_processor.Base.{
  ℕ, zero, suc, ◌+◌, Bool, true, false, ◌&&◌, ◌||◌, not, List, [], ◌∷◌, Bytes, if◌then◌else◌,
}

-- `m_running`, `m_stop`, whether `m_feeder` can be joined, and whether `m_thread_pool` is there.
pub record FileIngestor : Type 0 where
  pub running : Bool
  pub stop : Bool
  pub feeder : Bool
  pub pool : Bool

-- What `start` finds: a parser for the format, a watcher that is set up, and both directories.
pub record FileSetup : Type 0 where
  pub has_parser : Bool
  pub watcher_ok : Bool
  pub dirs_ok : Bool

-- The constructor.
abbrev pub new_file_ingestor : FileIngestor
new_file_ingestor = record { running = false; stop = false; feeder = false; pool = true }

-- `FileIngestor::start`
unfoldable pub start_file : FileSetup → FileIngestor → Bool × FileIngestor
start_file setup i =
    if i.running
    then (true, i)
    else if not setup.has_parser
    then (false, i)
    else if not setup.watcher_ok
    then (false, i)
    else if not setup.dirs_ok
    then (false, i)
    else (true, record i { feeder = true; running = true })

-- `FileIngestor::stop`
unfoldable pub stop_file : FileIngestor → FileIngestor
stop_file i =
    if not i.running
    then i
    else record { running = false; stop = true; feeder = false; pool = false }

-- The destructor: `stop`, and then the members, of which the pool drains and joins its readers.
unfoldable pub destroy_file : FileIngestor → FileIngestor
unfolding stop_file
destroy_file i = record (stop_file i) { pool = false }

-- `m_running`, `m_stop`, and how many connections and threads there are.
pub record RabbitIngestor : Type 0 where
  pub running : Bool
  pub stop : Bool
  pub conns : ℕ
  pub threads : ℕ

-- The constructor.
abbrev pub new_rabbit_ingestor : RabbitIngestor
new_rabbit_ingestor = record { running = false; stop = false; conns = 0; threads = 0 }

-- `RabbitIngestor::start`, with the number of consumers of the configuration: one thread for each
-- connection that there is.
unfoldable pub start_rabbit : Bool → ℕ → RabbitIngestor → Bool × RabbitIngestor
start_rabbit has_parser consumers i =
    let conns = i.conns + consumers in
    if i.running
    then (true, i)
    else if not has_parser
    then (false, i)
    else (true, record { running = true; stop = false; conns = conns; threads = i.threads + conns })

-- `RabbitIngestor::stop`
unfoldable pub stop_rabbit : RabbitIngestor → RabbitIngestor
stop_rabbit i =
    if not i.running then i else record { running = false; stop = true; conns = 0; threads = 0 }

-- The destructor.
unfoldable pub destroy_rabbit : RabbitIngestor → RabbitIngestor
unfolding stop_rabbit
destroy_rabbit i = stop_rabbit i

-- A call of one of the two.
pub data Call (Setup : Type 0) : Type 0 where
  started : Setup → Call Setup
  stopped : Call Setup

unfoldable pub file_calls : List (Call FileSetup) → FileIngestor → FileIngestor
unfolding start_file stop_file
file_calls [] i = i
file_calls (started setup ∷ rest) i = let (_, i') = start_file setup i in file_calls rest i'
file_calls (stopped ∷ rest) i = file_calls rest (stop_file i)

unfoldable pub rabbit_calls : List (Call Bool) → ℕ → RabbitIngestor → RabbitIngestor
unfolding start_rabbit stop_rabbit
rabbit_calls [] consumers i = i
rabbit_calls (started has_parser ∷ rest) consumers i =
    let (_, i') = start_rabbit has_parser consumers i in rabbit_calls rest consumers i'
rabbit_calls (stopped ∷ rest) consumers i = rabbit_calls rest consumers (stop_rabbit i)
