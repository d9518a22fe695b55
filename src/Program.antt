-- ===== src/Program.antt =====
-- src/processor_main.cpp and src/gateway_main.cpp: the two programs, from the signals that they block
-- to their exit codes. What is outside is an argument: the signals of `SignalWaiter`
-- (src/util/signal_waiter.cpp), whether the watcher and the directories could be set up, and what binding
-- a port gives. The destructors that run at a return are part of each path.
pub mod Exits
use cdr_processor.Base.{
  not, ℕ, Bool, true, false, Option, none, some, List, [], ◌∷◌, ◌++◌, Bytes, if◌then◌else◌,
}
use cdr_processor.Config.{Config}
use cdr_processor.Util.Registry.{
  create_store, create_query, create_ingestor, create_parser, file_ingestor, rabbit_ingestor,
  Parser,
}
use cdr_processor.Ingest.Lifecycle.{
  FileIngestor, FileSetup, RabbitIngestor, new_file_ingestor, new_rabbit_ingestor, start_file,
  stop_file, destroy_file, start_rabbit, stop_rabbit, destroy_rabbit,
}
use cdr_processor.Query.Gateway.Listener.{Listener, Binding, start, stop}

-- What the two programs do, in their order.
pub data Step : Type 0 where
  block_signals started wait_signal stopped totals restore_signals : Step

-- `SignalWaiter::wait`: `sigwait` again until it succeeds; the signal, if one comes.
unfoldable pub wait : List (Option ℕ) → Option ℕ
wait [] = none
wait (none ∷ rest) = wait rest
wait (some signum ∷ rest) = some signum

-- Whichever ingestor `createIngestor` makes.
pub data AnyIngestor : Type 0 where
  file : FileIngestor → AnyIngestor
  rabbit : RabbitIngestor → AnyIngestor

abbrev pub is_some : {A : Type 0} → Option A → Bool
is_some none = false
is_some (some a) = true

-- What starting finds outside: the watcher and the directories.
pub record Outside : Type 0 where
  pub watcher_ok : Bool
  pub dirs_ok : Bool

-- `IIngestor::start`, of an ingestor made for the configuration.
unfoldable pub start_ingestor : Config → Outside → AnyIngestor → Bool × AnyIngestor
unfolding start_file start_rabbit
start_ingestor cfg o (file i) =
    let (ok, i') =
      start_file
        (record {
          has_parser = is_some (create_parser cfg.format);
          watcher_ok = o.watcher_ok;
          dirs_ok = o.dirs_ok;
        })
        i in
    (ok, file i')
start_ingestor cfg o (rabbit i) =
    let (ok, i') = start_rabbit (is_some (create_parser cfg.format)) cfg.consumers i in
    (ok, rabbit i')

-- `IIngestor::stop`
unfoldable pub stop_ingestor : AnyIngestor → AnyIngestor
unfolding stop_file stop_rabbit
stop_ingestor (file i) = file (stop_file i)
stop_ingestor (rabbit i) = rabbit (stop_rabbit i)

-- The destructor of either.
unfoldable pub destroy_ingestor : AnyIngestor → AnyIngestor
unfolding destroy_file destroy_rabbit
destroy_ingestor (file i) = file (destroy_file i)
destroy_ingestor (rabbit i) = rabbit (destroy_rabbit i)

-- How a program ends: its exit code, what it did, the ingestor whose totals it logs as it stands at
-- that time, and what is left once the destructors ran.
pub record Run (A : Type 0) : Type 0 where
  pub code : ℕ
  pub steps : List Step
  pub reported : Option A
  pub left : Option A

abbrev pub failed : {A : Type 0} → Option A → Run A
failed left = record {
  code = 1;
  steps = block_signals ∷ restore_signals ∷ [];
  reported = none;
  left = left;
}

-- `main` of src/processor_main.cpp, from an ingestor that was made.
unfoldable pub run_ingestor : Config → Outside → AnyIngestor → Run AnyIngestor
unfolding start_ingestor stop_ingestor destroy_ingestor
run_ingestor cfg o made =
    let (ok, running) = start_ingestor cfg o made in
    let quiet = stop_ingestor running in
    let ended : Run AnyIngestor = record {
      code = 0;
      steps = block_signals ∷ started ∷ wait_signal ∷ stopped ∷ totals ∷ restore_signals ∷ [];
      reported = some quiet;
      left = some (destroy_ingestor quiet);
    } in
    if not ok then failed (some (destroy_ingestor running)) else ended

-- `main` of src/processor_main.cpp
unfoldable pub run_processor : Config → Outside → Run AnyIngestor
unfolding run_ingestor
run_processor cfg o = elim (create_store cfg.store_type) [
  | none ↦ failed none
  | some store ↦ elim (create_ingestor cfg.mode) [
    | none ↦ failed none
    | some file_ingestor ↦ run_ingestor cfg o (file new_file_ingestor)
    | some rabbit_ingestor ↦ run_ingestor cfg o (rabbit new_rabbit_ingestor)
  ]
]

-- `main` of src/gateway_main.cpp
unfoldable pub run_gateway : Config → Binding → Run Listener
unfolding start stop
run_gateway cfg b =
    let gateway : Listener = record { port = cfg.query_port; running = false } in
    let (ok, running) = start b gateway in
    let ended : Run Listener = record {
      code = 0;
      steps = block_signals ∷ started ∷ wait_signal ∷ stopped ∷ restore_signals ∷ [];
      reported = none;
      left = some (stop (stop running));
    } in
    elim (create_query cfg.store_type) [
      | none ↦ failed none
      | some store ↦ if not ok then failed (some (stop running)) else ended
    ]
