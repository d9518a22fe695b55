-- ===== src/Ingest/File/OnRedis.antt =====
-- A file of src/ingest/file_ingestor.cpp that is counted in Redis (src/store/redis_store.cpp).
use mathlib.Core.List.{flatten}
use cdr_processor.Base.{ℕ, ◌≡◌, ◌≤◌, ◌<◌, false, Option, some, List, ◌++◌, All, Bytes, length}
use cdr_processor.Record.{CdrRecord}
use cdr_processor.Store.Redis.{Connection, Thread, redis_store}
use cdr_processor.Store.Redis.Server.{View, IsServer, new_process}
use cdr_processor.Store.Redis.Progress.{redis_store-Durable}
use cdr_processor.Aggregate.Totals.{RunTotals}
use cdr_processor.Source.File.{open_file}
use cdr_processor.Source.File.Lines.{lines, kept, Ascends}
use cdr_processor.Source.File.Drain.{IsBatch}
use cdr_processor.Sink.Apart.{Fair}
use cdr_processor.Sink.Marked.{marked, batches_writes}
use cdr_processor.Ingest.File.{FileDirs, basename_of, process}
use cdr_processor.Ingest.File.Rising.{Is64}
use cdr_processor.Ingest.File.Dying.{killed_runs}
use cdr_processor.Ingest.File.Once.{process-once}

-- Over a Redis server that is there, has this client alone and keeps its transactions, which has
-- executed no mark of the file and, under the key of the progress, nothing but marks of 64 bits, and
-- a thread that agrees with it on whether a transaction is open, with nothing queued: where the file
-- has a name and opens, there is fuel for its bytes, and its records' sequences rise from above 0
-- within 64 bits, then however often the process ends, each time after any number of calls of the
-- store, with its connection, and starts anew, the run that goes through moves the file to the
-- directory of files done, and what the server executed meanwhile is the writes of batches of 1 to
-- 4096 records, one batch after another, which are together the file's records, each once and in
-- order.
pub process-once_redis :
    {W : Type 0} (conn : Connection W) (view : W → View) (reconnect : W → W)
    (parse : Bytes → Option CdrRecord) (dirs : FileDirs) (fuel : ℕ) (path : Bytes)
    (content : Option Bytes) (cuts : List ℕ) (run : RunTotals) (s : Thread W)
    → IsServer conn (basename_of path) view reconnect
    → 1 ≤ length (basename_of path)
    → (open_file content 0).failed ≡ false
    → length (open_file content 0).rest < fuel
    → Ascends 0 (kept parse 0 (lines (open_file content 0).rest))
    → All Is64 (kept parse 0 (lines (open_file content 0).rest))
    → (view s.world).in_multi ≡ s.open_batch
    → (view s.world).queued_up ≡ (view s.world).executed
    → All Fair (view s.world).executed
    → marked (basename_of path) 0 (view s.world).executed ≡ 0
    → let store = redis_store conn in
      (s' : Thread W) × (run' : RunTotals) × (s'' : Thread W) × (batches : List (List CdrRecord))
      × (killed_runs parse store (new_process reconnect) dirs fuel cuts path content run s
          ≡ some s')
      × (process parse store dirs fuel false path content (run, s')
          ≡ some ((run', s''), some (dirs.done_dir ++ basename_of path)))
      × (flatten batches ≡ kept parse 0 (lines (open_file content 0).rest))
      × All IsBatch batches
      × ((view s''.world).executed
          ≡ (view s.world).executed ++ batches_writes batches (basename_of path))
process-once_redis conn view reconnect parse dirs fuel path content cuts run s server named opens lt
      rising bits agrees waits fair fresh =
    process-once parse (redis_store conn) (new_process reconnect) dirs fuel path content cuts run s
      (redis_store-Durable conn (basename_of path) view reconnect server) named opens lt rising bits
      agrees waits fair fresh
