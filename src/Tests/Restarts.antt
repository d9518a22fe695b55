-- ===== src/Tests/Restarts.antt =====
-- One file of src/ingest/file_ingestor.cpp whose process ends twice on the way.
use mathlib.Core.List.{flatten}
use cdr_processor.Base.{
  if◌then◌else◌, ◌<◌, ◌≤◌, ◌≡◌, ℕ, refl, arith, Option, some, none, List, [], ◌∷◌, ◌++◌, All, Bytes,
  codes, length, true, false, Bool,
}
use cdr_processor.Record.{CdrRecord, moc, sample}
use cdr_processor.Source.File.{open_file}
use cdr_processor.Source.File.Lines.{lines, kept, Ascends}
use cdr_processor.Source.File.Drain.{IsBatch}
use cdr_processor.Aggregate.Totals.{RunTotals}
use cdr_processor.Aggregate.Writers.Commands.{Command, increment, rank, mark, flush}
use cdr_processor.Sink.Apart.{Fair}
use cdr_processor.Sink.Marked.{marked, marked-bound, batches_writes}
use cdr_processor.Ingest.File.{FileDirs, basename_of, process}
use cdr_processor.Ingest.File.Rising.{Is64}
use cdr_processor.Ingest.File.Dying.{killed_runs}
use cdr_processor.Charconv.{to_chars, from_chars-to_chars}
use cdr_processor.Store.Redis.{Wire, Connection, Context, Reply, Field, Thread, redis_store}
use cdr_processor.Store.Redis.Transaction.{IsWrite, wire}
use cdr_processor.Store.Redis.Server.{View, IsServer, number_of, new_process}
use cdr_processor.Ingest.File.OnRedis.{process-once_redis}

-- A parser for tests: a line is one byte, the record's sequence.
abbrev one_byte : Bytes → Option CdrRecord
one_byte [] = none
one_byte (c ∷ []) = some (sample c moc 1 2 60)
one_byte (c ∷ e ∷ s) = none

abbrev dirs : FileDirs
dirs = record { done_dir = codes "done/"; fail_dir = codes "failed/" }

-- Sequences 65 and 66.
abbrev content : Option Bytes
content = some (codes "CDR|csv|2" ++ 10 ∷ 65 ∷ 10 ∷ 66 ∷ [])

-- Before the first call, and within the batch.
abbrev cuts : List ℕ
cuts = 0 ∷ 4 ∷ []

opens : (open_file content 0).failed ≡ false
unfolding open_file
opens = refl

small : length (open_file content 0).rest < 10
unfolding open_file
small = omega arith

rising : Ascends 0 (kept one_byte 0 (lines (open_file content 0).rest))
unfolding open_file lines kept
rising = (omega arith, (omega arith, tt))

bits : All Is64 (kept one_byte 0 (lines (open_file content 0).rest))
unfolding open_file lines kept
bits = (omega arith, (omega arith, tt))

named : 1 ≤ length (basename_of (codes "process/a"))
unfolding basename_of
named = omega arith

-- A server that holds the commands executed, and the same with those queued.
abbrev Server : Type 0
Server = Bool × List Command × List Command

abbrev keep_command : Command → Server → Server
keep_command c (begun, done, queue) =
    (begun, if begun then done else done ++ c ∷ [], queue ++ c ∷ [])

abbrev run_wire : Wire → Server → Server
run_wire Wire.multi (begun, done, queue) = (true, done, done)
run_wire Wire.exec (begun, done, queue) = (false, if begun then queue else done, queue)
run_wire (Wire.hincrby key field n) w = keep_command (Command.increment key field n) w
run_wire (Wire.zincrby board n member) w = keep_command (Command.rank board member n) w
run_wire (Wire.hset key field n) w = keep_command (Command.mark field n) w

abbrev served : Connection Server
served = record {
  peek = λ w. Context.ready;
  get = λ w. (true, w);
  drop = λ w. w;
  append = λ c w. (true, run_wire c w);
  reply = λ w. (Reply.accepted, w);
  hget = λ key field w. (Field.text (to_chars (marked field 0 w.1)), w);
}

abbrev seen : Server → View
seen w = record { in_multi = w.0; executed = w.1; queued_up = if w.0 then w.2 else w.1 }

abbrev cut_off : Server → Server
cut_off w = (false, w.1, w.1)

run_wire-seen :
    (c : Command) (w : Server)
    → IsWrite c
    → w.0 ≡ true
    → seen (run_wire (wire c) w) ≡ record {
      in_multi = true;
      executed = (seen w).executed;
      queued_up = (seen w).queued_up ++ c ∷ [];
    }
run_wire-seen (increment key field value) w write h = ground (arith, h)
run_wire-seen (rank board member value) w write h = ground (arith, h)
run_wire-seen (mark name seq) w write h = ground (arith, h)
run_wire-seen flush w write h = absurd write

read_back :
    (source : Bytes) (cs : List Command)
    → All Fair cs
    → number_of (Field.text (to_chars (marked source 0 cs))) ≡ marked source 0 cs
unfolding number_of
read_back source cs fair =
    rw
      (
        number_of,
        from_chars-to_chars (marked source 0 cs) (marked-bound source 0 cs (omega arith) fair),
      )
      refl

served-IsServer : (source : Bytes) → IsServer served source seen cut_off
served-IsServer source = record {
  peek = λ w. refl;
  connects = λ w. refl;
  get = λ w. refl;
  appends = λ c w. refl;
  replies = λ w. refl;
  reply = λ w. refl;
  begin = λ w h. refl;
  queues = run_wire-seen;
  commit = λ w h. ground (arith, h);
  idle = λ w h. ground (arith, h);
  hget = λ w. refl;
  reads = λ w h fair. read_back source w.1 fair;
  answers = λ w e. cc;
  lost = λ w. refl;
}

abbrev idle : Thread Server
idle = record { queued = 0; open_batch = false; world = (false, [], []) }

no_mark : marked (basename_of (codes "process/a")) 0 (seen idle.world).executed ≡ 0
unfolding marked
no_mark = refl

process-once_redis_example :
    let store = redis_store served in
    let source = basename_of (codes "process/a") in
    (s' : Thread Server) × (run' : RunTotals) × (s'' : Thread Server) × (batches : List
      (List CdrRecord))
    × (killed_runs one_byte store
          (new_process cut_off)
          dirs
          10
          cuts
          (codes "process/a")
          content
          (λ c. 0)
          idle
        ≡ some s')
    × (process one_byte store dirs 10 false (codes "process/a") content (λ c. 0, s')
        ≡ some ((run', s''), some (dirs.done_dir ++ source)))
    × (flatten batches ≡ kept one_byte 0 (lines (open_file content 0).rest))
    × All IsBatch batches
    × ((seen s''.world).executed ≡ (seen idle.world).executed ++ batches_writes batches source)
process-once_redis_example =
    process-once_redis served seen cut_off one_byte dirs 10 (codes "process/a") content cuts
      (λ c. 0) idle (served-IsServer (basename_of (codes "process/a"))) named opens small rising
      bits refl refl tt no_mark
