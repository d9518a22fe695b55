-- ===== src/Tests/Watcher.antt =====
-- src/ingest/dir_watcher.cpp over small directories, and one file through src/ingest/file_ingestor.cpp.
use mathlib.Core.List.{flatten}
use cdr_processor.Record.{CdrRecord, moc, sample}
use cdr_processor.Store.{IStore}
use cdr_processor.Source.File.{open_file}
use cdr_processor.Source.File.Lines.{lines, kept}
use cdr_processor.Source.File.Drain.{IsBatch}
use cdr_processor.Sink.{consume}
use cdr_processor.Ingest.File.{FileDirs, basename_of, process}
use cdr_processor.Ingest.File.Processed.{process-kept}
use cdr_processor.Base.{
  none, ℕ, ◌+◌, ◌<◌, Option, ◌⊎◌, length, foldl, All, arith, Bool, ◌≡◌, refl, some, List, [], ◌∷◌,
  ◌++◌, Bytes, codes, true, false,
}
use cdr_processor.Ingest.DirWatcher.{Poll, interrupted, woken, arrived, Setup, new_watcher, feed}
use cdr_processor.Ingest.DirWatcher.Claims.{all_claims, scanned, feed-swept}

-- One file claimed by an earlier run, one delivered since, and one that another watcher takes.
abbrev setup : Setup
setup = record {
  dirs = true;
  inotify = true;
  watched = true;
  eventfd = true;
  target = some (record { name = codes "a"; is_regular = true; renamed = false } ∷ []);
  source = some (
      record { name = codes "b"; is_regular = true; renamed = true }
      ∷ record { name = codes "c"; is_regular = true; renamed = false }
      ∷ []);
}

abbrev polls : List Poll
polls =
    interrupted
    ∷ arrived (record { name = codes "d"; has_name = true; is_dir = false; renamed = true } ∷ [])
    ∷ woken
    ∷ []

abbrev tests_of_stop : List Bool
tests_of_stop = false ∷ false ∷ false ∷ false ∷ []

submitted : feed tests_of_stop polls (new_watcher setup) ≡ codes "a" ∷ codes "b" ∷ codes "d" ∷ []
unfolding feed new_watcher
submitted = refl

feed-swept_example :
    (rest : List Bytes) × (scanned true setup.target
        ++ scanned false setup.source
        ++ all_claims polls
      ≡ feed tests_of_stop polls (new_watcher setup) ++ rest)
feed-swept_example = feed-swept setup tests_of_stop polls

-- A parser for tests: a line is one byte, the record's sequence.
abbrev one_byte : Bytes → Option CdrRecord
one_byte [] = none
one_byte (c ∷ []) = some (sample c moc 1 2 60)
one_byte (c ∷ e ∷ s) = none

-- A store that counts what it is told; it has seen sequences up to 65.
abbrev counting : IStore ℕ
counting = record {
  increment = λ key field n s. (true, s + 1);
  rank = λ board id n s. (true, s + 1);
  flush = λ s. (true, s + 1);
  mark = λ source seq s. (true, s + 1);
  resume_at = λ source s. (65, s);
}

abbrev dirs : FileDirs
dirs = record { done_dir = codes "done/"; fail_dir = codes "failed/" }

-- Sequences 65 and 66.
abbrev content : Bytes
content = codes "CDR|csv|2" ++ 10 ∷ 65 ∷ 10 ∷ 66 ∷ []

named : basename_of (codes "process/a") ≡ codes "a"
unfolding basename_of
named = refl

small_rest : length (open_file (some content) 65).rest < 10
unfolding open_file
small_rest = omega arith

process-kept_example :
    let source = open_file (some content) 65 in
    ((source.failed ≡ true)
      × (process one_byte counting dirs 10 false (codes "process/a") (some content) (λ c. 0, 0)
          ≡ some ((λ c. 0, 0), some (dirs.fail_dir ++ basename_of (codes "process/a")))))
    ⊎ ((source.failed ≡ false)
        × ((batches : List (List CdrRecord)) × (process one_byte counting dirs 10 false
                (codes "process/a")
                (some content)
                (λ c. 0, 0)
              ≡ some (
                foldl
                    (λ st batch. consume counting batch (basename_of (codes "process/a")) st)
                    (λ c. 0, 0)
                    batches,
                some (dirs.done_dir ++ basename_of (codes "process/a")),
              ))
            × (flatten batches ≡ kept one_byte source.resume_seq (lines source.rest))
            × All IsBatch batches))
process-kept_example =
    process-kept one_byte counting dirs 10 (codes "process/a") (some content) (λ c. 0) 0 small_rest
