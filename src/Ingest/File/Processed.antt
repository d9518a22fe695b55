-- ===== src/Ingest/File/Processed.antt =====
-- What src/ingest/file_ingestor.cpp makes of a file.
use mathlib.Core.List.{flatten}
use cdr_processor.Base.{
  ℕ, suc, ◌≡◌, ◌<◌, refl, Bool-cases, true, false, Option, some, List, [], ◌++◌, foldl, Bytes,
  length, All, ◌⊎◌, inl, inr, arith, zero,
}
use cdr_processor.Record.{CdrRecord}
use cdr_processor.Store.{IStore}
use cdr_processor.Aggregate.Totals.{RunTotals}
use cdr_processor.Source.File.{Status, FileSource, open_file, drain, next}
use cdr_processor.Source.File.Lines.{lines, kept}
use cdr_processor.Source.File.Drain.{drain-kept, IsBatch}
use cdr_processor.Sink.{consume, resume_at}
use cdr_processor.Ingest.File.{FileDirs, basename_of, dispose, process}

-- A source that could not be opened fails at once.
drain_failed :
    (parse : Bytes → Option CdrRecord) (fuel : ℕ) (s : FileSource)
    → s.failed ≡ true
    → drain parse (suc fuel) s ≡ some ([], Status.fail)
unfolding drain next
drain_failed parse fuel s h = rw (next, h) refl

-- With fuel for its bytes, processing a file ends: where it cannot be read, nothing is consumed and it
-- is moved to the directory of failed files; else the records of its lines that parse and come after
-- the resume point are consumed once, in order and in batches of 1 to 4096, under the file's name,
-- and it is moved to the directory of files done.
pub process-kept :
    {S : Type 0} (parse : Bytes → Option CdrRecord) (store : IStore S) (dirs : FileDirs) (fuel : ℕ)
    (path : Bytes) (content : Option Bytes) (run : RunTotals) (s : S)
    → let (resume, s') = resume_at store (basename_of path) s in
      let source = open_file content resume in
      length source.rest < fuel
      → ((source.failed ≡ true)
          × (process parse store dirs fuel false path content (run, s)
              ≡ some ((run, s'), some (dirs.fail_dir ++ basename_of path))))
        ⊎ ((source.failed ≡ false)
            × ((batches : List (List CdrRecord)) × (process parse store dirs fuel false path content
                    (run, s)
                  ≡ some (
                    foldl (λ st batch. consume store batch (basename_of path) st) (run, s') batches,
                    some (dirs.done_dir ++ basename_of path),
                  ))
                × (flatten batches ≡ kept parse source.resume_seq (lines source.rest))
                × All IsBatch batches))
unfolding process dispose
process-kept parse store dirs zero path content run s h = absurd (omega (arith, h))
process-kept parse store dirs (suc fuel) path content run s h =
    let resume = (resume_at store (basename_of path) s).0 in
    let source : FileSource = open_file content resume in
    elim (Bool-cases source.failed) [
      | inl e ↦ inl (e, rw (process, drain_failed parse fuel source e) refl)
      | inr e ↦
          let (batches, ends, order, sizes) = drain-kept parse (suc fuel) source e h in
          inr (e, (batches, rw (process, ends) refl, order, sizes))
    ]
