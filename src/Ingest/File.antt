-- ===== src/Ingest/File.antt =====
-- src/ingest/file_ingestor.cpp: what becomes of one claimed file, from its resume point to the directory
-- that it ends in, with `basename_of` of src/util/fs.cpp. The parser and the store are parameters; the
-- file is what mapping it gives. The source and the sink share no state, so the batches that the loop
-- hands over one by one are those of `drain`, consumed in their order. Whether the last `rename`
-- succeeds changes nothing but the log, which is left out.
pub mod Processed
pub mod Rising
pub mod Dying
pub mod Restarts
pub mod Once
pub mod OnRedis
use cdr_processor.Base.{
  ℕ, ◌==◌, Bool, true, false, not, Option, none, some, List, [], ◌∷◌, ◌++◌, foldl, Bytes, cut_at,
  if◌then◌else◌, ◌>>=◌,
}
use cdr_processor.Record.{CdrRecord}
use cdr_processor.Store.{IStore}
use cdr_processor.Aggregate.Totals.{RunTotals}
use cdr_processor.Source.File.{Status, open_file, drain}
use cdr_processor.Sink.{consume, resume_at}

-- The directories that a file can end in, as configured: each ends in a slash.
pub record FileDirs : Type 0 where
  pub done_dir : Bytes
  pub fail_dir : Bytes

-- `basename_of`: what follows the last slash, or the whole path.
unfoldable pub basename_of : Bytes → Bytes
basename_of [] = []
basename_of (c ∷ s) =
    let rest = basename_of s in
    let inside : Bool = elim (cut_at b'/' s) [ none ↦ false | some _ ↦ true ] in
    if inside then rest else if c == b'/' then s else c ∷ s

-- `dispose`: where the file is moved.
unfoldable pub dispose : FileDirs → Bytes → Bool → Bytes
unfolding basename_of
dispose dirs path ok = (if ok then dirs.done_dir else dirs.fail_dir) ++ basename_of path

abbrev pub is_done : Status → Bool
is_done Status.done = true
is_done Status.ok = false
is_done Status.fail = false

module _ {S : Type 0} (parse : Bytes → Option CdrRecord) (store : IStore S) (dirs : FileDirs) where
  -- A state, with the path that the file was moved to, if it was.
  abbrev pub Outcome : Type 0
  Outcome = (RunTotals × S) × Option Bytes

  -- `FileIngestor::process`, on the fuel of `drain`.
  unfoldable pub process : ℕ → Bool → Bytes → Option Bytes → RunTotals × S → Option Outcome
  unfolding drain open_file consume dispose
  process fuel stop path content (run, s) =
      let source = basename_of path in
      let (resume, s') = resume_at store source s in
      let drained : Option Outcome = elim (drain parse fuel (open_file content resume)) [
        | none ↦ none
        | some (batches, status) ↦
            let state = foldl (λ st batch. consume store batch source st) (run, s') batches in
            some (state, some (dispose dirs path (is_done status)))
      ] in
      if stop then some ((run, s), none) else drained
