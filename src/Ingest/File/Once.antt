-- ===== src/Ingest/File/Once.antt =====
-- A file of src/ingest/file_ingestor.cpp is counted once, however often its process ends on the way.
use mathlib.Core.List.{flatten}
use cdr_processor.Base.{
  All-append, All-split, append_assoc, append-nil, ℕ, ◌≡◌, ◌≤◌, ◌<◌, ◌∙◌, ap, sym, refl, subst,
  false, Option, some, List, [], ◌++◌, foldl, All, Bytes, length,
}
use cdr_processor.Record.{CdrRecord}
use cdr_processor.Store.{IStore}
use cdr_processor.Aggregate.Totals.{RunTotals}
use cdr_processor.Source.File.{open_file}
use cdr_processor.Source.File.Lines.{lines, kept, Ascends}
use cdr_processor.Source.File.Drain.{IsBatch}
use cdr_processor.Sink.{consume, resume_at}
use cdr_processor.Sink.Apart.{Fair}
use cdr_processor.Sink.Marked.{marked, batches_writes}
use cdr_processor.Sink.Progress.{Durable, consumed-sends, whole-lasts}
use cdr_processor.Ingest.File.{FileDirs, basename_of, dispose, process}
use cdr_processor.Ingest.File.Rising.{Is64, Ascends-append, flatten-Fits, reopened}
use cdr_processor.Ingest.File.Dying.{batches_writes-append, flatten-append, killed_runs}
use cdr_processor.Ingest.File.Restarts.{killed_runs-Left, resumes}

-- A file that has a name and opens, on fuel for its bytes, whose records' sequences rise from
-- above 0 within 64 bits, over a store that keeps its commands, is in a sound state with nothing
-- waiting, has no progress of this file and no other command under the progress' key: however often
-- the process ends after any number of calls and starts anew, the run that goes through moves the
-- file to the directory of files done, and what then lasts beyond what lasted at first is the
-- writes of batches of 1 to 4096 records that are together the file's records, each once and in
-- order.
pub process-once :
    {S : Type 0} (parse : Bytes → Option CdrRecord) (store : IStore S) (restart : S → S)
    (dirs : FileDirs) (fuel : ℕ) (path : Bytes) (content : Option Bytes) (cuts : List ℕ)
    (run : RunTotals) (s : S) (d : Durable store restart (basename_of path))
    → 1 ≤ length (basename_of path)
    → (open_file content 0).failed ≡ false
    → length (open_file content 0).rest < fuel
    → Ascends 0 (kept parse 0 (lines (open_file content 0).rest))
    → All Is64 (kept parse 0 (lines (open_file content 0).rest))
    → d.sound s
    → d.pending s ≡ d.lasting s
    → All Fair (d.lasting s)
    → marked (basename_of path) 0 (d.lasting s) ≡ 0
    → (s' : S) × (run' : RunTotals) × (s'' : S) × (batches : List (List CdrRecord)) × (killed_runs
          parse store restart dirs fuel cuts path content run s
        ≡ some s')
      × (process parse store dirs fuel false path content (run, s')
          ≡ some ((run', s''), some (dirs.done_dir ++ basename_of path)))
      × (flatten batches ≡ kept parse 0 (lines (open_file content 0).rest))
      × All IsBatch batches
      × (d.lasting s'' ≡ d.lasting s ++ batches_writes batches (basename_of path))
unfolding process dispose flatten batches_writes
process-once parse store restart dirs fuel path content cuts run s d named opens lt rising bits h
      waits fair fresh =
    let source = basename_of path in
    let before = d.lasting s in
    let records = kept parse 0 (lines (open_file content 0).rest) in
    let none = sym (append-nil before) in
    let (done, later, s', ran, parts, sizes, holds) =
      killed_runs-Left parse store restart dirs fuel path content d named opens lt before fair fresh
        cuts [] records run s rising bits refl tt (h, none, waits ∙ none) in
    let rising' = subst (Ascends 0) (sym parts) rising in
    let (bits_done, bits_later) =
      All-split Is64 (flatten done) later (subst (All Is64) (sym parts) bits) in
    let (reads, holds₁) =
      resumes parse store restart dirs fuel path content d named opens lt before fair fresh done s'
        sizes bits_done (Ascends-append 0 (flatten done) later rising').0 holds in
    let (resume, s₁) = resume_at store source s' in
    let (batches, ends, order, sizes') =
      reopened parse fuel resume content (flatten done) later opens lt rising' (sym parts) reads in
    let fits = flatten-Fits batches (subst (All Is64) (sym order) bits_later) in
    let (_, lasts, _) =
      whole-lasts store restart source d batches (before ++ batches_writes done source) s₁ fits
        holds₁ in
    let final = foldl (λ st batch. consume store batch source st) (run, s₁) batches in
    (
      s',
      final.0,
      final.1,
      done ++ batches,
      ran,
      rw (process, ends) refl,
      flatten-append done batches ∙ ap (◌++◌ (flatten done)) order ∙ parts,
      All-append IsBatch done batches sizes sizes',
      ap d.lasting (consumed-sends store source batches run s₁)
          ∙ lasts
          ∙ append_assoc before (batches_writes done source) (batches_writes batches source)
          ∙ ap (◌++◌ before) (sym (batches_writes-append done batches source)),
    )
