-- ===== src/Ingest/File/Restarts.antt =====
-- A file of src/ingest/file_ingestor.cpp whose process ends in the middle, again and again, before a
-- run goes through.
use mathlib.Core.List.{flatten}
use cdr_processor.Base.{
  zero, suc, take, drop, append-nil, All-take, All-append, All-split, ℕ, ◌≡◌, ◌≤◌, ◌<◌, ◌∙◌, ap,
  sym, refl, subst, false, Option, some, List, [], ◌∷◌, ◌++◌, append_assoc, All, Bytes, length,
}
use cdr_processor.Record.{CdrRecord}
use cdr_processor.Store.{IStore}
use cdr_processor.Aggregate.Totals.{RunTotals}
use cdr_processor.Aggregate.Writers.Commands.{Command, send_all}
use cdr_processor.Source.File.{open_file}
use cdr_processor.Source.File.Lines.{lines, kept, Ascends}
use cdr_processor.Source.File.Drain.{IsBatch, drain-kept}
use cdr_processor.Sink.{highest}
use cdr_processor.Sink.Apart.{Fair}
use cdr_processor.Sink.Marked.{marked, batches_writes, marked-append, marked-batches}
use cdr_processor.Sink.Progress.{Durable, At, batches_commands, consumed-sends, cut-lasts}
use cdr_processor.Ingest.File.Rising.{Is64, Ascends-append, flatten-Fits, flatten-take, reopened}
use cdr_processor.Ingest.File.{FileDirs, basename_of, process}
use cdr_processor.Ingest.File.Dying.{
  dying, killed, killed_runs, send_all-dying, batches_writes-Fair, batches_writes-append,
  flatten-append,
}

-- The batches that were consumed, each once, after what there was.
abbrev pub Holds :
    {S : Type 0} (store : IStore S) (restart : S → S) (source : Bytes)
    (d : Durable store restart source)
    → List Command
    → List (List CdrRecord)
    → S
    → Type 0
Holds store restart source d before batches s =
    At store restart source d (before ++ batches_writes batches source) s

module _ {S : Type 0} (parse : Bytes → Option CdrRecord) (store : IStore S) (restart : S → S)
    (dirs : FileDirs) (fuel : ℕ) (path : Bytes) (content : Option Bytes)
    (d : Durable store restart (basename_of path)) (named : 1 ≤ length (basename_of path))
    (opens : (open_file content 0).failed ≡ false) (lt : length (open_file content 0).rest < fuel)
    (before : List Command) (fair : All Fair before)
    (fresh : marked (basename_of path) 0 before ≡ 0) where
  -- What a new process reads is the highest sequence that was consumed.
  pub resumes :
      (batches : List (List CdrRecord)) (s : S)
      → All IsBatch batches
      → All Is64 (flatten batches)
      → Ascends 0 (flatten batches)
      → Holds store restart (basename_of path) d before batches s
      → let r = store.resume_at (basename_of path) s in
        (r.0 ≡ highest (flatten batches))
        × Holds store restart (basename_of path) d before batches r.1
  resumes batches s sizes bits rising (h, lasts, waits) =
      let source = basename_of path in
      let writes = batches_writes batches source in
      let all =
        All-append Fair before writes fair
          (batches_writes-Fair batches source (flatten-Fits batches bits)) in
      let (reads, sound, lasts', waits') = d.resume_reads s h (subst (All Fair) (sym waits) all) in
      (
        reads
            ∙ ap (marked source 0) waits
            ∙ marked-append source 0 before writes
            ∙ ap (λ (n : ℕ). marked source n writes) fresh
            ∙ marked-batches source 0 batches named sizes rising,
        (sound, lasts' ∙ waits, waits' ∙ waits),
      )

  -- One process that ends: the batches that it finished are consumed, and nothing else of it lasts.
  killed-Left :
      (calls : ℕ) (done : List (List CdrRecord)) (post : List CdrRecord) (run : RunTotals) (s : S)
      → Ascends 0 (flatten done ++ post)
      → All Is64 (flatten done ++ post)
      → kept parse 0 (lines (open_file content 0).rest) ≡ flatten done ++ post
      → All IsBatch done
      → Holds store restart (basename_of path) d before done s
      → (more : List (List CdrRecord)) × (later : List CdrRecord) × (s' : S) × (killed parse store
            restart dirs fuel calls path content run s
          ≡ some s')
        × (flatten more ++ later ≡ post)
        × All IsBatch more
        × Holds store restart (basename_of path) d before (done ++ more) s'
  unfolding killed process flatten
  killed-Left zero done post run s rising bits all sizes (h, lasts, waits) =
      let source = basename_of path in
      let (batches, ends, _, _) = drain-kept parse fuel (open_file content 0) opens lt in
      let still =
        ap (λ t. t.1) (consumed-sends (dying store) source batches run (0, s))
        ∙ send_all-dying store (batches_commands batches source) 0 s in
      let (sound, lasts', waits') = d.restart_keeps s h in
      let none = ap (λ bs. before ++ batches_writes bs source) (sym (append-nil done)) in
      (
        [],
        post,
        restart s,
        rw (killed, process, ends) (ap (λ t. some (restart t)) still),
        refl,
        tt,
        (sound, lasts' ∙ lasts ∙ none, waits' ∙ lasts ∙ none),
      )
  killed-Left (suc k) done post run s rising bits all sizes holds =
      let source = basename_of path in
      let pre = flatten done in
      let (bits_done, bits_post) = All-split Is64 pre post bits in
      let (reads, holds₁) =
        resumes done s sizes bits_done (Ascends-append 0 pre post rising).0 holds in
      let (resume, s₁) = store.resume_at source s in
      let (batches, ends, order, sizes') =
        reopened parse fuel resume content pre post opens lt rising all reads in
      let fits = flatten-Fits batches (subst (All Is64) (sym order) bits_post) in
      let (n, (sound, lasts)) =
        cut-lasts store restart source d k batches (before ++ batches_writes done source) s₁ fits
          holds₁ in
      let s₂ = (send_all store (take k (batches_commands batches source)) s₁).1 in
      let still =
        ap (λ t. t.1) (consumed-sends (dying store) source batches run (k, s₁))
        ∙ send_all-dying store (batches_commands batches source) k s₁ in
      let (sound', lasts', waits') = d.restart_keeps s₂ sound in
      let together =
        lasts
        ∙ append_assoc before (batches_writes done source) (batches_writes (take n batches) source)
        ∙ ap (◌++◌ before) (sym (batches_writes-append done (take n batches) source)) in
      (
        take n batches,
        flatten (drop n batches),
        restart s₂,
        rw (killed, process, ends) (ap (λ t. some (restart t)) still),
        flatten-take n batches ∙ order,
        All-take IsBatch n batches sizes',
        (sound', lasts' ∙ together, waits' ∙ together),
      )

  pub killed_runs-Left :
      (cuts : List ℕ) (done : List (List CdrRecord)) (post : List CdrRecord) (run : RunTotals)
      (s : S)
      → Ascends 0 (flatten done ++ post)
      → All Is64 (flatten done ++ post)
      → kept parse 0 (lines (open_file content 0).rest) ≡ flatten done ++ post
      → All IsBatch done
      → Holds store restart (basename_of path) d before done s
      → (all : List (List CdrRecord)) × (later : List CdrRecord) × (s' : S) × (killed_runs parse
            store restart dirs fuel cuts path content run s
          ≡ some s')
        × (flatten all ++ later ≡ flatten done ++ post)
        × All IsBatch all
        × Holds store restart (basename_of path) d before all s'
  unfolding killed_runs
  killed_runs-Left [] done post run s rising bits all sizes holds =
      (done, post, s, refl, refl, sizes, holds)
  killed_runs-Left (calls ∷ cuts) done post run s rising bits all sizes holds =
      let (more, later, s₁, ran, parts, sizes₁, holds₁) =
        killed-Left calls done post run s rising bits all sizes holds in
      let split : flatten done ++ post ≡ flatten (done ++ more) ++ later =
        ap (◌++◌ (flatten done)) (sym parts)
        ∙ sym (append_assoc (flatten done) (flatten more) later)
        ∙ ap (λ (rs : List CdrRecord). rs ++ later) (sym (flatten-append done more)) in
      let (every, rest, s₂, ran', parts', sizes₂, holds₂) =
        killed_runs-Left cuts (done ++ more) later run s₁ (subst (Ascends 0) split rising)
          (subst (All Is64) split bits) (all ∙ split) (All-append IsBatch done more sizes sizes₁)
          holds₁ in
      (every, rest, s₂, rw (killed_runs, ran, ran') refl, parts' ∙ sym split, sizes₂, holds₂)
