-- ===== src/Sink/Marked.antt =====
-- The progress of a source among the commands of src/sink/aggregate_sink.cpp.
use mathlib.Core.List.{flatten}
use cdr_processor.Base.{
  u64_mod, ◌<◌, ◌≤◌, ◌≡◌, ◌∙◌, ap, sym, refl, ℕ, List, [], ◌∷◌, ◌++◌, All, All-append, arith, Bytes,
  length, text_eq, text_eq_iff, if◌then◌else◌, true,
}
use cdr_processor.Record.{CdrRecord}
use cdr_processor.Aggregate.Totals.{no_totals, add_batch}
use cdr_processor.Aggregate.Delta.{fold}
use cdr_processor.Aggregate.Writers.Commands.{
  Command, increment, rank, mark, flush, totals_commands, rank_commands, delta_commands,
}
use cdr_processor.Source.File.Lines.{Ascends}
use cdr_processor.Source.File.Drain.{IsBatch}
use cdr_processor.Sink.{highest, highest_from}
use cdr_processor.Sink.Consume.{progress_commands}
use cdr_processor.Sink.Transaction.{batch_writes, rank_commands-All, delta_commands-All}
use cdr_processor.Sink.Apart.{Fair}
use cdr_processor.Ingest.File.Rising.{Ascends-append, highest_from-append, highest_from-batch}

-- The last mark of a source, or what there was before.
unfoldable pub marked : Bytes → ℕ → List Command → ℕ
marked source n [] = n
marked source n (increment key field value ∷ cs) = marked source n cs
marked source n (rank board member value ∷ cs) = marked source n cs
marked source n (mark name seq ∷ cs) = marked source (if text_eq name source then seq else n) cs
marked source n (flush ∷ cs) = marked source n cs

-- The writes of some batches, one after another.
unfoldable pub batches_writes : List (List CdrRecord) → Bytes → List Command
batches_writes [] source = []
batches_writes (batch ∷ batches) source = batch_writes batch source ++ batches_writes batches source

pub marked-append :
    (source : Bytes) (n : ℕ) (cs bs : List Command)
    → marked source n (cs ++ bs) ≡ marked source (marked source n cs) bs
unfolding marked
marked-append source n [] bs = refl
marked-append source n (increment key field value ∷ cs) bs = marked-append source n cs bs
marked-append source n (rank board member value ∷ cs) bs = marked-append source n cs bs
marked-append source n (mark name seq ∷ cs) bs =
    marked-append source (if text_eq name source then seq else n) cs bs
marked-append source n (flush ∷ cs) bs = marked-append source n cs bs

pub marked-bound :
    (source : Bytes) (n : ℕ) (cs : List Command)
    → n < u64_mod
    → All Fair cs
    → marked source n cs < u64_mod
unfolding marked
marked-bound source n [] lt h = lt
marked-bound source n (increment key field value ∷ cs) lt (_, h) = marked-bound source n cs lt h
marked-bound source n (rank board member value ∷ cs) lt (_, h) = marked-bound source n cs lt h
marked-bound source n (mark name seq ∷ cs) lt (fits, h) =
    marked-bound source (if text_eq name source then seq else n) cs (ground (arith, lt, fits)) h
marked-bound source n (flush ∷ cs) lt (e, h) = absurd e

-- A counter or a board.
abbrev Counts : Command → Type 0
Counts (increment key field value) = Unit
Counts (rank board member value) = Unit
Counts (mark name seq) = ⊥
Counts flush = ⊥

marked-Counts :
    (source : Bytes) (n : ℕ) (cs : List Command) → All Counts cs → marked source n cs ≡ n
unfolding marked
marked-Counts source n [] h = refl
marked-Counts source n (increment key field value ∷ cs) (_, h) = marked-Counts source n cs h
marked-Counts source n (rank board member value ∷ cs) (_, h) = marked-Counts source n cs h
marked-Counts source n (mark name seq ∷ cs) (e, h) = absurd e
marked-Counts source n (flush ∷ cs) (e, h) = absurd e

marked-progress :
    (source : Bytes) (n seq : ℕ)
    → 1 ≤ length source
    → 1 ≤ seq
    → marked source n (progress_commands source seq) ≡ seq
unfolding marked progress_commands
marked-progress source n seq named some_seq =
    let same : text_eq source source ≡ true = (text_eq_iff source source).1 refl in ground arith

-- A batch marks its highest sequence.
marked-batch :
    (source : Bytes) (n : ℕ) (batch : List CdrRecord)
    → 1 ≤ length source
    → 1 ≤ highest batch
    → marked source n (batch_writes batch source) ≡ highest batch
unfolding batch_writes
marked-batch source n batch named some_seq =
    let totals = add_batch no_totals batch in
    let tcs = totals_commands totals in
    let pcs = progress_commands source (highest batch) in
    let rcs = rank_commands (fold batch) in
    let dcs = delta_commands (fold batch) in
    let counts =
      All-append Counts rcs dcs (rank_commands-All Counts (λ k f v. tt) (λ b m v. tt) (fold batch))
        (delta_commands-All Counts (λ k f v. tt) (λ b m v. tt) (fold batch)) in
    marked-append source n tcs (pcs ++ (rcs ++ dcs))
    ∙ marked-append source (marked source n tcs) pcs (rcs ++ dcs)
    ∙ marked-Counts source (marked source (marked source n tcs) pcs) (rcs ++ dcs) counts
    ∙ marked-progress source (marked source n tcs) (highest batch) named some_seq

-- After batches that rise, the progress is the highest sequence among them.
pub marked-batches :
    (source : Bytes) (lo : ℕ) (batches : List (List CdrRecord))
    → 1 ≤ length source
    → All IsBatch batches
    → Ascends lo (flatten batches)
    → marked source lo (batches_writes batches source) ≡ highest_from lo (flatten batches)
unfolding batches_writes marked flatten
marked-batches source lo [] named sizes rising = refl
marked-batches source lo (batch ∷ batches) named (size, sizes) rising =
    let (here, there) = Ascends-append lo batch (flatten batches) rising in
    let (same, some_seq) = highest_from-batch lo batch size.0 here in
    marked-append source lo (batch_writes batch source) (batches_writes batches source)
    ∙ ap (λ (n : ℕ). marked source n (batches_writes batches source))
        (marked-batch source lo batch named some_seq ∙ sym same)
    ∙ marked-batches source (highest_from lo batch) batches named sizes there
    ∙ sym (highest_from-append lo batch (flatten batches))
