-- ===== src/Source/File/Drain.antt =====
-- A file drained batch by batch: `FileSource` under the loop of `FileIngestor::process`
-- (src/source/file_source.cpp, src/ingest/file_ingestor.cpp).
use mathlib.Core.List.{flatten}
use cdr_processor.Base.{
  ℕ, zero, suc, ◌≤◌, ◌<◌, ◌≡◌, refl, sym, ◌∙◌, subst, ap, inl, inr, Option, some, List, [], ◌∷◌,
  ◌++◌, arith, Bytes, All, length, max, false,
}
use cdr_processor.Record.{CdrRecord}
use cdr_processor.Source.File.{FileSource, Status, batch_size, drain}
use cdr_processor.Source.File.Lines.{kept-lines-nil, lines, kept}
use cdr_processor.Source.File.Batches.{next-Delivers}
use cdr_processor.Source.File.Lines.{kept-after, kept-later, after, Ascends}
use cdr_processor.Sink.{highest, highest_from}

-- A batch that the sink is handed.
abbrev pub IsBatch : List CdrRecord → Type 0
IsBatch batch = (1 ≤ length batch) × (length batch ≤ batch_size)

-- Draining a source that opened, on more fuel than it has bytes left, ends with `done` after handing
-- over in order exactly the records of the lines that parse and come after the resume point, in
-- batches of 1 to 4096.
pub drain-kept :
    (parse : Bytes → Option CdrRecord) (fuel : ℕ) (s : FileSource)
    → s.failed ≡ false
    → length s.rest < fuel
    → (batches : List (List CdrRecord)) × (drain parse fuel s ≡ some (batches, Status.done))
      × (flatten batches ≡ kept parse s.resume_seq (lines s.rest))
      × All IsBatch batches
unfolding drain flatten
drain-kept parse zero s h lt = absurd (omega arith)
drain-kept parse (suc fuel) s h lt =
    let (status, out, s', run, f) = next-Delivers parse s h in
    elim f.ends [
      | inl (e, full) ↦
          let (batches, ends, order, sizes) =
            drain-kept parse fuel s' f.sound (omega (arith, f.shorter e)) in
          (
            out ∷ batches,
            ground (arith, run, e, ends),
            ap (◌++◌ out) (order ∙ ap (λ (r : ℕ). kept parse r (lines s'.rest)) f.resume) ∙ f.order,
            ((full, f.bounded), sizes),
          )
      | inr (e, empty, drained) ↦ (
        [],
        ground (arith, run, e),
        ground (arith, f.order, empty, drained, kept-lines-nil parse s.resume_seq),
        tt,
      )
    ]

-- Draining a source that opened, on more fuel than it has bytes left, ends with `done` and delivers no
-- record that does not come after the resume point; so a fresh read, whose resume point is 0, delivers
-- no record with the sequence 0.
pub drain-after :
    (parse : Bytes → Option CdrRecord) (fuel : ℕ) (s : FileSource)
    → s.failed ≡ false
    → length s.rest < fuel
    → (batches : List (List CdrRecord)) × (drain parse fuel s ≡ some (batches, Status.done))
      × All (λ r. s.resume_seq < r.sequence) (flatten batches)
drain-after parse fuel s h lt =
    let (batches, run, order, _) = drain-kept parse fuel s h lt in
    (
      batches,
      run,
      subst (All (λ r. s.resume_seq < r.sequence)) (sym order)
          (kept-after parse s.resume_seq (lines s.rest)),
    )

pub le-highest : (h : ℕ) (rs : List CdrRecord) → h ≤ highest_from h rs
le-highest h [] = omega arith
le-highest h (r ∷ rs) = omega (arith, le-highest (max h r.sequence) rs)

after-Ascends : (lo m : ℕ) (rs : List CdrRecord) → Ascends lo rs → m ≤ lo → after m rs ≡ rs
unfolding after
after-Ascends lo m [] a h = refl
after-Ascends lo m (r ∷ rs) a h = ground (arith, after-Ascends r.sequence m rs a.1)

pub after-highest :
    (lo h : ℕ) (pre post : List CdrRecord)
    → Ascends lo (pre ++ post)
    → h ≤ lo
    → after (highest_from h pre) (pre ++ post) ≡ post
unfolding after
after-highest lo h [] post a le = after-Ascends lo h post a le
after-highest lo h (r ∷ pre) post a le = ground (
  arith,
  after-highest r.sequence (max h r.sequence) pre post a.1 (omega arith),
  le-highest (max h r.sequence) pre,
)

-- A run stopped after some batches is resumed without loss and without repetition: where the
-- sequences of a file rise, and the records read so far are `pre`, a new read from the highest
-- sequence among them, on more fuel than the source has bytes left, delivers exactly the records that
-- were left.
pub drain-resume :
    (parse : Bytes → Option CdrRecord) (fuel : ℕ) (s : FileSource) (pre post : List CdrRecord)
    → s.failed ≡ false
    → length s.rest < fuel
    → Ascends 0 (pre ++ post)
    → kept parse 0 (lines s.rest) ≡ pre ++ post
    → (batches : List (List CdrRecord)) × (drain parse fuel (record s { resume_seq = highest pre })
        ≡ some (batches, Status.done))
      × (flatten batches ≡ post)
drain-resume parse fuel s pre post h lt rising all =
    let (batches, run, order, _) =
      drain-kept parse fuel (record s { resume_seq = highest pre }) h lt in
    (
      batches,
      run,
      order
          ∙ kept-later parse 0 (highest pre) (lines s.rest) (omega arith)
          ∙ ap (after (highest pre)) all
          ∙ after-highest 0 0 pre post rising (omega arith),
    )
