-- ===== src/Ingest/File/Rising.antt =====
-- The sequences of a file whose records rise, batch by batch, and what a source that is opened again
-- delivers of them (src/source/file_source.cpp).
use mathlib.Core.List.{flatten}
use cdr_processor.Base.{
  All-split, u64_mod, zero, suc, suc, Option-cases, ℕ, ◌≡◌, ◌≤◌, ◌<◌, ◌∙◌, ap, sym, refl, subst,
  inl, inr, false, Option, some, none, List, [], ◌∷◌, ◌++◌, append_assoc, All, arith, Bytes, length,
  max, take, drop,
}
use cdr_processor.Record.{CdrRecord}
use cdr_processor.Source.File.{parse_header, Status, FileSource, open_file, drain}
use cdr_processor.Source.File.Lines.{lines, kept, kept-later, after, Ascends}
use cdr_processor.Source.File.Drain.{le-highest, drain-kept, IsBatch, after-highest}
use cdr_processor.Sink.{highest, highest_from}

pub highest_from-append :
    (h : ℕ) (xs ys : List CdrRecord)
    → highest_from h (xs ++ ys) ≡ highest_from (highest_from h xs) ys
highest_from-append h [] ys = refl
highest_from-append h (x ∷ xs) ys = highest_from-append (max h x.sequence) xs ys

-- In a list that rises, the last sequence is the highest.
pub Ascends-append :
    (lo : ℕ) (xs ys : List CdrRecord)
    → Ascends lo (xs ++ ys)
    → Ascends lo xs × Ascends (highest_from lo xs) ys
Ascends-append lo [] ys a = (tt, a)
Ascends-append lo (x ∷ xs) ys (up, a) =
    let (b, c) = Ascends-append x.sequence xs ys a in
    let same : max lo x.sequence ≡ x.sequence = omega arith in
    ((up, b), subst (λ (h : ℕ). Ascends (highest_from h xs) ys) (sym same) c)

-- A batch that rises from above a bound has its highest sequence whatever came before.
pub highest_from-batch :
    (lo : ℕ) (batch : List CdrRecord)
    → 1 ≤ length batch
    → Ascends lo batch
    → (highest_from lo batch ≡ highest batch) × (1 ≤ highest batch)
highest_from-batch lo [] h a = absurd (omega arith)
highest_from-batch lo (r ∷ rs) h (up, a) =
    let same : max lo r.sequence ≡ max 0 r.sequence = omega arith in
    let grows = le-highest (max 0 r.sequence) rs in
    (ap (λ (n : ℕ). highest_from n rs) same, omega (arith, grows))

-- What a new read keeps, once those before it came up to the highest sequence of `pre`.
kept-left :
    (parse : Bytes → Option CdrRecord) (pre post : List CdrRecord) (ls : List Bytes)
    → Ascends 0 (pre ++ post)
    → kept parse 0 ls ≡ pre ++ post
    → kept parse (highest pre) ls ≡ post
kept-left parse pre post ls rising all =
    kept-later parse 0 (highest pre) ls (omega arith)
    ∙ ap (after (highest pre)) all
    ∙ after-highest 0 0 pre post rising (omega arith)

-- The resume point changes nothing else of a source that opens.
open_file-resume :
    (content : Option Bytes) (resume : ℕ)
    → open_file content resume ≡ record (open_file content 0) { resume_seq = resume }
unfolding open_file
open_file-resume none resume = refl
open_file-resume (some bytes) resume = elim (Option-cases (parse_header bytes)) [
  | inl e ↦ rw (open_file, e) refl
  | inr (p, e) ↦ rw (open_file, e) refl
]

-- A batch whose sequences are of 64 bits.
abbrev pub Fits : List CdrRecord → Type 0
Fits batch = highest batch < u64_mod

abbrev pub Is64 : CdrRecord → Type 0
Is64 r = r.sequence < u64_mod

highest_from-bound :
    (h : ℕ) (rs : List CdrRecord) → h < u64_mod → All Is64 rs → highest_from h rs < u64_mod
highest_from-bound h [] lt b = lt
highest_from-bound h (r ∷ rs) lt (b, bs) =
    highest_from-bound (max h r.sequence) rs (omega (arith, lt, b)) bs

pub flatten-Fits : (batches : List (List CdrRecord)) → All Is64 (flatten batches) → All Fits batches
unfolding flatten
flatten-Fits [] b = tt
flatten-Fits (batch ∷ batches) b =
    let (here, there) = All-split Is64 batch (flatten batches) b in
    (highest_from-bound 0 batch (omega arith) here, flatten-Fits batches there)

pub flatten-take :
    (n : ℕ) (batches : List (List CdrRecord))
    → flatten (take n batches) ++ flatten (drop n batches) ≡ flatten batches
unfolding flatten
flatten-take zero batches = refl
flatten-take (suc n) [] = refl
flatten-take (suc n) (batch ∷ batches) =
    append_assoc batch (flatten (take n batches)) (flatten (drop n batches))
    ∙ ap (◌++◌ batch) (flatten-take n batches)

-- The source that an attempt opens, and what it delivers.
pub reopened :
    (parse : Bytes → Option CdrRecord) (fuel resume : ℕ) (content : Option Bytes)
    (pre post : List CdrRecord)
    → let source = open_file content 0 in
      source.failed ≡ false
      → length source.rest < fuel
      → Ascends 0 (pre ++ post)
      → kept parse 0 (lines source.rest) ≡ pre ++ post
      → resume ≡ highest pre
      → (batches : List (List CdrRecord)) × (drain parse fuel (open_file content resume)
          ≡ some (batches, Status.done))
        × (flatten batches ≡ post)
        × All IsBatch batches
reopened parse fuel resume content pre post opens lt rising all point =
    let same = open_file-resume content resume in
    let source' : FileSource = record (open_file content 0) { resume_seq = resume } in
    let (batches, run, order, sizes) = drain-kept parse fuel source' opens lt in
    (
      batches,
      ap (drain parse fuel) same ∙ run,
      order
          ∙ ap (λ (n : ℕ). kept parse n (lines (open_file content 0).rest)) point
          ∙ kept-left parse pre post (lines (open_file content 0).rest) rising all,
      sizes,
    )
