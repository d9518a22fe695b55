-- ===== src/Tests/Source.antt =====
-- src/source/file_source.cpp at a small file.
use mathlib.Core.List.{flatten}
use cdr_processor.Base.{
  ◌≡◌, ◌<◌, refl, Option, some, none, List, [], ◌∷◌, ◌++◌, arith, Bytes, codes, true, false, All,
}
use cdr_processor.Record.{CdrRecord, moc, sample}
use cdr_processor.Source.File.{
  take_line, next_line, fill, FileSource, Status, open_file, next, drain,
}
use cdr_processor.Source.File.Lines.{lines, kept}
use cdr_processor.Source.File.Drain.{drain-kept, drain-after, drain-resume, IsBatch}

-- A parser for tests: a line is one byte, the record's sequence.
abbrev one_byte : Bytes → Option CdrRecord
one_byte [] = none
one_byte (c ∷ []) = some (sample c moc 1 2 60)
one_byte (c ∷ e ∷ s) = none

-- Sequences 65, 66 and 67, with a malformed line between them.
abbrev body : Bytes
body = 65 ∷ 10 ∷ 66 ∷ 10 ∷ 66 ∷ 66 ∷ 10 ∷ 67 ∷ []

abbrev source : FileSource
source = record { rest = body; resume_seq = 0; parsed = 0; rejected = 0; failed = false }

abbrev at_65 : CdrRecord
at_65 = sample 65 moc 1 2 60

abbrev at_66 : CdrRecord
at_66 = sample 66 moc 1 2 60

abbrev at_67 : CdrRecord
at_67 = sample 67 moc 1 2 60

opened : open_file (some (codes "CDR|csv|3" ++ 10 ∷ body)) 0 ≡ source
unfolding open_file
opened = refl

no_header : (open_file (some body) 0).failed ≡ true
unfolding open_file
no_header = refl

drained : drain one_byte 10 source ≡ some ((at_65 ∷ at_66 ∷ at_67 ∷ []) ∷ [], Status.done)
unfolding drain next fill next_line take_line
drained = refl

all_kept : kept one_byte 0 (lines body) ≡ (at_65 ∷ []) ++ at_66 ∷ at_67 ∷ []
unfolding kept lines
all_kept = refl

drain-kept_example :
    (batches : List (List CdrRecord)) × (drain one_byte 10 source ≡ some (batches, Status.done))
    × (flatten batches ≡ kept one_byte 0 (lines body))
    × All IsBatch batches
drain-kept_example = drain-kept one_byte 10 source refl (omega arith)

drain-after_example :
    (batches : List (List CdrRecord)) × (drain one_byte 10 source ≡ some (batches, Status.done))
    × All (λ r. 0 < r.sequence) (flatten batches)
drain-after_example = drain-after one_byte 10 source refl (omega arith)

drain-resume_example :
    (batches : List (List CdrRecord)) × (drain one_byte 10 (record source { resume_seq = 65 })
      ≡ some (batches, Status.done))
    × (flatten batches ≡ at_66 ∷ at_67 ∷ [])
drain-resume_example =
    drain-resume one_byte 10 source (at_65 ∷ []) (at_66 ∷ at_67 ∷ []) refl (omega arith)
      (omega arith, (omega arith, (omega arith, tt))) all_kept
