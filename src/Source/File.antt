-- ===== src/Source/File.antt =====
-- src/source/file_source.cpp: a mapped file read in batches. The bytes from `m_pos` to `m_end` are
-- the state's `rest`; the parser is a parameter (`IParser`), as it is of the class. The log lines
-- and the elapsed time are left out.
pub mod Lines
pub mod Batches
pub mod Drain
use cdr_processor.Base.{
  ℕ, zero, suc, ◌+◌, ◌≤◌, ◌<◌, Bool, true, false, ◌&&◌, ◌||◌, not, Option, none, some, List, [],
  ◌∷◌, ◌++◌, Bytes, codes, cut_at, text_eq, take, drop, length, ltb, leb, ◌==◌, if◌then◌else◌,
  ◌>>=◌,
}
use cdr_processor.Record.{CdrRecord}
use cdr_processor.Charconv.{from_chars}

pub record FileHeader : Type 0 where
  pub format : Bytes
  pub record_count : ℕ

abbrev pub newline : ℕ
newline = 10

-- `parse_header`: the header and the bytes behind its line. What follows the digits of the record
-- count is not looked at.
unfoldable pub parse_header : Bytes → Option (FileHeader × Bytes)
unfolding from_chars
parse_header content = do
  (line, rest) ← cut_at newline content
  let tail = if text_eq (take 4 line) (codes "CDR|") then cut_at b'|' (drop 4 line) else none
  (format, count) ← tail
  (record_count, _) ← from_chars count
  some (record { format = format; record_count = record_count }, rest)

pub data Status : Type 0 where
  ok done fail : Status

pub record FileSource : Type 0 where
  pub rest : Bytes
  pub resume_seq : ℕ
  pub parsed : ℕ
  pub rejected : ℕ
  pub failed : Bool

-- The constructor, over what `MappedFile` holds: `none` is a file that could not be mapped.
unfoldable pub open_file : Option Bytes → ℕ → FileSource
unfolding parse_header
open_file content resume =
    let failed : FileSource = record {
      rest = [];
      resume_seq = resume;
      parsed = 0;
      rejected = 0;
      failed = true;
    } in
    elim content [
      | none ↦ failed
      | some bytes ↦ elim (parse_header bytes) [
        | none ↦ failed
        | some (header, rest) ↦ record {
          rest = rest;
          resume_seq = resume;
          parsed = 0;
          rejected = 0;
          failed = false;
        }
      ]
    ]

-- `kFileBatchSize`
abbrev pub batch_size : ℕ
batch_size = 4096

-- The line at the front, and the bytes behind its newline or at the end.
unfoldable pub next_line : Bytes → Bytes × Bytes
next_line rest = elim (cut_at newline rest) [ none ↦ (rest, []) | some p ↦ p ]

module _ (parse : Bytes → Option CdrRecord) where
  -- What one line does to the batch and the count of rejected lines.
  unfoldable pub take_line : ℕ → Bytes → List CdrRecord → ℕ → List CdrRecord × ℕ
  take_line resume line out rejected = elim (parse line) [
    | none ↦ (out, rejected + 1)
    | some r ↦ if leb r.sequence resume then (out, rejected) else (out ++ r ∷ [], rejected)
  ]

  -- The `while` loop of `next`, on fuel: each round reads at least one byte.
  unfoldable pub fill : ℕ → ℕ → Bytes → List CdrRecord → ℕ → Option (Bytes × List CdrRecord × ℕ)
  fill zero resume rest out rejected = none
  fill (suc fuel) resume rest out rejected =
      let (line, rest') = next_line rest in
      let (out', rejected') = take_line resume line out rejected in
      let more = fill fuel resume rest' out' rejected' in
      if ltb 0 (length rest) && ltb (length out) batch_size
      then more
      else some (rest, out, rejected)

  -- `FileSource::next`; the fuel is the number of bytes that are left, and one.
  unfoldable pub next : FileSource → Option (Status × List CdrRecord × FileSource)
  next s =
      if s.failed
      then some (fail, [], record s { failed = false })
      else (fill (suc (length s.rest)) s.resume_seq s.rest [] s.rejected
          >>= λ (rest, out, rejected).
              let s' = record s { rest = rest; rejected = rejected } in
              if length out == 0
              then some (done, [], s')
              else some (ok, out, record s' { parsed = s.parsed + length out }))

  -- The loop of `FileIngestor::process` (src/ingest/file_ingestor.cpp) that drains a source, on
  -- fuel: the batches it hands to the sink, and the status it ends with.
  unfoldable pub drain : ℕ → FileSource → Option (List (List CdrRecord) × Status)
  drain zero s = none
  drain (suc fuel) s = do
    (status, batch, s') ← next s
    elim status [
      | ok ↦ do (batches, last) ← drain fuel s'; some (batch ∷ batches, last)
      | done ↦ some ([], done)
      | fail ↦ some ([], fail)
    ]
