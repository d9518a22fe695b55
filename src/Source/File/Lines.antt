-- ===== src/Source/File/Lines.antt =====
-- The lines of a file, and the records that they give: what src/source/file_source.cpp is to read.
use cdr_processor.Base.{
  All, ℕ, suc, ◌≤◌, ◌<◌, ◌≡◌, refl, inl, inr, Option, Option-cases, some, none, List, [], ◌∷◌, ◌++◌,
  arith, Bytes, length, length-append, Lacks, cut_at, cut_at-some, cut_at-none, leb, ◌==◌,
  if◌then◌else◌, ap,
}
use cdr_processor.Record.{CdrRecord}
use cdr_processor.Source.File.{newline, next_line}

-- A byte put in front of the first line.
abbrev prepend : ℕ → List Bytes → List Bytes
prepend c [] = (c ∷ []) ∷ []
prepend c (l ∷ ls) = (c ∷ l) ∷ ls

-- The lines of a text; a newline at its end opens no further line.
unfoldable pub lines : Bytes → List Bytes
lines [] = []
lines (c ∷ s) = if c == newline then [] ∷ lines s else prepend c (lines s)

pub lines-nil : lines [] ≡ []
unfolding lines
lines-nil = refl

pub lines-append : (a rest : Bytes) → Lacks newline a → lines (a ++ newline ∷ rest) ≡ a ∷ lines rest
unfolding lines
lines-append [] rest h = ground arith
lines-append (c ∷ a) rest h = ground (arith, lines-append a rest h.1)

lines-Lacks : (c : ℕ) (s : Bytes) → Lacks newline (c ∷ s) → lines (c ∷ s) ≡ (c ∷ s) ∷ []
unfolding lines
lines-Lacks c [] h = ground arith
lines-Lacks c (e ∷ s) h = ground (arith, lines-Lacks e s h.1)

-- `next_line` takes the first of the lines, and at least one byte.
pub next_line-lines :
    (c : ℕ) (s : Bytes)
    → let (line, rest) = next_line (c ∷ s) in
      (lines (c ∷ s) ≡ line ∷ lines rest) × (length rest < length (c ∷ s))
unfolding next_line
next_line-lines c s = elim (Option-cases (cut_at newline (c ∷ s))) [
  | inl e ↦ ground (arith, lines-Lacks c s (cut_at-none newline (c ∷ s) e), lines-nil)
  | inr (p, e) ↦
      let (cut, clean) = cut_at-some newline (c ∷ s) e in
      ground (arith, lines-append p.0 p.1 clean, ap length cut, length-append p.0 (newline ∷ p.1))
]

module _ (parse : Bytes → Option CdrRecord) (resume : ℕ) where
  -- The records of lines that parse and come after the resume point, in order.
  unfoldable pub kept : List Bytes → List CdrRecord
  kept [] = []
  kept (l ∷ ls) = elim (parse l) [
    | none ↦ kept ls
    | some r ↦ if leb r.sequence resume then kept ls else r ∷ kept ls
  ]

-- How many lines do not parse.
unfoldable pub malformed : (Bytes → Option CdrRecord) → List Bytes → ℕ
malformed parse [] = 0
malformed parse (l ∷ ls) = elim (parse l) [
  | none ↦ suc (malformed parse ls)
  | some r ↦ malformed parse ls
]

pub kept-lines-nil :
    (parse : Bytes → Option CdrRecord) (resume : ℕ) → kept parse resume (lines []) ≡ []
unfolding kept lines
kept-lines-nil parse resume = refl

-- The records after a later point, among those after an earlier one.
unfoldable pub after : ℕ → List CdrRecord → List CdrRecord
after m [] = []
after m (r ∷ rs) = if leb r.sequence m then after m rs else r ∷ after m rs

module _ (parse : Bytes → Option CdrRecord) where
  -- What is kept comes after the resume point.
  pub kept-after :
      (resume : ℕ) (ls : List Bytes) → All (λ r. resume < r.sequence) (kept parse resume ls)
  unfolding kept
  kept-after resume [] = tt
  kept-after resume (l ∷ ls) = elim (Option-cases (parse l)) [
    | inl e ↦ rw (e, kept, All) (kept-after resume ls)
    | inr (r, e) ↦ ground (arith, kept-after resume ls)
  ]

  pub kept-later :
      (resume m : ℕ) (ls : List Bytes)
      → resume ≤ m
      → kept parse m ls ≡ after m (kept parse resume ls)
  unfolding kept after
  kept-later resume m [] h = refl
  kept-later resume m (l ∷ ls) h = ground (arith, kept-later resume m ls h)

-- Sequences that rise along the list, from above a bound.
abbrev pub Ascends : ℕ → List CdrRecord → Type 0
Ascends lo [] = Unit {0}
Ascends lo (r ∷ rs) = (lo < r.sequence) × Ascends r.sequence rs
