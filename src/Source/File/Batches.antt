-- ===== src/Source/File/Batches.antt =====
-- One call of `FileSource::next` (src/source/file_source.cpp).
use cdr_processor.Base.{
  sym, ◌∙◌, Bool-cases, ℕ, zero, suc, ◌+◌, ◌≤◌, ◌<◌, ◌≡◌, refl, ◌⊎◌, inl, inr, Option, Option-cases,
  some, List, [], ◌∷◌, ◌++◌, append_assoc, arith, Bytes, length, length-append, ltb, ap, List-cases,
  false, true,
}
use cdr_processor.Record.{CdrRecord}
use cdr_processor.Source.File.{FileSource, Status, batch_size, next_line, take_line, fill, next}
use cdr_processor.Source.File.Lines.{lines, next_line-lines, kept, malformed}

ltb_pos : (n : ℕ) → ltb 0 (suc n) ≡ true
ltb_pos n = ground arith

module _ (parse : Bytes → Option CdrRecord) (resume : ℕ) where
  -- A line moves from the unread part to the batch, or to the count of rejected lines.
  take_line-kept :
      (line : Bytes) (ls : List Bytes) (out : List CdrRecord) (rejected : ℕ)
      → let (out', rejected') = take_line parse resume line out rejected in
        (out' ++ kept parse resume ls ≡ out ++ kept parse resume (line ∷ ls))
        × (rejected' + malformed parse ls ≡ rejected + malformed parse (line ∷ ls))
        × (length out' ≤ suc (length out))
  unfolding take_line kept malformed
  take_line-kept line ls out rejected = elim (Option-cases (parse line)) [
    | inl e ↦ ground arith
    | inr (r, e) ↦
        ground (arith, append_assoc out (r ∷ []) (kept parse resume ls), length-append out (r ∷ []))
  ]

  -- What the loop leaves behind, seen from where it started.
  pub record Fills (rest : Bytes) (out : List CdrRecord) (rejected : ℕ) (rest' : Bytes)
      (out' : List CdrRecord) (rejected' : ℕ) : Type 0 where
    pub order : out' ++ kept parse resume (lines rest') ≡ out ++ kept parse resume (lines rest)
    pub counted :
        rejected' + malformed parse (lines rest') ≡ rejected + malformed parse (lines rest)
    pub bounded : length out' ≤ batch_size
    pub shrinks : length rest' ≤ length rest
    pub progress : (out' ≡ out) ⊎ (length rest' < length rest)
    pub stopped : (rest' ≡ []) ⊎ (length out' ≡ batch_size)

  -- With fuel for every byte the loop ends.
  pub fill-Fills :
      (fuel : ℕ) (rest : Bytes) (out : List CdrRecord) (rejected : ℕ)
      → length rest < fuel
      → length out ≤ batch_size
      → (rest' : Bytes) × (out' : List CdrRecord) × (rejected' : ℕ) × (fill parse fuel resume rest
            out rejected
          ≡ some (rest', out', rejected'))
        × Fills rest out rejected rest' out' rejected'
  unfolding fill
  fill-Fills zero rest out rejected h le = absurd (omega arith)
  fill-Fills (suc fuel) [] out rejected h le = (
    [],
    out,
    rejected,
    refl,
    record {
      order = refl;
      counted = refl;
      bounded = le;
      shrinks = omega arith;
      progress = inl refl;
      stopped = inl refl;
    },
  )
  fill-Fills (suc fuel) (c ∷ s) out rejected h le =
      elim (Bool-cases (ltb (length out) batch_size)) [
        | inr full ↦ (
          c ∷ s,
          out,
          rejected,
          rw (full, ltb_pos (length s)),
          record {
            order = refl;
            counted = refl;
            bounded = le;
            shrinks = omega arith;
            progress = inl refl;
            stopped = inr (ground arith);
          },
        )
        | inl room ↦
            let p = next_line (c ∷ s) in
            let q = take_line parse resume p.0 out rejected in
            let (cut, shorter) = next_line-lines c s in
            let (order, counted, grows) = take_line-kept p.0 (lines p.1) out rejected in
            let (rest', out', rejected', run, f) =
              fill-Fills fuel p.1 q.0 q.1 (omega arith) (ground arith) in
            (
              rest',
              out',
              rejected',
              rw (room, ltb_pos (length s)) run,
              record {
                order =
                    f.order
                    ∙ order
                    ∙ ap (λ (ls : List Bytes). out ++ kept parse resume ls) (sym cut);
                counted = omega (arith, f.counted, counted, ap (malformed parse) cut);
                bounded = f.bounded;
                shrinks = omega (arith, f.shrinks, shorter);
                progress = inr (omega (arith, f.shrinks, shorter));
                stopped = f.stopped;
              },
            )
      ]

-- One call of `next` on a source that has not failed.
pub record Delivers (parse : Bytes → Option CdrRecord) (s : FileSource) (status : Status)
    (out : List CdrRecord) (s' : FileSource) : Type 0 where
  pub order :
      out ++ kept parse s.resume_seq (lines s'.rest) ≡ kept parse s.resume_seq (lines s.rest)
  pub rejects :
      s'.rejected + malformed parse (lines s'.rest) ≡ s.rejected + malformed parse (lines s.rest)
  pub parsed : s'.parsed ≡ s.parsed + length out
  pub resume : s'.resume_seq ≡ s.resume_seq
  pub sound : s'.failed ≡ false
  pub bounded : length out ≤ batch_size
  pub full : (s'.rest ≡ []) ⊎ (length out ≡ batch_size)
  pub shorter : (status ≡ Status.ok) → length s'.rest < length s.rest
  pub ends :
      ((status ≡ Status.ok) × (1 ≤ length out))
      ⊎ ((status ≡ Status.done) × (out ≡ []) × (s'.rest ≡ []))

-- A call of `next` on a source that opened returns. Batch and unread lines together give the records
-- that the unread lines gave before, in order; every line that does not parse is counted; a batch has at most 4096
-- records, and fewer only at the end of the file; it is empty exactly when the file is drained.
pub next-Delivers :
    (parse : Bytes → Option CdrRecord) (s : FileSource)
    → s.failed ≡ false
    → (status : Status) × (out : List CdrRecord) × (s' : FileSource) × (next parse s
        ≡ some (status, out, s'))
      × Delivers parse s status out s'
unfolding next
next-Delivers parse s h =
    let (rest, out, rejected, run, f) =
      fill-Fills parse s.resume_seq (suc (length s.rest)) s.rest [] s.rejected (omega arith)
        (omega arith) in
    elim (List-cases out) [
      | inl e ↦ (
        Status.done,
        [],
        record s { rest = rest; rejected = rejected },
        ground (arith, run, e),
        record {
          order = ground (arith, f.order, e);
          rejects = f.counted;
          parsed = omega arith;
          resume = refl;
          sound = h;
          bounded = omega arith;
          full = ground (arith, f.stopped, e);
          shorter = λ q. cc;
          ends = inr (refl, refl, ground (arith, f.stopped, e));
        },
      )
      | inr (r, more, e) ↦ (
        Status.ok,
        out,
        record s { rest = rest; rejected = rejected; parsed = s.parsed + length out },
        ground (arith, run, e),
        record {
          order = f.order;
          rejects = f.counted;
          parsed = refl;
          resume = refl;
          sound = h;
          bounded = f.bounded;
          full = f.stopped;
          shorter = λ q. ground (arith, f.progress, e);
          ends = inl (refl, ground (arith, e));
        },
      )
    ]
