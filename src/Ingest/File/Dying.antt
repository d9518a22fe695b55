-- ===== src/Ingest/File/Dying.antt =====
-- A file of src/ingest/file_ingestor.cpp whose process ends in the middle, again and again.
use mathlib.Core.List.{flatten}
use cdr_processor.Base.{
  zero, suc, take, All-append, ℕ, ◌≡◌, ◌∙◌, ap, sym, refl, false, Option, some, none, List, [], ◌∷◌,
  ◌++◌, append_assoc, All, Bytes, ◌>>=◌,
}
use cdr_processor.Record.{CdrRecord}
use cdr_processor.Store.{IStore}
use cdr_processor.Aggregate.Totals.{RunTotals}
use cdr_processor.Aggregate.Writers.Commands.{Command, increment, rank, mark, flush, call, send_all}
use cdr_processor.Sink.Transaction.{batch_writes}
use cdr_processor.Sink.Apart.{Fair, batch_writes-Fair}
use cdr_processor.Sink.Marked.{batches_writes}
use cdr_processor.Ingest.File.Rising.{Fits}
use cdr_processor.Ingest.File.{FileDirs, process}

-- A call that is still made, or no effect and any answer once the process ended.
abbrev alive : {S A : Type 0} → A → (S → A × S) → ℕ × S → A × (ℕ × S)
alive gone f (zero, s) = (gone, (zero, s))
alive gone f (suc k, s) = let (a, s') = f s in (a, (k, s'))

-- The store of a process that ends after so many calls of it: a later call has no effect.
abbrev pub dying : {S : Type 0} → IStore S → IStore (ℕ × S)
dying store = record {
  increment = λ key field value. alive false (store.increment key field value);
  rank = λ board member value. alive false (store.rank board member value);
  flush = alive false store.flush;
  mark = λ source seq. alive false (store.mark source seq);
  resume_at = λ source. alive 0 (store.resume_at source);
}

module _ {S : Type 0} (parse : Bytes → Option CdrRecord) (store : IStore S) (restart : S → S)
    (dirs : FileDirs) where
  -- `FileIngestor::process` up to the end of its process, after so many calls of the store, and the
  -- restart.
  unfoldable pub killed : ℕ → ℕ → Bytes → Option Bytes → RunTotals → S → Option S
  unfolding process
  killed fuel calls path content run s =
      elim (process parse (dying store) dirs fuel false path content (run, (calls, s))) [
        | none ↦ none
        | some (((_, (_, s')), _)) ↦ some (restart s')
      ]

  -- One such process after another, on the same file.
  unfoldable pub killed_runs : ℕ → List ℕ → Bytes → Option Bytes → RunTotals → S → Option S
  unfolding killed
  killed_runs fuel [] path content run s = some s
  killed_runs fuel (calls ∷ more) path content run s = do
    s' ← killed fuel calls path content run s
    killed_runs fuel more path content run s'

module _ {S : Type 0} (store : IStore S) where
  call-dead : (c : Command) (s : S) → (call (dying store) c (0, s)).1 ≡ (0, s)
  call-dead (increment key field value) s = refl
  call-dead (rank board member value) s = refl
  call-dead (mark name seq) s = refl
  call-dead flush s = refl

  call-dying :
      (c : Command) (k : ℕ) (s : S) → (call (dying store) c (suc k, s)).1 ≡ (k, (call store c s).1)
  call-dying (increment key field value) k s = refl
  call-dying (rank board member value) k s = refl
  call-dying (mark name seq) k s = refl
  call-dying flush k s = refl

  -- Only the first calls have an effect.
  pub send_all-dying :
      (cs : List Command) (k : ℕ) (s : S)
      → (send_all (dying store) cs (k, s)).1.1 ≡ (send_all store (take k cs) s).1
  send_all-dying [] zero s = refl
  send_all-dying [] (suc k) s = refl
  send_all-dying (c ∷ cs) zero s =
      ap (λ (t : ℕ × S). (send_all (dying store) cs t).1.1) (call-dead c s) ∙ send_all-dying cs 0 s
  send_all-dying (c ∷ cs) (suc k) s =
      ap (λ (t : ℕ × S). (send_all (dying store) cs t).1.1) (call-dying c k s)
      ∙ send_all-dying cs k (call store c s).1

pub batches_writes-Fair :
    (batches : List (List CdrRecord)) (source : Bytes)
    → All Fits batches
    → All Fair (batches_writes batches source)
unfolding batches_writes
batches_writes-Fair [] source fits = tt
batches_writes-Fair (batch ∷ batches) source (fit, fits) =
    All-append Fair (batch_writes batch source) (batches_writes batches source)
      (batch_writes-Fair batch source fit) (batches_writes-Fair batches source fits)

pub batches_writes-append :
    (xs ys : List (List CdrRecord)) (source : Bytes)
    → batches_writes (xs ++ ys) source ≡ batches_writes xs source ++ batches_writes ys source
unfolding batches_writes
batches_writes-append [] ys source = refl
batches_writes-append (x ∷ xs) ys source =
    ap (◌++◌ (batch_writes x source)) (batches_writes-append xs ys source)
    ∙ sym
        (append_assoc (batch_writes x source) (batches_writes xs source) (batches_writes ys source))

pub flatten-append : (xs ys : List (List CdrRecord)) → flatten (xs ++ ys) ≡ flatten xs ++ flatten ys
unfolding flatten
flatten-append [] ys = refl
flatten-append (x ∷ xs) ys =
    ap (◌++◌ x) (flatten-append xs ys) ∙ sym (append_assoc x (flatten xs) (flatten ys))
