-- ===== src/Sink.antt =====
-- src/sink/aggregate_sink.cpp: a batch folded, counted and written. The store is a parameter, as it
-- is of the class; a null store is refused by the constructor and not modelled.
pub mod Consume
pub mod Transaction
pub mod Apart
pub mod Marked
pub mod Counted
pub mod Progress
use cdr_processor.Base.{
  ℕ, ◌==◌, max, Bool, true, false, ◌&&◌, not, List, [], ◌∷◌, foldl, Bytes, length, if◌then◌else◌,
}
use cdr_processor.Record.{CdrRecord}
use cdr_processor.Store.{IStore}
use cdr_processor.Aggregate.Totals.{Totals, RunTotals, no_totals, add_batch, merge, snapshot}
use cdr_processor.Aggregate.Delta.{fold}
use cdr_processor.Aggregate.Writers.{write_delta, write_totals, write_ranks}

-- The loop of `consume` for the highest sequence of the batch.
abbrev pub highest_from : ℕ → List CdrRecord → ℕ
highest_from h [] = h
highest_from h (r ∷ rest) = highest_from (max h r.sequence) rest

abbrev pub highest : List CdrRecord → ℕ
highest batch = highest_from 0 batch

module _ {S : Type 0} (store : IStore S) where
  -- `mark`, for a source that has a name, where a sequence is known.
  pub mark_progress : Bytes → ℕ → S → S
  mark_progress source seq s =
      if not (length source == 0) && not (seq == 0) then (store.mark source seq s).1 else s

  -- What `consume` does to the store; the results of the writers are not looked at.
  unfoldable pub consume_store : List CdrRecord → Bytes → S → S
  unfolding mark_progress
  consume_store batch source s =
      let delta = fold batch in
      let s₁ = (write_totals store (add_batch no_totals batch) s).1 in
      let s₂ = mark_progress source (highest batch) s₁ in
      let s₃ = (write_ranks store delta s₂).1 in (write_delta store delta s₃).1

  -- `AggregateSink::consume` over the run's totals and the store.
  unfoldable pub consume : List CdrRecord → Bytes → RunTotals × S → RunTotals × S
  unfolding consume_store
  consume batch source (run, s) =
      (merge run (add_batch no_totals batch), consume_store batch source s)

  -- `AggregateSink::resume_at`
  abbrev pub resume_at : Bytes → S → ℕ × S
  resume_at source s = store.resume_at source s
