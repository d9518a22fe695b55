-- ===== src/Tests/Aggregate.antt =====
-- src/aggregate at a small batch.
use mathlib.Core.List.{Perm, perm_append_comm}
use cdr_processor.Base.{ℕ, ◌≡◌, ◌≢◌, refl, List, [], ◌∷◌, ◌++◌, arith, foldl}
use cdr_processor.Record.{CdrRecord, moc, mtc, sms_mo, sample}
use cdr_processor.Aggregate.Totals.{
  merge_bumps, add_batch, no_totals, snapshot, bump, no_run_totals, Counter,
}
use cdr_processor.Aggregate.Totals.Counts.{add_batch-exact, exact_totals}
use cdr_processor.Aggregate.Totals.Merge.{snapshot-interleaved, all_bumps}
use cdr_processor.Aggregate.Delta.{fold}
use cdr_processor.Aggregate.Delta.Links.{link_of, link_of-fold, exchanged}
use cdr_processor.Aggregate.Delta.Subscribers.{sub_of, sub_of-fold, usage_of}
use cdr_processor.Aggregate.Delta.Operators.{op_of, op_of-fold, traffic_of}

-- 1 calls 2 for a minute, is called back for ten seconds, writes to 2, and calls itself.
abbrev batch : List CdrRecord
batch = sample 1 moc 1 2 60 ∷ sample 2 mtc 1 2 10 ∷ sample 3 sms_mo 1 2 0 ∷ sample 4 moc 1 1 5 ∷ []

link_of-fold_example : link_of 2 1 (fold batch) ≡ exchanged 2 1 batch
link_of-fold_example = link_of-fold 2 1 batch

-- The link's counters by the run of the code.
linked : link_of 2 1 (fold batch) ≡ record { dur = 70; sms = 1; cnt = 2 }
unfolding fold
linked = refl

-- A call with itself counts twice.
self_linked : link_of 1 1 (fold batch) ≡ record { dur = 10; sms = 0; cnt = 2 }
unfolding fold
self_linked = refl

one_nonzero : ◌≢◌ {A = ℕ} 1 0
one_nonzero = omega arith

sub_of-fold_example : sub_of 1 (fold batch) ≡ usage_of 1 batch
sub_of-fold_example = sub_of-fold 1 batch one_nonzero

operator_nonzero : ◌≢◌ {A = ℕ} 42501 0
operator_nonzero = omega arith

op_of-fold_example : op_of 42501 (fold batch) ≡ traffic_of 42501 batch
op_of-fold_example = op_of-fold 42501 batch operator_nonzero

add_batch-exact_example : add_batch no_totals batch ≡ exact_totals batch
add_batch-exact_example = add_batch-exact batch

-- Two batches of one record each.
abbrev earlier : List CdrRecord
earlier = sample 1 moc 1 2 60 ∷ []

abbrev later : List CdrRecord
later = sample 2 mtc 1 2 10 ∷ []

abbrev earlier_bumps : List (Counter × ℕ)
earlier_bumps = merge_bumps (add_batch no_totals earlier)

-- The later batch is merged first.
schedule-Perm : Perm (all_bumps (later ∷ []) ++ earlier_bumps) (all_bumps (earlier ∷ later ∷ []))
unfolding all_bumps
schedule-Perm = perm_append_comm (all_bumps (later ∷ [])) earlier_bumps

snapshot-interleaved_example :
    snapshot (foldl bump no_run_totals (all_bumps (later ∷ []) ++ earlier_bumps))
    ≡ exact_totals (earlier ++ later)
unfolding mathlib.Core.List.flatten
snapshot-interleaved_example =
    snapshot-interleaved (earlier ∷ later ∷ []) (all_bumps (later ∷ []) ++ earlier_bumps)
      schedule-Perm
