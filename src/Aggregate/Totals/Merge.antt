-- ===== src/Aggregate/Totals/Merge.antt =====
-- The run's totals under concurrent merges: `RunTotals` of src/aggregate/totals.cpp.
use mathlib.Core.List.{Perm, flatten}
use mathlib.Core.Logic.{ite}
use mathlib.Core.Path.{fun_ext}
use cdr_processor.Base.{
  ℕ, ◌%◌, ◌<◌, ◌≡◌, refl, ap, List, [], ◌∷◌, ◌++◌, foldl, arith, u64_mod, add64, sum, sum-append,
  sum-perm,
}
use cdr_processor.Record.{CdrRecord}
use cdr_processor.Aggregate.Totals.{
  Totals, no_totals, add_batch, Counter, RunTotals, no_run_totals, Counter-discrete, bump,
  merge_bumps, snapshot, records, moc_cnt, mtc_cnt, sms_mo_cnt, sms_mt_cnt, data_cnt, noans_cnt,
  busy_cnt, failed_cnt, moc_dur, mtc_dur, data_dur, data_rx, data_tx,
}
use cdr_processor.Aggregate.Totals.Counts.{weight, wrapped, exact_totals, add_batch-exact}

-- What one bump adds to a counter.
abbrev share : Counter → Counter × ℕ → ℕ
share c (c', value) = ite (Counter-discrete c' c) value 0

bumps-sum :
    (c : Counter) (run : RunTotals) (evs : List (Counter × ℕ))
    → run c < u64_mod
    → foldl bump run evs c ≡ add64 (run c) (sum (share c) evs)
unfolding bump
bumps-sum c run [] h = omega arith
bumps-sum c run ((c', v) ∷ evs) h = ground (arith, bumps-sum c (bump run (c', v)) evs)

read : Counter → Totals → ℕ
read records t = t.records
read moc_cnt t = t.moc_cnt
read mtc_cnt t = t.mtc_cnt
read sms_mo_cnt t = t.sms_mo_cnt
read sms_mt_cnt t = t.sms_mt_cnt
read data_cnt t = t.data_cnt
read noans_cnt t = t.noans_cnt
read busy_cnt t = t.busy_cnt
read failed_cnt t = t.failed_cnt
read moc_dur t = t.moc_dur
read mtc_dur t = t.mtc_dur
read data_dur t = t.data_dur
read data_rx t = t.data_rx
read data_tx t = t.data_tx

merge_bumps-sum : (c : Counter) (t : Totals) → sum (share c) (merge_bumps t) ≡ read c t
unfolding merge_bumps read Counter-discrete
merge_bumps-sum records t = omega arith
merge_bumps-sum _ t = omega arith

read-exact :
    (c : Counter) (batch : List CdrRecord) → read c (exact_totals batch) ≡ wrapped (weight c) batch
unfolding read exact_totals
read-exact records batch = refl
read-exact _ batch = refl

-- The bumps of all the merges, one merge for each batch.
unfoldable pub all_bumps : List (List CdrRecord) → List (Counter × ℕ)
all_bumps [] = []
all_bumps (batch ∷ rest) = merge_bumps (add_batch no_totals batch) ++ all_bumps rest

all_bumps-sum :
    (c : Counter) (batches : List (List CdrRecord))
    → sum (share c) (all_bumps batches) % u64_mod ≡ wrapped (weight c) (flatten batches)
unfolding all_bumps flatten
all_bumps-sum c [] = refl
all_bumps-sum c (batch ∷ rest) = omega (
  arith,
  sum-append (share c) (merge_bumps (add_batch no_totals batch)) (all_bumps rest),
  merge_bumps-sum c (add_batch no_totals batch),
  ap (read c) (add_batch-exact batch),
  read-exact c batch,
  sum-append (weight c) batch (flatten rest),
  all_bumps-sum c rest,
)

counter-interleaved :
    (batches : List (List CdrRecord)) (schedule : List (Counter × ℕ))
    → Perm schedule (all_bumps batches)
    → (c : Counter) → foldl bump no_run_totals schedule c ≡ wrapped (weight c) (flatten batches)
counter-interleaved batches schedule p c = omega (
  arith,
  bumps-sum c no_run_totals schedule (omega arith),
  sum-perm (share c) p,
  all_bumps-sum c batches,
)

-- Threads merge their batches' totals into the run's, one atomic addition at a time. However the
-- additions of all the merges interleave, the snapshot read afterwards is the exact totals of all
-- the batches together.
pub snapshot-interleaved :
    (batches : List (List CdrRecord)) (schedule : List (Counter × ℕ))
    → Perm schedule (all_bumps batches)
    → snapshot (foldl bump no_run_totals schedule) ≡ exact_totals (flatten batches)
unfolding exact_totals
snapshot-interleaved batches schedule p =
    ap snapshot (fun_ext (counter-interleaved batches schedule p))
