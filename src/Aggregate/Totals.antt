-- ===== src/Aggregate/Totals.antt =====
-- src/aggregate/totals.cpp: the counters of a batch and of the run, by usage type.
pub mod Counts
pub mod Merge
pub mod Format
use mathlib.Core.Logic.{ite}
use cdr_processor.Base.{ℕ, List, [], ◌∷◌, foldl, add64, ◌==◌, if◌then◌else◌}
use cdr_processor.Record.{CdrRecord, UsageType, moc, mtc, sms_mo, sms_mt, d, u, b, x}

pub record Totals : Type 0 where
  pub records : ℕ
  pub moc_cnt : ℕ
  pub mtc_cnt : ℕ
  pub sms_mo_cnt : ℕ
  pub sms_mt_cnt : ℕ
  pub data_cnt : ℕ
  pub noans_cnt : ℕ
  pub busy_cnt : ℕ
  pub failed_cnt : ℕ
  pub moc_dur : ℕ
  pub mtc_dur : ℕ
  pub data_dur : ℕ
  pub data_rx : ℕ
  pub data_tx : ℕ

-- Every counter starts at 0, of a batch and of the run.
abbrev pub no_totals : Totals
no_totals = record {
  records = 0;
  moc_cnt = 0;
  mtc_cnt = 0;
  sms_mo_cnt = 0;
  sms_mt_cnt = 0;
  data_cnt = 0;
  noans_cnt = 0;
  busy_cnt = 0;
  failed_cnt = 0;
  moc_dur = 0;
  mtc_dur = 0;
  data_dur = 0;
  data_rx = 0;
  data_tx = 0;
}

-- The `switch` of `Totals::add`.
unfoldable pub add_usage : UsageType → CdrRecord → Totals → Totals
add_usage moc r t = record t { moc_cnt = add64 t.moc_cnt 1; moc_dur = add64 t.moc_dur r.duration }
add_usage mtc r t = record t { mtc_cnt = add64 t.mtc_cnt 1; mtc_dur = add64 t.mtc_dur r.duration }
add_usage sms_mo r t = record t { sms_mo_cnt = add64 t.sms_mo_cnt 1 }
add_usage sms_mt r t = record t { sms_mt_cnt = add64 t.sms_mt_cnt 1 }
add_usage d r t = record t {
  data_cnt = add64 t.data_cnt 1;
  data_dur = add64 t.data_dur r.duration;
  data_rx = add64 t.data_rx r.bytes_received;
  data_tx = add64 t.data_tx r.bytes_transmitted;
}
add_usage u r t = record t { noans_cnt = add64 t.noans_cnt 1 }
add_usage b r t = record t { busy_cnt = add64 t.busy_cnt 1 }
add_usage x r t = record t { failed_cnt = add64 t.failed_cnt 1 }

-- `Totals::add` of one record.
unfoldable pub add : Totals → CdrRecord → Totals
unfolding add_usage
add t r = add_usage r.usage_type r (record t { records = add64 t.records 1 })

-- `Totals::add` of a batch.
unfoldable pub add_batch : Totals → List CdrRecord → Totals
unfolding add
add_batch t batch = foldl add t batch

-- The fourteen atomics of `RunTotals`.
pub data Counter : Type 0 where
  records moc_cnt mtc_cnt sms_mo_cnt sms_mt_cnt data_cnt noans_cnt busy_cnt failed_cnt moc_dur
        mtc_dur data_dur data_rx data_tx :
      Counter

pub Counter-discrete : Discrete Counter
Counter-discrete = hlevel

abbrev pub RunTotals : Type 0
RunTotals = Counter → ℕ

abbrev pub no_run_totals : RunTotals
no_run_totals _ = 0

-- `bump`: a counter is touched only by a value that is not 0; one `fetch_add` is one step.
unfoldable pub bump : RunTotals → Counter × ℕ → RunTotals
bump run (c, value) =
    if value == 0 then run else (λ c'. ite (Counter-discrete c c') (add64 (run c') value) (run c'))

-- The calls of `bump` that `RunTotals::merge` makes, in order.
unfoldable pub merge_bumps : Totals → List (Counter × ℕ)
merge_bumps t =
    (records, t.records)
    ∷ (moc_cnt, t.moc_cnt)
    ∷ (mtc_cnt, t.mtc_cnt)
    ∷ (sms_mo_cnt, t.sms_mo_cnt)
    ∷ (sms_mt_cnt, t.sms_mt_cnt)
    ∷ (data_cnt, t.data_cnt)
    ∷ (noans_cnt, t.noans_cnt)
    ∷ (busy_cnt, t.busy_cnt)
    ∷ (failed_cnt, t.failed_cnt)
    ∷ (moc_dur, t.moc_dur)
    ∷ (mtc_dur, t.mtc_dur)
    ∷ (data_dur, t.data_dur)
    ∷ (data_rx, t.data_rx)
    ∷ (data_tx, t.data_tx)
    ∷ []

-- `RunTotals::merge` by one thread alone.
unfoldable pub merge : RunTotals → Totals → RunTotals
unfolding bump merge_bumps
merge run t = foldl bump run (merge_bumps t)

-- `RunTotals::snapshot` while no merge is in flight.
unfoldable pub snapshot : RunTotals → Totals
snapshot run = record {
  records = run records;
  moc_cnt = run moc_cnt;
  mtc_cnt = run mtc_cnt;
  sms_mo_cnt = run sms_mo_cnt;
  sms_mt_cnt = run sms_mt_cnt;
  data_cnt = run data_cnt;
  noans_cnt = run noans_cnt;
  busy_cnt = run busy_cnt;
  failed_cnt = run failed_cnt;
  moc_dur = run moc_dur;
  mtc_dur = run mtc_dur;
  data_dur = run data_dur;
  data_rx = run data_rx;
  data_tx = run data_tx;
}
