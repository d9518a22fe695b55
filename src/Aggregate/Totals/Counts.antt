-- ===== src/Aggregate/Totals/Counts.antt =====
-- What the totals of src/aggregate/totals.cpp count.
use cdr_processor.Base.{ℕ, ◌+◌, ◌%◌, ◌<◌, ◌≡◌, refl, List, arith, u64_mod, sum}
use cdr_processor.Record.{CdrRecord, moc, mtc, sms_mo, sms_mt, d, u, b, x}
use cdr_processor.Aggregate.Counting.{foldl-counts, when, is}
use cdr_processor.Aggregate.Totals.{
  Totals, no_totals, add, add_batch, snapshot, Counter, records, moc_cnt, mtc_cnt, sms_mo_cnt,
  sms_mt_cnt, data_cnt, noans_cnt, busy_cnt, failed_cnt, moc_dur, mtc_dur, data_dur, data_rx,
  data_tx,
}

-- What one record is worth to each counter.
abbrev pub weight : Counter → CdrRecord → ℕ
weight records r = 1
weight moc_cnt r = when (is moc r) 1
weight mtc_cnt r = when (is mtc r) 1
weight sms_mo_cnt r = when (is sms_mo r) 1
weight sms_mt_cnt r = when (is sms_mt r) 1
weight data_cnt r = when (is d r) 1
weight noans_cnt r = when (is u r) 1
weight busy_cnt r = when (is b r) 1
weight failed_cnt r = when (is x r) 1
weight moc_dur r = when (is moc r) r.duration
weight mtc_dur r = when (is mtc r) r.duration
weight data_dur r = when (is d r) r.duration
weight data_rx r = when (is d r) r.bytes_received
weight data_tx r = when (is d r) r.bytes_transmitted

-- A sum over the records of a batch, as a 64-bit counter holds it.
abbrev pub wrapped : (CdrRecord → ℕ) → List CdrRecord → ℕ
wrapped w batch = sum w batch % u64_mod

-- The totals of a batch by their meaning.
unfoldable pub exact_totals : List CdrRecord → Totals
unfolding snapshot
exact_totals batch = snapshot (λ c. wrapped (weight c) batch)

counted :
    (counter : Totals → ℕ) (w : CdrRecord → ℕ)
    → ((t : Totals) (r : CdrRecord)
        → counter t < u64_mod
        → counter (add t r) ≡ (counter t + w r) % u64_mod)
    → counter no_totals ≡ 0
    → (batch : List CdrRecord) → counter (add_batch no_totals batch) ≡ wrapped w batch
unfolding add_batch
counted counter w one start batch =
    omega (arith, foldl-counts add counter w one no_totals batch (omega arith))

-- The totals of a batch, added up record by record, are for each of the fourteen counters the sum
-- over the records of what each is worth to it, modulo 2^64.
pub add_batch-exact : (batch : List CdrRecord) → add_batch no_totals batch ≡ exact_totals batch
unfolding exact_totals add
add_batch-exact batch i = record {
  records = counted (λ t. t.records) (weight records) (λ t r h. ground arith) refl batch i;
  moc_cnt = counted (λ t. t.moc_cnt) (weight moc_cnt) (λ t r h. ground arith) refl batch i;
  mtc_cnt = counted (λ t. t.mtc_cnt) (weight mtc_cnt) (λ t r h. ground arith) refl batch i;
  sms_mo_cnt = counted (λ t. t.sms_mo_cnt) (weight sms_mo_cnt) (λ t r h. ground arith) refl batch i;
  sms_mt_cnt = counted (λ t. t.sms_mt_cnt) (weight sms_mt_cnt) (λ t r h. ground arith) refl batch i;
  data_cnt = counted (λ t. t.data_cnt) (weight data_cnt) (λ t r h. ground arith) refl batch i;
  noans_cnt = counted (λ t. t.noans_cnt) (weight noans_cnt) (λ t r h. ground arith) refl batch i;
  busy_cnt = counted (λ t. t.busy_cnt) (weight busy_cnt) (λ t r h. ground arith) refl batch i;
  failed_cnt = counted (λ t. t.failed_cnt) (weight failed_cnt) (λ t r h. ground arith) refl batch i;
  moc_dur = counted (λ t. t.moc_dur) (weight moc_dur) (λ t r h. ground arith) refl batch i;
  mtc_dur = counted (λ t. t.mtc_dur) (weight mtc_dur) (λ t r h. ground arith) refl batch i;
  data_dur = counted (λ t. t.data_dur) (weight data_dur) (λ t r h. ground arith) refl batch i;
  data_rx = counted (λ t. t.data_rx) (weight data_rx) (λ t r h. ground arith) refl batch i;
  data_tx = counted (λ t. t.data_tx) (weight data_tx) (λ t r h. ground arith) refl batch i;
}
