-- ===== src/Aggregate/Delta/Operators.antt =====
-- What src/aggregate/aggregator.cpp adds up for one operator.
use cdr_processor.Base.{
  ℕ, ◌%◌, ◌<◌, ◌≡◌, ◌≢◌, refl, Bool, ◌&&◌, not, List, arith, u64_mod, add64, sum, ◌==◌, at_or,
  at_or-modify, if◌then◌else◌, ℕ_key,
}
use cdr_processor.Record.{CdrRecord, moc, mtc, sms_mo, sms_mt}
use cdr_processor.Aggregate.Counting.{foldl-counts, when, is}
use cdr_processor.Aggregate.Delta.{
  OpDelta, Delta, no_op, no_delta, mccmnc, bump_op, fold_op, fold_record, fold,
}

-- The increments of one operator, all 0 where it has no entry.
abbrev pub op_of : ℕ → Delta → OpDelta
op_of code out = at_or no_op code out.ops

-- The records that count for an operator: its own, with a subscriber.
abbrev pub served : ℕ → CdrRecord → Bool
served code r = not (r.subscriber_msisdn == 0) && (mccmnc r == code)

abbrev pub served_sum : ℕ → (CdrRecord → ℕ) → List CdrRecord → ℕ
served_sum code w batch = sum (λ r. when (served code r) (w r)) batch % u64_mod

-- One operator's traffic over a batch, by its meaning.
unfoldable pub traffic_of : ℕ → List CdrRecord → OpDelta
traffic_of code batch = record {
  voice_out = served_sum code (λ r. when (is moc r) r.duration) batch;
  voice_in = served_sum code (λ r. when (is mtc r) r.duration) batch;
  sms_out = served_sum code (λ r. when (is sms_mo r) 1) batch;
  sms_in = served_sum code (λ r. when (is sms_mt r) 1) batch;
}

op_of-fold_record :
    (code : ℕ) (out : Delta) (r : CdrRecord)
    → code ≢ 0
    → op_of code (fold_record out r)
      ≡ (if served code r then bump_op r.usage_type r (op_of code out) else op_of code out)
unfolding fold_record fold_op
op_of-fold_record code out r h =
    ground (arith, at_or-modify no_op (bump_op r.usage_type r) (mccmnc r) code out.ops)

module _ (code : ℕ) (nonzero : code ≢ 0) (counter : OpDelta → ℕ) (w : CdrRecord → ℕ)
    (one : (o : OpDelta) (r : CdrRecord)
      → counter o < u64_mod
      → counter (bump_op r.usage_type r o) ≡ add64 (counter o) (w r)) where
  counted-step :
      (out : Delta) (r : CdrRecord)
      → counter (op_of code out) < u64_mod
      → counter (op_of code (fold_record out r))
        ≡ add64 (counter (op_of code out)) (when (served code r) (w r))
  counted-step out r h =
      rw (op_of-fold_record code out r nonzero) (ground (arith, one (op_of code out) r))

  counted :
      counter no_op ≡ 0
      → (batch : List CdrRecord) → counter (op_of code (fold batch)) ≡ served_sum code w batch
  unfolding fold
  counted start batch = omega (
    arith,
    foldl-counts fold_record (λ out. counter (op_of code out)) (λ r. when (served code r) (w r))
        counted-step no_delta batch (omega arith),
  )

-- For each operator code other than 0 and each of its four counters, the folded delta holds the sum
-- over the records of that operator with a subscriber, of the matching usage type, modulo 2^64.
pub op_of-fold :
    (code : ℕ) (batch : List CdrRecord) → code ≢ 0 → op_of code (fold batch) ≡ traffic_of code batch
unfolding traffic_of bump_op
op_of-fold code batch h i = record {
  voice_out =
      counted code h (λ o. o.voice_out) (λ r. when (is moc r) r.duration) (λ o r p. ground arith)
        refl batch i;
  voice_in =
      counted code h (λ o. o.voice_in) (λ r. when (is mtc r) r.duration) (λ o r p. ground arith)
        refl batch i;
  sms_out =
      counted code h (λ o. o.sms_out) (λ r. when (is sms_mo r) 1) (λ o r p. ground arith) refl batch
        i;
  sms_in =
      counted code h (λ o. o.sms_in) (λ r. when (is sms_mt r) 1) (λ o r p. ground arith) refl batch
        i;
}
