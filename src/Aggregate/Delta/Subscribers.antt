-- ===== src/Aggregate/Delta/Subscribers.antt =====
-- What src/aggregate/aggregator.cpp adds up for one subscriber.
use cdr_processor.Base.{
  ℕ, ◌%◌, ◌<◌, ◌≡◌, ◌≢◌, refl, Bool, List, arith, u64_mod, add64, sum, ◌==◌, at_or, at_or-modify,
  if◌then◌else◌, ℕ_key,
}
use cdr_processor.Record.{CdrRecord, moc, mtc, sms_mo, sms_mt, d, u, b, x}
use cdr_processor.Aggregate.Counting.{foldl-counts, when, is}
use cdr_processor.Aggregate.Delta.{SubDelta, Delta, no_sub, no_delta, bump_sub, fold_record, fold}

-- The increments of one subscriber, all 0 where it has no entry.
abbrev pub sub_of : ℕ → Delta → SubDelta
sub_of m out = at_or no_sub m out.subs

-- The records of a usage type that belong to one subscriber.
abbrev pub owned : ℕ → CdrRecord → Bool
owned m r = r.subscriber_msisdn == m

-- A sum over one subscriber's records of a batch, as a 64-bit counter holds it.
abbrev pub owned_sum : ℕ → (CdrRecord → ℕ) → List CdrRecord → ℕ
owned_sum m w batch = sum (λ r. when (owned m r) (w r)) batch % u64_mod

-- One subscriber's usage over a batch, by its meaning.
unfoldable pub usage_of : ℕ → List CdrRecord → SubDelta
usage_of m batch = record {
  voice_out = owned_sum m (λ r. when (is moc r) r.duration) batch;
  voice_in = owned_sum m (λ r. when (is mtc r) r.duration) batch;
  data_rx = owned_sum m (λ r. when (is d r) r.bytes_received) batch;
  data_tx = owned_sum m (λ r. when (is d r) r.bytes_transmitted) batch;
  sms_out = owned_sum m (λ r. when (is sms_mo r) 1) batch;
  sms_in = owned_sum m (λ r. when (is sms_mt r) 1) batch;
  noans = owned_sum m (λ r. when (is u r) 1) batch;
  busy = owned_sum m (λ r. when (is b r) 1) batch;
  failed = owned_sum m (λ r. when (is x r) 1) batch;
}

-- One round bumps the entry of the record's own subscriber and no other.
sub_of-fold_record :
    (m : ℕ) (out : Delta) (r : CdrRecord)
    → m ≢ 0
    → sub_of m (fold_record out r)
      ≡ (if owned m r then bump_sub r.usage_type r (sub_of m out) else sub_of m out)
unfolding fold_record
sub_of-fold_record m out r h =
    ground (arith, at_or-modify no_sub (bump_sub r.usage_type r) r.subscriber_msisdn m out.subs)

module _ (m : ℕ) (nonzero : m ≢ 0) (counter : SubDelta → ℕ) (w : CdrRecord → ℕ)
    (one : (s : SubDelta) (r : CdrRecord)
      → counter s < u64_mod
      → counter (bump_sub r.usage_type r s) ≡ add64 (counter s) (w r)) where
  counted-step :
      (out : Delta) (r : CdrRecord)
      → counter (sub_of m out) < u64_mod
      → counter (sub_of m (fold_record out r))
        ≡ add64 (counter (sub_of m out)) (when (owned m r) (w r))
  counted-step out r h =
      rw (sub_of-fold_record m out r nonzero) (ground (arith, one (sub_of m out) r))

  counted :
      counter no_sub ≡ 0
      → (batch : List CdrRecord) → counter (sub_of m (fold batch)) ≡ owned_sum m w batch
  unfolding fold
  counted start batch = omega (
    arith,
    foldl-counts fold_record (λ out. counter (sub_of m out)) (λ r. when (owned m r) (w r))
        counted-step no_delta batch (omega arith),
  )

-- For each subscriber other than 0 and each of its nine counters, the folded delta holds the sum
-- over the subscriber's own records of the matching usage type, modulo 2^64.
pub sub_of-fold :
    (m : ℕ) (batch : List CdrRecord) → m ≢ 0 → sub_of m (fold batch) ≡ usage_of m batch
unfolding usage_of bump_sub
sub_of-fold m batch h i = record {
  voice_out =
      counted m h (λ s. s.voice_out) (λ r. when (is moc r) r.duration) (λ s r p. ground arith) refl
        batch i;
  voice_in =
      counted m h (λ s. s.voice_in) (λ r. when (is mtc r) r.duration) (λ s r p. ground arith) refl
        batch i;
  data_rx =
      counted m h (λ s. s.data_rx) (λ r. when (is d r) r.bytes_received) (λ s r p. ground arith)
        refl batch i;
  data_tx =
      counted m h (λ s. s.data_tx) (λ r. when (is d r) r.bytes_transmitted) (λ s r p. ground arith)
        refl batch i;
  sms_out =
      counted m h (λ s. s.sms_out) (λ r. when (is sms_mo r) 1) (λ s r p. ground arith) refl batch i;
  sms_in =
      counted m h (λ s. s.sms_in) (λ r. when (is sms_mt r) 1) (λ s r p. ground arith) refl batch i;
  noans = counted m h (λ s. s.noans) (λ r. when (is u r) 1) (λ s r p. ground arith) refl batch i;
  busy = counted m h (λ s. s.busy) (λ r. when (is b r) 1) (λ s r p. ground arith) refl batch i;
  failed = counted m h (λ s. s.failed) (λ r. when (is x r) 1) (λ s r p. ground arith) refl batch i;
}
