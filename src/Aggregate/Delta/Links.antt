-- ===== src/Aggregate/Delta/Links.antt =====
-- What src/aggregate/aggregator.cpp adds up for one pair of subscribers.
use cdr_processor.Base.{
  refl, [], sym, ◌∙◌, ◌∷◌, ◌<◌, ℕ, ◌+◌, ◌%◌, ◌≡◌, ◌≢◌, Bool, ◌&&◌, ◌||◌, not, List, arith, u64_mod,
  sum, ◌==◌, at_or, modify, at_or-modify, if◌then◌else◌,
}
use cdr_processor.Record.{CdrRecord, moc, mtc, sms_mo, sms_mt}
use cdr_processor.Aggregate.Counting.{foldl-counts, when, is}
use cdr_processor.Aggregate.Delta.{
  no_delta, link_usage, add64, fold, fold_record, LinkKey, LinkDelta, Delta, link_key, no_link,
  bump_link, add_link,
}

-- The increments of one directed pair, all 0 where it has no entry.
abbrev pub link_of : ℕ → ℕ → Delta → LinkDelta
link_of a b out = at_or no_link (record { owner = a; peer = b }) out.links

-- The record goes from `a` to `b`, two subscribers that are known.
abbrev pub from_to : ℕ → ℕ → CdrRecord → Bool
from_to a b r =
    not (r.subscriber_msisdn == 0)
    && (not (r.second_party_msisdn == 0)
        && (r.subscriber_msisdn == a && r.second_party_msisdn == b))

-- What a record is worth to the pair: once for each direction in which it joins the two.
abbrev pub pair_weight : ℕ → ℕ → (CdrRecord → ℕ) → CdrRecord → ℕ
pair_weight a b w r = when (from_to a b r) (w r) + when (from_to b a r) (w r)

abbrev pub pair_sum : ℕ → ℕ → (CdrRecord → ℕ) → List CdrRecord → ℕ
pair_sum a b w batch = sum (pair_weight a b w) batch % u64_mod

abbrev is_call : CdrRecord → Bool
is_call r = is moc r || is mtc r

abbrev is_sms : CdrRecord → Bool
is_sms r = is sms_mo r || is sms_mt r

-- What a pair exchanged over a batch, by its meaning.
unfoldable pub exchanged : ℕ → ℕ → List CdrRecord → LinkDelta
exchanged a b batch = record {
  dur = pair_sum a b (λ r. when (is_call r) r.duration) batch;
  sms = pair_sum a b (λ r. when (is_sms r) 1) batch;
  cnt = pair_sum a b (λ r. when (is_call r) 1) batch;
}

-- The pair is joined from `a` to `b`, two subscribers that are known.
abbrev joins : ℕ → ℕ → ℕ → ℕ → Bool
joins a b o p = not (b == 0) && (a == o && b == p)

-- Each of the two writes of `add_link` that meets the entry adds to it once.
link_of-add_link :
    (a b o p dur sms cnt : ℕ) (links : List (LinkKey × LinkDelta))
    → a ≢ 0
    → let key : LinkKey = record { owner = o; peer = p } in
      let old = at_or no_link key links in
      let fwd = if joins a b o p then bump_link dur sms cnt old else old in
      at_or no_link key (add_link links a b dur sms cnt)
      ≡ (if joins a b p o then bump_link dur sms cnt fwd else fwd)
unfolding add_link
link_of-add_link a b o p dur sms cnt links h =
    let bump = bump_link dur sms cnt in
    let fwd : LinkKey = record { owner = a; peer = b } in
    let rev : LinkKey = record { owner = b; peer = a } in
    let key : LinkKey = record { owner = o; peer = p } in
    ground (
      arith,
      at_or-modify no_link bump fwd key links,
      at_or-modify no_link bump fwd rev links,
      at_or-modify no_link bump rev key (modify no_link bump fwd links),
    )

module _ (o p : ℕ) (out : Delta) (r : CdrRecord) where
  -- A record that is no call and no message, or has no subscriber, leaves the links alone.
  step-cases : link_of o p (fold_record out r) ≡ (
      let old = link_of o p out in
      let dur = when (is_call r) r.duration in
      let sms = when (is_sms r) 1 in
      let cnt = when (is_call r) 1 in
      let fwd =
        if from_to o p r && (is_call r || is_sms r) then bump_link dur sms cnt old else old in
      if from_to p o r && (is_call r || is_sms r) then bump_link dur sms cnt fwd else fwd)
  unfolding fold_record link_usage
  step-cases = ground (
    arith,
    link_of-add_link r.subscriber_msisdn r.second_party_msisdn o p r.duration 0 1 out.links,
    link_of-add_link r.subscriber_msisdn r.second_party_msisdn o p 0 1 0 out.links,
  )

  step-dur :
      (link_of o p out).dur < u64_mod
      → (link_of o p (fold_record out r)).dur
        ≡ add64 (link_of o p out).dur (pair_weight o p (λ r. when (is_call r) r.duration) r)
  step-dur h = rw step-cases (ground arith)

  step-sms :
      (link_of o p out).sms < u64_mod
      → (link_of o p (fold_record out r)).sms
        ≡ add64 (link_of o p out).sms (pair_weight o p (λ r. when (is_sms r) 1) r)
  step-sms h = rw step-cases (ground arith)

  step-cnt :
      (link_of o p out).cnt < u64_mod
      → (link_of o p (fold_record out r)).cnt
        ≡ add64 (link_of o p out).cnt (pair_weight o p (λ r. when (is_call r) 1) r)
  step-cnt h = rw step-cases (ground arith)

module _ (o p : ℕ) (counter : LinkDelta → ℕ) (w : CdrRecord → ℕ)
    (one : (out : Delta) (r : CdrRecord)
      → counter (link_of o p out) < u64_mod
      → counter (link_of o p (fold_record out r))
        ≡ add64 (counter (link_of o p out)) (pair_weight o p w r)) where
  counted :
      counter no_link ≡ 0
      → (batch : List CdrRecord) → counter (link_of o p (fold batch)) ≡ pair_sum o p w batch
  unfolding fold
  counted start batch = omega (
    arith,
    foldl-counts fold_record (λ out. counter (link_of o p out)) (pair_weight o p w) one no_delta
        batch (omega arith),
  )

-- For every pair and each of its three counters, the folded delta holds what the batch's calls and
-- messages between the two carried, modulo 2^64: each record counts once for the direction in which
-- it was made and once for the other, so that a subscriber's record with itself counts twice.
pub link_of-fold :
    (o p : ℕ) (batch : List CdrRecord) → link_of o p (fold batch) ≡ exchanged o p batch
unfolding exchanged
link_of-fold o p batch i = record {
  dur = counted o p (λ l. l.dur) (λ r. when (is_call r) r.duration) (step-dur o p) refl batch i;
  sms = counted o p (λ l. l.sms) (λ r. when (is_sms r) 1) (step-sms o p) refl batch i;
  cnt = counted o p (λ l. l.cnt) (λ r. when (is_call r) 1) (step-cnt o p) refl batch i;
}

pair_sum_symm :
    (o p : ℕ) (w : CdrRecord → ℕ) (batch : List CdrRecord)
    → sum (pair_weight o p w) batch ≡ sum (pair_weight p o w) batch
pair_sum_symm o p w [] = refl
pair_sum_symm o p w (r ∷ batch) = omega (arith, pair_sum_symm o p w batch)

-- What the folded delta holds for a pair does not depend on the direction.
pub link_of_symm :
    (o p : ℕ) (batch : List CdrRecord) → link_of o p (fold batch) ≡ link_of p o (fold batch)
unfolding exchanged
link_of_symm o p batch =
    link_of-fold o p batch
    ∙ (λ i. record {
      dur = pair_sum_symm o p (λ r. when (is_call r) r.duration) batch i % u64_mod;
      sms = pair_sum_symm o p (λ r. when (is_sms r) 1) batch i % u64_mod;
      cnt = pair_sum_symm o p (λ r. when (is_call r) 1) batch i % u64_mod;
    })
    ∙ sym (link_of-fold p o batch)
