-- ===== src/Aggregate/Delta.antt =====
-- inc/aggregate/delta.hpp and src/aggregate/aggregator.cpp: a batch folded into the increments of
-- subscribers, operators and links. The maps are association lists; the hash of a link key only
-- places it in the table and is not modelled.
pub mod Subscribers
pub mod Operators
pub mod Links
use cdr_processor.Base.{
  ℕ, ◌/◌, ◌%◌, ◌^◌, Bool, ◌&&◌, List, [], foldl, arith, ◌≡◌, true, ◌↔◌, add64, ◌==◌, if◌then◌else◌,
  Eq, modify, at_or, ℕ_key,
}
use cdr_processor.Record.{CdrRecord, UsageType, moc, mtc, sms_mo, sms_mt, d, u, b, x}

pub record SubDelta : Type 0 where
  pub voice_out : ℕ
  pub voice_in : ℕ
  pub data_rx : ℕ
  pub data_tx : ℕ
  pub sms_out : ℕ
  pub sms_in : ℕ
  pub noans : ℕ
  pub busy : ℕ
  pub failed : ℕ

pub record OpDelta : Type 0 where
  pub voice_out : ℕ
  pub voice_in : ℕ
  pub sms_out : ℕ
  pub sms_in : ℕ

pub record LinkDelta : Type 0 where
  pub dur : ℕ
  pub sms : ℕ
  pub cnt : ℕ

pub record LinkKey : Type 0 where
  pub owner : ℕ
  pub peer : ℕ

abbrev pub no_sub : SubDelta
no_sub = record {
  voice_out = 0;
  voice_in = 0;
  data_rx = 0;
  data_tx = 0;
  sms_out = 0;
  sms_in = 0;
  noans = 0;
  busy = 0;
  failed = 0;
}

abbrev pub no_op : OpDelta
no_op = record { voice_out = 0; voice_in = 0; sms_out = 0; sms_in = 0 }

abbrev pub no_link : LinkDelta
no_link = record { dur = 0; sms = 0; cnt = 0 }

-- `LinkKey::operator==`
abbrev pub link_eq : LinkKey → LinkKey → Bool
link_eq k j = k.owner == j.owner && k.peer == j.peer

pub link_eq_iff : (k j : LinkKey) → (link_eq k j ≡ true) ↔ (k ≡ j)
link_eq_iff k j = ground arith

instance abbrev pub link_key : Eq LinkKey
link_key = record { beq = link_eq; beq_iff = link_eq_iff }

pub record Delta : Type 0 where
  pub subs : List (ℕ × SubDelta)
  pub ops : List (ℕ × OpDelta)
  pub links : List (LinkKey × LinkDelta)

abbrev pub no_delta : Delta
no_delta = record { subs = []; ops = []; links = [] }

-- `kMsinDivisor`, and the cast to the 32 bits of `OpKey_t`
abbrev pub msin_divisor : ℕ
msin_divisor = 10_000_000_000

abbrev pub mccmnc : CdrRecord → ℕ
mccmnc r = r.subscriber_imsi / msin_divisor % 2 ^ 32

-- What the cases of the `switch` do to `sub`.
unfoldable pub bump_sub : UsageType → CdrRecord → SubDelta → SubDelta
bump_sub moc r s = record s { voice_out = add64 s.voice_out r.duration }
bump_sub mtc r s = record s { voice_in = add64 s.voice_in r.duration }
bump_sub sms_mo r s = record s { sms_out = add64 s.sms_out 1 }
bump_sub sms_mt r s = record s { sms_in = add64 s.sms_in 1 }
bump_sub d r s = record s {
  data_rx = add64 s.data_rx r.bytes_received;
  data_tx = add64 s.data_tx r.bytes_transmitted;
}
bump_sub u r s = record s { noans = add64 s.noans 1 }
bump_sub b r s = record s { busy = add64 s.busy 1 }
bump_sub x r s = record s { failed = add64 s.failed 1 }

-- What the cases do to `op`, where it is not null.
unfoldable pub bump_op : UsageType → CdrRecord → OpDelta → OpDelta
bump_op moc r o = record o { voice_out = add64 o.voice_out r.duration }
bump_op mtc r o = record o { voice_in = add64 o.voice_in r.duration }
bump_op sms_mo r o = record o { sms_out = add64 o.sms_out 1 }
bump_op sms_mt r o = record o { sms_in = add64 o.sms_in 1 }
bump_op _ r o = o

abbrev pub bump_link : ℕ → ℕ → ℕ → LinkDelta → LinkDelta
bump_link dur sms cnt l = record {
  dur = add64 l.dur dur;
  sms = add64 l.sms sms;
  cnt = add64 l.cnt cnt;
}

-- `Aggregator::addLink`
unfoldable pub add_link :
    List (LinkKey × LinkDelta) → ℕ → ℕ → ℕ → ℕ → ℕ → List (LinkKey × LinkDelta)
add_link links first second dur sms cnt =
    if second == 0
    then links
    else modify no_link (bump_link dur sms cnt) (record { owner = second; peer = first })
        (modify no_link (bump_link dur sms cnt) (record { owner = first; peer = second }) links)

-- The call of `addLink` that each case makes, if any.
unfoldable pub link_usage :
    UsageType → CdrRecord → List (LinkKey × LinkDelta) → List (LinkKey × LinkDelta)
unfolding add_link
link_usage moc r links = add_link links r.subscriber_msisdn r.second_party_msisdn r.duration 0 1
link_usage mtc r links = add_link links r.subscriber_msisdn r.second_party_msisdn r.duration 0 1
link_usage sms_mo r links = add_link links r.subscriber_msisdn r.second_party_msisdn 0 1 0
link_usage sms_mt r links = add_link links r.subscriber_msisdn r.second_party_msisdn 0 1 0
link_usage _ r links = links

-- `&out.ops[mccmnc]`, which makes the entry, and the bump through it
unfoldable pub fold_op : CdrRecord → List (ℕ × OpDelta) → List (ℕ × OpDelta)
unfolding bump_op
fold_op r ops = if mccmnc r == 0 then ops else modify no_op (bump_op r.usage_type r) (mccmnc r) ops

-- One round of the loop of `Aggregator::fold`.
unfoldable pub fold_record : Delta → CdrRecord → Delta
unfolding bump_sub fold_op link_usage
fold_record out r = if r.subscriber_msisdn == 0 then out else record {
  subs = modify no_sub (bump_sub r.usage_type r) r.subscriber_msisdn out.subs;
  ops = fold_op r out.ops;
  links = link_usage r.usage_type r out.links;
}

-- `Aggregator::fold`, which clears `out` first.
unfoldable pub fold : List CdrRecord → Delta
unfolding fold_record
fold batch = foldl fold_record no_delta batch
