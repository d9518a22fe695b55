-- ===== src/Record.antt =====
-- inc/cdr_record.hpp: one call detail record.
use cdr_processor.Base.{ℕ, Bytes, [], Bool, true, false}
use cdr_processor.Base.Int.{ℤ, pos}

pub data UsageType : Type 0 where
  moc mtc sms_mo sms_mt d u b x : UsageType

pub record CdrRecord : Type 0 where
  pub sequence : ℕ
  pub subscriber_imsi : ℕ
  pub subscriber_imei : Bytes
  pub usage_type : UsageType
  pub subscriber_msisdn : ℕ
  pub call_time : ℤ
  pub duration : ℕ
  pub bytes_received : ℕ
  pub bytes_transmitted : ℕ
  pub second_party_imsi : ℕ
  pub second_party_msisdn : ℕ

-- The usage types compared.
abbrev pub usage_eq : UsageType → UsageType → Bool
usage_eq moc moc = true
usage_eq mtc mtc = true
usage_eq sms_mo sms_mo = true
usage_eq sms_mt sms_mt = true
usage_eq d d = true
usage_eq u u = true
usage_eq b b = true
usage_eq x x = true
usage_eq _ _ = false

-- A record for tests: sequence, usage type, subscriber, second party, seconds.
abbrev pub sample : ℕ → UsageType → ℕ → ℕ → ℕ → CdrRecord
sample seq usage owner peer seconds = record {
  sequence = seq;
  subscriber_imsi = 425010000000001;
  subscriber_imei = [];
  usage_type = usage;
  subscriber_msisdn = owner;
  call_time = pos 0;
  duration = seconds;
  bytes_received = 7;
  bytes_transmitted = 9;
  second_party_imsi = 0;
  second_party_msisdn = peer;
}
