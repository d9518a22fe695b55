-- ===== src/Parser.antt =====
-- src/parser/csv_parser.cpp: one line of a CDR file. What the source fills through a reference is
-- the result here, and a `false` is `none`.
pub mod Dates
pub mod Split
pub mod Bounds
pub mod RoundTrip
use cdr_processor.Base.{
  ℕ, zero, suc, ◌+◌, ◌<◌, Bool, true, false, ◌&&◌, not, Option, none, some, List, [], ◌∷◌, Bytes,
  codes, text_eq, cut_at, get_or, length, ltb, ◌==◌, if◌then◌else◌, ◌>>=◌,
}
use cdr_processor.Record.{CdrRecord, UsageType, moc, mtc, sms_mo, sms_mt, d, u, b, x}
use cdr_processor.Charconv.{from_chars}
use Dates.{parse_date_time}

abbrev pub field_count : ℕ
field_count = 12

-- `kMaxImsiDigits` and `kMaxMsisdnDigits`
abbrev pub max_digits : ℕ
max_digits = 15

-- The loop of `split`, with the rounds that are left.
pub split_fields : ℕ → Bytes → ℕ → Option (List Bytes)
split_fields zero rest delim = none
split_fields (suc rounds) rest delim = elim (cut_at delim rest) [
  | none ↦ if rounds == 0 then some (rest ∷ []) else none
  | some (field, next) ↦ do fields ← split_fields rounds next delim; some (field ∷ fields)
]

-- `split`: exactly twelve fields.
unfoldable pub split : Bytes → ℕ → Option (List Bytes)
unfolding split_fields
split str delim = split_fields field_count str delim

-- the reading of a number that is there: digits and nothing else
pub whole_number : Bytes → Option ℕ
whole_number str = do (value, rest) ← from_chars str; if length rest == 0 then some value else none

-- `parseU64`; `maxDigits` 0 is no limit.
unfoldable pub parse_u64 : Bytes → Bool → ℕ → Option ℕ
unfolding whole_number
parse_u64 [] optional digits = if optional then some 0 else none
parse_u64 (c ∷ s) optional digits =
    if not (digits == 0) && ltb digits (length (c ∷ s)) then none else whole_number (c ∷ s)

-- `parseUsage`
unfoldable pub parse_usage : Bytes → Option UsageType
parse_usage sv =
    if text_eq sv (codes "MOC")
    then some moc
    else if text_eq sv (codes "MTC")
    then some mtc
    else if text_eq sv (codes "SMS-MO")
    then some sms_mo
    else if text_eq sv (codes "SMS-MT")
    then some sms_mt
    else if text_eq sv (codes "D")
    then some d
    else if text_eq sv (codes "U")
    then some u
    else if text_eq sv (codes "B")
    then some b
    else if text_eq sv (codes "X")
    then some x
    else none

-- The chain of `CsvParser::parse` over the fields, which stops at the first that fails.
unfoldable pub read_fields : List Bytes → Option CdrRecord
read_fields fields = do
  sequence ← parse_u64 (get_or fields 0 []) false 0
  imsi ← parse_u64 (get_or fields 1 []) false max_digits
  usage ← parse_usage (get_or fields 3 [])
  msisdn ← parse_u64 (get_or fields 4 []) false max_digits
  time ← parse_date_time (get_or fields 5 []) (get_or fields 6 [])
  duration ← parse_u64 (get_or fields 7 []) false 0
  received ← parse_u64 (get_or fields 8 []) true 0
  transmitted ← parse_u64 (get_or fields 9 []) true 0
  party_imsi ← parse_u64 (get_or fields 10 []) true max_digits
  party_msisdn ← parse_u64 (get_or fields 11 []) true max_digits
  some (record {
    sequence = sequence;
    subscriber_imsi = imsi;
    subscriber_imei = get_or fields 2 [];
    usage_type = usage;
    subscriber_msisdn = msisdn;
    call_time = time;
    duration = duration;
    bytes_received = received;
    bytes_transmitted = transmitted;
    second_party_imsi = party_imsi;
    second_party_msisdn = party_msisdn;
  })

-- `CsvParser::parse`, with the separator the parser was built with.
unfoldable pub parse : ℕ → Bytes → Option CdrRecord
parse sep line = do fields ← split line sep; read_fields fields
