-- ===== src/Parser/RoundTrip.antt =====
-- Lines in the format of docs and generator are read back by src/parser/csv_parser.cpp.
use cdr_processor.Base.{
  ltb, ℕ, ◌≡◌, ◌≢◌, ◌<◌, ◌^◌, refl, Bool, true, false, ◌&&◌, not, some, none, List, [], ◌∷◌, arith,
  Bytes, codes, length, All, Lacks, u64_mod, ◌==◌, if◌then◌else◌,
}
use cdr_processor.Record.{CdrRecord, UsageType, moc, mtc, sms_mo, sms_mt, d, u, b, x}
use cdr_processor.Charconv.{
  is_digit, to_chars, to_chars-ne-nil, to_chars-IsDigit, length-to_chars, from_chars-to_chars,
  IsDigit-Lacks,
}
use cdr_processor.Parser.{max_digits, whole_number, parse_u64, parse_usage, read_fields, parse}
use cdr_processor.Parser.Dates.{parse_date_time}
use cdr_processor.Parser.Split.{join, split_iff}
use cdr_processor.Parser.Bounds.{IsInRange}

unfoldable pub print_usage : UsageType → Bytes
print_usage moc = codes "MOC"
print_usage mtc = codes "MTC"
print_usage sms_mo = codes "SMS-MO"
print_usage sms_mt = codes "SMS-MT"
print_usage d = codes "D"
print_usage u = codes "U"
print_usage b = codes "B"
print_usage x = codes "X"

-- An optional number that is 0 is left empty.
pub print_optional : ℕ → Bytes
print_optional n = if n == 0 then [] else to_chars n

-- The fields of a line that carries `r`, whose time is given by a date and a time of day.
unfoldable pub fields_of : CdrRecord → Bytes → Bytes → List Bytes
unfolding print_usage print_optional
fields_of r date time =
    to_chars r.sequence
    ∷ to_chars r.subscriber_imsi
    ∷ r.subscriber_imei
    ∷ print_usage r.usage_type
    ∷ to_chars r.subscriber_msisdn
    ∷ date
    ∷ time
    ∷ to_chars r.duration
    ∷ print_optional r.bytes_received
    ∷ print_optional r.bytes_transmitted
    ∷ print_optional r.second_party_imsi
    ∷ print_optional r.second_party_msisdn
    ∷ []

parse_usage-print : (t : UsageType) → parse_usage (print_usage t) ≡ some t
unfolding parse_usage print_usage
parse_usage-print moc = refl
parse_usage-print _ = refl

parse_u64-cons :
    (str : Bytes) (optional : Bool) (digits : ℕ)
    → str ≢ []
    → parse_u64 str optional digits
      ≡ (if not (digits == 0) && ltb digits (length str) then none else whole_number str)
unfolding parse_u64
parse_u64-cons [] optional digits h = absurd (h refl)
parse_u64-cons (c ∷ s) optional digits h = refl

parse_u64-to_chars :
    (n : ℕ) (optional : Bool) → n < u64_mod → parse_u64 (to_chars n) optional 0 ≡ some n
unfolding whole_number
parse_u64-to_chars n optional h =
    ground
      (arith, parse_u64-cons (to_chars n) optional 0 (to_chars-ne-nil n), from_chars-to_chars n h)

parse_u64-to_chars_limit :
    (n : ℕ) (optional : Bool)
    → n < 10 ^ max_digits
    → parse_u64 (to_chars n) optional max_digits ≡ some n
unfolding whole_number
parse_u64-to_chars_limit n optional h = ground (
  arith,
  parse_u64-cons (to_chars n) optional max_digits (to_chars-ne-nil n),
  from_chars-to_chars n (omega arith),
  length-to_chars 14 n h,
)

parse_u64-optional : (n : ℕ) → n < u64_mod → parse_u64 (print_optional n) true 0 ≡ some n
unfolding print_optional parse_u64
parse_u64-optional n h = ground (arith, parse_u64-to_chars n true h)

parse_u64-optional_limit :
    (n : ℕ) → n < 10 ^ max_digits → parse_u64 (print_optional n) true max_digits ≡ some n
unfolding print_optional parse_u64
parse_u64-optional_limit n h = ground (arith, parse_u64-to_chars_limit n true h)

read_fields-fields_of :
    (r : CdrRecord) (date time : Bytes)
    → IsInRange r
    → parse_date_time date time ≡ some r.call_time
    → read_fields (fields_of r date time) ≡ some r
unfolding read_fields fields_of
read_fields-fields_of r date time h e = simp (
  parse_u64-to_chars r.sequence false h.sequence,
  parse_u64-to_chars_limit r.subscriber_imsi false h.imsi,
  parse_usage-print r.usage_type,
  parse_u64-to_chars_limit r.subscriber_msisdn false h.msisdn,
  e,
  parse_u64-to_chars r.duration false h.duration,
  parse_u64-optional r.bytes_received h.received,
  parse_u64-optional r.bytes_transmitted h.transmitted,
  parse_u64-optional_limit r.second_party_imsi h.party_imsi,
  parse_u64-optional_limit r.second_party_msisdn h.party_msisdn,
)

module _ (sep : ℕ) (plain : is_digit sep ≡ false) where
  number-Lacks : (n : ℕ) → Lacks sep (to_chars n)
  number-Lacks n = IsDigit-Lacks sep (to_chars n) plain (to_chars-IsDigit n)

  optional-Lacks : (n : ℕ) → Lacks sep (print_optional n)
  unfolding print_optional
  optional-Lacks n = ground (arith, number-Lacks n)

-- A line that carries a record in range is parsed to that record, where no field holds the
-- separator and the date and time are a pair that `parseDateTime` reads as the record's time.
pub parse-fields_of :
    (sep : ℕ) (r : CdrRecord) (date time : Bytes)
    → IsInRange r
    → parse_date_time date time ≡ some r.call_time
    → is_digit sep ≡ false
    → Lacks sep r.subscriber_imei
    → Lacks sep (print_usage r.usage_type)
    → Lacks sep date
    → Lacks sep time
    → parse sep (join sep (fields_of r date time)) ≡ some r
unfolding parse fields_of
parse-fields_of sep r date time h e plain imei usage on at =
    let num = number-Lacks sep plain in
    let opt = optional-Lacks sep plain in
    let fields = fields_of r date time in
    let clean : All (Lacks sep) fields = (
      num r.sequence,
      (
        num r.subscriber_imsi,
        (
          imei,
          (
            usage,
            (
              num r.subscriber_msisdn,
              (
                on,
                (
                  at,
                  (
                    num r.duration,
                    (
                      opt r.bytes_received,
                      (
                        opt r.bytes_transmitted,
                        (opt r.second_party_imsi, (opt r.second_party_msisdn, tt)),
                      ),
                    ),
                  ),
                ),
              ),
            ),
          ),
        ),
      ),
    ) in
    rw ((split_iff (join sep fields) sep fields).1 (refl, (refl, clean)))
      (read_fields-fields_of r date time h e)
