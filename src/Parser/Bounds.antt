-- ===== src/Parser/Bounds.antt =====
-- What an accepted line guarantees: the ranges of the fields of src/parser/csv_parser.cpp.
use cdr_processor.Base.{
  >>=-eq-some, ℕ, ◌≡◌, ◌≤◌, ◌<◌, ◌^◌, Option-cases, Bool, true, false, inl, inr, some, List, [],
  ◌∷◌, arith, Bytes, length, u64_mod, get_or,
}
use cdr_processor.Record.{CdrRecord}
use cdr_processor.Charconv.{from_chars, from_chars-lt, from_chars-lt_pow}
use cdr_processor.Parser.{max_digits, split, whole_number, parse_u64, read_fields, parse}

whole_number-lt : (str : Bytes) {n : ℕ} → whole_number str ≡ some n → n < u64_mod
unfolding whole_number
whole_number-lt str {n} h = elim (Option-cases (from_chars str)) [
  | inl e ↦ ground arith
  | inr (r, e) ↦ ground (arith, from_chars-lt str e)
]

parse_u64-lt :
    (str : Bytes) (optional : Bool) (digits : ℕ) {n : ℕ}
    → parse_u64 str optional digits ≡ some n
    → n < u64_mod
unfolding parse_u64
parse_u64-lt [] optional digits h = ground arith
parse_u64-lt (c ∷ s) optional digits {n} h = ground (arith, whole_number-lt (c ∷ s) {n = n})

whole_number-lt_pow :
    (str : Bytes) (k : ℕ) {n : ℕ} → whole_number str ≡ some n → length str ≤ k → n < 10 ^ k
unfolding whole_number
whole_number-lt_pow str k {n} h le = elim (Option-cases (from_chars str)) [
  | inl e ↦ ground arith
  | inr (r, e) ↦ ground (arith, from_chars-lt_pow str k e le)
]

parse_u64-lt_pow :
    (str : Bytes) (optional : Bool) {n : ℕ}
    → parse_u64 str optional max_digits ≡ some n
    → n < 10 ^ max_digits
unfolding parse_u64
parse_u64-lt_pow [] optional h = ground arith
parse_u64-lt_pow (c ∷ s) optional {n} h =
    ground (arith, whole_number-lt_pow (c ∷ s) max_digits {n = n})

-- What is promised of a record.
pub record IsInRange (r : CdrRecord) : Type 0 where
  pub sequence : r.sequence < u64_mod
  pub imsi : r.subscriber_imsi < 10 ^ max_digits
  pub msisdn : r.subscriber_msisdn < 10 ^ max_digits
  pub duration : r.duration < u64_mod
  pub received : r.bytes_received < u64_mod
  pub transmitted : r.bytes_transmitted < u64_mod
  pub party_imsi : r.second_party_imsi < 10 ^ max_digits
  pub party_msisdn : r.second_party_msisdn < 10 ^ max_digits

read_fields-IsInRange :
    (fields : List Bytes) {r : CdrRecord} → read_fields fields ≡ some r → IsInRange r
unfolding read_fields
read_fields-IsInRange fields {r} h = ground (
  arith,
  parse_u64-lt (get_or fields 0 []) false 0 {n = r.sequence},
  parse_u64-lt_pow (get_or fields 1 []) false {n = r.subscriber_imsi},
  parse_u64-lt_pow (get_or fields 4 []) false {n = r.subscriber_msisdn},
  parse_u64-lt (get_or fields 7 []) false 0 {n = r.duration},
  parse_u64-lt (get_or fields 8 []) true 0 {n = r.bytes_received},
  parse_u64-lt (get_or fields 9 []) true 0 {n = r.bytes_transmitted},
  parse_u64-lt_pow (get_or fields 10 []) true {n = r.second_party_imsi},
  parse_u64-lt_pow (get_or fields 11 []) true {n = r.second_party_msisdn},
)

-- A line that is accepted gives a record in range: numbers fit 64 bits, and the identities of both
-- parties have fifteen digits at most.
pub parse-IsInRange :
    (sep : ℕ) (line : Bytes) {r : CdrRecord} → parse sep line ≡ some r → IsInRange r
unfolding parse
parse-IsInRange sep line h =
    let (fields, cut, rest) = >>=-eq-some (split line sep) read_fields h in
    read_fields-IsInRange fields rest
