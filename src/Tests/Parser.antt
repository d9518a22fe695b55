-- ===== src/Tests/Parser.antt =====
-- src/parser/csv_parser.cpp at concrete lines.
use cdr_processor.Base.{Lacks, ◌↔◌, ◌≡◌, refl, some, none, List, arith, Bytes, codes, length}
use cdr_processor.Base.Int.{pos, negsuc}
use cdr_processor.Record.{CdrRecord, moc}
use cdr_processor.Charconv.{from_chars_int, from_chars}
use cdr_processor.Parser.{parse_usage, parse_u64, read_fields, split, parse}
use cdr_processor.Parser.Dates.{d2, in_range, parse_date_time, timegm}
use cdr_processor.Parser.Dates.Reads.{
  parse_date_time-text, parse_date_time-malformed, date_text, time_text,
}
use cdr_processor.Parser.Split.{split_iff, Spells, join}
use cdr_processor.Parser.Bounds.{parse-IsInRange, IsInRange}
use cdr_processor.Parser.RoundTrip.{parse-fields_of, fields_of, print_usage}

abbrev line : Bytes
line =
    codes
      "1|425010000000001|35|MOC|972541000000|01/01/1970|00:00:10|60|||425010000000002|972541000001"

abbrev record_read : CdrRecord
record_read = record {
  sequence = 1;
  subscriber_imsi = 425010000000001;
  subscriber_imei = codes "35";
  usage_type = moc;
  subscriber_msisdn = 972541000000;
  call_time = pos 10;
  duration = 60;
  bytes_received = 0;
  bytes_transmitted = 0;
  second_party_imsi = 425010000000002;
  second_party_msisdn = 972541000001;
}

epoch : parse_date_time (codes "01/01/1970") (codes "00:00:00") ≡ some (pos 0)
unfolding parse_date_time from_chars_int in_range d2 timegm
epoch = refl

leap_day : parse_date_time (codes "29/02/2024") (codes "12:34:56") ≡ some (pos 1709210096)
unfolding parse_date_time from_chars_int in_range d2 timegm
leap_day = refl

before_epoch : parse_date_time (codes "31/12/1969") (codes "23:59:59") ≡ some (negsuc 0)
unfolding parse_date_time from_chars_int in_range d2 timegm
before_epoch = refl

-- A day past the end of its month is the first of the next month, as `timegm` normalises it.
past_the_month :
    parse_date_time (codes "31/04/2024") (codes "00:00:00")
    ≡ parse_date_time (codes "01/05/2024") (codes "00:00:00")
unfolding parse_date_time d2 from_chars_int in_range timegm
past_the_month = refl

line_read : parse b'|' line ≡ some record_read
unfolding parse split read_fields parse_u64 from_chars parse_usage parse_date_time from_chars_int
    in_range d2 timegm
line_read = refl

too_few_fields : parse b'|' (codes "1|2|3") ≡ none
unfolding parse split
too_few_fields = refl

abbrev twelve : List Bytes
twelve = fields_of record_read (codes "01/01/1970") (codes "00:00:10")

split_iff_example :
    (split line b'|' ≡ some twelve) ↔ ((length twelve ≡ 12) × Spells b'|' line twelve)
split_iff_example = split_iff line b'|' twelve

parse-IsInRange_example : IsInRange record_read
parse-IsInRange_example = parse-IsInRange b'|' line line_read

record_read-IsInRange : IsInRange record_read
record_read-IsInRange = record {
  sequence = omega arith;
  imsi = omega arith;
  msisdn = omega arith;
  duration = omega arith;
  received = omega arith;
  transmitted = omega arith;
  party_imsi = omega arith;
  party_msisdn = omega arith;
}

ten_past : parse_date_time (codes "01/01/1970") (codes "00:00:10") ≡ some (pos 10)
unfolding parse_date_time from_chars_int in_range d2 timegm
ten_past = refl

usage-Lacks : Lacks b'|' (print_usage moc)
unfolding print_usage
usage-Lacks = ground arith

parse-fields_of_example : parse b'|' (join b'|' twelve) ≡ some record_read
parse-fields_of_example =
    parse-fields_of b'|' record_read (codes "01/01/1970") (codes "00:00:10") record_read-IsInRange
      ten_past refl (ground arith) usage-Lacks (ground arith) (ground arith)

parse_date_time-text_example :
    parse_date_time (date_text 31 4 2024) (time_text 0 0 0) ≡ some (timegm (pos 2024) 4 31 0 0 0)
parse_date_time-text_example =
    parse_date_time-text 31 4 2024 0 0 0 (omega arith) (omega arith) (omega arith) (omega arith)
      (omega arith) (omega arith)

parse_date_time-malformed_example :
    parse_date_time (codes "1x/01/2024") (codes "00:00:00")
    ≡ parse_date_time (codes "01/01/2024") (codes "00:00:00")
parse_date_time-malformed_example =
    parse_date_time-malformed b'1' b'x' (codes "/01/2024") (codes "00:00:00") refl refl
