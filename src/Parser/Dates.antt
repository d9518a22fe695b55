-- ===== src/Parser/Dates.antt =====
-- `parseDateTime` of src/parser/csv_parser.cpp. `timegm` is the C library's: the seconds from the
-- epoch of a broken-down time in UTC, where a day past the end of its month runs into the next.
pub mod Reads
use cdr_processor.Base.{
  ℕ, zero, suc, ◌+◌, ◌-◌, ◌*◌, ◌/◌, ◌%◌, ◌≤◌, ◌<◌, ◌≡◌, ◌≢◌, refl, Bool, true, false, ◌||◌, not,
  Option, none, some, List, [], ◌∷◌, ◌++◌, arith, Bytes, codes, length, get_or, take, drop, ltb,
  leb, ◌==◌, if◌then◌else◌, ◌>>=◌,
}
use cdr_processor.Base.Int.{ℤ, pos, negsuc, sub_ℕ}
use cdr_processor.Charconv.{from_chars_int, is_digit, scan}

-- Twelve hundred years are three whole cycles of the calendar: added so that years stay positive.
abbrev pub shifted_year : ℤ → ℕ
shifted_year (pos n) = n + 1200
shifted_year (negsuc n) = 1199 - n

-- The days from 1 March of year 0 of the shifted calendar to the first day of a month.
pub days_before_month : ℕ → ℕ → ℕ
days_before_month year month =
    let y = if leb month 2 then year - 1 else year in
    let yoe = y % 400 in
    let doy = (153 * ((month + 9) % 12) + 2) / 5 in
    y / 400 * 146097 + (yoe * 365 + yoe / 4 - yoe / 100 + doy)

-- The days from 1 March of year 0 of the shifted calendar to 1 January 1970.
abbrev pub epoch_days : ℕ
epoch_days = 719468 + 438291

-- `timegm`, for a month of 1 to 12 and a year of four characters.
unfoldable pub timegm : ℤ → ℕ → ℕ → ℕ → ℕ → ℕ → ℤ
unfolding days_before_month
timegm year month day hour minute second =
    sub_ℕ
      ((days_before_month (shifted_year year) month + (day - 1)) * 86400
        + hour * 3600
        + minute * 60
        + second)
      (epoch_days * 86400)

-- `d2`: the number at two bytes; -1 where there is none.
unfoldable pub d2 : Bytes → ℕ → ℤ
d2 s off = elim (from_chars_int (take 2 (drop off s))) [ none ↦ negsuc 0 | some v ↦ v ]

-- A field that is negative or above its limit is refused.
unfoldable pub in_range : ℕ → ℕ → ℤ → Option ℕ
in_range lo hi (negsuc n) = none
in_range lo hi (pos n) = if ltb n lo || ltb hi n then none else some n

-- `parseDateTime`
unfoldable pub parse_date_time : Bytes → Bytes → Option ℤ
parse_date_time date time =
    if not (length date == 10) || not (length time == 8)
    then none
    else if not (get_or date 2 0 == b'/') || not (get_or date 5 0 == b'/')
    then none
    else if not (get_or time 2 0 == b':') || not (get_or time 5 0 == b':')
    then none
    else (do
      year ← from_chars_int (take 4 (drop 6 date))
      day ← in_range 1 31 (d2 date 0)
      month ← in_range 1 12 (d2 date 3)
      hour ← in_range 0 23 (d2 time 0)
      minute ← in_range 0 59 (d2 time 3)
      second ← in_range 0 59 (d2 time 6)
      some (timegm year month day hour minute second))
