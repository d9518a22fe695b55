-- ===== src/Parser/Dates/Reads.antt =====
-- What `parseDateTime` of src/parser/csv_parser.cpp accepts.
use cdr_processor.Base.{
  drop, take, ℕ, ◌+◌, ◌/◌, ◌%◌, ◌<◌, ◌≡◌, refl, Bool, true, false, ◌&&◌, some, none, [], ◌∷◌, ◌++◌,
  arith, Bytes, leb, if◌then◌else◌,
}
use cdr_processor.Base.Int.{pos}
use cdr_processor.Charconv.{from_chars_int, is_digit, scan}
use cdr_processor.Parser.Dates.{d2, in_range, timegm, parse_date_time}

abbrev pub two : ℕ → Bytes
two n = (b'0' + n / 10) ∷ (b'0' + n % 10) ∷ []

abbrev pub four : ℕ → Bytes
four n = (b'0' + n / 1000) ∷ (b'0' + n / 100 % 10) ∷ (b'0' + n / 10 % 10) ∷ (b'0' + n % 10) ∷ []

-- "DD/MM/YYYY" and "HH:MM:SS"
abbrev pub date_text : ℕ → ℕ → ℕ → Bytes
date_text day month year = two day ++ b'/' ∷ (two month ++ b'/' ∷ four year)

abbrev pub time_text : ℕ → ℕ → ℕ → Bytes
time_text hour minute second = two hour ++ b':' ∷ (two minute ++ b':' ∷ two second)

abbrev pub is_valid : ℕ → ℕ → ℕ → ℕ → ℕ → Bool
is_valid day month hour minute second =
    (leb 1 day && leb day 31)
    && ((leb 1 month && leb month 12) && (leb hour 23 && (leb minute 59 && leb second 59)))

from_chars_int-two : (n : ℕ) → n < 100 → from_chars_int (two n) ≡ some (pos n)
unfolding from_chars_int scan
from_chars_int-two n h = ground arith

from_chars_int-four : (n : ℕ) → n < 10000 → from_chars_int (four n) ≡ some (pos n)
unfolding from_chars_int scan
from_chars_int-four n h = ground arith

d2-two : (s : Bytes) (off n : ℕ) → take 2 (drop off s) ≡ two n → n < 100 → d2 s off ≡ pos n
unfolding d2
d2-two s off n e h = ground (arith, e, from_chars_int-two n h)

-- Digits in the two formats are read as the time that they name, exactly where day, month, hour,
-- minute and second are each in range; a day that its month does not have is not refused.
pub parse_date_time-text :
    (day month year hour minute second : ℕ)
    → day < 100
    → month < 100
    → year < 10000
    → hour < 100
    → minute < 100
    → second < 100
    → parse_date_time (date_text day month year) (time_text hour minute second) ≡ (
        if is_valid day month hour minute second
        then some (timegm (pos year) month day hour minute second)
        else none)
unfolding parse_date_time
parse_date_time-text day month year hour minute second p q r s t v =
    let date = date_text day month year in
    let time = time_text hour minute second in
    simp
      (
        from_chars_int-four year r,
        d2-two date 0 day refl p,
        d2-two date 3 month refl q,
        d2-two time 0 hour refl s,
        d2-two time 3 minute refl t,
        d2-two time 6 second refl v,
      )
      (unfold in_range in ground arith)

d2_first :
    (a c : ℕ) (rest : Bytes)
    → is_digit a ≡ true
    → is_digit c ≡ false
    → d2 (a ∷ c ∷ rest) 0 ≡ d2 (b'0' ∷ a ∷ rest) 0
unfolding d2 from_chars_int scan
d2_first a c rest digit other = ground arith

d2_later : (a c a' c' : ℕ) (rest : Bytes) → d2 (a ∷ c ∷ rest) 3 ≡ d2 (a' ∷ c' ∷ rest) 3
unfolding d2
d2_later a c a' c' rest = refl

-- The conversion of a pair of bytes ignores what follows a first digit: a date of which the second
-- byte is no digit is read as if the day were that one digit.
pub parse_date_time-malformed :
    (a c : ℕ) (rest time : Bytes)
    → is_digit a ≡ true
    → is_digit c ≡ false
    → parse_date_time (a ∷ c ∷ rest) time ≡ parse_date_time (b'0' ∷ a ∷ rest) time
unfolding parse_date_time
parse_date_time-malformed a c rest time digit other =
    rw (d2_first a c rest digit other, d2_later a c b'0' a rest)
