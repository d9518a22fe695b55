-- ===== src/Charconv.antt =====
-- `std::to_chars` and `std::from_chars` as the sources use them (src/aggregate, src/parser,
-- src/query, src/source, src/store): decimal, over a whole view. A failed conversion is `none`; the
-- rest behind the digits is what `ptr` points to.
use native.Mathlib.Nat.{
  pow-suc, mul-le-mul_right, le-mul_of_pos_right, one-le-pow, pow-le-pow_right,
}
use cdr_processor.Base.{
  ap, ◌==◌, ℕ, zero, suc, ◌+◌, ◌-◌, ◌*◌, ◌/◌, ◌%◌, ◌^◌, ◌<◌, ◌≤◌, ◌≡◌, ◌≢◌, refl, Bool, true, false,
  ◌&&◌, Option, none, some, [], ◌∷◌, arith, Bytes, ltb, leb, if◌then◌else◌, u64_mod, length, All,
  Lacks,
}
use cdr_processor.Base.Int.{ℤ, pos, negsuc}

abbrev pub is_digit : ℕ → Bool
is_digit c = leb b'0' c && leb c b'9'

-- the digits at the front, read behind `n`, and what follows them
unfoldable pub scan : ℕ → Bytes → ℕ × Bytes
scan n [] = (n, [])
scan n (c ∷ s) = if is_digit c then scan (n * 10 + (c - b'0')) s else (n, c ∷ s)

-- `std::from_chars` into a `uint64_t`: no digit and an overflow are errors.
unfoldable pub from_chars : Bytes → Option (ℕ × Bytes)
unfolding scan
from_chars [] = none
from_chars (c ∷ s) =
    if is_digit c
    then (let r = scan 0 (c ∷ s) in if ltb r.0 u64_mod then some r else none)
    else none

abbrev pub negative : ℕ → ℤ
negative zero = pos 0
negative (suc n) = negsuc n

abbrev pub first_is_digit : Bytes → Bool
first_is_digit [] = false
first_is_digit (c ∷ s) = is_digit c

-- `std::from_chars` into an `int`, over at most four bytes, which cannot overflow: a minus sign is
-- read, and what follows the digits is ignored.
unfoldable pub from_chars_int : Bytes → Option ℤ
unfolding scan
from_chars_int [] = none
from_chars_int (c ∷ s) =
    let signed = if first_is_digit s then some (negative (scan 0 s).0) else none in
    let plain = if is_digit c then some (pos (scan 0 (c ∷ s)).0) else none in
    if c == b'-' then signed else plain

-- `std::to_chars` into a buffer of twenty digits, before the text that follows.
pub emit : ℕ → ℕ → Bytes → Bytes
emit zero n out = out
emit (suc room) n out =
    let more = emit room (n / 10) ((b'0' + n % 10) ∷ out) in
    if ltb n 10 then (b'0' + n) ∷ out else more

unfoldable pub to_chars : ℕ → Bytes
unfolding emit
to_chars n = emit 20 n []

scan-emit :
    (room n : ℕ) (out : Bytes) → n < 10 ^ suc room → scan 0 (emit (suc room) n out) ≡ scan n out
unfolding emit scan
scan-emit zero n out h = ground arith
scan-emit (suc room) n out h =
    ground (arith, scan-emit room (n / 10) ((b'0' + n % 10) ∷ out), pow-suc 10 (suc room))

abbrev pub IsDigit : ℕ → Type 0
IsDigit c = is_digit c ≡ true

emit-IsDigit : (room n : ℕ) (out : Bytes) → All IsDigit out → All IsDigit (emit room n out)
unfolding emit
emit-IsDigit zero n out h = h
emit-IsDigit (suc room) n out h = ground (arith, emit-IsDigit room (n / 10) ((b'0' + n % 10) ∷ out))

pub to_chars-IsDigit : (n : ℕ) → All IsDigit (to_chars n)
unfolding to_chars
to_chars-IsDigit n = emit-IsDigit 20 n [] tt

-- A number below 10^(k + 1) is printed in k + 1 digits at most.
length-emit :
    (room k n : ℕ) (out : Bytes) → n < 10 ^ suc k → length (emit room n out) ≤ suc k + length out
unfolding emit
length-emit zero k n out h = omega arith
length-emit (suc room) zero n out h = ground arith
length-emit (suc room) (suc k) n out h =
    ground (arith, length-emit room k (n / 10) ((b'0' + n % 10) ∷ out), pow-suc 10 (suc k))

pub length-to_chars : (k n : ℕ) → n < 10 ^ suc k → length (to_chars n) ≤ suc k
unfolding to_chars
length-to_chars k n h = omega (arith, length-emit 20 k n [] h)

emit-ne-nil : (room n : ℕ) (out : Bytes) → out ≢ [] → emit room n out ≢ []
unfolding emit
emit-ne-nil zero n out h = h
emit-ne-nil (suc room) n out h = ground (arith, emit-ne-nil room (n / 10) ((b'0' + n % 10) ∷ out))

pub to_chars-ne-nil : (n : ℕ) → to_chars n ≢ []
unfolding to_chars emit
to_chars-ne-nil n = ground (arith, emit-ne-nil 19 (n / 10) ((b'0' + n % 10) ∷ []))

from_chars-scan :
    (s : Bytes) → s ≢ [] → All IsDigit s → (scan 0 s).0 < u64_mod → from_chars s ≡ some (scan 0 s)
unfolding from_chars
from_chars-scan [] h d lt = absurd (h refl)
from_chars-scan (c ∷ s) h d lt = ground arith

-- Every 64-bit number is read back whole from its decimal print.
pub from_chars-to_chars : (n : ℕ) → n < u64_mod → from_chars (to_chars n) ≡ some (n, [])
unfolding to_chars scan
from_chars-to_chars n h =
    let read = scan-emit 19 n [] (omega arith) in
    ground (arith, read, from_chars-scan (emit 20 n []) (to_chars-ne-nil n) (to_chars-IsDigit n))

pub to_chars-injective : (m n : ℕ) → m < u64_mod → n < u64_mod → to_chars m ≡ to_chars n → m ≡ n
to_chars-injective m n hm hn e =
    ground (arith, from_chars-to_chars m hm, from_chars-to_chars n hn, ap from_chars e)

-- A result of `from_chars` is in range.
pub from_chars-lt : (s : Bytes) {r : ℕ × Bytes} → from_chars s ≡ some r → r.0 < u64_mod
unfolding from_chars
from_chars-lt [] h = cc
from_chars-lt (c ∷ s) h = ground arith

-- Digits lack every byte that is no digit.
pub IsDigit-Lacks : (b : ℕ) (s : Bytes) → is_digit b ≡ false → All IsDigit s → Lacks b s
IsDigit-Lacks b [] h d = tt
IsDigit-Lacks b (c ∷ s) h d = (ground arith, IsDigit-Lacks b s h d.1)

-- A number read from k bytes is below 10^k.
scan-lt : (n : ℕ) (s : Bytes) → suc (scan n s).0 ≤ suc n * 10 ^ length s
unfolding scan
scan-lt n [] = omega arith
scan-lt n (c ∷ s) =
    let m : ℕ = n * 10 + (c - b'0') in
    let k : ℕ = length s in
    ground (
      arith,
      scan-lt m s,
      mul-le-mul_right {m = suc m} {n = suc n * 10} (10 ^ k),
      ap (λ (p : ℕ). suc n * p) (pow-suc 10 k),
      le-mul_of_pos_right {m = 10 ^ suc k} (suc n) (one-le-pow (suc k) 10 (omega arith)),
    )

pub from_chars-lt_pow :
    (s : Bytes) (k : ℕ) {r : ℕ × Bytes} → from_chars s ≡ some r → length s ≤ k → r.0 < 10 ^ k
unfolding from_chars
from_chars-lt_pow [] k h le = cc
from_chars-lt_pow (c ∷ s) k {r} h le = ground (
  arith,
  scan-lt 0 (c ∷ s),
  pow-le-pow_right {n = 10} (omega arith) {i = length (c ∷ s)} {j = k} le,
)
