-- ===== src/Json/Strings.antt =====
-- The texts that src/util/json.cpp writes, read back as RFC 8259 has it.
use Prim.Native.Nat.{bit_and}
use cdr_processor.Base.{
  append-nil, ℕ, zero, suc, ◌+◌, ◌-◌, ◌*◌, ◌/◌, ◌^◌, ◌<◌, ◌≡◌, refl, sym, ap, ◌∙◌, ◌==◌, Bool, true,
  false, Bool-cases, ◌&&◌, inl, inr, Option, none, some, List, [], ◌∷◌, ◌++◌, append_assoc, foldl,
  Bytes, codes, ltb, leb, arith, if◌then◌else◌,
}
use cdr_processor.Json.{quote, backslash, hex, escaped, escape_all, quoted}

-- Where a reader of a JSON string stands: before it, in its text, behind a backslash, in the digits of
-- a code, behind the string with what follows, or at an error.
pub data Reading : Type 0 where
  before : Reading
  plain : Bytes → Reading
  escaping : Bytes → Reading
  coded : ℕ → ℕ → Bytes → Reading
  ended : Bytes → Bytes → Reading
  failed : Reading

-- A hexadecimal digit.
abbrev pub digit_of : ℕ → Option ℕ
digit_of c =
    if leb b'0' c && leb c b'9'
    then some (c - b'0')
    else if leb b'a' c && leb c b'f'
    then some (c - b'a' + 10)
    else if leb b'A' c && leb c b'F'
    then some (c - b'A' + 10)
    else none

-- What a letter behind a backslash stands for.
abbrev pub escape_of : List (ℕ × ℕ) → ℕ → Option ℕ
escape_of [] c = none
escape_of ((letter, byte) ∷ rest) c = if c == letter then some byte else escape_of rest c

abbrev pub escapes : List (ℕ × ℕ)
escapes =
    (quote, quote)
    ∷ (backslash, backslash)
    ∷ (b'/', b'/')
    ∷ (b'b', 8)
    ∷ (b'f', 12)
    ∷ (b'n', 10)
    ∷ (b'r', 13)
    ∷ (b't', 9)
    ∷ []

-- One byte. A code above 127 would be more bytes than one and is left out.
unfoldable pub read_byte : Reading → ℕ → Reading
read_byte before c = if c == quote then plain [] else failed
read_byte (plain out) c =
    if c == quote
    then ended out []
    else if c == backslash
    then escaping out
    else if ltb c 0x20
    then failed
    else plain (out ++ c ∷ [])
read_byte (escaping out) c =
    if c == b'u'
    then coded 3 0 out
    else elim (escape_of escapes c) [ none ↦ failed | some byte ↦ plain (out ++ byte ∷ []) ]
read_byte (coded left value out) c = elim (digit_of c) [
  | none ↦ failed
  | some d ↦ elim left [
    | zero ↦ if ltb (value * 16 + d) 128 then plain (out ++ (value * 16 + d) ∷ []) else failed
    | suc n ↦ coded n (value * 16 + d) out
  ]
]
read_byte (ended out rest) c = ended out (rest ++ c ∷ [])
read_byte failed c = failed

abbrev pub read : Reading → Bytes → Reading
read = foldl read_byte

-- A test that holds of each number below a bound.
all_below : ℕ → (ℕ → Bool) → Bool
all_below zero test = true
all_below (suc n) test = test n && all_below n test

below : (n : ℕ) (test : ℕ → Bool) (c : ℕ) → all_below n test ≡ true → c < n → test c ≡ true
unfolding all_below
below zero test c h lt = absurd (omega arith)
below (suc n) test c h lt = elim (Bool-cases (c == n)) [
  | inl e ↦ ground (arith, e)
  | inr e ↦ below n test c (ground arith) (ground (arith, e))
]

-- The digits of a byte below 32 are read back.
abbrev digits_read : ℕ → Bool
digits_read c = elim (digit_of (hex (c / 2 ^ 4))) [
  | none ↦ false
  | some high ↦ elim (digit_of (hex (bit_and c 0x0f))) [
    | none ↦ false
    | some low ↦ (high * 16 + low) == c
  ]
]

all_digits_read : all_below 32 digits_read ≡ true
unfolding all_below hex
all_digits_read = refl

read-append : (st : Reading) (s t : Bytes) → read st (s ++ t) ≡ read (read st s) t
read-append st [] t = refl
read-append st (c ∷ s) t = read-append (read_byte st c) s t

digits_read-cases :
    (c : ℕ)
    → digits_read c ≡ true
    → (high : ℕ) × (low : ℕ) × (digit_of (hex (c / 2 ^ 4)) ≡ some high)
      × (digit_of (hex (bit_and c 0x0f)) ≡ some low)
      × (high * 16 + low ≡ c)
digits_read-cases c h =
    go (digit_of (hex (c / 2 ^ 4))) (digit_of (hex (bit_and c 0x0f))) refl refl h
  where
    go :
        (a b : Option ℕ)
        → digit_of (hex (c / 2 ^ 4)) ≡ a
        → digit_of (hex (bit_and c 0x0f)) ≡ b
        → elim a as (λ _. Bool) [
          | none ↦ false
          | some high ↦ elim b as (λ _. Bool) [ none ↦ false | some low ↦ (high * 16 + low) == c ]
        ]
          ≡ true
        → (high : ℕ) × (low : ℕ) × (digit_of (hex (c / 2 ^ 4)) ≡ some high)
          × (digit_of (hex (bit_and c 0x0f)) ≡ some low)
          × (high * 16 + low ≡ c)
    go none b e f h = cc
    go (some high) none e f h = cc
    go (some high) (some low) e f h = (high, low, e, f, ground (arith, h))

-- A code below 128 is read as one byte.
read-code :
    (out : Bytes) (first second high low : ℕ)
    → digit_of first ≡ some high
    → digit_of second ≡ some low
    → high * 16 + low < 128
    → read (plain out) (codes "\\u00" ++ (first ∷ second ∷ []))
      ≡ plain (out ++ (high * 16 + low) ∷ [])
unfolding read_byte
read-code out first second high low e f small =
    let whole : (0 * 16 + high) * 16 + low ≡ high * 16 + low = omega arith in
    let room : ltb (high * 16 + low) 128 ≡ true = ground (arith, small) in
    let digits_left : read (coded 1 0 out) (first ∷ second ∷ [])
        ≡ plain (out ++ (high * 16 + low) ∷ []) =
      rw (read_byte, e, f, whole, room) refl in
    digits_left

read-control :
    (out : Bytes) (c : ℕ)
    → c < 32
    → read (plain out) (codes "\\u00" ++ (hex (c / 2 ^ 4) ∷ hex (bit_and c 0x0f) ∷ []))
      ≡ plain (out ++ c ∷ [])
read-control out c small =
    let (high, low, e, f, same) =
      digits_read-cases c (below 32 digits_read c all_digits_read small) in
    read-code out (hex (c / 2 ^ 4)) (hex (bit_and c 0x0f)) high low e f (omega (arith, same, small))
    ∙ ap (λ (b : ℕ). plain (out ++ b ∷ [])) same

read-escaped : (out : Bytes) (c : ℕ) → read (plain out) (escaped c) ≡ plain (out ++ c ∷ [])
unfolding escaped read_byte
read-escaped out c = elim (Bool-cases (c == quote)) [
  | inl e ↦ let same : c ≡ quote = ground (arith, e) in rw same refl
  | inr e ↦ elim (Bool-cases (c == backslash)) [
    | inl f ↦ let same : c ≡ backslash = ground (arith, f) in rw same refl
    | inr f ↦ elim (Bool-cases (ltb c 0x20)) [
      | inl g ↦ rw (escaped, e, f, g) (read-control out c (ground (arith, g)))
      | inr g ↦ rw (escaped, e, f, g) (rw (read_byte, e, f, g) refl)
    ]
  ]
]

read-escape_all :
    (out text rest : Bytes)
    → read (plain out) (escape_all text ++ rest) ≡ read (plain (out ++ text)) rest
unfolding escape_all
read-escape_all out [] rest = ap (λ (o : Bytes). read (plain o) rest) (sym (append-nil out))
read-escape_all out (c ∷ text) rest =
    ap (read (plain out)) (append_assoc (escaped c) (escape_all text) rest)
    ∙ read-append (plain out) (escaped c) (escape_all text ++ rest)
    ∙ ap (λ (st : Reading). read st (escape_all text ++ rest)) (read-escaped out c)
    ∙ read-escape_all (out ++ c ∷ []) text rest
    ∙ ap (λ (o : Bytes). read (plain o) rest) (append_assoc out (c ∷ []) text)

read_rest : (out rest more : Bytes) → read (ended out rest) more ≡ ended out (rest ++ more)
unfolding read_byte
read_rest out rest [] = ap (λ (r : Bytes). ended out r) (sym (append-nil rest))
read_rest out rest (c ∷ more) =
    read_rest out (rest ++ c ∷ []) more
    ∙ ap (λ (r : Bytes). ended out r) (append_assoc rest (c ∷ []) more)

-- A text that `quoted` writes is read back by a reader of JSON strings, whatever its bytes and whatever
-- follows it.
pub read-quoted : (text rest : Bytes) → read before (quoted [] text ++ rest) ≡ ended text rest
unfolding quoted read_byte
read-quoted text rest =
    ap (read (plain [])) (append_assoc (escape_all text) (quote ∷ []) rest)
    ∙ read-escape_all [] text (quote ∷ rest)
    ∙ read_rest text [] rest
