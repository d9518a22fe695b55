-- ===== src/Json.antt =====
-- src/util/json.cpp: the builder of flat JSON objects. The builder's state is its body.
pub mod Strings
use Prim.Native.Nat.{bit_and}
use cdr_processor.Base.{
  ℕ, ◌/◌, ◌^◌, ◌==◌, Bool, true, false, ◌||◌, List, [], ◌∷◌, ◌++◌, Bytes, codes, ltb, get_or,
  length, if◌then◌else◌,
}
use cdr_processor.Charconv.{to_chars}

abbrev pub quote : ℕ
quote = b'"'

abbrev pub backslash : ℕ
backslash = b'\\'

-- `kHex[n]`
unfoldable pub hex : ℕ → ℕ
hex n = get_or (codes "0123456789abcdef") n 0

-- What one byte of `quoted` appends.
unfoldable pub escaped : ℕ → Bytes
unfolding hex
escaped byte =
    if (byte == quote) || (byte == backslash)
    then backslash ∷ byte ∷ []
    else if ltb byte 0x20
    then codes "\\u00" ++ (hex (byte / 2 ^ 4) ∷ hex (bit_and byte 0x0f) ∷ [])
    else byte ∷ []

unfoldable pub escape_all : Bytes → Bytes
unfolding escaped
escape_all [] = []
escape_all (c ∷ s) = escaped c ++ escape_all s

-- `quoted`
unfoldable pub quoted : Bytes → Bytes → Bytes
unfolding escape_all
quoted body text = body ++ (quote ∷ (escape_all text ++ quote ∷ []))

-- `key`
unfoldable pub key : Bytes → Bytes → Bytes
unfolding quoted
key body name = quoted (if length body == 0 then body else body ++ b',' ∷ []) name ++ b':' ∷ []

-- `add` of a text.
unfoldable pub add_text : Bytes → Bytes → Bytes → Bytes
unfolding key
add_text body name value = quoted (key body name) value

-- `add` of a number.
unfoldable pub add_number : Bytes → Bytes → ℕ → Bytes
unfolding key to_chars
add_number body name value = key body name ++ to_chars value

-- `str`
unfoldable pub str : Bytes → Bytes
str body = b'{' ∷ (body ++ b'}' ∷ [])

-- The loop over an array of texts, behind the entries before it.
unfoldable pub add_entries : Bytes → Bool → List Bytes → Bytes
unfolding quoted
add_entries body first [] = body
add_entries body first (v ∷ vs) =
    add_entries (quoted (if first then body else body ++ b',' ∷ []) v) false vs

-- `add` of an array of texts.
unfoldable pub add_texts : Bytes → Bytes → List Bytes → Bytes
unfolding key add_entries
add_texts body name values = add_entries (key body name ++ b'[' ∷ []) true values ++ b']' ∷ []

-- The loop over an array of objects.
unfoldable pub add_bodies : Bytes → Bool → List Bytes → Bytes
unfolding str
add_bodies body first [] = body
add_bodies body first (v ∷ vs) =
    add_bodies ((if first then body else body ++ b',' ∷ []) ++ str v) false vs

-- `add` of an array of objects.
unfoldable pub add_objects : Bytes → Bytes → List Bytes → Bytes
unfolding key add_bodies
add_objects body name values = add_bodies (key body name ++ b'[' ∷ []) true values ++ b']' ∷ []

-- `error`
unfoldable pub error : Bytes → Bytes
unfolding add_text str
error msg = str (add_text [] (codes "error") msg)
