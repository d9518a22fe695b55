-- ===== src/Query/Reports/Written.antt =====
-- What src/query/services/query_service.cpp reports of counters that
-- src/aggregate/aggregate_writer.cpp wrote.
use cdr_processor.Base.{
  inl, inr, foldl, length, inr, subst, text_eq_iff, inl, length, Bool-cases, foldl, ℕ, ◌≡◌, ◌<◌,
  refl, ◌∙◌, ap, ◌==◌, not, ◌&&◌, Bool, true, some, List, [], ◌∷◌, ◌++◌, Bytes, codes, text_eq,
  if◌then◌else◌, All, arith, u64_mod,
}
use cdr_processor.Charconv.{to_chars, from_chars-to_chars}
use cdr_processor.Json.{add_text, add_number}
use cdr_processor.Aggregate.Delta.{SubDelta}
use cdr_processor.Aggregate.Writers.{Addition, sub_additions}
use cdr_processor.Query.Links.{IQueryStore, to_num}
use cdr_processor.Query.Reports.{
  not_found, answered, field_num, add_fields, report, subscriber_report, sub_fields,
}

-- The fields of a key behind additions to it: one for each that is not 0, printed in decimal.
unfoldable pub written : List Addition → List (Bytes × Bytes)
written [] = []
written ((key, field, value) ∷ rest) =
    if value == 0 then written rest else (field, to_chars value) ∷ written rest

to_num-to_chars : (n : ℕ) → n < u64_mod → to_num (to_chars n) ≡ n
unfolding to_num
to_num-to_chars n h = ground (arith, from_chars-to_chars n h)

field_num-written :
    (key field name : Bytes) (value : ℕ) (rest : List Addition)
    → value < u64_mod
    → field_num (written ((key, field, value) ∷ rest)) name
      ≡ (if not (value == 0) && text_eq field name then value else field_num (written rest) name)
unfolding field_num written
field_num-written key field name value rest h = ground (arith, to_num-to_chars value h)

-- The value that a list of additions has for a field.
abbrev pub value_of : List Addition → Bytes → ℕ
value_of [] name = 0
value_of ((key, field, value) ∷ rest) name =
    if text_eq field name then value else value_of rest name

-- No field stands twice.
abbrev lacks_field : Bytes → List Addition → Bool
lacks_field name [] = true
lacks_field name ((key, field, value) ∷ rest) = not (text_eq field name) && lacks_field name rest

abbrev distinct : List Addition → Bool
distinct [] = true
distinct ((key, field, value) ∷ rest) = lacks_field field rest && distinct rest

lacks_field-value_of :
    (name : Bytes) (adds : List Addition) → lacks_field name adds ≡ true → value_of adds name ≡ 0
lacks_field-value_of name [] h = refl
lacks_field-value_of name ((key, field, value) ∷ rest) h =
    ground (arith, lacks_field-value_of name rest)

both : (a b : Bool) → (a && b) ≡ true → (a ≡ true) × (b ≡ true)
both a b h = ground arith

field_num-value_of :
    (adds : List Addition) (name : Bytes)
    → distinct adds ≡ true
    → All (λ a. a.2 < u64_mod) adds
    → field_num (written adds) name ≡ value_of adds name
unfolding field_num written
field_num-value_of [] name d h = refl
field_num-value_of ((key, field, value) ∷ rest) name d (lt, h) =
    let (fresh, d') = both (lacks_field field rest) (distinct rest) d in
    let later = field_num-value_of rest name d' h in
    elim (Bool-cases (text_eq field name)) [
      | inl q ↦
          let same = (text_eq_iff field name).0 q in
          let zero_later =
            subst (λ n. value_of rest n ≡ 0) same (lacks_field-value_of field rest fresh) in
          field_num-written key field name value rest lt ∙ ground (arith, q, later, zero_later)
      | inr q ↦ field_num-written key field name value rest lt ∙ ground (arith, q, later)
    ]

add_fields-written :
    (adds : List Addition) (names : List (Bytes × Bytes)) (json : Bytes)
    → distinct adds ≡ true
    → All (λ a. a.2 < u64_mod) adds
    → add_fields (written adds) names json
      ≡ foldl (λ json (field, name). add_number json name (value_of adds field)) json names
unfolding add_fields
add_fields-written adds [] json d h = refl
add_fields-written adds ((field, name) ∷ names) json d h =
    rw (field_num-value_of adds field d h)
      (add_fields-written adds names (add_number json name (value_of adds field)) d h)

report-some :
    (fields : List (Bytes × Bytes)) (name id message : Bytes) (names : List (Bytes × Bytes))
    → report (some fields) name id message names ≡ (
        if length fields == 0
        then not_found message
        else answered (add_fields fields names (add_text [] name id)))
unfolding report
report-some [] name id message names = refl
report-some (f ∷ fields) name id message names = ground arith

-- The report of a subscriber under the names that it goes out by.
abbrev pub sub_body : Bytes → SubDelta → Bytes
sub_body msisdn s =
    foldl (λ json (name, value). add_number json name value) (add_text [] (codes "msisdn") msisdn)
      ((codes "voice-out", s.voice_out)
        ∷ (codes "voice-in", s.voice_in)
        ∷ (codes "data-out", s.data_tx)
        ∷ (codes "data-in", s.data_rx)
        ∷ (codes "sms-out", s.sms_out)
        ∷ (codes "sms-in", s.sms_in)
        ∷ (codes "no-answer", s.noans)
        ∷ (codes "busy", s.busy)
        ∷ (codes "failed", s.failed)
        ∷ [])

-- Where the fields of a subscriber are the counters that the writer has written, each below 2^64,
-- the report gives exactly these counters, each under its own name, and 0 for those never written;
-- a subscriber of whom nothing was written is not found.
pub subscriber_report-written :
    (store : IQueryStore) (n : ℕ) (s : SubDelta)
    → store.hgetall (codes "sub:" ++ to_chars n) ≡ some (written (sub_additions (n, s)))
    → All (λ a. a.2 < u64_mod) (sub_additions (n, s))
    → subscriber_report store (to_chars n) ≡ (
        if length (written (sub_additions (n, s))) == 0
        then not_found (codes "subscriber not found")
        else answered (sub_body (to_chars n) s))
unfolding subscriber_report sub_additions
subscriber_report-written store n s e h =
    let id = to_chars n in
    let fields = written (sub_additions (n, s)) in
    let missing = codes "subscriber not found" in
    ap (λ o. report o (codes "msisdn") id missing sub_fields) e
    ∙ report-some fields (codes "msisdn") id missing sub_fields
    ∙ ap (λ json. if length fields == 0 then not_found missing else answered json)
        (add_fields-written (sub_additions (n, s)) sub_fields (add_text [] (codes "msisdn") id) refl
          h)
