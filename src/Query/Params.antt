-- ===== src/Query/Params.antt =====
-- src/query/query_params.cpp and inc/query/query_params.hpp: the parameters of a listing, and pages.
-- The request is the function that gives a parameter's text, empty where the request has none
-- (`param`).
pub mod Pages
use mathlib.Core.Option
use cdr_processor.Constants.{sort_dur, sort_sms}
use cdr_processor.Base.{
  ℕ, ◌+◌, ◌-◌, ◌==◌, min, Bool, true, false, ◌&&◌, not, Option, none, some, List, [], ◌∷◌, Bytes,
  codes, text_eq, length, take, drop, ltb, leb, if◌then◌else◌, ◌>>=◌,
}
use cdr_processor.Charconv.{from_chars}

pub data Sort : Type 0 where
  duration sms : Sort

pub record QueryParams : Type 0 where
  pub weights : Bool
  pub sort : Sort
  pub offset : ℕ
  pub limit : ℕ

-- `count_of`: the whole text as a count.
unfoldable pub count_of : Bytes → Option ℕ
unfolding from_chars
count_of text = from_chars text >>= λ (value, rest). if length rest == 0 then some value else none

-- `parseParams`: the parameters, or the name of the one that is refused with 400.
pub data Parsed : Type 0 where
  params : QueryParams → Parsed
  refused : Bytes → Parsed

abbrev pub is_empty : Bytes → Bool
is_empty text = length text == 0

-- A count that a parameter gives, or its default where the request has none.
unfoldable pub count_or : ℕ → Bytes → Option ℕ
unfolding count_of
count_or fallback text = if is_empty text then some fallback else count_of text

unfoldable pub parse_params : (Bytes → Bytes) → ℕ → ℕ → Parsed
unfolding count_or
parse_params param fallback cap =
    let weights = param (codes "weights") in
    let sort = param (codes "sort") in
    let ordered = if text_eq sort sort_sms then sms else duration in
    let bad_weights =
      not (is_empty weights)
      && (not (text_eq weights (codes "0")) && not (text_eq weights (codes "1"))) in
    let bad_sort =
      not (is_empty sort) && (not (text_eq sort sort_dur) && not (text_eq sort sort_sms)) in
    if bad_weights
    then refused (codes "weights")
    else if bad_sort
    then refused (codes "sort")
    else elim (count_or 0 (param (codes "offset"))) [
      | none ↦ refused (codes "offset")
      | some offset ↦ elim (count_or fallback (param (codes "limit"))) [
        | none ↦ refused (codes "limit")
        | some limit ↦ params (record {
          weights = text_eq weights (codes "1");
          sort = ordered;
          offset = offset;
          limit = min limit cap;
        })
      ]
    ]

-- `page`
unfoldable pub page {ℓ} : {A : Type ℓ} → List A → QueryParams → List A
page all q =
    let left = length all - q.offset in
    if leb (length all) q.offset
    then []
    else take (if q.limit == 0 then left else min q.limit left) (drop q.offset all)
