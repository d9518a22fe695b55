-- ===== src/Query/Reports.antt =====
-- src/query/services/query_service.cpp: what is reported of subscribers, operators and links.
pub mod Written
use cdr_processor.Constants.{
  field_busy, field_cnt_suffix, field_data_rx, field_data_tx, field_dur_suffix, field_failed,
  field_noans, field_sms_in, field_sms_out, field_sms_suffix, field_voice_in, field_voice_out,
  json_busy, json_calls, json_data_in, json_data_out, json_duration, json_failed, json_noans,
  json_sms, json_sms_in, json_sms_out, json_voice_in, json_voice_out, op_prefix, sort_dur, sort_sms,
  sub_prefix,
}
use cdr_processor.Base.{
  ℕ, ◌==◌, ◌&&◌, Option, none, some, List, [], ◌∷◌, ◌++◌, map, Bytes, codes, text_eq, length,
  get_or, if◌then◌else◌,
}
use cdr_processor.Json.{add_text, add_number, add_texts, add_objects, str, error}
use cdr_processor.Query.Params.{QueryParams, Sort, duration, sms, page}
use cdr_processor.Query.Links.{
  IQueryStore, Peer, to_num, link_key, link_peers, link_weights, order_peers,
}

-- `Result` of inc/query/result.hpp
pub record Result : Type 0 where
  pub status : ℕ
  pub body : Bytes

abbrev pub unavailable : Result
unavailable = record { status = 503; body = error (codes "store unavailable") }

abbrev pub not_found : Bytes → Result
not_found message = record { status = 404; body = error message }

abbrev pub answered : Bytes → Result
answered json = record { status = 200; body = str json }

-- `kSubFields`
abbrev pub sub_fields : List (Bytes × Bytes)
sub_fields =
    (field_voice_out, json_voice_out)
    ∷ (field_voice_in, json_voice_in)
    ∷ (field_data_tx, json_data_out)
    ∷ (field_data_rx, json_data_in)
    ∷ (field_sms_out, json_sms_out)
    ∷ (field_sms_in, json_sms_in)
    ∷ (field_noans, json_noans)
    ∷ (field_busy, json_busy)
    ∷ (field_failed, json_failed)
    ∷ []

-- `kOpFields`
abbrev pub op_fields : List (Bytes × Bytes)
op_fields =
    (field_voice_out, json_voice_out)
    ∷ (field_voice_in, json_voice_in)
    ∷ (field_sms_out, json_sms_out)
    ∷ (field_sms_in, json_sms_in)
    ∷ []

-- `field_num`
unfoldable pub field_num : List (Bytes × Bytes) → Bytes → ℕ
field_num [] field = 0
field_num ((name, value) ∷ fields) field =
    if text_eq name field then to_num value else field_num fields field

-- The loop over the fields to report.
unfoldable pub add_fields : List (Bytes × Bytes) → List (Bytes × Bytes) → Bytes → Bytes
add_fields fields [] json = json
add_fields fields ((field, name) ∷ rest) json =
    add_fields fields rest (add_number json name (field_num fields field))

-- What `msisdn` and `op` share: the fields of a key, under the name of its id.
unfoldable pub report :
    Option (List (Bytes × Bytes)) → Bytes → Bytes → Bytes → List (Bytes × Bytes) → Result
report none name id message names = unavailable
report (some []) name id message names = not_found message
report (some (f ∷ fs)) name id message names =
    answered (add_fields (f ∷ fs) names (add_text [] name id))

-- `QueryService::msisdn`
unfoldable pub subscriber_report : IQueryStore → Bytes → Result
unfolding report
subscriber_report store msisdn =
    report (store.hgetall (sub_prefix ++ msisdn)) (codes "msisdn") msisdn
      (codes "subscriber not found") sub_fields

-- `QueryService::op`
unfoldable pub operator_report : IQueryStore → Bytes → Result
unfolding report
operator_report store mccmnc =
    report (store.hgetall (op_prefix ++ mccmnc)) (codes "mccmnc") mccmnc
      (codes "operator not found") op_fields

-- What `peers` and `weighted` begin with.
abbrev pub listing : Bytes → ℕ → QueryParams → Bytes
listing msisdn count q =
    let json = add_number (add_text [] (codes "msisdn") msisdn) (codes "count") count in
    add_number (add_number json (codes "offset") q.offset) (codes "limit") q.limit

-- One peer of a weighted listing.
abbrev pub peer_entry : Peer → Bytes
peer_entry p =
    let json = add_number (add_text [] (codes "msisdn") p.msisdn) json_duration p.duration in
    add_number (add_number json json_calls p.calls) json_sms p.sms

abbrev pub sort_name : Sort → Bytes
sort_name sms = sort_sms
sort_name duration = sort_dur

-- `QueryService::weighted`
unfoldable pub weighted : IQueryStore → Bytes → QueryParams → Result
weighted store msisdn q = elim (link_weights store msisdn) [
  | none ↦ unavailable
  | some all ↦
      let peers = map peer_entry (page (order_peers all q.sort) q) in
      let json = add_text (listing msisdn (length all) q) (codes "sort") (sort_name q.sort) in
      if length all == 0
      then not_found (codes "subscriber not found")
      else answered (add_objects json (codes "peers") peers)
]

-- `QueryService::peers`
unfoldable pub peers_report : IQueryStore → Bytes → QueryParams → Result
unfolding weighted
peers_report store msisdn q =
    if q.weights then weighted store msisdn q else elim (link_peers store msisdn) [
      | none ↦ unavailable
      | some all ↦
          if length all == 0
          then not_found (codes "subscriber not found")
          else answered (add_texts (listing msisdn (length all) q) (codes "peers") (page all q))
    ]

-- The fields that one link is read by.
abbrev pub link_fields : Bytes → List Bytes
link_fields peer =
    (peer ++ field_dur_suffix) ∷ (peer ++ field_sms_suffix) ∷ (peer ++ field_cnt_suffix) ∷ []

-- What a link carried, from the values read, `values.resize` included.
abbrev pub add_carried : Bytes → List Bytes → Bytes
add_carried json values =
    let json' = add_number json json_duration (to_num (get_or values 0 [])) in
    add_number (add_number json' json_calls (to_num (get_or values 2 []))) json_sms
      (to_num (get_or values 1 []))

-- `QueryService::link`
unfoldable pub link_report : IQueryStore → Bytes → Bytes → Result
link_report store first second = elim (store.hmget (link_key first) (link_fields second)) [
  | none ↦ unavailable
  | some values ↦
      let json = add_text (add_text [] (codes "first-party") first) (codes "second-party") second in
      if (length (get_or values 0 []) == 0)
        && ((length (get_or values 1 []) == 0) && (length (get_or values 2 []) == 0))
      then not_found (codes "link not found")
      else answered (add_carried json values)
]
