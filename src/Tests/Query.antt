-- ===== src/Tests/Query.antt =====
-- src/query at concrete parameters, listings and links.
use cdr_processor.Query.Reports.Written.{written, sub_body}
use cdr_processor.Aggregate.Delta.{SubDelta}
use cdr_processor.Aggregate.Writers.{sub_additions}
use cdr_processor.Json.{add_number, add_text}
use mathlib.Core.List.{Perm}
use cdr_processor.Query.Links.{Peer, order_peers}
use cdr_processor.Query.Links.Order.{Descends, order_peers-Sorted}
use cdr_processor.Base.{
  In, map, ◌↔◌, ◌<◌, All, u64_mod, ℕ, ◌≡◌, refl, Option, some, none, List, [], ◌∷◌, arith, Bytes,
  codes, false, text_eq, if◌then◌else◌,
}
use cdr_processor.Query.Params.{QueryParams, Sort, parse_params, params, refused}
use cdr_processor.Query.Params.Pages.{pages-tile, pages}
use cdr_processor.Query.Links.{IQueryStore, link_peers, link_key, peer_name}
use cdr_processor.Query.Links.Listed.{Rises, link_peers-Rises}
use cdr_processor.Query.Path.Search.{Answers, path-Answers}
use cdr_processor.Query.Path.{path, found, not_found}

-- A request for 500 entries by messages.
abbrev request : Bytes → Bytes
request name =
    if text_eq name (codes "limit")
    then codes "500"
    else if text_eq name (codes "sort")
    then codes "sms"
    else []

abbrev asked : QueryParams
asked = record { weights = false; sort = Sort.sms; offset = 0; limit = 100 }

capped : parse_params request 20 100 ≡ params asked
unfolding parse_params
capped = refl

bad_weights : parse_params (λ name. codes "-1") 20 100 ≡ refused (codes "weights")
unfolding parse_params
bad_weights = refl

abbrev listing : List ℕ
listing = 5 ∷ 6 ∷ 7 ∷ 8 ∷ 9 ∷ []

abbrev two_at_four : QueryParams
two_at_four = record { weights = false; sort = Sort.duration; offset = 4; limit = 2 }

abbrev two_at_one : QueryParams
two_at_one = record { weights = false; sort = Sort.duration; offset = 1; limit = 2 }

pages-tile_example : pages 2 listing two_at_one ≡ 6 ∷ 7 ∷ 8 ∷ 9 ∷ []
pages-tile_example = pages-tile 2 listing two_at_one (omega arith) (omega arith)

-- 1 and 2 are linked, and 2 and 3.
abbrev linked_keys : Bytes → Option (List Bytes)
linked_keys name =
    if text_eq name (codes "link:1")
    then some (codes "2:dur" ∷ codes "2:cnt" ∷ [])
    else if text_eq name (codes "link:2")
    then some (codes "3:sms" ∷ codes "1:dur" ∷ [])
    else if text_eq name (codes "link:3")
    then some (codes "2:sms" ∷ [])
    else some []

abbrev links : IQueryStore
links = record {
  hgetall = λ name. none;
  hkeys = linked_keys;
  hmget = λ name fields. none;
  dbsize = none;
  top = λ board offset limit. none;
}

peers : link_peers links (codes "2") ≡ some (codes "1" ∷ codes "3" ∷ [])
unfolding link_peers
peers = refl

route : path links 100 6 (codes "1") (codes "3") ≡ found (codes "1" ∷ codes "2" ∷ codes "3" ∷ [])
unfolding path link_peers
route = refl

no_route : path links 100 6 (codes "1") (codes "4") ≡ not_found
unfolding path link_peers
no_route = refl

too_far : path links 100 1 (codes "1") (codes "3") ≡ not_found
unfolding path link_peers
too_far = refl

path-Answers_example :
    Answers links (codes "1") (codes "3") (path links 100 6 (codes "1") (codes "3"))
path-Answers_example = path-Answers links 100 6 (codes "1") (codes "3")

abbrev usage : SubDelta
usage = record {
  voice_out = 60;
  voice_in = 0;
  data_rx = 7;
  data_tx = 9;
  sms_out = 1;
  sms_in = 0;
  noans = 0;
  busy = 2;
  failed = 0;
}

abbrev counters : IQueryStore
counters = record {
  hgetall = λ name. some (written (sub_additions (5, usage)));
  hkeys = λ name. none;
  hmget = λ name fields. none;
  dbsize = none;
  top = λ board offset limit. none;
}

usage-bounded : All (λ a. a.2 < u64_mod) (sub_additions (5, usage))
unfolding sub_additions
usage-bounded = ground arith

-- The report as it goes out.
usage_reported :
    sub_body (codes "5") usage
    ≡ codes
        "\"msisdn\":\"5\",\"voice-out\":60,\"voice-in\":0,\"data-out\":9,\"data-in\":7,\"sms-out\":1,\"sms-in\":0,\"no-answer\":0,\"busy\":2,\"failed\":0"
unfolding add_text add_number
usage_reported = refl

-- Equal messages: the longer call goes first.
abbrev two_peers : List Peer
two_peers =
    record { msisdn = codes "5"; duration = 10; sms = 3; calls = 1 }
    ∷ record { msisdn = codes "4"; duration = 20; sms = 3; calls = 1 }
    ∷ []

order_peers-Sorted_example :
    Perm (order_peers two_peers Sort.sms) two_peers
    × Descends Sort.sms (order_peers two_peers Sort.sms)
order_peers-Sorted_example = order_peers-Sorted Sort.sms two_peers

link_peers-Rises_example :
    (fields : List Bytes) × (links.hkeys (link_key (codes "2")) ≡ some fields)
    × Rises (codes "1" ∷ codes "3" ∷ [])
    × ((peer : Bytes) → In peer (codes "1" ∷ codes "3" ∷ []) ↔ In peer (map peer_name fields))
link_peers-Rises_example = link_peers-Rises links (codes "2") peers
