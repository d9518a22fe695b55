-- ===== src/Tests/Gateway.antt =====
-- src/query/http_gateway.cpp and src/query/redis_query.cpp at a small server, and a text of
-- src/util/json.cpp.
use cdr_processor.Base.{
  u64_mod, ◌==◌, ◌<◌, ℕ, ◌≡◌, ◌+◌, ◌-◌, refl, Option, some, none, List, [], ◌∷◌, map, Bytes, codes,
  true, false, length, take, drop, arith, All, ◌++◌, text_eq, if◌then◌else◌, get_or,
}
use cdr_processor.Base.Int.{pos}
use cdr_processor.Charconv.{to_chars, from_chars, from_chars-to_chars}
use cdr_processor.Json.{quoted}
use cdr_processor.Json.Strings.{read, before, ended, read-quoted}
use cdr_processor.Query.Params.{QueryParams, Sort, page}
use cdr_processor.Query.Redis.{Reply, array, integer, rejected, redis_query, top, text}
use cdr_processor.Query.Redis.Pages.{HoldsBoard, top-page}
use cdr_processor.Query.Redis.Pages as Pages
use cdr_processor.Query.Redis.Hashes as Hashes
use cdr_processor.Query.Redis.Hashes.{HoldsHash, reads-hash, found_or_nil, value_of}
use cdr_processor.Query.Gateway.{get_top, Services, Request, serve}
use cdr_processor.Aggregate.Delta.{SubDelta}
use cdr_processor.Aggregate.Writers.{sub_additions}
use cdr_processor.Query.Reports.{not_found, answered}
use cdr_processor.Query.Reports.Written.{written, sub_body}
use cdr_processor.Query.Gateway.Subscriber.{serve-written}
use cdr_processor.Query.Gateway.Statuses.{is_service, serve_given}
use cdr_processor.Query.Boards.{top_report}

-- One hash and one board.
abbrev hash : List (Bytes × Bytes)
hash = (codes "voice_out", codes "60") ∷ (codes "sms_out", codes "2") ∷ []

abbrev ranking : List (Bytes × ℕ)
ranking = (codes "5", 90) ∷ (codes "7", 60) ∷ (codes "6", 1) ∷ []

-- What a server replies that holds a hash and the board; a command's first argument tells them apart.
abbrev server_of : List (Bytes × Bytes) → List Bytes → Option Reply
server_of held argv =
    let name = get_or argv 0 [] in
    let names = drop 2 argv in
    if text_eq name (codes "HGETALL")
    then some (array (Hashes.listed held))
    else if text_eq name (codes "HKEYS")
    then some (array (map (λ e. text e.0) held))
    else if text_eq name (codes "HMGET")
    then some (array (map (found_or_nil held) names))
    else if text_eq name (codes "ZCARD")
    then some (integer (pos 3))
    else if text_eq name (codes "ZREVRANGE")
    then (elim (from_chars (get_or argv 2 [])) [
      | none ↦ some rejected
      | some (start, _) ↦ elim (from_chars (get_or argv 3 [])) [
        | none ↦ some (array (Pages.listed to_chars (drop start ranking)))
        | some (stop, _) ↦
            some (array (Pages.listed to_chars (take (stop + 1 - start) (drop start ranking))))
      ]
    ])
    else some rejected

abbrev server : List Bytes → Option Reply
server = server_of hash

abbrev read_score : Bytes → ℕ
read_score s = elim (from_chars s) [ none ↦ 0 | some (n, _) ↦ n ]

holds_hash : HoldsHash server (codes "sub:5") hash
holds_hash = record { all = refl; keys = refl; named = λ name names. refl }

no_number : from_chars (codes "-1") ≡ none
unfolding from_chars
no_number = refl

holds_board : HoldsBoard server read_score to_chars (codes "top:voice") ranking
holds_board = record {
  counted = refl;
  to_last = λ start h. rw (from_chars-to_chars start (omega (arith, h)), no_number) refl;
  ranged = λ start stop le h.
      rw
        (
          from_chars-to_chars start (omega (arith, le, h)),
          from_chars-to_chars stop (omega (arith, h)),
        )
        refl;
  scores = (
    rw (read_score, from_chars-to_chars 90 (omega arith)) refl,
    (
      rw (read_score, from_chars-to_chars 60 (omega arith)) refl,
      (rw (read_score, from_chars-to_chars 1 (omega arith)) refl, tt),
    ),
  );
}

abbrev second : QueryParams
second = record { weights = false; sort = Sort.duration; offset = 1; limit = 1 }

top-page_example :
    top server read_score (codes "top:voice") 1 1 ≡ some (page ranking second, length ranking)
top-page_example =
    top-page server read_score to_chars (codes "top:voice") ranking second holds_board (omega arith)
      (omega arith)

abbrev services : Services
services = record { store = redis_query server read_score; max_hops = 6; max_visited = 100 }

abbrev request : Request
request = record { path = codes "/query/top/voice"; param = λ name. [] }

abbrev unknown : Request
unknown = record { path = codes "/query/msisdn/12x"; param = λ name. [] }

serve_given_example : is_service (serve services request) ≡ true
serve_given_example = serve_given services request

no_such_route : (serve services unknown).status ≡ 404
unfolding serve
no_such_route = refl

found_board : (serve services request).status ≡ 200
unfolding serve get_top top_report top to_chars
found_board = refl

abbrev usage : SubDelta
usage = record {
  voice_out = 60;
  voice_in = 0;
  data_rx = 7;
  data_tx = 9;
  sms_out = 1;
  sms_in = 0;
  noans = 0;
  busy = 2;
  failed = 0;
}

abbrev counters : List (Bytes × Bytes)
counters = written (sub_additions (5, usage))

holds_counters : HoldsHash (server_of counters) (codes "sub:" ++ to_chars 5) counters
holds_counters = record { all = refl; keys = refl; named = λ name names. refl }

usage_bounded : All (λ a. a.2 < u64_mod) (sub_additions (5, usage))
unfolding sub_additions
usage_bounded = ground arith

serve-written_example :
    serve
      (record {
        store = redis_query (server_of counters) read_score;
        max_hops = 6;
        max_visited = 100;
      })
      (record { path = codes "/query/msisdn/" ++ to_chars 5; param = λ name. [] })
    ≡ (if length counters == 0
        then not_found (codes "subscriber not found")
        else answered (sub_body (to_chars 5) usage))
serve-written_example =
    serve-written (server_of counters) read_score 6 100 (λ name. []) 5 usage holds_counters
      usage_bounded

-- A quote, a newline and a letter.
read-quoted_example :
    read before (quoted [] (34 ∷ 10 ∷ 65 ∷ []) ++ 44 ∷ []) ≡ ended (34 ∷ 10 ∷ 65 ∷ []) (44 ∷ [])
read-quoted_example = read-quoted (34 ∷ 10 ∷ 65 ∷ []) (44 ∷ [])
