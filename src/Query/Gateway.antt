-- ===== src/Query/Gateway.antt =====
-- src/query/http_gateway.cpp: what the gateway answers to a GET request, by its path and parameters.
-- cpp-httplib, which splits the request and matches the patterns against the whole path, is not
-- modelled: a pattern is a list of the path's segments, as no group of it matches a slash, and the
-- first one registered that matches is taken. A handler that throws gives `none`.
pub mod Statuses
pub mod Subscriber
pub mod Listener
use cdr_processor.Base.{
  get_or, ℕ, ◌==◌, leb, Bool, true, false, ◌&&◌, ◌||◌, Option, none, some, List, [], ◌∷◌, ◌++◌,
  Bytes, codes, text_eq, cut_at, if◌then◌else◌, ◌>>=◌, length,
}
use cdr_processor.Charconv.{is_digit}
use cdr_processor.Json.{error}
use cdr_processor.Query.Params.{QueryParams, parse_params, params, refused}
use cdr_processor.Query.Links.{IQueryStore}
use cdr_processor.Query.Reports.{
  Result, subscriber_report, operator_report, peers_report, link_report,
}
use cdr_processor.Query.Boards.{top_report, health_report, totals_report}
use cdr_processor.Query.Path.Replies.{path_reply}

pub record Request : Type 0 where
  pub path : Bytes
  pub param : Bytes → Bytes

-- A literal segment, `(\d+)` or `([a-z-]+)`.
pub data Segment : Type 0 where
  literal : Bytes → Segment
  digits : Segment
  word : Segment

abbrev pub all_of : (ℕ → Bool) → Bytes → Bool
all_of test [] = true
all_of test (c ∷ s) = test c && all_of test s

abbrev pub is_word : ℕ → Bool
is_word c = (leb b'a' c && leb c b'z') || (c == b'-')

abbrev pub some_of : (ℕ → Bool) → Bytes → Option Bytes
some_of test [] = none
some_of test (c ∷ s) = if all_of test (c ∷ s) then some (c ∷ s) else none

-- What stands between slashes.
unfoldable pub split_path : Bytes → List Bytes
split_path [] = [] ∷ []
split_path (c ∷ s) =
    let more = split_path s in
    if c == b'/' then [] ∷ more else elim more [ [] ↦ (c ∷ []) ∷ [] | t ∷ ts ↦ (c ∷ t) ∷ ts ]

-- What follows each slash of a path that begins with one.
unfoldable pub segments : Bytes → Option (List Bytes)
unfolding split_path
segments [] = none
segments (c ∷ s) = if c == b'/' then some (split_path s) else none

-- The groups of a pattern, where it matches.
unfoldable pub groups : List Segment → List Bytes → Option (List Bytes)
groups [] [] = some []
groups [] (_ ∷ _) = none
groups (_ ∷ _) [] = none
groups (literal name ∷ ps) (s ∷ ss) = if text_eq name s then groups ps ss else none
groups (digits ∷ ps) (s ∷ ss) = do
  group ← some_of is_digit s
  rest ← groups ps ss
  some (group ∷ rest)
groups (word ∷ ps) (s ∷ ss) = do group ← some_of is_word s; rest ← groups ps ss; some (group ∷ rest)

-- `kPeerLimit`, `kPeerLimitMax`, `kTopLimit` and `kTopLimitMax`
abbrev pub peer_limit : ℕ
peer_limit = 100

abbrev pub peer_limit_max : ℕ
peer_limit_max = 1000

abbrev pub top_limit : ℕ
top_limit = 20

abbrev pub top_limit_max : ℕ
top_limit_max = 500

-- A handler that reads the parameters first.
unfoldable pub with_params : Request → ℕ → ℕ → (QueryParams → Option Result) → Option Result
unfolding parse_params
with_params req fallback cap handler = elim (parse_params req.param fallback cap) [
  | refused name ↦ some (record { status = 400; body = error (codes "bad " ++ name) })
  | params q ↦ handler q
]

-- The two limits of the configuration, and the store that the services read.
pub record Services : Type 0 where
  pub store : IQueryStore
  pub max_hops : ℕ
  pub max_visited : ℕ

abbrev pub Handler : Type 0
Handler = Services → Request → List Bytes → Option Result

unfoldable pub get_subscriber : Handler
get_subscriber g req ms = some (subscriber_report g.store (get_or ms 0 []))

unfoldable pub get_operator : Handler
get_operator g req ms = some (operator_report g.store (get_or ms 0 []))

unfoldable pub get_peers : Handler
unfolding with_params
get_peers g req ms =
    with_params req peer_limit peer_limit_max λ q. some (peers_report g.store (get_or ms 0 []) q)

unfoldable pub get_link : Handler
get_link g req ms = some (link_report g.store (get_or ms 0 []) (get_or ms 1 []))

unfoldable pub get_path : Handler
unfolding with_params
get_path g req ms =
    with_params req peer_limit peer_limit_max
      λ q. path_reply g.store g.max_visited g.max_hops (get_or ms 0 []) (get_or ms 1 []) q.weights

unfoldable pub get_health : Handler
get_health g req ms = some (health_report g.store g.max_hops g.max_visited)

unfoldable pub get_totals : Handler
get_totals g req ms = some (totals_report g.store)

unfoldable pub get_top : Handler
unfolding with_params
get_top g req ms =
    with_params req top_limit top_limit_max λ q. some (top_report g.store (get_or ms 0 []) q)

abbrev pub query : Bytes → List Segment → List Segment
query name rest = literal (codes "query") ∷ literal name ∷ rest

-- `registerQueryRoutes`
abbrev pub query_routes : List (List Segment × Handler)
query_routes =
    (query (codes "msisdn") (digits ∷ []), get_subscriber)
    ∷ (query (codes "operator") (digits ∷ []), get_operator)
    ∷ (query (codes "link") (digits ∷ []), get_peers)
    ∷ (query (codes "link") (digits ∷ digits ∷ []), get_link)
    ∷ (query (codes "path") (digits ∷ digits ∷ []), get_path)
    ∷ []

-- `registerStatsRoutes`
abbrev pub stats_routes : List (List Segment × Handler)
stats_routes =
    (query (codes "health") [], get_health) ∷ (query (codes "totals") [], get_totals) ∷ []

-- `registerRankRoutes`
abbrev pub rank_routes : List (List Segment × Handler)
rank_routes = (query (codes "top") (word ∷ []), get_top) ∷ []

abbrev pub no_route : Result
no_route = record { status = 404; body = error (codes "no such route") }

-- The first route that matches; the error handler answers where there is none.
unfoldable pub dispatch :
    List (List Segment × Handler) → Services → Request → List Bytes → Option Result
unfolding groups
dispatch [] g req ss = some no_route
dispatch ((pattern, handler) ∷ routes) g req ss = elim (groups pattern ss) [
  | none ↦ dispatch routes g req ss
  | some ms ↦ handler g req ms
]

-- The whole answer, with the exception handler's where a handler threw.
unfoldable pub serve : Services → Request → Result
unfolding dispatch segments
serve g req =
    let routes = query_routes ++ stats_routes ++ rank_routes in
    elim (segments req.path) [
      | none ↦ no_route
      | some ss ↦ elim (dispatch routes g req ss) [
        | none ↦ record { status = 500; body = error (codes "internal error") }
        | some result ↦ result
      ]
    ]
