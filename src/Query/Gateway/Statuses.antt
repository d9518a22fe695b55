-- ===== src/Query/Gateway/Statuses.antt =====
-- What src/query/http_gateway.cpp can answer.
use cdr_processor.Base.{
  get_or, ℕ, ◌≡◌, refl, ◌==◌, Bool, true, false, ◌&&◌, ◌||◌, Bool-cases, Option-cases, inl, inr,
  Option, none, some, List, [], ◌∷◌, ◌++◌, Bytes, codes, All, length,
}
use cdr_processor.Json.{error, str}
use cdr_processor.Query.Params.{QueryParams, parse_params, params, refused, Parsed, page}
use cdr_processor.Query.Links.{IQueryStore, link_weights, link_peers, link_key}
use cdr_processor.Query.Reports.{
  Result, unavailable, not_found, answered, subscriber_report, operator_report, peers_report,
  link_report, report, weighted, link_fields,
}
use cdr_processor.Query.Boards.{top_report, health_report, totals_report, key_of, boards}
use cdr_processor.Query.Path as PathService
use cdr_processor.Query.Path.{path, found, store_unavailable, fault}
use cdr_processor.Query.Path.Search.{Answers, path-Answers}
use cdr_processor.Query.Path.Replies.{path_reply, found_reply, hops, not_found_body}
use cdr_processor.Query.Gateway.{
  Request, Segment, Services, Handler, groups, with_params, get_subscriber, get_operator, get_peers,
  get_link, get_path, get_health, get_totals, get_top, query_routes, stats_routes, rank_routes,
  no_route, dispatch, serve, segments,
}

abbrev has_text : Bytes → Bool
has_text [] = false
has_text (_ ∷ _) = true

-- An answer that the services give: found, refused, missing or without the store, with a body.
abbrev pub is_service : Result → Bool
is_service r =
    ((r.status == 200) || (r.status == 400) || (r.status == 404) || (r.status == 503))
    && has_text r.body

-- An answer that a handler gives, where it does not throw.
abbrev pub Given : Option Result → Type 0
Given answer = (r : Result) × (answer ≡ some r) × (is_service r ≡ true)

unavailable_given : is_service unavailable ≡ true
unfolding error str
unavailable_given = refl

not_found_given : (message : Bytes) → is_service (not_found message) ≡ true
unfolding error str
not_found_given message = refl

answered_given : (json : Bytes) → is_service (answered json) ≡ true
unfolding str
answered_given json = refl

report_given :
    (fields : Option (List (Bytes × Bytes))) (name id message : Bytes)
    (names : List (Bytes × Bytes))
    → is_service (report fields name id message names) ≡ true
unfolding report
report_given none name id message names = unavailable_given
report_given (some []) name id message names = not_found_given message
report_given (some (f ∷ fs)) name id message names = answered_given _

weighted_given :
    (store : IQueryStore) (msisdn : Bytes) (q : QueryParams)
    → is_service (weighted store msisdn q) ≡ true
unfolding weighted
weighted_given store msisdn q = elim (Option-cases (link_weights store msisdn)) [
  | inl e ↦ rw (weighted, e) unavailable_given
  | inr (all, e) ↦ elim (Bool-cases (length all == 0)) [
    | inl f ↦ rw (weighted, e, f) (not_found_given (codes "subscriber not found"))
    | inr f ↦ rw (weighted, e, f) (answered_given _)
  ]
]

peers_given :
    (store : IQueryStore) (msisdn : Bytes) (q : QueryParams)
    → is_service (peers_report store msisdn q) ≡ true
unfolding peers_report page
peers_given store msisdn q = elim (Bool-cases q.weights) [
  | inl w ↦ rw (peers_report, w) (weighted_given store msisdn q)
  | inr w ↦ elim (Option-cases (link_peers store msisdn)) [
    | inl e ↦ rw (peers_report, w, e) unavailable_given
    | inr (all, e) ↦ elim (Bool-cases (length all == 0)) [
      | inl f ↦ rw (peers_report, w, e, f) (not_found_given (codes "subscriber not found"))
      | inr f ↦ rw (peers_report, w, e, f) (answered_given _)
    ]
  ]
]

link_given :
    (store : IQueryStore) (first second : Bytes)
    → is_service (link_report store first second) ≡ true
unfolding link_report
link_given store first second =
    elim (Option-cases (store.hmget (link_key first) (link_fields second))) [
      | inl e ↦ rw (link_report, e) unavailable_given
      | inr (values, e) ↦
          elim (Bool-cases (
            (length (get_or values 0 []) == 0)
            && ((length (get_or values 1 []) == 0) && (length (get_or values 2 []) == 0)))) [
              | inl f ↦ rw (link_report, e, f) (not_found_given (codes "link not found"))
              | inr f ↦ rw (link_report, e, f) (answered_given _)
            ]
    ]

totals_given : (store : IQueryStore) → is_service (totals_report store) ≡ true
unfolding totals_report
totals_given store = elim (Option-cases (store.hgetall (codes "total:proc"))) [
  | inl e ↦ rw (totals_report, e) unavailable_given
  | inr (fields, e) ↦ rw (totals_report, e) (answered_given _)
]

top_given :
    (store : IQueryStore) (board : Bytes) (q : QueryParams)
    → is_service (top_report store board q) ≡ true
unfolding top_report error str
top_given store board q = elim (Bool-cases (length (key_of boards board) == 0)) [
  | inl e ↦ rw (top_report, e) refl
  | inr e ↦ elim (Option-cases (store.top (key_of boards board) q.offset q.limit)) [
    | inl f ↦ rw (top_report, e, f) unavailable_given
    | inr ((ranked, count), f) ↦ rw (top_report, e, f) refl
  ]
]

found_given :
    (store : IQueryStore) (route : List Bytes) (weights : Bool)
    → is_service (found_reply store route weights) ≡ true
unfolding found_reply
found_given store route false = answered_given _
found_given store route true = elim (Option-cases (hops store route)) [
  | inl e ↦ rw (found_reply, e) unavailable_given
  | inr (carried, e) ↦ rw (found_reply, e) (answered_given _)
]

path-Given :
    (store : IQueryStore) (max_visited max_hops : ℕ) (from to : Bytes) (weights : Bool)
    → Given (path_reply store max_visited max_hops from to weights)
unfolding path_reply not_found_body str
path-Given store max_visited max_hops from to weights =
    go (path store max_visited max_hops from to) refl
      (path-Answers store max_visited max_hops from to)
  where
    go :
        (answer : PathService.Answer)
        → path store max_visited max_hops from to ≡ answer
        → Answers store from to answer
        → Given (path_reply store max_visited max_hops from to weights)
    go (found route) e a =
        (found_reply store route weights, rw (path_reply, e) refl, found_given store route weights)
    go PathService.not_found e a = (
      record { status = 404; body = not_found_body max_hops max_visited },
      rw (path_reply, e) refl,
      refl,
    )
    go store_unavailable e a = (unavailable, rw (path_reply, e) refl, unavailable_given)
    go fault e a = absurd a

with_params-Given :
    (req : Request) (fallback cap : ℕ) (handler : QueryParams → Option Result)
    → ((q : QueryParams) → Given (handler q))
    → Given (with_params req fallback cap handler)
unfolding with_params error str
with_params-Given req fallback cap handler h = go (parse_params req.param fallback cap) refl
  where
    go :
        (p : Parsed)
        → parse_params req.param fallback cap ≡ p
        → Given (with_params req fallback cap handler)
    go (refused name) e = (
      record { status = 400; body = error (codes "bad " ++ name) },
      rw (with_params, e) refl,
      refl,
    )
    go (params q) e = let (r, same, given) = h q in (r, rw (with_params, e) same, given)

-- A handler whose answers are the services'.
abbrev Serves : List Segment × Handler → Type 0
Serves route = (g : Services) (req : Request) (ms : List Bytes) → Given (route.1 g req ms)

routes_serve : All Serves (query_routes ++ stats_routes ++ rank_routes)
unfolding get_subscriber get_operator get_peers get_link get_path get_health get_totals get_top
    subscriber_report operator_report health_report str
routes_serve = (
  λ g req ms. (_, refl, report_given (g.store.hgetall _) _ _ _ _),
  (
    λ g req ms. (_, refl, report_given (g.store.hgetall _) _ _ _ _),
    (
      λ g req ms. with_params-Given req _ _ _ (λ q. (_, refl, peers_given g.store _ q)),
      (
        λ g req ms. (_, refl, link_given g.store _ _),
        (
          λ g req ms.
              with_params-Given req _ _ _
                (λ q. path-Given g.store g.max_visited g.max_hops _ _ q.weights),
          (
            λ g req ms. (_, refl, refl),
            (
              λ g req ms. (_, refl, totals_given g.store),
              (λ g req ms. with_params-Given req _ _ _ (λ q. (_, refl, top_given g.store _ q)), tt),
            ),
          ),
        ),
      ),
    ),
  ),
)

dispatch-Given :
    (routes : List (List Segment × Handler)) (g : Services) (req : Request) (ss : List Bytes)
    → All Serves routes
    → Given (dispatch routes g req ss)
unfolding dispatch error str
dispatch-Given [] g req ss h = (no_route, refl, refl)
dispatch-Given ((pattern, handler) ∷ routes) g req ss (one, h) =
    elim (Option-cases (groups pattern ss)) [
      | inl e ↦
          let (r, same, given) = dispatch-Given routes g req ss h in
          (r, rw (dispatch, e) same, given)
      | inr (ms, e) ↦ let (r, same, given) = one g req ms in (r, rw (dispatch, e) same, given)
    ]

-- Whatever the store gives and whatever the request, the gateway answers 200, 400, 404 or 503, with a
-- body: no handler throws, so it never answers 500.
pub serve_given : (g : Services) (req : Request) → is_service (serve g req) ≡ true
unfolding serve error str
serve_given g req = elim (Option-cases (segments req.path)) [
  | inl e ↦ rw (serve, e) refl
  | inr (ss, e) ↦
      let (r, same, given) =
        dispatch-Given (query_routes ++ stats_routes ++ rank_routes) g req ss routes_serve in
      rw (serve, e, same) given
]
