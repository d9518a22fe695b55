-- ===== src/Query/Gateway/Subscriber.antt =====
-- From the counters of a subscriber in Redis to the answer of src/query/http_gateway.cpp.
use cdr_processor.Base.{
  ℕ, ◌≡◌, ◌<◌, ◌≢◌, refl, ◌∙◌, true, ◌==◌, Option, some, List, [], ◌∷◌, ◌++◌, Bytes, codes, All,
  length, arith, u64_mod, if◌then◌else◌,
}
use cdr_processor.Charconv.{to_chars, to_chars-IsDigit, to_chars-ne-nil, IsDigit, is_digit}
use cdr_processor.Aggregate.Delta.{SubDelta}
use cdr_processor.Aggregate.Writers.{sub_additions}
use cdr_processor.Query.Reports.{not_found, answered, subscriber_report}
use cdr_processor.Query.Reports.Written.{written, sub_body, subscriber_report-written}
use cdr_processor.Query.Redis.{Reply, redis_query}
use cdr_processor.Query.Redis.Hashes.{HoldsHash, reads-hash}
use cdr_processor.Query.Gateway.{
  Services, split_path, segments, groups, some_of, all_of, dispatch, serve, get_subscriber,
}

split_path-digits : (s : Bytes) → All IsDigit s → split_path s ≡ s ∷ []
unfolding split_path
split_path-digits [] h = refl
split_path-digits (c ∷ s) (d, h) = ground (arith, split_path-digits s h)

all_of-digits : (s : Bytes) → All IsDigit s → all_of is_digit s ≡ true
all_of-digits [] h = refl
all_of-digits (c ∷ s) (d, h) = rw d (all_of-digits s h)

some_of-digits : (s : Bytes) → s ≢ [] → All IsDigit s → some_of is_digit s ≡ some s
some_of-digits [] n h = absurd (n refl)
some_of-digits (c ∷ s) n h = rw (all_of-digits (c ∷ s) h) refl

-- The path of a subscriber leads to its route.
serve-subscriber :
    (g : Services) (param : Bytes → Bytes) (s : Bytes)
    → s ≢ []
    → All IsDigit s
    → serve g (record { path = codes "/query/msisdn/" ++ s; param = param })
      ≡ subscriber_report g.store s
unfolding serve segments split_path dispatch groups get_subscriber
serve-subscriber g param s n h = rw (split_path-digits s h, some_of-digits s n h) refl

-- A server that holds the counters that the writer wrote of a subscriber: the gateway answers the
-- request for it with exactly these, each under its own name, or 404 where nothing was written.
pub serve-written :
    (send : List Bytes → Option Reply) (strtod : Bytes → ℕ) (max_hops max_visited : ℕ)
    (param : Bytes → Bytes) (n : ℕ) (s : SubDelta)
    → HoldsHash send (codes "sub:" ++ to_chars n) (written (sub_additions (n, s)))
    → All (λ a. a.2 < u64_mod) (sub_additions (n, s))
    → serve
        (record { store = redis_query send strtod; max_hops = max_hops; max_visited = max_visited })
        (record { path = codes "/query/msisdn/" ++ to_chars n; param = param })
      ≡ (if length (written (sub_additions (n, s))) == 0
          then not_found (codes "subscriber not found")
          else answered (sub_body (to_chars n) s))
serve-written send strtod max_hops max_visited param n s holds bounded =
    let store = redis_query send strtod in
    let g : Services = record { store = store; max_hops = max_hops; max_visited = max_visited } in
    let (read, _, _) =
      reads-hash send strtod (codes "sub:" ++ to_chars n) (written (sub_additions (n, s))) []
        holds in
    serve-subscriber g param (to_chars n) (to_chars-ne-nil n) (to_chars-IsDigit n)
    ∙ subscriber_report-written store n s read bounded
