-- ===== src/Query/Path/Replies.antt =====
-- The replies of src/query/services/path_service.cpp.
use cdr_processor.Constants.{json_max_hops, json_max_visited}
use cdr_processor.Base.{
  ℕ, Bool, Option, none, some, List, [], ◌∷◌, Bytes, codes, if◌then◌else◌, ◌>>=◌,
}
use cdr_processor.Json.{add_text, add_number, add_texts, add_objects, str}
use cdr_processor.Query.Links.{IQueryStore, link_key}
use cdr_processor.Query.Reports.{Result, unavailable, answered, link_fields, add_carried}
use cdr_processor.Query.Path.{found, not_found, store_unavailable, fault, path}

-- `PathService::hops`: what each hop of a route carried.
unfoldable pub hops : IQueryStore → List Bytes → Option (List Bytes)
hops store [] = some []
hops store (a ∷ []) = some []
hops store (a ∷ b ∷ route) = do
  values ← store.hmget (link_key a) (link_fields b)
  rest ← hops store (b ∷ route)
  some (add_carried (add_text (add_text [] (codes "from") a) (codes "to") b) values ∷ rest)

-- `PathService::found`
unfoldable pub found_reply : IQueryStore → List Bytes → Bool → Result
unfolding hops
found_reply store route weights =
    let json = add_texts [] (codes "path") route in
    if weights
    then elim (hops store route) [
      | none ↦ unavailable
      | some carried ↦ answered (add_objects json (codes "hops") carried)
    ]
    else answered json

-- `PathService::notFound`
unfoldable pub not_found_body : ℕ → ℕ → Bytes
not_found_body max_hops max_visited =
    let json = add_text [] (codes "error") (codes "path not found") in
    str (add_number (add_number json json_max_hops max_hops) json_max_visited max_visited)

-- `PathService::path`; nothing where the code would throw or not end.
unfoldable pub path_reply : IQueryStore → ℕ → ℕ → Bytes → Bytes → Bool → Option Result
unfolding found_reply not_found_body
path_reply store max_visited max_hops from to weights =
    elim (path store max_visited max_hops from to) [
      | found route ↦ some (found_reply store route weights)
      | not_found ↦ some (record { status = 404; body = not_found_body max_hops max_visited })
      | store_unavailable ↦ some unavailable
      | fault ↦ none
    ]
