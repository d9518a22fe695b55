-- ===== src/Query/Redis/Hashes.antt =====
-- A hash as src/query/redis_query.cpp reads it.
use cdr_processor.Base.{
  ℕ, ◌≡◌, refl, ap, Bool-cases, inl, inr, Option, some, List, [], ◌∷◌, map, Bytes, codes, text_eq,
  if◌then◌else◌,
}
use cdr_processor.Query.Redis.{
  Element, text, other_element, Reply, array, element_str, pairs, hgetall, hkeys, hmget, command,
}

-- A hash as `HGETALL` lists it.
unfoldable pub listed : List (Bytes × Bytes) → List Element
listed [] = []
listed ((field, value) ∷ rest) = text field ∷ text value ∷ listed rest

abbrev pub found_or_nil : List (Bytes × Bytes) → Bytes → Element
found_or_nil [] name = other_element
found_or_nil ((field, value) ∷ rest) name =
    if text_eq field name then text value else found_or_nil rest name

-- The value of a field, empty where the hash has none.
unfoldable pub value_of : List (Bytes × Bytes) → Bytes → Bytes
value_of [] name = []
value_of ((field, value) ∷ rest) name = if text_eq field name then value else value_of rest name

-- What the code relies on Redis for: the replies to `HGETALL`, `HKEYS` and `HMGET` at a hash, where
-- a field that is missing has a nil.
pub record HoldsHash (send : List Bytes → Option Reply) (key : Bytes) (hash : List (Bytes × Bytes))
    : Type 0 where
  pub all : send (codes "HGETALL" ∷ key ∷ []) ≡ some (array (listed hash))
  pub keys : send (codes "HKEYS" ∷ key ∷ []) ≡ some (array (map (λ e. text e.0) hash))
  pub named :
      (name : Bytes) (names : List Bytes)
      → send (codes "HMGET" ∷ key ∷ name ∷ names)
        ≡ some (array (map (found_or_nil hash) (name ∷ names)))

pairs-listed : (hash : List (Bytes × Bytes)) → pairs element_str (listed hash) ≡ hash
unfolding pairs listed element_str
pairs-listed [] = refl
pairs-listed (e ∷ rest) = ap (λ es. e ∷ es) (pairs-listed rest)

map-names :
    (hash : List (Bytes × Bytes)) → map element_str (map (λ e. text e.0) hash) ≡ map (λ e. e.0) hash
unfolding element_str
map-names [] = refl
map-names (e ∷ rest) = ap (λ es. e.0 ∷ es) (map-names rest)

element_str-found_or_nil :
    (hash : List (Bytes × Bytes)) (name : Bytes)
    → element_str (found_or_nil hash name) ≡ value_of hash name
unfolding element_str value_of
element_str-found_or_nil [] name = refl
element_str-found_or_nil ((field, value) ∷ rest) name = elim (Bool-cases (text_eq field name)) [
  | inl e ↦ rw e refl
  | inr e ↦ rw e (element_str-found_or_nil rest name)
]

map-values :
    (hash : List (Bytes × Bytes)) (names : List Bytes)
    → map element_str (map (found_or_nil hash) names) ≡ map (value_of hash) names
map-values hash [] = refl
map-values hash (name ∷ names) =
    let one = element_str-found_or_nil hash name in let more = map-values hash names in cc

-- On a server that holds a hash, `hgetall` gives its fields and values, `hkeys` its fields, and
-- `hmget` one value for each name, empty where the hash has no such field.
pub reads-hash :
    (send : List Bytes → Option Reply) (strtod : Bytes → ℕ) (key : Bytes)
    (hash : List (Bytes × Bytes)) (names : List Bytes)
    → HoldsHash send key hash
    → (hgetall send strtod key ≡ some hash)
      × (hkeys send strtod key ≡ some (map (λ e. e.0) hash))
      × (hmget send strtod key names ≡ some (map (value_of hash) names))
unfolding hgetall hkeys hmget command
reads-hash send strtod key hash names h =
    (rw h.all (ap some (pairs-listed hash)), rw h.keys (ap some (map-names hash)), go names)
  where
    go : (names : List Bytes) → hmget send strtod key names ≡ some (map (value_of hash) names)
    go [] = refl
    go (name ∷ names) = rw (h.named name names) (ap some (map-values hash (name ∷ names)))
