-- ===== src/Query/Redis.antt =====
-- src/query/redis_query.cpp: `IQueryStore` read from Redis. What a command gets from the server, by its
-- arguments, and what `strtod` and the cast to `uint64_t` make of a score are parameters. The reads
-- of one request see one state of the server. The log lines are left out.
pub mod Pages
pub mod Hashes
use cdr_processor.Base.{
  ℕ, ◌+◌, ◌-◌, ◌%◌, ◌==◌, Bool, true, false, Option, none, some, List, [], ◌∷◌, ◌++◌, map, Bytes,
  codes, if◌then◌else◌, ◌>>=◌, u64_mod,
}
use cdr_processor.Base.Int.{ℤ, pos, negsuc}
use cdr_processor.Charconv.{to_chars}
use cdr_processor.Query.Links.{IQueryStore}

-- An element of an array: a string, or of another type.
pub data Element : Type 0 where
  text : Bytes → Element
  other_element : Element

pub data Reply : Type 0 where
  array : List Element → Reply
  integer : ℤ → Reply
  rejected : Reply
  other_reply : Reply

-- `element_str`
unfoldable pub element_str : Element → Bytes
element_str (text s) = s
element_str other_element = []

-- `static_cast<uint64_t>` of a reply's integer.
unfoldable pub to_unsigned : ℤ → ℕ
to_unsigned (pos n) = n % u64_mod
to_unsigned (negsuc n) = u64_mod - 1 - n % u64_mod

-- The loop over an array's elements two at a time; an odd one at the end is left.
unfoldable pub pairs {ℓ} : {A : Type ℓ} → (Element → A) → List Element → List (Bytes × A)
unfolding element_str
pairs value [] = []
pairs value (x ∷ []) = []
pairs value (x ∷ y ∷ rest) = (element_str x, value y) ∷ pairs value rest

-- What is read from an array; nothing from any other reply.
abbrev pub elements : Reply → List Element
elements (array xs) = xs
elements (integer n) = []
elements rejected = []
elements other_reply = []

abbrev pub count_in : Reply → ℕ
count_in (integer n) = to_unsigned n
count_in (array xs) = 0
count_in rejected = 0
count_in other_reply = 0

-- The index of a page's last member, with `offset + limit - 1` in 64 bits.
unfoldable pub stop_index : ℕ → ℕ → Bytes
stop_index offset limit =
    if limit == 0 then codes "-1" else to_chars ((offset + limit + (u64_mod - 1)) % u64_mod)

-- `element_score`, with `strtod` and the cast to `uint64_t`.
unfoldable pub element_score : (Bytes → ℕ) → Element → ℕ
element_score strtod (text s) = strtod s
element_score strtod other_element = 0

module _ (send : List Bytes → Option Reply) (strtod : Bytes → ℕ) where
  -- `RedisQuery::command`
  unfoldable pub command : List Bytes → Option Reply
  command argv = send argv >>= λ reply. elim reply [
    | rejected ↦ none
    | array xs ↦ some (array xs)
    | integer n ↦ some (integer n)
    | other_reply ↦ some other_reply
  ]

  -- `RedisQuery::hgetall`
  unfoldable pub hgetall : Bytes → Option (List (Bytes × Bytes))
  unfolding command pairs
  hgetall key = do
    reply ← command (codes "HGETALL" ∷ key ∷ [])
    some (pairs element_str (elements reply))

  -- `RedisQuery::hkeys`
  unfoldable pub hkeys : Bytes → Option (List Bytes)
  unfolding command element_str
  hkeys key = do reply ← command (codes "HKEYS" ∷ key ∷ []); some (map element_str (elements reply))

  -- `RedisQuery::hmget`
  unfoldable pub hmget : Bytes → List Bytes → Option (List Bytes)
  unfolding command element_str
  hmget key [] = some []
  hmget key (name ∷ names) = do
    reply ← command (codes "HMGET" ∷ key ∷ name ∷ names)
    some (map element_str (elements reply))

  -- `RedisQuery::dbsize`
  unfoldable pub dbsize : Option ℕ
  unfolding command to_unsigned
  dbsize = do reply ← command (codes "DBSIZE" ∷ []); some (count_in reply)

  -- `RedisQuery::top`
  unfoldable pub top : Bytes → ℕ → ℕ → Option (List (Bytes × ℕ) × ℕ)
  unfolding command to_unsigned pairs element_score stop_index
  top board offset limit = do
    card ← command (codes "ZCARD" ∷ board ∷ [])
    reply ← command (
        codes "ZREVRANGE"
        ∷ board
        ∷ to_chars offset
        ∷ stop_index offset limit
        ∷ codes "WITHSCORES"
        ∷ [])
    some (pairs (element_score strtod) (elements reply), count_in card)

  -- `RedisQuery`
  abbrev pub redis_query : IQueryStore
  redis_query = record {
    hgetall = hgetall;
    hkeys = hkeys;
    hmget = hmget;
    dbsize = dbsize;
    top = top;
  }
