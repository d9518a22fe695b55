-- ===== src/Query/Links.antt =====
-- src/query/links.cpp and inc/query/iquery_store.hpp: the peers of a subscriber.
pub mod Order
pub mod Listed
use mathlib.Core.Option
use cdr_processor.Constants.{field_cnt_suffix, field_sms_suffix, link_prefix}
use cdr_processor.Base.{
  ℕ, ◌==◌, Bool, true, false, ◌&&◌, ◌||◌, not, Option, none, some, List, [], ◌∷◌, ◌++◌, map, foldl,
  Bytes, codes, text_eq, text_key, ltb, if◌then◌else◌, modify,
}
use cdr_processor.Charconv.{from_chars}
use cdr_processor.Query.Params.{Sort, duration, sms}

-- `IQueryStore`: `none` is a read that failed. The reads of one request see one state of the store.
pub record IQueryStore : Type 0 where
  pub hgetall : Bytes → Option (List (Bytes × Bytes))
  pub hkeys : Bytes → Option (List Bytes)
  pub hmget : Bytes → List Bytes → Option (List Bytes)
  pub dbsize : Option ℕ
  pub top : Bytes → ℕ → ℕ → Option (List (Bytes × ℕ) × ℕ)

-- `to_num`: 0 where the value does not parse.
unfoldable pub to_num : Bytes → ℕ
unfolding from_chars
to_num value = elim (from_chars value) [ none ↦ 0 | some (n, _) ↦ n ]

-- `link_key`
abbrev pub link_key : Bytes → Bytes
link_key msisdn = link_prefix ++ msisdn

-- What stands before the last colon and the text from it on, as `rfind` finds it.
unfoldable pub last_colon : Bytes → Option (Bytes × Bytes)
last_colon [] = none
last_colon (c ∷ s) =
    let here = if c == b':' then some ([], c ∷ s) else none in
    elim (last_colon s) [ none ↦ here | some (before, suffix) ↦ some (c ∷ before, suffix) ]

-- A field's name cut back to the peer.
unfoldable pub peer_name : Bytes → Bytes
unfolding last_colon
peer_name field = elim (last_colon field) [ none ↦ field | some (before, _) ↦ before ]

-- `operator<` of texts.
unfoldable pub text_lt : Bytes → Bytes → Bool
text_lt [] [] = false
text_lt [] (_ ∷ _) = true
text_lt (_ ∷ _) [] = false
text_lt (a ∷ s) (b ∷ t) = ltb a b || ((a == b) && text_lt s t)

-- `std::sort` by a strict order.
module _ {A : Type 0} (before : A → A → Bool) where
  unfoldable pub insert : A → List A → List A
  insert a [] = a ∷ []
  insert a (x ∷ xs) = if before x a then x ∷ insert a xs else a ∷ x ∷ xs

  unfoldable pub sort : List A → List A
  unfolding insert
  sort [] = []
  sort (x ∷ xs) = insert x (sort xs)

-- `std::unique` and `erase`: of equal neighbours the first stays.
unfoldable pub unique : List Bytes → List Bytes
unique [] = []
unique (x ∷ []) = x ∷ []
unique (x ∷ y ∷ xs) = if text_eq x y then unique (y ∷ xs) else x ∷ unique (y ∷ xs)

-- `link_peers`
unfoldable pub link_peers : IQueryStore → Bytes → Option (List Bytes)
unfolding peer_name text_lt sort unique
link_peers store msisdn =
    Option.map (λ fields. unique (sort text_lt (map peer_name fields)))
      (store.hkeys (link_key msisdn))

pub record Peer : Type 0 where
  pub msisdn : Bytes
  pub duration : ℕ
  pub sms : ℕ
  pub calls : ℕ

-- One field of a link put into the peer that it belongs to.
unfoldable pub weigh : Bytes → Bytes → Bytes → Peer → Peer
unfolding to_num
weigh name suffix value peer =
    if text_eq suffix field_sms_suffix
    then record peer { msisdn = name; sms = to_num value }
    else if text_eq suffix field_cnt_suffix
    then record peer { msisdn = name; calls = to_num value }
    else record peer { msisdn = name; duration = to_num value }

abbrev pub no_peer : Peer
no_peer = record { msisdn = []; duration = 0; sms = 0; calls = 0 }

-- One round of the loop of `link_weights`.
unfoldable pub weigh_field : List (Bytes × Peer) → Bytes × Bytes → List (Bytes × Peer)
unfolding last_colon weigh
weigh_field peers (field, value) = elim (last_colon field) [
  | none ↦ peers
  | some (name, suffix) ↦ modify no_peer (weigh name suffix value) name peers
]

-- `link_weights`, in the order in which the peers come first.
unfoldable pub link_weights : IQueryStore → Bytes → Option (List Peer)
unfolding weigh_field
link_weights store msisdn =
    Option.map (λ fields. map (λ e. e.1) (foldl weigh_field [] fields))
      (store.hgetall (link_key msisdn))

-- `primary` and `secondary`, the lambdas of `order_peers`.
unfoldable pub primary : Sort → Peer → ℕ
primary duration p = p.duration
primary sms p = p.sms

unfoldable pub secondary : Sort → Peer → ℕ
secondary duration p = p.sms
secondary sms p = p.duration

-- The comparison of `order_peers`.
unfoldable pub ranks_before : Sort → Peer → Peer → Bool
unfolding text_lt primary secondary
ranks_before by left right =
    if not (primary by left == primary by right)
    then ltb (primary by right) (primary by left)
    else if not (secondary by left == secondary by right)
    then ltb (secondary by right) (secondary by left)
    else text_lt left.msisdn right.msisdn

-- `order_peers`
unfoldable pub order_peers : List Peer → Sort → List Peer
unfolding ranks_before sort
order_peers peers by = sort (ranks_before by) peers
