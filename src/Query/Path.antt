-- ===== src/Query/Path.antt =====
-- src/query/services/path_service.cpp: the search for a path from both ends. A trail is the map
-- from a subscriber to the one it was reached from; a key that is new is put in front.
pub mod Routes
pub mod Trails
pub mod Search
pub mod Levels
pub mod Hops
pub mod Rounds
pub mod Crowd
pub mod Shortest
pub mod Best
pub mod Replies
use cdr_processor.Base.{
  ℕ, zero, suc, ◌+◌, leb, ltb, Option, none, some, List, [], ◌∷◌, ◌++◌, reverse, Bytes, text_eq,
  text_key, find, length, if◌then◌else◌, ◌>>=◌,
}
use cdr_processor.Query.Links.{IQueryStore, link_peers}

abbrev pub Trail : Type 0
Trail = List (Bytes × Bytes)

-- The first loop of `walk`: the subscribers from one back to the root, which maps to itself. `at`
-- throws on a missing key, and the fuel is the size of the trail: both are `none`.
unfoldable pub climb : ℕ → Trail → Bytes → Option (List Bytes)
climb zero trail node = none
climb (suc fuel) trail node = do
  parent ← find node trail
  let rest = climb fuel trail parent
  if text_eq parent node then some (node ∷ []) else (rest >>= λ up. some (node ∷ up))

-- The second loop of `walk`, which stops at the end of the path so far or at the root.
unfoldable pub descend : ℕ → Trail → Bytes → Bytes → Option (List Bytes)
descend zero trail back node = none
descend (suc fuel) trail back node =
    let on = find node trail >>= λ parent.
    (let rest = descend fuel trail node parent in
      if text_eq parent node then some (node ∷ []) else (rest >>= λ up. some (node ∷ up))) in
    if text_eq node back then some [] else on

-- `PathService::walk`
unfoldable pub walk : Trail → Trail → Bytes → Option (List Bytes)
unfolding climb descend
walk head tail meet = do
  up ← climb (length head) head meet
  next ← find meet tail
  down ← descend (suc (length tail)) tail meet next
  some (reverse up ++ down)

-- One side of the search: what it has seen, and the subscribers to expand.
pub record Side : Type 0 where
  pub seen : Trail
  pub frontier : List Bytes

-- How the expansion of a side goes on.
pub data Expansion : Type 0 where
  going : Side → ℕ → Expansion
  met : Trail → Bytes → Expansion
  gave_up : Expansion
  unavailable : Expansion

module _ (store : IQueryStore) (max_visited : ℕ) (other : Trail) where
  -- The loop over the peers of one subscriber.
  unfoldable pub visit_peers : Bytes → List Bytes → Side → ℕ → Expansion
  visit_peers node [] mine visited = going mine visited
  visit_peers node (peer ∷ peers) mine visited =
      let skip = visit_peers node peers mine visited in
      let seen' = (peer, node) ∷ mine.seen in
      let on =
        visit_peers node peers (record { seen = seen'; frontier = mine.frontier ++ peer ∷ [] })
          (visited + 1) in
      elim (find peer mine.seen) [
        | some _ ↦ skip
        | none ↦
            if ltb max_visited (visited + 1)
            then gave_up
            else elim (find peer other) [ some _ ↦ met seen' peer | none ↦ on ]
      ]

  -- The loop over the subscribers that the frontier held when the hop began.
  unfoldable pub expand : ℕ → Side → ℕ → Expansion
  unfolding visit_peers
  expand zero mine visited = going mine visited
  expand (suc width) mine visited = elim mine.frontier [
    | [] ↦ going mine visited
    | node ∷ rest ↦ elim (link_peers store node) [
      | none ↦ unavailable
      | some peers ↦
          elim (visit_peers node peers (record { seen = mine.seen; frontier = rest }) visited) [
            | going mine' visited' ↦ expand width mine' visited'
            | met seen' peer ↦ met seen' peer
            | gave_up ↦ gave_up
            | unavailable ↦ unavailable
          ]
    ]
  ]

pub data Answer : Type 0 where
  found : List Bytes → Answer
  not_found : Answer
  store_unavailable : Answer
  fault : Answer

-- `found(walk(…))`; a fault where `walk` would throw or not end.
unfoldable pub joined : Trail → Trail → Bytes → Answer
unfolding walk
joined head tail meet = elim (walk head tail meet) [ none ↦ fault | some route ↦ found route ]

module _ (store : IQueryStore) (max_visited : ℕ) where
  -- The loop over the hops that are left: the side with the narrower frontier is expanded.
  unfoldable pub search : ℕ → Side → Side → ℕ → Answer
  unfolding expand joined
  search zero head tail visited = not_found
  search (suc hops) head tail visited =
      let from_head : Answer =
        elim (expand store max_visited tail.seen (length head.frontier) head visited) [
          | going head' visited' ↦ elim head'.frontier [
            | [] ↦ not_found
            | _ ∷ _ ↦ search hops head' tail visited'
          ]
          | met seen' peer ↦ joined seen' tail.seen peer
          | gave_up ↦ not_found
          | unavailable ↦ store_unavailable
        ] in
      let from_tail : Answer =
        elim (expand store max_visited head.seen (length tail.frontier) tail visited) [
          | going tail' visited' ↦ elim tail'.frontier [
            | [] ↦ not_found
            | _ ∷ _ ↦ search hops head tail' visited'
          ]
          | met seen' peer ↦ joined head.seen seen' peer
          | gave_up ↦ not_found
          | unavailable ↦ store_unavailable
        ] in
      if leb (length head.frontier) (length tail.frontier) then from_head else from_tail

  -- `PathService::path`, the route that it finds.
  unfoldable pub path : ℕ → Bytes → Bytes → Answer
  unfolding search
  path max_hops from to =
      if text_eq from to
      then found (from ∷ [])
      else search max_hops (record { seen = (from, from) ∷ []; frontier = from ∷ [] })
          (record { seen = (to, to) ∷ []; frontier = to ∷ [] }) 0
