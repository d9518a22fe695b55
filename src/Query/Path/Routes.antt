-- ===== src/Query/Path/Routes.antt =====
-- Routes over the links that src/query/services/path_service.cpp reads.
use cdr_processor.Base.{◌≡◌, ◌⊎◌, inl, inr, some, List, [], ◌∷◌, ◌++◌, Bytes}
use mathlib.Core.List.{reverse_aux}
use cdr_processor.Query.Links.{IQueryStore, link_peers}

module _ (store : IQueryStore) where
  -- The store lists `peer` among the peers of `node`.
  abbrev pub Reads : Bytes → Bytes → Type 0
  Reads node peer =
      (before : List Bytes) × (behind : List Bytes) × (link_peers store node
        ≡ some (before ++ peer ∷ behind))

  -- One of the two lists the other.
  abbrev pub Linked : Bytes → Bytes → Type 0
  Linked a b = Reads a b ⊎ Reads b a

  Linked-symm : (a b : Bytes) → Linked a b → Linked b a
  Linked-symm a b (inl r) = inr r
  Linked-symm a b (inr r) = inl r

  -- The hops from one subscriber to another, over those between.
  abbrev pub Steps : Bytes → List Bytes → Bytes → Type 0
  Steps a [] b = a ≡ b
  Steps a (x ∷ xs) b = Linked a x × Steps x xs b

  -- A route from one subscriber to another: both ends are on it, and each hop is a link.
  abbrev pub Connects : Bytes → List Bytes → Bytes → Type 0
  Connects a [] b = ⊥
  Connects a (x ∷ xs) b = (x ≡ a) × Steps x xs b

  -- Steps up to a root, turned round and gone on with.
  pub reverse_aux-Connects :
      (x a b : Bytes) (up down : List Bytes)
      → Steps x up a
      → Steps x down b
      → Connects a (reverse_aux (x ∷ up) down) b
  reverse_aux-Connects x a b [] down e s = (e, s)
  reverse_aux-Connects x a b (y ∷ up) down (l, s) t =
      reverse_aux-Connects y a b up (x ∷ down) s (Linked-symm x y l, t)
