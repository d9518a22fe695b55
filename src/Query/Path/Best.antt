-- ===== src/Query/Path/Best.antt =====
-- What the search of src/query/services/path_service.cpp finds, where the store links both ways.
use cdr_processor.Base.{
  false, ◌≡◌, ◌≤◌, ◌+◌, ◌∙◌, inl, inr, List, [], ◌∷◌, Bytes, ℕ, suc, zero, length, arith, subst,
  sym, In, refl, text_eq_iff, Bool-cases, List-cases, leb, text_eq, true,
}
use cdr_processor.Query.Links.{IQueryStore}
use cdr_processor.Query.Path.{
  Trail, Side, expand, found, not_found, store_unavailable, search, path,
}
use cdr_processor.Query.Path.Routes.{Reads, Connects}
use cdr_processor.Query.Path.Trails.{Grown, start}
use cdr_processor.Query.Path.Search.{Expansion-cases, becomes, Has-root}
use cdr_processor.Query.Path.Levels.{Within-mono, TwoWay, Connects-meet}
use cdr_processor.Query.Path.Hops.{Apart, Level, Chain-Has, Has-uncons}
use cdr_processor.Query.Path.Rounds.{Crowded, Hopped}
use cdr_processor.Query.Path.Crowd.{Apart-length}
use cdr_processor.Query.Path.Shortest.{
  Best, Beyond, joined-Best, Apart-Beyond, reached-Has, Level-Hopped,
}

module _ (store : IQueryStore) (everyone : List Bytes) (max_visited max_hops : ℕ) (a b : Bytes)
    (two_way : TwoWay store) (i_a : In a everyone) (i_b : In b everyone)
    (all : (node peer : Bytes) → Reads store node peer → In peer everyone)
    (room : length everyone ≤ max_visited) where
  -- The bound on the subscribers is not met.
  Crowded-head : (i : ℕ) (tail : Trail) → Grown store b tail → ¬ Crowded store max_visited a tail i
  Crowded-head i tail h (seen, g, apart, over) =
      let fit = Apart-length store a b everyone i_a i_b all g h apart in
      omega (arith, fit, over, room)

  Crowded-tail : (k : ℕ) (head : Trail) → Grown store a head → ¬ Crowded store max_visited b head k
  Crowded-tail k head g (seen, h, apart, over) =
      let fit = Apart-length store b a everyone i_b i_a all h g apart in
      omega (arith, fit, over, room)

  -- What two sides that have nothing in common know.
  record Sides (i k : ℕ) (head tail : Side) (visited : ℕ) : Type 0 where
    from : Level store a i head.seen head.frontier
    to : Level store b k tail.seen tail.frontier
    apart : Apart head.seen tail.seen
    count : visited + 2 ≡ length head.seen + length tail.seen

  Sides-Beyond :
      (i k : ℕ) (head tail : Side) (visited : ℕ)
      → Sides i k head tail visited
      → Beyond store max_hops a b (i + k)
  Sides-Beyond i k head tail visited s =
      Apart-Beyond store max_hops a b two_way i k s.from.grown s.to.grown s.from.reached
        s.to.reached s.apart

  -- No route leads out of a side whose frontier is empty.
  head_empty :
      (i k : ℕ) (head tail : Side) (visited : ℕ)
      → Sides i k head tail visited
      → head.frontier ≡ []
      → Best store max_hops a b not_found
  head_empty i k head tail visited s e other r =
      let (y, w, v) = Connects-meet store two_way a b (length other) 0 other r (omega arith) in
      let l = subst (Level store a i head.seen) e s.from in
      let met_at = Within-mono store b 0 k y (omega arith) v in
      absurd (
        s.apart y (reached-Has store max_hops a b a head.seen i (length other) y l w)
          (Chain-Has store b tail.seen k y s.to.grown (s.to.reached y met_at)))

  tail_empty :
      (i k : ℕ) (head tail : Side) (visited : ℕ)
      → Sides i k head tail visited
      → tail.frontier ≡ []
      → Best store max_hops a b not_found
  tail_empty i k head tail visited s e other r =
      let (y, w, v) = Connects-meet store two_way a b 0 (length other) other r (omega arith) in
      let l = subst (Level store b k tail.seen) e s.to in
      let met_at = Within-mono store a 0 i y (omega arith) w in
      absurd (
        s.apart y (Chain-Has store a head.seen i y s.from.grown (s.from.reached y met_at))
          (reached-Has store max_hops a b b tail.seen k (length other) y l v))

  -- A hop on the first party's side, and what follows it.
  head_turn :
      (hops i k : ℕ) (head tail : Side) (visited : ℕ)
      → suc hops + (i + k) ≡ max_hops
      → Sides i k head tail visited
      → leb (length head.frontier) (length tail.frontier) ≡ true
      → ((side : Side) (v : ℕ)
          → Sides (suc i) k side tail v
          → Best store max_hops a b (search store max_visited hops side tail v))
      → Best store max_hops a b (search store max_visited (suc hops) head tail visited)
  unfolding search
  head_turn hops i k head tail visited e s narrow next =
      let best = Best store max_hops a b in
      let beyond = Sides-Beyond i k head tail visited s in
      let hopped =
        Level-Hopped store max_hops a b max_visited a i head tail.seen visited s.from s.apart
          s.count in
      elim (Expansion-cases
        (expand store max_visited tail.seen (length head.frontier) head visited)) [
          | inl (side, v, q) ↦
              let (l, apart, count) = subst (Hopped store max_visited a tail.seen i) q hopped in
              let s' : Sides (suc i) k side tail v = record {
                from = l;
                to = s.to;
                apart = apart;
                count = count;
              } in
              elim (List-cases side.frontier) [
                | inl f ↦
                    becomes {a' = not_found} best (rw (search, narrow, q, f))
                      (head_empty (suc i) k side tail v s' f)
                | inr (node, rest, f) ↦ becomes best (simp (search, narrow, q, f)) (next side v s')
              ]
          | inr (inl (seen, peer, q)) ↦
              let (g, c, k_peer) = subst (Hopped store max_visited a tail.seen i) q hopped in
              becomes best (rw (search, narrow, q)) (
                joined-Best store max_hops a b (suc i) k peer g s.to.grown c
                  (s.to.reached peer (s.to.known peer k_peer)) (omega (arith, e))
                  (λ other r. omega (arith, beyond other r)))
          | inr (inr (inl q)) ↦ absurd (
              Crowded-head i tail.seen s.to.grown
                (subst (Hopped store max_visited a tail.seen i) q hopped))
          | inr (inr (inr q)) ↦ becomes {a' = store_unavailable} best (rw (search, narrow, q)) tt
        ]

  -- A hop on the second party's side, and what follows it.
  tail_turn :
      (hops i k : ℕ) (head tail : Side) (visited : ℕ)
      → suc hops + (i + k) ≡ max_hops
      → Sides i k head tail visited
      → leb (length head.frontier) (length tail.frontier) ≡ false
      → ((side : Side) (v : ℕ)
          → Sides i (suc k) head side v
          → Best store max_hops a b (search store max_visited hops head side v))
      → Best store max_hops a b (search store max_visited (suc hops) head tail visited)
  unfolding search
  tail_turn hops i k head tail visited e s wide next =
      let best = Best store max_hops a b in
      let beyond = Sides-Beyond i k head tail visited s in
      let hopped =
        Level-Hopped store max_hops a b max_visited b k tail head.seen visited s.to
          (λ x h k. s.apart x k h) (omega (arith, s.count)) in
      elim (Expansion-cases
        (expand store max_visited head.seen (length tail.frontier) tail visited)) [
          | inl (side, v, q) ↦
              let (l, apart, count) = subst (Hopped store max_visited b head.seen k) q hopped in
              let s' : Sides i (suc k) head side v = record {
                from = s.from;
                to = l;
                apart = (λ x h k. apart x k h);
                count = omega (arith, count);
              } in
              elim (List-cases side.frontier) [
                | inl f ↦
                    becomes {a' = not_found} best (rw (search, wide, q, f))
                      (tail_empty i (suc k) head side v s' f)
                | inr (node, rest, f) ↦ becomes best (simp (search, wide, q, f)) (next side v s')
              ]
          | inr (inl (seen, peer, q)) ↦
              let (g, c, k_peer) = subst (Hopped store max_visited b head.seen k) q hopped in
              becomes best (rw (search, wide, q)) (
                joined-Best store max_hops a b i (suc k) peer s.from.grown g
                  (s.from.reached peer (s.from.known peer k_peer)) c (omega (arith, e))
                  (λ other r. omega (arith, beyond other r)))
          | inr (inr (inl q)) ↦ absurd (
              Crowded-tail k head.seen s.from.grown
                (subst (Hopped store max_visited b head.seen k) q hopped))
          | inr (inr (inr q)) ↦ becomes {a' = store_unavailable} best (rw (search, wide, q)) tt
        ]

  search-Best :
      (hops i k : ℕ) (head tail : Side) (visited : ℕ)
      → hops + (i + k) ≡ max_hops
      → Sides i k head tail visited
      → Best store max_hops a b (search store max_visited hops head tail visited)
  unfolding search
  search-Best zero i k head tail visited e s =
      λ other r. let far = Sides-Beyond i k head tail visited s other r in omega (arith, far, e)
  search-Best (suc hops) i k head tail visited e s =
      elim (Bool-cases (leb (length head.frontier) (length tail.frontier))) [
        | inl narrow ↦
            head_turn hops i k head tail visited e s narrow
              (λ side v s'. search-Best hops (suc i) k side tail v (omega (arith, e)) s')
        | inr wide ↦
            tail_turn hops i k head tail visited e s wide
              (λ side v s'. search-Best hops i (suc k) head side v (omega (arith, e)) s')
      ]

-- A side as the search begins with it.
start-Level :
    (store : IQueryStore) (root : Bytes) → Level store root 0 ((root, root) ∷ []) (root ∷ [])
start-Level store root = record {
  grown = start;
  reached = λ x e. e;
  known = λ x h. elim (Has-uncons [] root root x h) [ inl e ↦ e | inr (p, old) ↦ cc ];
  edge = λ x h. elim (Has-uncons [] root root x h) [ inl e ↦ inl (inl e) | inr (p, old) ↦ cc ];
  front = (Has-root root, tt);
}

start-Apart : (a b : Bytes) → text_eq a b ≡ false → Apart ((a, a) ∷ []) ((b, b) ∷ [])
start-Apart a b q x h k = elim (Has-uncons [] a a x h) [
  | inr (p, old) ↦ cc
  | inl e ↦ elim (Has-uncons [] b b x k) [
    | inr (p, old) ↦ cc
    | inl f ↦
        let same : text_eq a b ≡ true = (text_eq_iff a b).1 (e ∙ sym f) in ground (arith, same, q)
  ]
]

-- Where who lists a peer is listed by it, and the bound on the visited subscribers is no smaller
-- than a list that has both parties and every listed peer: the search has no fault; a route that
-- it finds connects the parties, is of at most `max_hops` hops, and no route between them is
-- shorter; and it says that there is none only where every route has more than `max_hops` hops. Of
-- a search that ends with the store unavailable nothing is said.
pub path-Best :
    (store : IQueryStore) (everyone : List Bytes) (max_visited max_hops : ℕ) (from to : Bytes)
    → TwoWay store
    → In from everyone
    → In to everyone
    → ((node peer : Bytes) → Reads store node peer → In peer everyone)
    → length everyone ≤ max_visited
    → Best store max_hops from to (path store max_visited max_hops from to)
unfolding path
path-Best store everyone max_visited max_hops from to two_way i_a i_b all room =
    elim (Bool-cases (text_eq from to)) [
      | inl q ↦
          becomes {a' = found (from ∷ [])} (Best store max_hops from to) (rw (path, q))
            ((refl, (text_eq_iff from to).0 q), omega arith, λ other r. shortest other r)
      | inr q ↦ becomes (Best store max_hops from to) (rw (path, q)) (
          search-Best store everyone max_visited max_hops from to two_way i_a i_b all room max_hops
            0 0 (record { seen = (from, from) ∷ []; frontier = from ∷ [] })
            (record { seen = (to, to) ∷ []; frontier = to ∷ [] }) 0 (omega arith)
            (record {
              from = start-Level store from;
              to = start-Level store to;
              apart = start-Apart from to q;
              count = omega arith;
            }))
    ]
  where
    shortest : (other : List Bytes) → Connects store from other to → 1 ≤ length other
    shortest [] r = absurd r
    shortest (x ∷ xs) r = omega arith
