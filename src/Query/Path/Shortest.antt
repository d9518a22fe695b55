-- ===== src/Query/Path/Shortest.antt =====
-- That the route which src/query/services/path_service.cpp finds is a shortest one, and that it
-- finds one where a route within the bound exists.
use cdr_processor.Base.{
  ◌≡◌, ◌≤◌, ◌<◌, ◌+◌, ◌∙◌, inl, inr, List, [], ◌∷◌, ◌++◌, Bytes, ℕ, suc, zero, length, arith, subst,
  sym, ap, text_key, Bool-cases, leb, All, reverse, append-nil,
}
use mathlib.Core.List.{reverse_aux, reverse_aux-eq}
use cdr_processor.Query.Links.{IQueryStore}
use cdr_processor.Query.Path.{
  Trail, Side, expand, Answer, found, not_found, store_unavailable, fault, joined, walk,
}
use cdr_processor.Query.Path.Routes.{Connects, reverse_aux-Connects}
use cdr_processor.Query.Path.Trails.{Has, Grown, climb-Steps, descend-up}
use cdr_processor.Query.Path.Search.{becomes}
use cdr_processor.Query.Path.Levels.{Within, Chain, TwoWay, Connects-meet, Grown-root, climb-Chain}
use cdr_processor.Query.Path.Hops.{Apart, Level, Level-Midway, Chain-Has}
use cdr_processor.Query.Path.Rounds.{Hopped, expand-Hopped}

length-reverse_aux : (xs ys : List Bytes) → length (reverse_aux xs ys) ≡ length xs + length ys
length-reverse_aux [] ys = omega arith
length-reverse_aux (x ∷ xs) ys = omega (arith, length-reverse_aux xs (x ∷ ys))

All-map : {P Q : Bytes → Type 0} (xs : List Bytes) → ((x : Bytes) → P x → Q x) → All P xs → All Q xs
All-map [] f ps = tt
All-map (x ∷ xs) f (p, ps) = (f x p, All-map xs f ps)

module _ (store : IQueryStore) (max_hops : ℕ) (a b : Bytes) where
  -- What an answer promises of the routes between the two parties. A route is the list of its
  -- subscribers, so that it has one hop less than its length.
  abbrev pub Best : Answer → Type 0
  Best (found route) =
      Connects store a route b
      × (length route ≤ max_hops + 1)
      × ((other : List Bytes) → Connects store a other b → length route ≤ length other)
  Best not_found = (other : List Bytes) → Connects store a other b → max_hops + 1 < length other
  Best store_unavailable = Unit
  Best fault = ⊥

  -- Every route has more hops than both sides together.
  abbrev pub Beyond : ℕ → Type 0
  Beyond n = (other : List Bytes) → Connects store a other b → n + 1 < length other

  -- The walk over two trails that meet.
  pub joined-Best :
      (i k : ℕ) {head tail : Trail} (meet : Bytes)
      → Grown store a head
      → Grown store b tail
      → Chain head a i meet
      → Chain tail b k meet
      → i + k ≤ max_hops
      → ((other : List Bytes) → Connects store a other b → i + k < length other)
      → Best (joined head tail meet)
  unfolding joined walk
  joined-Best i k {head} {tail} meet g h c d bound least =
      let (up, run, steps) = climb-Steps store a meet g (Chain-Has store a head i meet g c) in
      let (next, f) = Chain-Has store b tail k meet h d in
      let (down, run', steps') = climb-Steps store b meet h (next, f) in
      let on = descend-up (length tail) tail meet next f run' in
      let short_up = climb-Chain head a i (length head) meet (Grown-root store a g) c run in
      let short_down = climb-Chain tail b k (length tail) meet (Grown-root store b h) d run' in
      let joins = reverse_aux-eq (meet ∷ up) down in
      let size =
        ap (λ (r : List Bytes). length r) (sym joins) ∙ length-reverse_aux (meet ∷ up) down in
      becomes {a' = found (reverse (meet ∷ up) ++ down)} Best (rw (joined, walk, run, f, on)) (
        subst (λ (r : List Bytes). Connects store a r b) joins
            (reverse_aux-Connects store meet a b up down steps steps'),
        omega (arith, size, short_up, short_down, bound),
        λ other r. omega (arith, size, short_up, short_down, least other r),
      )

  module _ (two_way : TwoWay store) where
    -- While the sides have nothing in common, no route is as short as both together.
    pub Apart-Beyond :
        (i k : ℕ) {head tail : Trail}
        → Grown store a head
        → Grown store b tail
        → ((x : Bytes) → Within store a i x → Chain head a i x)
        → ((x : Bytes) → Within store b k x → Chain tail b k x)
        → Apart head tail
        → Beyond (i + k)
    Apart-Beyond i k {head} {tail} g h reach reach' apart other r =
        elim (Bool-cases (leb (length other) (i + k + 1))) [
          | inr q ↦ ground (arith, q)
          | inl q ↦
              let (y, w, v) = Connects-meet store two_way a b i k other r (ground (arith, q)) in
              absurd (
                apart y (Chain-Has store a head i y g (reach y w))
                  (Chain-Has store b tail k y h (reach' y v)))
        ]

  -- A side whose frontier is empty knows all that its root reaches.
  pub reached-Has :
      (root : Bytes) (seen : Trail) (n m : ℕ) (y : Bytes)
      → Level store root n seen []
      → Within store root m y
      → Has seen y
  reached-Has root seen n zero y l e = subst (Has seen) e (root, Grown-root store root l.grown)
  reached-Has root seen n (suc m) y l (inl w) = reached-Has root seen n m y l w
  reached-Has root seen n (suc m) y l (inr (x, w, r)) =
      elim (l.edge x (reached-Has root seen n m x l w)) [ inl i ↦ absurd i | inr c ↦ c y r ]

  -- A level's expansion, from the whole frontier.
  pub Level-Hopped :
      (max_visited : ℕ) (root : Bytes) (n : ℕ) (side : Side) (other : Trail) (visited : ℕ)
      → Level store root n side.seen side.frontier
      → Apart side.seen other
      → visited + 2 ≡ length side.seen + length other
      → Hopped store max_visited root other n
          (expand store max_visited other (length side.frontier) side visited)
  Level-Hopped max_visited root n side other visited l apart count =
      expand-Hopped store max_visited root other n side.frontier [] side visited
        (sym (append-nil side.frontier)) (All-map side.frontier l.known l.front)
        (Level-Midway store root n side.seen side.frontier l) apart count
