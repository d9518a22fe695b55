-- ===== src/Query/Path/Rounds.antt =====
-- The loops of one hop of the search of src/query/services/path_service.cpp: over the subscribers
-- of the frontier, and over the peers of each.
use cdr_processor.Base.{
  ◌≡◌, ◌<◌, ◌+◌, ◌∙◌, inl, inr, some, List, [], ◌∷◌, ◌++◌, Bytes, ℕ, suc, length, find, arith,
  subst, sym, ap, text_eq_iff, text_key, ltb, Bool-cases, Option-cases, All, All-append, All-at,
  append_assoc, append-nil, refl,
}
use cdr_processor.Query.Links.{IQueryStore, link_peers}
use cdr_processor.Query.Path.{
  Trail, Side, Expansion, going, met, gave_up, unavailable, visit_peers, expand,
}
use cdr_processor.Query.Path.Routes.{Reads}
use cdr_processor.Query.Path.Trails.{Has, Grown}
use cdr_processor.Query.Path.Search.{Expansion-cases, becomes, All-Has-cons, Has-new}
use cdr_processor.Query.Path.Levels.{Within, Chain, Chain-cons}
use cdr_processor.Query.Path.Hops.{
  Apart, Apart-cons, Closed, Level, Midway, Midway-cons, Midway-done, Midway-Level,
}

module _ (store : IQueryStore) (max_visited : ℕ) (root : Bytes) (other : Trail) (n : ℕ) where
  -- The two trails know more subscribers than the bound allows.
  abbrev pub Crowded : Type 0
  Crowded =
      (seen : Trail) × Grown store root seen
      × Apart seen other
      × (max_visited < length seen + length other)

  -- A subscriber that both trails know, by which this one is a link longer.
  abbrev pub Meets : Trail → Bytes → Type 0
  Meets seen peer = Grown store root seen × Chain seen root (suc n) peer × Has other peer

  -- What the peers of a subscriber come to.
  abbrev Visits : List Bytes → Bytes → Expansion → Type 0
  Visits rest node (going side visited) =
      (news : List Bytes) × (side.frontier ≡ rest ++ news)
      × Midway store root n side.seen (node ∷ rest) news
      × Closed store root side.seen node
      × Apart side.seen other
      × (visited + 2 ≡ length side.seen + length other)
  Visits rest node (met seen peer) = Meets seen peer
  Visits rest node gave_up = Crowded
  Visits rest node unavailable = Unit

  -- What a hop comes to.
  abbrev pub Hopped : Expansion → Type 0
  Hopped (going side visited) =
      Level store root (suc n) side.seen side.frontier
      × Apart side.seen other
      × (visited + 2 ≡ length side.seen + length other)
  Hopped (met seen peer) = Meets seen peer
  Hopped gave_up = Crowded
  Hopped unavailable = Unit

  -- When all that the store lists is known.
  read-Closed :
      (seen : Trail) (node : Bytes) (peers : List Bytes)
      → link_peers store node ≡ some peers
      → All (Has seen) peers
      → Closed store root seen node
  read-Closed seen node peers e all y (before, behind, f) =
      let same : peers ≡ before ++ y ∷ behind = cc in
      All-at (Has seen) before behind y (subst (All (Has seen)) same all)

  visit_peers-Visits :
      (node : Bytes) (before peers rest news : List Bytes) (mine : Side) (visited : ℕ)
      → link_peers store node ≡ some (before ++ peers)
      → Within store root n node
      → mine.frontier ≡ rest ++ news
      → Midway store root n mine.seen (node ∷ rest) news
      → All (Has mine.seen) before
      → Apart mine.seen other
      → visited + 2 ≡ length mine.seen + length other
      → Visits rest node (visit_peers store max_visited other node peers mine visited)
  unfolding visit_peers
  visit_peers-Visits node before [] rest news mine visited e w f m all apart count = (
    news,
    f,
    m,
    read-Closed mine.seen node before (e ∙ ap some (append-nil before)) all,
    apart,
    count,
  )
  visit_peers-Visits node before (peer ∷ peers) rest news mine visited e w f m all apart count =
      let e' = e ∙ ap some (sym (append_assoc before (peer ∷ []) peers)) in
      let seen' : Trail = (peer, node) ∷ mine.seen in
      let mine' : Side = record { seen = seen'; frontier = mine.frontier ++ peer ∷ [] } in
      let seen'-Has = Has-new store mine.seen peer node in
      elim (Option-cases (find peer mine.seen)) [
        | inr (p, old) ↦ becomes (Visits rest node) (rw (visit_peers, old)) (
            visit_peers-Visits node (before ++ peer ∷ []) peers rest news mine visited e' w f m
              (All-append (Has mine.seen) before (peer ∷ []) all ((p, old), tt)) apart count)
        | inl new ↦
            let reads : Reads store node peer = (before, peers, e) in
            let m' =
              Midway-cons store root n mine.seen (node ∷ rest) news peer node new w reads m in
            elim (Bool-cases (ltb max_visited (visited + 1))) [
              | inl q ↦
                  becomes {a' = gave_up} (Visits rest node) (rw (visit_peers, new, q))
                    (mine.seen, m.grown, apart, ground (arith, q, count))
              | inr q ↦ elim (Option-cases (find peer other)) [
                | inr (o, k) ↦
                    becomes {a' = met seen' peer} (Visits rest node) (rw (visit_peers, new, q, k)) (
                      m'.grown,
                      inr (
                        node,
                        rw ((text_eq_iff peer peer).1 refl),
                        Chain-cons mine.seen peer node root n node new (m.reached node w),
                      ),
                      (o, k),
                    )
                | inl k ↦
                    let all' =
                      All-append (Has seen') before (peer ∷ [])
                        (All-Has-cons store mine.seen peer node before all) (seen'-Has, tt) in
                    let f' =
                      ap (λ (l : List Bytes). l ++ peer ∷ []) f
                      ∙ append_assoc rest news (peer ∷ []) in
                    becomes (Visits rest node) (rw (visit_peers, new, q, k)) (
                      visit_peers-Visits node (before ++ peer ∷ []) peers rest (news ++ peer ∷ [])
                        mine' (visited + 1) e' w f' m' all'
                        (Apart-cons mine.seen other peer node k apart) (omega (arith, count)))
              ]
            ]
      ]

  pub expand-Hopped :
      (olds news : List Bytes) (mine : Side) (visited : ℕ)
      → mine.frontier ≡ olds ++ news
      → All (Within store root n) olds
      → Midway store root n mine.seen olds news
      → Apart mine.seen other
      → visited + 2 ≡ length mine.seen + length other
      → Hopped (expand store max_visited other (length olds) mine visited)
  unfolding expand
  expand-Hopped [] news mine visited f ws m apart count = (
    subst (Level store root (suc n) mine.seen) (sym f) (Midway-Level store root n mine.seen news m),
    apart,
    count,
  )
  expand-Hopped (node ∷ olds) news mine visited f (w, ws) m apart count =
      elim (Option-cases (link_peers store node)) [
        | inl k ↦ becomes {a' = unavailable} Hopped (rw (expand, f, k)) tt
        | inr (peers, k) ↦
            let taken : Side = record { seen = mine.seen; frontier = olds ++ news } in
            let step = visit_peers store max_visited other node peers taken visited in
            let visits =
              visit_peers-Visits node [] peers olds news taken visited k w refl m tt apart count in
            elim (Expansion-cases step) [
              | inl (side, v, q) ↦
                  let (news', f', m', closed, apart', count') = subst (Visits olds node) q visits in
                  becomes Hopped (rw (expand, f, k, q)) (
                    expand-Hopped olds news' side v f' ws
                      (Midway-done store root n side.seen node olds news' closed m') apart' count')
              | inr (inl (seen, peer, q)) ↦
                  becomes {a' = met seen peer} Hopped (rw (expand, f, k, q))
                    (subst (Visits olds node) q visits)
              | inr (inr (inl q)) ↦
                  becomes {a' = gave_up} Hopped (rw (expand, f, k, q))
                    (subst (Visits olds node) q visits)
              | inr (inr (inr q)) ↦ becomes {a' = unavailable} Hopped (rw (expand, f, k, q)) tt
            ]
      ]
