-- ===== src/Query/Path/Search.antt =====
-- What the search of src/query/services/path_service.cpp finds.
use cdr_processor.Base.{
  subst, List-cases, ℕ, zero, suc, ◌+◌, ◌≡◌, refl, sym, ◌∙◌, ap, ◌⊎◌, inl, inr, Option-cases,
  Bool-cases, some, List, [], ◌∷◌, ◌++◌, append_assoc, Bytes, arith, length, find, text_eq,
  text_eq_iff, text_key, All, All-append, ltb, leb,
}
use cdr_processor.Query.Links.{IQueryStore, link_peers}
use cdr_processor.Query.Path.{
  Trail, Side, Expansion, going, met, gave_up, unavailable, visit_peers, expand, Answer, found,
  not_found, store_unavailable, fault, joined, search, path,
}
use cdr_processor.Query.Path.Routes.{Connects}
use cdr_processor.Query.Path.Trails.{Has, Has-cons, Grown, start, grow, walk-Connects}

pub Expansion-cases :
    (x : Expansion)
    → ((side : Side) × (visited : ℕ) × (x ≡ going side visited))
      ⊎ (((seen : Trail) × (peer : Bytes) × (x ≡ met seen peer))
          ⊎ ((x ≡ gave_up) ⊎ (x ≡ unavailable)))
Expansion-cases (going side visited) = inl (side, visited, refl)
Expansion-cases (met seen peer) = inr (inl (seen, peer, refl))
Expansion-cases gave_up = inr (inr (inl refl))
Expansion-cases unavailable = inr (inr (inr refl))

pub becomes {ℓ κ} : {A : Type ℓ} {a a' : A} (P : A → Type κ) → a ≡ a' → P a' → P a
becomes P e p = subst P (sym e) p

module _ (store : IQueryStore) where
  -- A side whose trail is grown from its root and knows its frontier.
  abbrev pub Holds : Bytes → Side → Type 0
  Holds root side = Grown store root side.seen × All (Has side.seen) side.frontier

  -- What an expansion gives: a side as before, or a subscriber that both trails know.
  abbrev Expands : Bytes → Trail → Expansion → Type 0
  Expands root other (going side visited) = Holds root side
  Expands root other (met seen peer) = Grown store root seen × Has seen peer × Has other peer
  Expands root other gave_up = Unit
  Expands root other unavailable = Unit

  -- What an answer promises: a route connects the two parties, and there is no fault.
  abbrev pub Answers : Bytes → Bytes → Answer → Type 0
  Answers a b (found route) = Connects store a route b
  Answers a b not_found = Unit
  Answers a b store_unavailable = Unit
  Answers a b fault = ⊥

  pub All-Has-cons :
      (trail : Trail) (peer node : Bytes) (ns : List Bytes)
      → All (Has trail) ns
      → All (Has ((peer, node) ∷ trail)) ns
  All-Has-cons trail peer node [] h = tt
  All-Has-cons trail peer node (n ∷ ns) (h, hs) =
      (Has-cons trail peer node n h, All-Has-cons trail peer node ns hs)

  pub Has-new : (trail : Trail) (peer node : Bytes) → Has ((peer, node) ∷ trail) peer
  Has-new trail peer node = (node, rw ((text_eq_iff peer peer).1 refl))

  module _ (max_visited : ℕ) (root : Bytes) (other : Trail) where
    visit_peers-Expands :
        (node : Bytes) (before peers : List Bytes) (mine : Side) (visited : ℕ)
        → link_peers store node ≡ some (before ++ peers)
        → Holds root mine
        → Has mine.seen node
        → Expands root other (visit_peers store max_visited other node peers mine visited)
    unfolding visit_peers
    visit_peers-Expands node before [] mine visited e h k = h
    visit_peers-Expands node before (peer ∷ peers) mine visited e (g, front) k =
        let e' = e ∙ ap some (sym (append_assoc before (peer ∷ []) peers)) in
        let seen' : Trail = (peer, node) ∷ mine.seen in
        let mine' : Side = record { seen = seen'; frontier = mine.frontier ++ peer ∷ [] } in
        let seen'-Has = Has-new mine.seen peer node in
        elim (Option-cases (find peer mine.seen)) [
          | inr (p, old) ↦
              becomes (λ x. Expands root other x) (rw (visit_peers, old))
                (visit_peers-Expands node (before ++ peer ∷ []) peers mine visited e' (g, front) k)
          | inl new ↦
              let grown : Grown store root seen' = grow g new k (before, peers, e) in
              elim (Bool-cases (ltb max_visited (visited + 1))) [
                | inl q ↦ becomes {a' = gave_up} (Expands root other) (rw (visit_peers, new, q)) tt
                | inr q ↦ elim (Option-cases (find peer other)) [
                  | inr (o, f) ↦
                      becomes {a' = met seen' peer} (Expands root other)
                        (rw (visit_peers, new, q, f)) (grown, seen'-Has, (o, f))
                  | inl f ↦
                      let front' =
                        All-append (Has seen') mine.frontier (peer ∷ [])
                          (All-Has-cons mine.seen peer node mine.frontier front) (seen'-Has, tt) in
                      becomes (Expands root other) (rw (visit_peers, new, q, f)) (
                        visit_peers-Expands node (before ++ peer ∷ []) peers mine' (visited + 1) e'
                          (grown, front') (Has-cons mine.seen peer node node k))
                ]
              ]
        ]

    expand-Expands :
        (width : ℕ) (mine : Side) (visited : ℕ)
        → Holds root mine
        → Expands root other (expand store max_visited other width mine visited)
    unfolding expand
    expand-Expands zero mine visited h = h
    expand-Expands (suc width) mine visited (g, front) = elim (List-cases mine.frontier) [
      | inl e ↦
          becomes {a' = going mine visited} (Expands root other) (ground (arith, e)) (g, front)
      | inr (node, rest, e) ↦
          let (known, front') = subst (All (Has mine.seen)) e front in
          elim (Option-cases (link_peers store node)) [
            | inl f ↦ becomes {a' = unavailable} (Expands root other) (rw (expand, e, f)) tt
            | inr (peers, f) ↦
                let taken : Side = record { seen = mine.seen; frontier = rest } in
                let step = visit_peers store max_visited other node peers taken visited in
                let holds = visit_peers-Expands node [] peers taken visited f (g, front') known in
                elim (Expansion-cases step) [
                  | inl (side, v, q) ↦
                      becomes (Expands root other) (rw (expand, e, f, q))
                        (expand-Expands width side v (subst (Expands root other) q holds))
                  | inr (inl (seen, peer, q)) ↦
                      becomes {a' = met seen peer} (Expands root other) (rw (expand, e, f, q))
                        (subst (Expands root other) q holds)
                  | inr (inr (inl q)) ↦
                      becomes {a' = gave_up} (Expands root other) (rw (expand, e, f, q)) tt
                  | inr (inr (inr q)) ↦
                      becomes {a' = unavailable} (Expands root other) (rw (expand, e, f, q)) tt
                ]
          ]
    ]

  joined-Answers :
      (a b : Bytes) (head tail : Trail) (meet : Bytes)
      → Grown store a head
      → Grown store b tail
      → Has head meet
      → Has tail meet
      → Answers a b (joined head tail meet)
  unfolding joined
  joined-Answers a b head tail meet g h k l =
      let (route, run, connects) = walk-Connects store a b meet g h k l in
      becomes {a' = found route} (Answers a b) (rw (joined, run)) connects

  module _ (max_visited : ℕ) (a b : Bytes) where
    search-Answers :
        (hops : ℕ) (head tail : Side) (visited : ℕ)
        → Holds a head
        → Holds b tail
        → Answers a b (search store max_visited hops head tail visited)
    unfolding search
    search-Answers zero head tail visited g h = tt
    search-Answers (suc hops) head tail visited g h =
        elim (Bool-cases (leb (length head.frontier) (length tail.frontier))) [
          | inl narrow ↦
              let step = expand store max_visited tail.seen (length head.frontier) head visited in
              let holds =
                expand-Expands max_visited a tail.seen (length head.frontier) head visited g in
              elim (Expansion-cases step) [
                | inl (side, v, q) ↦ elim (List-cases side.frontier) [
                  | inl e ↦ becomes {a' = not_found} (Answers a b) (rw (search, narrow, q, e)) tt
                  | inr (node, rest, e) ↦
                      becomes (Answers a b) (simp (search, narrow, q, e))
                        (search-Answers hops side tail v (subst (Expands a tail.seen) q holds) h)
                ]
                | inr (inl (seen, peer, q)) ↦
                    let (grown, k, l) = subst (Expands a tail.seen) q holds in
                    becomes (Answers a b) (rw (search, narrow, q))
                      (joined-Answers a b seen tail.seen peer grown h.0 k l)
                | inr (inr (inl q)) ↦
                    becomes {a' = not_found} (Answers a b) (rw (search, narrow, q)) tt
                | inr (inr (inr q)) ↦
                    becomes {a' = store_unavailable} (Answers a b) (rw (search, narrow, q)) tt
              ]
          | inr wide ↦
              let step = expand store max_visited head.seen (length tail.frontier) tail visited in
              let holds =
                expand-Expands max_visited b head.seen (length tail.frontier) tail visited h in
              elim (Expansion-cases step) [
                | inl (side, v, q) ↦ elim (List-cases side.frontier) [
                  | inl e ↦ becomes {a' = not_found} (Answers a b) (rw (search, wide, q, e)) tt
                  | inr (node, rest, e) ↦
                      becomes (Answers a b) (simp (search, wide, q, e))
                        (search-Answers hops head side v g (subst (Expands b head.seen) q holds))
                ]
                | inr (inl (seen, peer, q)) ↦
                    let (grown, l, k) = subst (Expands b head.seen) q holds in
                    becomes (Answers a b) (rw (search, wide, q))
                      (joined-Answers a b head.seen seen peer g.0 grown k l)
                | inr (inr (inl q)) ↦
                    becomes {a' = not_found} (Answers a b) (rw (search, wide, q)) tt
                | inr (inr (inr q)) ↦
                    becomes {a' = store_unavailable} (Answers a b) (rw (search, wide, q)) tt
              ]
        ]

pub Has-root : (root : Bytes) → Has ((root, root) ∷ []) root
Has-root root = (root, rw ((text_eq_iff root root).1 refl))

-- A search for a path never fails inside: it looks up no subscriber that its trails lack, and its
-- walk ends. A route that it finds starts at the first party, ends at the second, and goes from
-- each subscriber to one that the store links with it.
pub path-Answers :
    (store : IQueryStore) (max_visited max_hops : ℕ) (from to : Bytes)
    → Answers store from to (path store max_visited max_hops from to)
unfolding path
path-Answers store max_visited max_hops from to = elim (Bool-cases (text_eq from to)) [
  | inl q ↦
      becomes {a' = found (from ∷ [])} (Answers store from to) (rw (path, q))
        (refl, (text_eq_iff from to).0 q)
  | inr q ↦ becomes (Answers store from to) (rw (path, q)) (
      search-Answers store max_visited from to max_hops
        (record { seen = (from, from) ∷ []; frontier = from ∷ [] })
        (record { seen = (to, to) ∷ []; frontier = to ∷ [] }) 0 (start, (Has-root from, tt))
        (start, (Has-root to, tt)))
]
