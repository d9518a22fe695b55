-- ===== src/Tests/Routes.antt =====
-- src/query/services/path_service.cpp over three subscribers in a row.
use cdr_processor.Base.{
  ◌≡◌, ◌⊎◌, inl, inr, refl, sym, subst, some, none, List, [], ◌∷◌, ◌++◌, Bytes, codes, text_eq,
  text_eq_iff, Option, In, In-append_right, Bool-cases, arith, if◌then◌else◌,
}
use cdr_processor.Query.Links.{IQueryStore, link_peers}
use cdr_processor.Query.Path.{path, found}
use cdr_processor.Query.Path.Routes.{Reads}
use cdr_processor.Query.Path.Levels.{TwoWay}
use cdr_processor.Query.Path.Shortest.{Best}
use cdr_processor.Query.Path.Best.{path-Best}

-- 1 and 2 are linked, and 2 and 3.
abbrev row_keys : Bytes → Option (List Bytes)
row_keys name =
    if text_eq name (codes "link:1")
    then some (codes "2:dur" ∷ codes "2:cnt" ∷ [])
    else if text_eq name (codes "link:2")
    then some (codes "3:sms" ∷ codes "1:dur" ∷ [])
    else if text_eq name (codes "link:3")
    then some (codes "2:sms" ∷ [])
    else some []

abbrev row : IQueryStore
row = record {
  hgetall = λ name. none;
  hkeys = row_keys;
  hmget = λ name fields. none;
  dbsize = none;
  top = λ board offset limit. none;
}

abbrev RowLinks : Bytes → Bytes → Type 0
RowLinks a b =
    ((a ≡ codes "1") × (b ≡ codes "2"))
    ⊎ (((a ≡ codes "2") × (b ≡ codes "1"))
        ⊎ (((a ≡ codes "2") × (b ≡ codes "3")) ⊎ ((a ≡ codes "3") × (b ≡ codes "2"))))

listed :
    (a b : Bytes) (peers : List Bytes) → link_peers row a ≡ some peers → In b peers → RowLinks a b
unfolding link_peers
listed a b peers e i = elim (Bool-cases (text_eq a (codes "1"))) [
  | inl q ↦
      let these : peers ≡ codes "2" ∷ [] = ground (arith, q, e) in
      elim (subst (In b) these i) [ inl f ↦ inl ((text_eq_iff a _).0 q, sym f) | inr n ↦ absurd n ]
  | inr p ↦ elim (Bool-cases (text_eq a (codes "2"))) [
    | inl q ↦
        let these : peers ≡ codes "1" ∷ codes "3" ∷ [] = ground (arith, p, q, e) in
        elim (subst (In b) these i) [
          | inl f ↦ inr (inl ((text_eq_iff a _).0 q, sym f))
          | inr (inl f) ↦ inr (inr (inl ((text_eq_iff a _).0 q, sym f)))
          | inr (inr n) ↦ absurd n
        ]
    | inr r ↦ elim (Bool-cases (text_eq a (codes "3"))) [
      | inl q ↦
          let these : peers ≡ codes "2" ∷ [] = ground (arith, p, q, r, e) in
          elim (subst (In b) these i) [
            | inl f ↦ inr (inr (inr ((text_eq_iff a _).0 q, sym f)))
            | inr n ↦ absurd n
          ]
      | inr q ↦
          let none_left : peers ≡ [] = ground (arith, p, q, r, e) in
          absurd (subst (In b) none_left i)
    ]
  ]
]

Reads-RowLinks : (a b : Bytes) → Reads row a b → RowLinks a b
Reads-RowLinks a b (before, behind, e) =
    listed a b (before ++ b ∷ behind) e (In-append_right b before (b ∷ behind) (inl refl))

at : (a b : Bytes) {c d : Bytes} → a ≡ c → b ≡ d → Reads row d c → Reads row b a
at a b e f r = subst (λ (x : Bytes). Reads row x a) (sym f) (subst (Reads row _) (sym e) r)

row-TwoWay : TwoWay row
unfolding link_peers
row-TwoWay a b r = elim (Reads-RowLinks a b r) [
  | inl (e, f) ↦ at a b e f ([], codes "3" ∷ [], refl)
  | inr (inl (e, f)) ↦ at a b e f ([], [], refl)
  | inr (inr (inl (e, f))) ↦ at a b e f ([], [], refl)
  | inr (inr (inr (e, f))) ↦ at a b e f (codes "1" ∷ [], [], refl)
]

abbrev everyone : List Bytes
everyone = codes "1" ∷ codes "2" ∷ codes "3" ∷ []

row-In : (node peer : Bytes) → Reads row node peer → In peer everyone
row-In node peer r = elim (Reads-RowLinks node peer r) [
  | inl (_, f) ↦ inr (inl (sym f))
  | inr (inl (_, f)) ↦ inl (sym f)
  | inr (inr (inl (_, f))) ↦ inr (inr (inl (sym f)))
  | inr (inr (inr (_, f))) ↦ inr (inl (sym f))
]

ends : path row 3 2 (codes "1") (codes "3") ≡ found everyone
unfolding path link_peers
ends = refl

path-Best_example : Best row 2 (codes "1") (codes "3") (path row 3 2 (codes "1") (codes "3"))
path-Best_example =
    path-Best row everyone 3 2 (codes "1") (codes "3") row-TwoWay (inl refl) (inr (inr (inl refl)))
      row-In (omega arith)
