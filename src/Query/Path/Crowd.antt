-- ===== src/Query/Path/Crowd.antt =====
-- How many subscribers the two trails of src/query/services/path_service.cpp can know.
use cdr_processor.Base.{
  append-nil, ◌≡◌, ◌≤◌, ◌+◌, ◌∙◌, ◌⊎◌, inl, inr, List, [], ◌∷◌, ◌++◌, Bytes, suc, length, arith,
  subst, sym, In, map, refl, length-append, text_key,
}
use cdr_processor.Query.Links.{IQueryStore}
use cdr_processor.Query.Path.{Trail}
use cdr_processor.Query.Path.Routes.{Reads}
use cdr_processor.Query.Path.Trails.{Has-cons, Has, Grown, start, grow}
use cdr_processor.Query.Path.Search.{Has-new, Has-root}
use cdr_processor.Query.Path.Hops.{Apart, Has-uncons}

abbrev Distinct : List Bytes → Type 0
Distinct [] = Unit
Distinct (x ∷ xs) = ¬ In x xs × Distinct xs

abbrev keys : Trail → List Bytes
keys = map (λ e. e.0)

In-append-cases : (x : Bytes) (xs ys : List Bytes) → In x (xs ++ ys) → In x xs ⊎ In x ys
In-append-cases x [] ys i = inr i
In-append-cases x (y ∷ xs) ys (inl e) = inl (inl e)
In-append-cases x (y ∷ xs) ys (inr i) = elim (In-append-cases x xs ys i) [
  | inl j ↦ inl (inr j)
  | inr j ↦ inr j
]

-- A list less one entry.
less :
    (x : Bytes) (es : List Bytes)
    → In x es
    → (rest : List Bytes) × (length es ≡ suc (length rest))
      × ((y : Bytes) → ¬ (x ≡ y) → In y es → In y rest)
less x [] i = absurd i
less x (e ∷ es) (inl same) =
    (es, refl, λ y differ i. elim i [ inl e_y ↦ absurd (differ (sym same ∙ e_y)) | inr j ↦ j ])
less x (e ∷ es) (inr i) =
    let (rest, size, keep) = less x es i in
    (
      e ∷ rest,
      omega (arith, size),
      λ y differ j. elim j [ inl e_y ↦ inl e_y | inr k ↦ inr (keep y differ k) ],
    )

Distinct-length :
    (ks es : List Bytes) → Distinct ks → ((x : Bytes) → In x ks → In x es) → length ks ≤ length es
Distinct-length [] es d sub = omega arith
Distinct-length (k ∷ ks) es (new, d) sub =
    let (rest, size, keep) = less k es (sub k (inl refl)) in
    let fewer =
      Distinct-length ks rest d (λ x i.
        keep x (λ same. new (subst (λ (b : Bytes). In b ks) (sym same) i)) (sub x (inr i))) in
    omega (arith, size, fewer)

keys-length : (trail : Trail) → length (keys trail) ≡ length trail
keys-length [] = refl
keys-length ((x, p) ∷ trail) = omega (arith, keys-length trail)

module _ (store : IQueryStore) (root : Bytes) where
  keys-Has : {trail : Trail} (x : Bytes) → Grown store root trail → In x (keys trail) → Has trail x
  keys-Has x start (inr i) = absurd i
  keys-Has x start (inl e) = subst (Has ((root, root) ∷ [])) e (Has-root root)
  keys-Has x (grow {trail} {peer} {node} g new known reads) (inl e) =
      subst (Has ((peer, node) ∷ trail)) e (Has-new store trail peer node)
  keys-Has x (grow {trail} {peer} {node} g new known reads) (inr i) =
      Has-cons trail peer node x (keys-Has x g i)

  -- The trail's subscribers are distinct, and so with others that it does not know.
  Grown-Distinct :
      {trail : Trail} (others : List Bytes)
      → Grown store root trail
      → Distinct others
      → ((x : Bytes) → Has trail x → ¬ In x others)
      → Distinct (keys trail ++ others)
  Grown-Distinct others start d apart = (apart root (Has-root root), d)
  Grown-Distinct others (grow {trail} {peer} {node} g new known reads) d apart = (
    λ i. elim (In-append-cases peer (keys trail) others i) [
      | inl j ↦ let (p, old) = keys-Has peer g j in cc
      | inr j ↦ apart peer (Has-new store trail peer node) j
    ],
    Grown-Distinct others g d (λ x h. apart x (Has-cons trail peer node x h)),
  )

  -- The trail knows the root and those that the store lists.
  Grown-In :
      {trail : Trail} (everyone : List Bytes) (x : Bytes)
      → In root everyone
      → ((node peer : Bytes) → Reads store node peer → In peer everyone)
      → Grown store root trail
      → Has trail x
      → In x everyone
  Grown-In everyone x i all start h = elim (Has-uncons [] root root x h) [
    | inl e ↦ subst (λ (b : Bytes). In b everyone) e i
    | inr (p, old) ↦ cc
  ]
  Grown-In everyone x i all (grow {trail} {peer} {node} g new known reads) h =
      elim (Has-uncons trail peer node x h) [
        | inl e ↦ subst (λ (b : Bytes). In b everyone) e (all node peer reads)
        | inr old ↦ Grown-In everyone x i all g old
      ]

-- Two trails that have no subscriber in common are no larger than all subscribers together.
pub Apart-length :
    (store : IQueryStore) (a b : Bytes) (everyone : List Bytes) {seen other : Trail}
    → In a everyone
    → In b everyone
    → ((node peer : Bytes) → Reads store node peer → In peer everyone)
    → Grown store a seen
    → Grown store b other
    → Apart seen other
    → length seen + length other ≤ length everyone
Apart-length store a b everyone {seen} {other} i j all g h apart =
    let others : Distinct (keys other) =
      subst Distinct (append-nil (keys other)) (Grown-Distinct store b [] h tt (λ x k n. n)) in
    let both =
      Grown-Distinct store a (keys other) g others (λ x k n. apart x k (keys-Has store b x h n)) in
    let fit = Distinct-length (keys seen ++ keys other) everyone both (λ x n.
      elim (In-append-cases x (keys seen) (keys other) n) [
        | inl k ↦ Grown-In store a everyone x i all g (keys-Has store a x g k)
        | inr k ↦ Grown-In store b everyone x j all h (keys-Has store b x h k)
      ]) in
    omega (arith, fit, length-append (keys seen) (keys other), keys-length seen, keys-length other)
