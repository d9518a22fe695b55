-- ===== src/Query/Links/Listed.antt =====
-- The listing of peers of src/query/links.cpp: sorted, and without a name twice.
use cdr_processor.Base.{
  ◌≡◌, ◌∙◌, ◌↔◌, ◌⊎◌, refl, sym, inl, inr, true, false, Bool-cases, Option-cases, some, List, [],
  ◌∷◌, All, In, map, arith, Bytes, text_eq, text_eq_iff, subst,
}
use cdr_processor.Query.Links.{
  IQueryStore, link_key, peer_name, insert, sort, unique, text_lt, link_peers,
}
use cdr_processor.Query.Links.Order.{Sorted, sort-Sorted, text_lt_asym, text_lt_trans}

-- Each text comes before all that follow it.
abbrev pub Rises : List Bytes → Type 0
Rises [] = Unit
Rises (x ∷ xs) = All (λ y. text_lt x y ≡ true) xs × Rises xs

text_lt_total : (s t : Bytes) → text_lt t s ≡ false → text_eq s t ≡ false → text_lt s t ≡ true
unfolding text_lt
text_lt_total [] [] h g = ground arith
text_lt_total [] (b ∷ t) h g = refl
text_lt_total (a ∷ s) [] h g = ground arith
text_lt_total (a ∷ s) (b ∷ t) h g = ground (arith, text_lt_total s t)

-- What comes before a text comes before those that do not come before it.
text_lt_further : (x y z : Bytes) → text_lt x y ≡ true → text_lt z y ≡ false → text_lt x z ≡ true
text_lt_further x y z h g = elim (Bool-cases (text_lt x z)) [
  | inl q ↦ q
  | inr q ↦ let not_before = text_lt_trans x z y q g in cc
]

insert-In : (z a : Bytes) (xs : List Bytes) → In z (insert text_lt a xs) ↔ ((a ≡ z) ⊎ In z xs)
unfolding insert
insert-In z a [] = (λ i. i, λ i. i)
insert-In z a (x ∷ xs) = elim (Bool-cases (text_lt x a)) [
  | inr q ↦ rw q (λ i. i, λ i. i)
  | inl q ↦
      let (f, g) = insert-In z a xs in
      rw q (
        λ i. elim i [
          | inl e ↦ inr (inl e)
          | inr j ↦ elim (f j) [ inl e ↦ inl e | inr k ↦ inr (inr k) ]
        ],
        λ i. elim i [
          | inl e ↦ inr (g (inl e))
          | inr (inl e) ↦ inl e
          | inr (inr k) ↦ inr (g (inr k))
        ],
      )
]

sort-In : (z : Bytes) (xs : List Bytes) → In z (sort text_lt xs) ↔ In z xs
unfolding sort
sort-In z [] = (λ i. i, λ i. i)
sort-In z (x ∷ xs) =
    let (f, g) = insert-In z x (sort text_lt xs) in
    let (f', g') = sort-In z xs in
    (
      λ i. elim (f i) [ inl e ↦ inl e | inr j ↦ inr (f' j) ],
      λ i. elim i [ inl e ↦ g (inl e) | inr j ↦ g (inr (g' j)) ],
    )

unique-In : (z : Bytes) (xs : List Bytes) → In z (unique xs) ↔ In z xs
unfolding unique
unique-In z [] = (λ i. i, λ i. i)
unique-In z (x ∷ []) = (λ i. i, λ i. i)
unique-In z (x ∷ y ∷ xs) =
    let (f, g) = unique-In z (y ∷ xs) in
    elim (Bool-cases (text_eq x y)) [
      | inl q ↦
          let same = (text_eq_iff x y).0 q in
          rw q (λ i. inr (f i), λ i. elim i [ inl e ↦ g (inl (sym same ∙ e)) | inr j ↦ g j ])
      | inr q ↦ rw q (
        λ i. elim i [ inl e ↦ inl e | inr j ↦ inr (f j) ],
        λ i. elim i [ inl e ↦ inl e | inr j ↦ inr (g j) ],
      )
    ]

In-All : (P : Bytes → Type 0) (xs : List Bytes) → ((z : Bytes) → In z xs → P z) → All P xs
In-All P [] h = tt
In-All P (x ∷ xs) h = (h x (inl refl), In-All P xs (λ z i. h z (inr i)))

All-In : (P : Bytes → Type 0) (z : Bytes) (xs : List Bytes) → All P xs → In z xs → P z
All-In P z [] h i = absurd i
All-In P z (x ∷ xs) (p, ps) (inl e) = subst P e p
All-In P z (x ∷ xs) (p, ps) (inr i) = All-In P z xs ps i

unique-Rises : (xs : List Bytes) → Sorted text_lt xs → Rises (unique xs)
unfolding unique
unique-Rises [] h = tt
unique-Rises (x ∷ []) h = (tt, tt)
unique-Rises (x ∷ y ∷ xs) ((y_x, xs_x), (ys, s)) =
    let rest = unique-Rises (y ∷ xs) (ys, s) in
    elim (Bool-cases (text_eq x y)) [
      | inl q ↦ rw q rest
      | inr q ↦
          let x_y = text_lt_total x y y_x q in
          let all =
            In-All (λ z. text_lt x z ≡ true) (unique (y ∷ xs))
              (λ z i. elim ((unique-In z (y ∷ xs)).0 i) [
                | inl e ↦ subst (λ (b : Bytes). text_lt x b ≡ true) e x_y
                | inr j ↦ text_lt_further x y z x_y (All-In (λ b. text_lt b y ≡ false) z xs ys j)
              ]) in
          rw q (all, rest)
    ]

-- A listing of peers that the store could read names exactly those of which the subscriber's link has
-- a field, in rising order and so each once.
pub link_peers-Rises :
    (store : IQueryStore) (msisdn : Bytes) {peers : List Bytes}
    → link_peers store msisdn ≡ some peers
    → (fields : List Bytes) × (store.hkeys (link_key msisdn) ≡ some fields)
      × Rises peers
      × ((peer : Bytes) → In peer peers ↔ In peer (map peer_name fields))
unfolding link_peers
link_peers-Rises store msisdn {peers} h = elim (Option-cases (store.hkeys (link_key msisdn))) [
  | inl e ↦ ground (arith, e)
  | inr (fields, e) ↦
      let names = map peer_name fields in
      let these : unique (sort text_lt names) ≡ peers = ground (arith, e) in
      (
        fields,
        e,
        subst Rises these (
            unique-Rises (sort text_lt names)
              (sort-Sorted text_lt text_lt_asym text_lt_trans names)),
        λ peer.
            let (f, g) = unique-In peer (sort text_lt names) in
            let (f', g') = sort-In peer names in
            subst (λ (ps : List Bytes). In peer ps ↔ In peer names) these
              (λ i. f' (f i), λ i. g (g' i)),
      )
]
