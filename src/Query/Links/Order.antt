-- ===== src/Query/Links/Order.antt =====
-- The order of the peers of src/query/links.cpp.
use mathlib.Core.List.{Perm}
use mathlib.Core.List.Perm as Perm
use cdr_processor.Base.{
  ◌≡◌, ◌⊎◌, ◌<◌, ℕ, refl, inl, inr, Bool, true, false, Bool-cases, List, [], ◌∷◌, All, arith, Bytes,
}
use cdr_processor.Query.Params.{Sort, duration, sms}
use cdr_processor.Query.Links.{
  insert, sort, text_lt, Peer, primary, secondary, ranks_before, order_peers,
}

module _ {A : Type 0} (before : A → A → Bool) where
  -- No entry comes before one that stands ahead of it.
  abbrev pub Sorted : List A → Type 0
  Sorted [] = Unit
  Sorted (x ∷ xs) = All (λ y. before y x ≡ false) xs × Sorted xs

  insert-Perm : (a : A) (xs : List A) → Perm (insert before a xs) (a ∷ xs)
  unfolding insert
  insert-Perm a [] = Perm.refl (a ∷ [])
  insert-Perm a (x ∷ xs) = elim (Bool-cases (before x a)) [
    | inl q ↦ rw q (Perm.trans (Perm.cons x (insert-Perm a xs)) (Perm.swap a x xs))
    | inr q ↦ rw q (Perm.refl (a ∷ x ∷ xs))
  ]

  sort-Perm : (xs : List A) → Perm (sort before xs) xs
  unfolding sort
  sort-Perm [] = Perm.refl []
  sort-Perm (x ∷ xs) = Perm.trans (insert-Perm x (sort before xs)) (Perm.cons x (sort-Perm xs))

  module _ (asym : (a b : A) → before a b ≡ true → before b a ≡ false)
      (trans : (a b c : A) → before a b ≡ false → before b c ≡ false → before a c ≡ false) where
    insert-All :
        (x a : A) (xs : List A)
        → before a x ≡ false
        → All (λ y. before y x ≡ false) xs
        → All (λ y. before y x ≡ false) (insert before a xs)
    unfolding insert
    insert-All x a [] h hs = (h, tt)
    insert-All x a (y ∷ ys) h (g, gs) = elim (Bool-cases (before y a)) [
      | inl q ↦ rw q (g, insert-All x a ys h gs)
      | inr q ↦ rw q (h, (g, gs))
    ]

    All-further :
        (x a : A) (xs : List A)
        → before x a ≡ false
        → All (λ y. before y x ≡ false) xs
        → All (λ y. before y a ≡ false) xs
    All-further x a [] h hs = tt
    All-further x a (y ∷ ys) h (g, gs) = (trans y x a g h, All-further x a ys h gs)

    insert-Sorted : (a : A) (xs : List A) → Sorted xs → Sorted (insert before a xs)
    unfolding insert
    insert-Sorted a [] h = (tt, tt)
    insert-Sorted a (x ∷ xs) (h, hs) = elim (Bool-cases (before x a)) [
      | inl q ↦ rw q (insert-All x a xs (asym x a q) h, insert-Sorted a xs hs)
      | inr q ↦ rw q ((q, All-further x a xs q h), (h, hs))
    ]

    pub sort-Sorted : (xs : List A) → Sorted (sort before xs)
    unfolding sort
    sort-Sorted [] = tt
    sort-Sorted (x ∷ xs) = insert-Sorted x (sort before xs) (sort-Sorted xs)

pub text_lt_asym : (s t : Bytes) → text_lt s t ≡ true → text_lt t s ≡ false
unfolding text_lt
text_lt_asym [] [] h = refl
text_lt_asym [] (b ∷ t) h = refl
text_lt_asym (a ∷ s) [] h = ground arith
text_lt_asym (a ∷ s) (b ∷ t) h = ground (arith, text_lt_asym s t)

pub text_lt_trans :
    (s t r : Bytes) → text_lt s t ≡ false → text_lt t r ≡ false → text_lt s r ≡ false
unfolding text_lt
text_lt_trans [] t [] h g = refl
text_lt_trans (a ∷ s) t [] h g = refl
text_lt_trans [] [] (c ∷ r) h g = ground arith
text_lt_trans [] (b ∷ t) (c ∷ r) h g = ground arith
text_lt_trans (a ∷ s) [] (c ∷ r) h g = ground arith
text_lt_trans (a ∷ s) (b ∷ t) (c ∷ r) h g = ground (arith, text_lt_trans s t r)

ranks_before_asym :
    (by : Sort) (p q : Peer) → ranks_before by p q ≡ true → ranks_before by q p ≡ false
unfolding ranks_before
ranks_before_asym by p q h = ground (arith, text_lt_asym p.msisdn q.msisdn)

ranks_before_trans :
    (by : Sort) (p q r : Peer)
    → ranks_before by p q ≡ false
    → ranks_before by q r ≡ false
    → ranks_before by p r ≡ false
unfolding ranks_before
ranks_before_trans by p q r h g = ground (arith, text_lt_trans p.msisdn q.msisdn r.msisdn)

-- One number is above another, or they are the same and what decides then holds.
abbrev pub Above : ℕ → ℕ → Type 0 → Type 0
Above m n Then = (n < m) ⊎ ((m ≡ n) × Then)

-- A peer may stand ahead of another: by duration, it has more of it, or as much and more messages, or
-- as much of both and a name that is not after the other's; by messages, the other way round.
abbrev pub StandsAhead : Sort → Peer → Peer → Type 0
StandsAhead duration p q =
    Above p.duration q.duration (Above p.sms q.sms (text_lt q.msisdn p.msisdn ≡ false))
StandsAhead sms p q =
    Above p.sms q.sms (Above p.duration q.duration (text_lt q.msisdn p.msisdn ≡ false))

-- Each may stand ahead of all that come after it.
abbrev pub Descends : Sort → List Peer → Type 0
Descends by [] = Unit
Descends by (p ∷ ps) = All (StandsAhead by p) ps × Descends by ps

ranks_before-StandsAhead :
    (by : Sort) (p q : Peer) → ranks_before by q p ≡ false → StandsAhead by p q
unfolding ranks_before primary secondary
ranks_before-StandsAhead duration p q h = ground (arith, h)
ranks_before-StandsAhead sms p q h = ground (arith, h)

All-StandsAhead :
    (by : Sort) (p : Peer) (ps : List Peer)
    → All (λ q. ranks_before by q p ≡ false) ps
    → All (StandsAhead by p) ps
All-StandsAhead by p [] h = tt
All-StandsAhead by p (q ∷ qs) (h, hs) =
    (ranks_before-StandsAhead by p q h, All-StandsAhead by p qs hs)

Sorted-Descends : (by : Sort) (ps : List Peer) → Sorted (ranks_before by) ps → Descends by ps
Sorted-Descends by [] h = tt
Sorted-Descends by (p ∷ ps) (h, hs) = (All-StandsAhead by p ps h, Sorted-Descends by ps hs)

-- Ordering peers by duration keeps each of them and puts them in descending order of duration, those
-- of the same duration in descending order of messages, and those of the same of both by name;
-- ordering them by messages, the two numbers change places.
pub order_peers-Sorted :
    (by : Sort) (peers : List Peer)
    → Perm (order_peers peers by) peers × Descends by (order_peers peers by)
unfolding order_peers
order_peers-Sorted by peers = (
  sort-Perm (ranks_before by) peers,
  Sorted-Descends by (order_peers peers by)
      (sort-Sorted (ranks_before by) (ranks_before_asym by) (ranks_before_trans by) peers),
)
