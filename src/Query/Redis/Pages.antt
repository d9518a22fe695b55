-- ===== src/Query/Redis/Pages.antt =====
-- A page of a board as src/query/redis_query.cpp reads it.
use cdr_processor.Base.{
  suc, All, ◌^◌, ℕ, zero, suc, ◌+◌, ◌-◌, ◌%◌, ◌≡◌, ◌≤◌, ◌<◌, ◌==◌, refl, sym, subst, ◌∙◌,
  Bool-cases, Option, some, List, [], ◌∷◌, Bytes, codes, if◌then◌else◌, u64_mod, length, take, drop,
  arith, min, inl, inr, leb, take_all, drop_all, length-drop,
}
use cdr_processor.Base.Int.{pos}
use cdr_processor.Charconv.{to_chars}
use cdr_processor.Query.Params.{QueryParams, page}
use cdr_processor.Query.Redis.{
  Element, text, Reply, array, integer, element_str, pairs, element_score, stop_index, top, command,
  to_unsigned,
}

-- Members and scores as `WITHSCORES` lists them.
unfoldable pub listed : (ℕ → Bytes) → List (Bytes × ℕ) → List Element
listed print [] = []
listed print ((member, score) ∷ rest) = text member ∷ text (print score) ∷ listed print rest

-- What the code relies on Redis for: `ZCARD` counts a board's members, and `ZREVRANGE` lists those
-- from one index to another, both included, the highest score first, where -1 is the last; an index
-- is a signed 64-bit number. `strtod` reads the scores as Redis writes them.
pub record HoldsBoard (send : List Bytes → Option Reply) (strtod : Bytes → ℕ) (print : ℕ → Bytes)
    (board : Bytes) (ranking : List (Bytes × ℕ)) : Type 0 where
  pub counted : send (codes "ZCARD" ∷ board ∷ []) ≡ some (integer (pos (length ranking)))
  pub to_last :
      (start : ℕ)
      → start < 2 ^ 63
      → send (codes "ZREVRANGE" ∷ board ∷ to_chars start ∷ codes "-1" ∷ codes "WITHSCORES" ∷ [])
        ≡ some (array (listed print (drop start ranking)))
  pub ranged :
      (start stop : ℕ)
      → start ≤ stop
      → stop < 2 ^ 63
      → send (codes "ZREVRANGE" ∷ board ∷ to_chars start ∷ to_chars stop ∷ codes "WITHSCORES" ∷ [])
        ≡ some (array (listed print (take (stop + 1 - start) (drop start ranking))))
  pub scores : All (λ entry. strtod (print entry.1) ≡ entry.1) ranking

pairs-listed :
    (strtod : Bytes → ℕ) (print : ℕ → Bytes) (ranking : List (Bytes × ℕ))
    → All (λ entry. strtod (print entry.1) ≡ entry.1) ranking
    → pairs (element_score strtod) (listed print ranking) ≡ ranking
unfolding pairs listed element_score element_str
pairs-listed strtod print [] h = refl
pairs-listed strtod print ((member, score) ∷ rest) (e, h) =
    let later = pairs-listed strtod print rest h in cc

take_nil : {A : Type 0} (n : ℕ) → take {A = A} n [] ≡ []
take_nil zero = refl
take_nil (suc n) = refl

take-min : {A : Type 0} (n : ℕ) (xs : List A) → take n xs ≡ take (min n (length xs)) xs
take-min zero xs = ground arith
take-min (suc n) [] = sym (take_nil (min (suc n) 0))
take-min (suc n) (x ∷ xs) = ground (arith, take-min n xs)

All-drop : {A : Type 0} (P : A → Type 0) (n : ℕ) (xs : List A) → All P xs → All P (drop n xs)
All-drop P zero xs h = h
All-drop P (suc n) [] h = h
All-drop P (suc n) (x ∷ xs) (p, h) = All-drop P n xs h

All-take : {A : Type 0} (P : A → Type 0) (n : ℕ) (xs : List A) → All P xs → All P (take n xs)
All-take P zero xs h = tt
All-take P (suc n) [] h = h
All-take P (suc n) (x ∷ xs) (p, h) = (p, All-take P n xs h)

-- The members that a page asks for are those of `page`.
page-range :
    {A : Type 0} (all : List A) (q : QueryParams)
    → page all q ≡ (if q.limit == 0 then drop q.offset all else take q.limit (drop q.offset all))
unfolding page
page-range all q = elim (Bool-cases (leb (length all) q.offset)) [
  | inl e ↦
      let empty = drop_all q.offset all (ground (arith, e)) in
      elim (Bool-cases (q.limit == 0)) [
        | inl f ↦ rw (page, e, f, empty) refl
        | inr f ↦ rw (page, e, f, empty) (sym (take_nil q.limit))
      ]
  | inr e ↦ elim (Bool-cases (q.limit == 0)) [
    | inl f ↦
        rw (page, e, f)
          (take_all (length all - q.offset) (drop q.offset all)
            (omega (arith, length-drop q.offset all)))
    | inr f ↦
        rw (page, e, f, sym (length-drop q.offset all)) (sym (take-min q.limit (drop q.offset all)))
  ]
]

top-replies :
    (send : List Bytes → Option Reply) (strtod : Bytes → ℕ) (board : Bytes) (offset limit n : ℕ)
    (xs : List Element)
    → n < u64_mod
    → send (codes "ZCARD" ∷ board ∷ []) ≡ some (integer (pos n))
    → send (
        codes "ZREVRANGE"
        ∷ board
        ∷ to_chars offset
        ∷ stop_index offset limit
        ∷ codes "WITHSCORES"
        ∷ [])
      ≡ some (array xs)
    → top send strtod board offset limit ≡ some (pairs (element_score strtod) xs, n)
unfolding top command to_unsigned
top-replies send strtod board offset limit n xs small e f =
    let whole : n % u64_mod ≡ n = omega (arith, small) in rw (top, e, f, whole) refl

-- On a server that holds a board, `RedisQuery::top` gives the page of the board that the parameters
-- ask for, all of it from the offset on for a limit of 0, and the number of its members, as long as
-- the page ends below 2^63.
pub top-page :
    (send : List Bytes → Option Reply) (strtod : Bytes → ℕ) (print : ℕ → Bytes) (board : Bytes)
    (ranking : List (Bytes × ℕ)) (q : QueryParams)
    → HoldsBoard send strtod print board ranking
    → length ranking < u64_mod
    → q.offset + q.limit < 2 ^ 63
    → top send strtod board q.offset q.limit ≡ some (page ranking q, length ranking)
unfolding stop_index
top-page send strtod print board ranking q h small bound = elim (Bool-cases (q.limit == 0)) [
  | inl e ↦
      let xs = drop q.offset ranking in
      let stop : stop_index q.offset q.limit ≡ codes "-1" = rw (stop_index, e) refl in
      top-replies send strtod board q.offset q.limit (length ranking) (listed print xs) small
        h.counted (rw stop (h.to_last q.offset (omega (arith, bound))))
      ∙ (let a = pairs-listed strtod print xs (All-drop _ q.offset ranking h.scores) in
          let b : page ranking q ≡ xs = page-range ranking q ∙ rw e refl in cc)
  | inr e ↦
      let last = q.offset + q.limit - 1 in
      let xs = take q.limit (drop q.offset ranking) in
      let positive : 0 < q.limit = ground (arith, e) in
      let index : (q.offset + q.limit + (u64_mod - 1)) % u64_mod ≡ last =
        omega (arith, positive, bound) in
      let stop : stop_index q.offset q.limit ≡ to_chars last = rw (stop_index, e, index) refl in
      let many : last + 1 - q.offset ≡ q.limit = omega (arith, positive) in
      let answer =
        subst
          (λ k.
            send (
              codes "ZREVRANGE"
              ∷ board
              ∷ to_chars q.offset
              ∷ to_chars last
              ∷ codes "WITHSCORES"
              ∷ [])
            ≡ some (array (listed print (take k (drop q.offset ranking)))))
          many (h.ranged q.offset last (omega (arith, positive)) (omega (arith, bound))) in
      top-replies send strtod board q.offset q.limit (length ranking) (listed print xs) small
        h.counted (rw stop answer)
      ∙ (let a =
            pairs-listed strtod print xs
              (All-take _ q.limit (drop q.offset ranking) (All-drop _ q.offset ranking h.scores)) in
          let b : page ranking q ≡ xs = page-range ranking q ∙ rw e refl in cc)
]
