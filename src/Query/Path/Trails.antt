-- ===== src/Query/Path/Trails.antt =====
-- Trails of src/query/services/path_service.cpp, and the walk over two of them.
use mathlib.Core.List.{reverse_aux-eq}
use cdr_processor.Base.{
  subst, ℕ, zero, suc, ◌≡◌, refl, sym, ◌∙◌, ap, ◌⊎◌, inl, inr, Option-cases, Bool-cases, some, none,
  List, [], ◌∷◌, ◌++◌, reverse, Bytes, arith, length, find, text_eq, text_eq_iff, text_key, true,
  false,
}
use cdr_processor.Query.Links.{IQueryStore}
use cdr_processor.Query.Path.{Trail, climb, descend, walk}
use cdr_processor.Query.Path.Routes.{Reads, Steps, Connects, reverse_aux-Connects}

-- The trail knows the subscriber.
abbrev pub Has : Trail → Bytes → Type 0
Has trail node = (parent : Bytes) × (find node trail ≡ some parent)

module _ (store : IQueryStore) (root : Bytes) where
  -- How one side of the search comes to its trail: from the root alone, by subscribers that are new
  -- and that the store lists among the peers of one that is known.
  pub data Grown : Trail → Type 0 where
    start : Grown ((root, root) ∷ [])
    grow :
        {trail : Trail} {peer node : Bytes}
        → Grown trail
        → find peer trail ≡ none
        → Has trail node
        → Reads store node peer
        → Grown ((peer, node) ∷ trail)

pub Has-cons : (trail : Trail) (peer node n : Bytes) → Has trail n → Has ((peer, node) ∷ trail) n
Has-cons trail peer node n (parent, e) = elim (Bool-cases (text_eq peer n)) [
  | inl q ↦ (node, rw q)
  | inr q ↦ (parent, rw q e)
]

pub climb-zero : (trail : Trail) (n : Bytes) {up : List Bytes} → climb zero trail n ≡ some up → ⊥
unfolding climb
climb-zero trail n h = cc

-- One round of the first loop of `walk` that goes well.
pub climb-some :
    (fuel : ℕ) (trail : Trail) (n : Bytes) {up : List Bytes}
    → climb (suc fuel) trail n ≡ some up
    → (p : Bytes) × (find n trail ≡ some p)
      × (((text_eq p n ≡ true) × (up ≡ n ∷ []))
          ⊎ ((text_eq p n ≡ false)
              × (rest : List Bytes) × (climb fuel trail p ≡ some rest)
              × (up ≡ n ∷ rest)))
unfolding climb
climb-some fuel trail n {up} h = elim (Option-cases (find n trail)) [
  | inl e ↦ ground arith
  | inr (p, e) ↦ elim (Bool-cases (text_eq p n)) [
    | inl q ↦ (p, e, inl (q, ground arith))
    | inr q ↦ elim (Option-cases (climb fuel trail p)) [
      | inl f ↦ ground arith
      | inr (rest, f) ↦ (p, e, inr (q, rest, f, ground arith))
    ]
  ]
]

climb-root :
    (fuel : ℕ) (trail : Trail) (n p : Bytes)
    → find n trail ≡ some p
    → text_eq p n ≡ true
    → climb (suc fuel) trail n ≡ some (n ∷ [])
unfolding climb
climb-root fuel trail n p e q = rw (e, q)

climb-up :
    (fuel : ℕ) (trail : Trail) (n p : Bytes) {rest : List Bytes}
    → find n trail ≡ some p
    → text_eq p n ≡ false
    → climb fuel trail p ≡ some rest
    → climb (suc fuel) trail n ≡ some (n ∷ rest)
unfolding climb
climb-up fuel trail n p e q f = rw (e, q, f)

-- A new entry does not hide one that stands behind it.
pub find-cons :
    (trail : Trail) (peer node n : Bytes) {p : Bytes}
    → find peer trail ≡ none
    → find n trail ≡ some p
    → find n ((peer, node) ∷ trail) ≡ some p
find-cons trail peer node n new e = ground (arith, text_eq_iff peer n)

-- A subscriber that the trail does not know is not on the way up from one that it knows.
climb-cons :
    (fuel : ℕ) (trail : Trail) (peer node n : Bytes) {up : List Bytes}
    → find peer trail ≡ none
    → climb fuel trail n ≡ some up
    → climb fuel ((peer, node) ∷ trail) n ≡ some up
climb-cons zero trail peer node n new h = absurd (climb-zero trail n h)
climb-cons (suc fuel) trail peer node n new h =
    let (p, found, cases) = climb-some fuel trail n h in
    let found' = find-cons trail peer node n new found in
    elim cases [
      | inl (q, u) ↦ climb-root fuel ((peer, node) ∷ trail) n p found' q ∙ ap some (sym u)
      | inr (q, rest, c, u) ↦
          climb-up fuel ((peer, node) ∷ trail) n p found' q
            (climb-cons fuel trail peer node p new c)
          ∙ ap some (sym u)
    ]

climb-suc :
    (fuel : ℕ) (trail : Trail) (n : Bytes) {up : List Bytes}
    → climb fuel trail n ≡ some up
    → climb (suc fuel) trail n ≡ some up
climb-suc zero trail n h = absurd (climb-zero trail n h)
climb-suc (suc fuel) trail n h =
    let (p, found, cases) = climb-some fuel trail n h in
    elim cases [
      | inl (q, u) ↦ climb-root (suc fuel) trail n p found q ∙ ap some (sym u)
      | inr (q, rest, c, u) ↦
          climb-up (suc fuel) trail n p found q (climb-suc fuel trail p c) ∙ ap some (sym u)
    ]

-- Away from the end of the path so far, the second loop goes as the first.
descend-climb :
    (fuel : ℕ) (trail : Trail) (back n : Bytes)
    → text_eq n back ≡ false
    → descend fuel trail back n ≡ climb fuel trail n
unfolding climb descend
descend-climb zero trail back n away = refl
descend-climb (suc fuel) trail back n away = elim (Option-cases (find n trail)) [
  | inl e ↦ rw (away, e)
  | inr (p, e) ↦ elim (Bool-cases (text_eq p n)) [
    | inl q ↦ rw (away, e, q)
    | inr q ↦ rw (away, e, q, descend-climb fuel trail n p q)
  ]
]

descend-stop :
    (fuel : ℕ) (trail : Trail) (back n : Bytes)
    → text_eq n back ≡ true
    → descend (suc fuel) trail back n ≡ some []
unfolding descend
descend-stop fuel trail back n q = rw q

pub descend-up :
    (fuel : ℕ) (trail : Trail) (n p : Bytes) {up : List Bytes}
    → find n trail ≡ some p
    → climb fuel trail n ≡ some (n ∷ up)
    → descend (suc fuel) trail n p ≡ some up
descend-up zero trail n p e h = absurd (climb-zero trail n h)
descend-up (suc fuel) trail n p {up} e h =
    let (r, found, cases) = climb-some fuel trail n h in
    let same : p ≡ r = cc in
    elim cases [
      | inl (q, u) ↦
          let none_left : [] ≡ up = cc in
          descend-stop (suc fuel) trail n p (rw same q) ∙ ap some none_left
      | inr (q, rest, c, u) ↦
          let those_left : rest ≡ up = cc in
          let run : climb fuel trail p ≡ some rest = rw same c in
          descend-climb (suc (suc fuel)) trail n p (rw same q)
          ∙ climb-suc (suc fuel) trail p (climb-suc fuel trail p run)
          ∙ ap some those_left
    ]

apart :
    (trail : Trail) (peer node n : Bytes)
    → find peer trail ≡ none
    → Has trail node
    → peer ≡ n
    → text_eq node n ≡ false
apart trail peer node n new (p, known) same = elim (Bool-cases (text_eq node n)) [
  | inr q ↦ q
  | inl q ↦
      let back : node ≡ peer = (text_eq_iff node n).0 q ∙ sym same in
      let hidden = ap (λ (b : Bytes). find b trail) back ∙ new in ground (arith, hidden, known)
]

module _ (store : IQueryStore) (root : Bytes) where
  -- From each subscriber that a trail knows there is a way up, of at most the trail's size, and
  -- each step of it is a link.
  pub climb-Steps :
      {trail : Trail} (n : Bytes)
      → Grown store root trail
      → Has trail n
      → (up : List Bytes) × (climb (length trail) trail n ≡ some (n ∷ up)) × Steps store n up root
  climb-Steps n start (p, e) = elim (Bool-cases (text_eq root n)) [
    | inl q ↦ ([], climb-root 0 ((root, root) ∷ []) n root (rw q) q, sym ((text_eq_iff root n).0 q))
    | inr q ↦ ground arith
  ]
  climb-Steps n (grow {trail} {peer} {node} g new known reads) (p, e) =
      elim (Bool-cases (text_eq peer n)) [
        | inl q ↦
            let same = (text_eq_iff peer n).0 q in
            let (up, run, steps) = climb-Steps node g known in
            (
              node ∷ up,
              climb-up (length trail) ((peer, node) ∷ trail) n node (rw q)
                  (apart trail peer node n new known same)
                  (climb-cons (length trail) trail peer node node new run),
              (inr (subst (Reads store node) same reads), steps),
            )
        | inr q ↦
            let (up, run, steps) = climb-Steps n g (p, rw (← e, q)) in
            (
              up,
              climb-suc (length trail) ((peer, node) ∷ trail) n
                  (climb-cons (length trail) trail peer node n new run),
              steps,
            )
      ]

  -- The second loop of `walk` goes the way up, less its first subscriber.
  descend-Steps :
      {trail : Trail} (n p : Bytes)
      → Grown store root trail
      → find n trail ≡ some p
      → (up : List Bytes) × (descend (suc (length trail)) trail n p ≡ some up)
        × Steps store n up root
  descend-Steps {trail} n p g e =
      let (up, run, steps) = climb-Steps n g (p, e) in
      (up, descend-up (length trail) trail n p e run, steps)

-- Over two trails that both know a subscriber the walk comes to an end, and the route that it gives
-- connects their roots.
pub walk-Connects :
    (store : IQueryStore) (a b : Bytes) {head tail : Trail} (meet : Bytes)
    → Grown store a head
    → Grown store b tail
    → Has head meet
    → Has tail meet
    → (route : List Bytes) × (walk head tail meet ≡ some route) × Connects store a route b
unfolding walk
walk-Connects store a b {head} {tail} meet g h (p, e) (q, f) =
    let (up, run, steps) = climb-Steps store a meet g (p, e) in
    let (down, run', steps') = descend-Steps store b meet q h f in
    (
      reverse (meet ∷ up) ++ down,
      rw (run, f, run'),
      subst (λ (r : List Bytes). Connects store a r b) (reverse_aux-eq (meet ∷ up) down)
          (reverse_aux-Connects store meet a b up down steps steps'),
    )
