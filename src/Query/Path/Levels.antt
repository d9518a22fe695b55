-- ===== src/Query/Path/Levels.antt =====
-- How far src/query/services/path_service.cpp has come on one side of its search: the subscribers
-- within a number of links, and the trail that leads back from each of them.
use cdr_processor.Base.{
  refl, ◌≡◌, ◌≤◌, ◌+◌, ◌⊎◌, inl, inr, some, none, List, [], ◌∷◌, Bytes, ℕ, zero, suc, length, find,
  arith, subst, sym, ap, true, text_eq, text_eq_iff, text_key, leb, Bool-cases,
}
use cdr_processor.Query.Links.{IQueryStore}
use cdr_processor.Query.Path.{◌+◌, length, find, ℕ, List, Bytes, Trail, climb}
use cdr_processor.Query.Path.Routes.{Reads, Linked, Steps, Connects}
use cdr_processor.Query.Path.Trails.{climb-zero, Grown, start, grow, climb-some, find-cons}

module _ (store : IQueryStore) where
  -- Who lists a peer is listed by it. The sink writes each link under both parties.
  abbrev pub TwoWay : Type 0
  TwoWay = (a b : Bytes) → Reads store a b → Reads store b a

  -- At most `n` links lead from the root to `x`.
  abbrev pub Within : Bytes → ℕ → Bytes → Type 0
  Within root zero x = root ≡ x
  Within root (suc n) x = Within root n x ⊎ ((y : Bytes) × Within root n y × Reads store y x)

  pub Within-mono : (root : Bytes) (n m : ℕ) (x : Bytes) → n ≤ m → Within root n x → Within root m x
  Within-mono root n zero x h w =
      let same : n ≡ 0 = omega arith in subst (λ (k : ℕ). Within root k x) same w
  Within-mono root n (suc m) x h w = elim (Bool-cases (leb n m)) [
    | inl q ↦ inl (Within-mono root n m x (ground arith) w)
    | inr q ↦ let same : n ≡ suc m = ground arith in subst (λ (k : ℕ). Within root k x) same w
  ]

  module _ (two_way : TwoWay) where
    Linked-Reads : (a b : Bytes) → Linked store a b → Reads store a b
    Linked-Reads a b (inl r) = r
    Linked-Reads a b (inr r) = two_way b a r

    -- The end of a route finds its start.
    Steps-Within :
        (a b : Bytes) (xs : List Bytes) (k : ℕ) → Steps store a xs b → length xs ≤ k → Within b k a
    Steps-Within a b [] k e h = Within-mono b 0 k a (omega arith) (sym e)
    Steps-Within a b (x ∷ xs) zero (l, s) h = absurd (omega arith)
    Steps-Within a b (x ∷ xs) (suc k) (l, s) h =
        inr (x, Steps-Within x b xs k s (omega arith), two_way a x (Linked-Reads a x l))

    -- A route that is no longer than both sides together has a subscriber that both reach.
    Steps-meet :
        (a b : Bytes) (d j i k : ℕ) (x : Bytes) (xs : List Bytes)
        → j + d ≡ i
        → Within a j x
        → Steps store x xs b
        → length xs ≤ d + k
        → (y : Bytes) × Within a i y × Within b k y
    Steps-meet a b zero j i k x xs e w s h =
        (x, Within-mono a j i x (omega arith) w, Steps-Within x b xs k s (omega arith))
    Steps-meet a b (suc d) j i k x [] e w s h =
        (x, Within-mono a j i x (omega arith) w, Within-mono b 0 k x (omega arith) (sym s))
    Steps-meet a b (suc d) j i k x (y ∷ xs) e w (l, s) h =
        Steps-meet a b d (suc j) i k y xs (omega arith) (inr (x, w, Linked-Reads x y l)) s
          (omega arith)

    pub Connects-meet :
        (a b : Bytes) (i k : ℕ) (route : List Bytes)
        → Connects store a route b
        → length route ≤ i + k + 1
        → (y : Bytes) × Within a i y × Within b k y
    Connects-meet a b i k [] s h = absurd s
    Connects-meet a b i k (x ∷ xs) (e, s) h =
        Steps-meet a b i 0 i k x xs (omega arith) (sym e) s (omega arith)

-- The trail leads from `x` back to the root by at most `n` of its entries.
abbrev pub Chain : Trail → Bytes → ℕ → Bytes → Type 0
Chain trail root zero x = root ≡ x
Chain trail root (suc n) x =
    Chain trail root n x ⊎ ((p : Bytes) × (find x trail ≡ some p) × Chain trail root n p)

pub Chain-cons :
    (trail : Trail) (peer node root : Bytes) (n : ℕ) (x : Bytes)
    → find peer trail ≡ none
    → Chain trail root n x
    → Chain ((peer, node) ∷ trail) root n x
Chain-cons trail peer node root zero x new e = e
Chain-cons trail peer node root (suc n) x new (inl c) =
    inl (Chain-cons trail peer node root n x new c)
Chain-cons trail peer node root (suc n) x new (inr (p, f, c)) =
    inr (p, find-cons trail peer node x new f, Chain-cons trail peer node root n p new c)

pub Grown-root :
    (store : IQueryStore) (root : Bytes) {trail : Trail}
    → Grown store root trail
    → find root trail ≡ some root
Grown-root store root start = rw ((text_eq_iff root root).1 refl)
Grown-root store root (grow {trail} {peer} {node} g new known reads) =
    find-cons trail peer node root new (Grown-root store root g)

-- The way up is as long as the chain at most.
pub climb-Chain :
    (trail : Trail) (root : Bytes) (n fuel : ℕ) (x : Bytes) {up : List Bytes}
    → find root trail ≡ some root
    → Chain trail root n x
    → climb fuel trail x ≡ some up
    → length up ≤ n + 1
climb-Chain trail root n zero x r c h = absurd (climb-zero trail x h)
climb-Chain trail root zero (suc fuel) x {up} r c h =
    let (p, found, cases) = climb-some fuel trail x h in
    let same : root ≡ p = cc in
    elim cases [
      | inl (q, u) ↦ omega (arith, ap length u)
      | inr (q, rest, run, u) ↦
          let stop : text_eq p x ≡ true = (text_eq_iff p x).1 cc in ground (arith, stop, q)
    ]
climb-Chain trail root (suc n) (suc fuel) x r (inl c) h =
    let short = climb-Chain trail root n (suc fuel) x r c h in omega (arith, short)
climb-Chain trail root (suc n) (suc fuel) x {up} r (inr (p', f, c)) h =
    let (p, found, cases) = climb-some fuel trail x h in
    let same : p' ≡ p = cc in
    elim cases [
      | inl (q, u) ↦ omega (arith, ap length u)
      | inr (q, rest, run, u) ↦
          let short = climb-Chain trail root n fuel p r (subst (Chain trail root n) same c) run in
          omega (arith, short, ap length u)
    ]
