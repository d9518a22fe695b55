-- ===== src/Query/Path/Hops.antt =====
-- One hop of the search of src/query/services/path_service.cpp: the side that it expands knows the
-- subscribers within one link more.
use cdr_processor.Base.{
  ◌≡◌, ◌∙◌, ◌⊎◌, inl, inr, none, List, [], ◌∷◌, ◌++◌, Bytes, ℕ, zero, suc, find, subst, sym, ap,
  text_eq, text_eq_iff, text_key, Bool-cases, All, All-append, In, In-append_left, In-append_right,
}
use cdr_processor.Query.Links.{IQueryStore}
use cdr_processor.Query.Path.{Trail}
use cdr_processor.Query.Path.Routes.{Reads}
use cdr_processor.Query.Path.Trails.{Has, Has-cons, Grown, grow}
use cdr_processor.Query.Path.Search.{All-Has-cons, Has-new}
use cdr_processor.Query.Path.Levels.{Grown-root, Within, Chain, Chain-cons}

-- No subscriber is on both trails.
abbrev pub Apart : Trail → Trail → Type 0
Apart seen other = (x : Bytes) → Has seen x → Has other x → ⊥

-- What a longer trail knows is the new entry's or the old trail's.
pub Has-uncons :
    (trail : Trail) (peer node x : Bytes) → Has ((peer, node) ∷ trail) x → (peer ≡ x) ⊎ Has trail x
Has-uncons trail peer node x (p, e) = elim (Bool-cases (text_eq peer x)) [
  | inl q ↦ inl ((text_eq_iff peer x).0 q)
  | inr q ↦ inr (p, rw (← e, q))
]

pub Apart-cons :
    (seen other : Trail) (peer node : Bytes)
    → find peer other ≡ none
    → Apart seen other
    → Apart ((peer, node) ∷ seen) other
Apart-cons seen other peer node f apart x h (o, k) = elim (Has-uncons seen peer node x h) [
  | inl e ↦ let hidden = ap (λ (b : Bytes). find b other) e in cc
  | inr old ↦ apart x old (o, k)
]

module _ (store : IQueryStore) (root : Bytes) where
  -- Every peer of the subscriber is known.
  abbrev pub Closed : Trail → Bytes → Type 0
  Closed seen x = (y : Bytes) → Reads store x y → Has seen y

  -- A side between two hops: it knows those within `n` links, and the frontier is all of them that
  -- may have a peer it does not know.
  pub record Level (n : ℕ) (seen : Trail) (frontier : List Bytes) : Type 0 where
    pub grown : Grown store root seen
    pub reached : (x : Bytes) → Within store root n x → Chain seen root n x
    pub known : (x : Bytes) → Has seen x → Within store root n x
    pub edge : (x : Bytes) → Has seen x → In x frontier ⊎ Closed seen x
    pub front : All (Has seen) frontier

  -- A side within a hop: `olds` are left to expand, `news` came in.
  pub record Midway (n : ℕ) (seen : Trail) (olds news : List Bytes) : Type 0 where
    pub grown : Grown store root seen
    pub reached : (x : Bytes) → Within store root n x → Chain seen root n x
    pub known :
        (x : Bytes)
        → Has seen x
        → Within store root n x
          ⊎ (In x news × Chain seen root (suc n) x × Within store root (suc n) x)
    pub edge : (x : Bytes) → Within store root n x → In x olds ⊎ Closed seen x
    pub front : All (Has seen) news

  Closed-cons :
      (seen : Trail) (peer node x : Bytes) → Closed seen x → Closed ((peer, node) ∷ seen) x
  Closed-cons seen peer node x c y r = Has-cons seen peer node y (c y r)

  pub Chain-Has :
      (seen : Trail) (n : ℕ) (x : Bytes) → Grown store root seen → Chain seen root n x → Has seen x
  Chain-Has seen zero x g e =
      (root, ap (λ (b : Bytes). find b seen) (sym e) ∙ Grown-root store root g)
  Chain-Has seen (suc n) x g (inl c) = Chain-Has seen n x g c
  Chain-Has seen (suc n) x g (inr (p, f, c)) = (p, f)

  pub Level-Midway :
      (n : ℕ) (seen : Trail) (frontier : List Bytes)
      → Level n seen frontier
      → Midway n seen frontier []
  Level-Midway n seen frontier l = record {
    grown = l.grown;
    reached = l.reached;
    known = λ x h. inl (l.known x h);
    edge = λ x w. l.edge x (Chain-Has seen n x l.grown (l.reached x w));
    front = tt;
  }

  -- With no subscriber left to expand the hop is over.
  pub Midway-Level :
      (n : ℕ) (seen : Trail) (news : List Bytes) → Midway n seen [] news → Level (suc n) seen news
  Midway-Level n seen news m = record {
    grown = m.grown;
    reached = reached_next;
    front = m.front;
    known = λ x h. elim (m.known x h) [ inl w ↦ inl w | inr (_, _, w) ↦ w ];
    edge = λ x h. elim (m.known x h) [ inl w ↦ inr (closed x w) | inr (i, _, _) ↦ inl i ];
  }
    where
      closed : (x : Bytes) → Within store root n x → Closed seen x
      closed x w = elim (m.edge x w) [ inl i ↦ absurd i | inr c ↦ c ]

      reached_next : (x : Bytes) → Within store root (suc n) x → Chain seen root (suc n) x
      reached_next x (inl w) = inl (m.reached x w)
      reached_next x (inr (y, w, r)) = elim (m.known x (closed y w x r)) [
        | inl v ↦ inl (m.reached x v)
        | inr (_, c, _) ↦ c
      ]

  -- A new peer of a subscriber on the old level.
  pub Midway-cons :
      (n : ℕ) (seen : Trail) (olds news : List Bytes) (peer node : Bytes)
      → find peer seen ≡ none
      → Within store root n node
      → Reads store node peer
      → Midway n seen olds news
      → Midway n ((peer, node) ∷ seen) olds (news ++ peer ∷ [])
  Midway-cons n seen olds news peer node new w r m = record {
    grown = grow m.grown new (Chain-Has seen n node m.grown (m.reached node w)) r;
    reached = λ x v. Chain-cons seen peer node root n x new (m.reached x v);
    known = known_next;
    front = front_next;
    edge =
        λ x v. elim (m.edge x v) [ inl i ↦ inl i | inr c ↦ inr (Closed-cons seen peer node x c) ];
  }
    where
      chain : Chain ((peer, node) ∷ seen) root n node
      chain = Chain-cons seen peer node root n node new (m.reached node w)

      front_next : All (Has ((peer, node) ∷ seen)) (news ++ peer ∷ [])
      front_next =
          All-append (Has ((peer, node) ∷ seen)) news (peer ∷ [])
            (All-Has-cons store seen peer node news m.front) (Has-new store seen peer node, tt)

      known_next :
          (x : Bytes)
          → Has ((peer, node) ∷ seen) x
          → Within store root n x
            ⊎ (In x (news ++ peer ∷ [])
                × Chain ((peer, node) ∷ seen) root (suc n) x
                × Within store root (suc n) x)
      known_next x h = elim (Has-uncons seen peer node x h) [
        | inl e ↦ inr (
          In-append_right x news (peer ∷ []) (inl e),
          inr (node, rw ((text_eq_iff peer x).1 e), chain),
          inr (node, w, subst (Reads store node) e r),
        )
        | inr old ↦ elim (m.known x old) [
          | inl v ↦ inl v
          | inr (i, c, v) ↦ inr (
            In-append_left x news (peer ∷ []) i,
            Chain-cons seen peer node root (suc n) x new c,
            v,
          )
        ]
      ]

  -- A subscriber whose peers are known is done with.
  pub Midway-done :
      (n : ℕ) (seen : Trail) (node : Bytes) (olds news : List Bytes)
      → Closed seen node
      → Midway n seen (node ∷ olds) news
      → Midway n seen olds news
  Midway-done n seen node olds news closed m = record {
    grown = m.grown;
    reached = m.reached;
    known = m.known;
    front = m.front;
    edge = λ x w. elim (m.edge x w) [
      | inl (inl e) ↦ inr (subst (Closed seen) e closed)
      | inl (inr i) ↦ inl i
      | inr c ↦ inr c
    ];
  }
