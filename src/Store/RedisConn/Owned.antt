-- ===== src/Store/RedisConn/Owned.antt =====
-- Who owns the contexts of src/store/redis_conn.cpp, and how its attempts are spaced.
use cdr_processor.Base.{
  ℕ, ◌+◌, ◌≤◌, ◌≡◌, ltb, Bool, Option, none, some, Option-cases, Bool-cases, List, [], ◌∷◌, ◌++◌,
  ◌⊎◌, inl, inr, refl, arith, subst, append-nil,
}
use mathlib.Core.List.{Perm, perm_middle}
use mathlib.Core.List.Perm as Perm
use cdr_processor.Ingest.Backoff.{longer, longer-bounds}
use cdr_processor.Store.RedisConn.{
  Try, Holder, Ledger, Call, got, dropped, drop, failed, connected, reopen, get, calls, new_holder,
  new_ledger, backoff_min, backoff_max,
}

-- The earliest time of the next attempt is 100 to 5000 ms after one that failed.
abbrev pub Delays : Try → Type 0
Delays t = elim t.again [
  | none ↦ Unit
  | some again ↦ (t.ended + backoff_min ≤ again) × (again ≤ t.ended + backoff_max)
]

-- An attempt that failed and a time at which the thread tries again.
abbrev pub Allows : Try → ℕ → Type 0
Allows t now = elim t.again [ none ↦ Unit | some again ↦ again ≤ now ]

-- The attempts, the last first: each waits for what the one before it set.
unfoldable pub Spaced : List Try → Type 0
Spaced [] = Unit
Spaced (t ∷ ts) = Delays t × elim ts [ [] ↦ Unit | before ∷ _ ↦ Allows before t.began ] × Spaced ts

-- The time of the last attempt is the one that the holder keeps.
unfoldable pub Waits : ℕ → List Try → Type 0
Waits next [] = Unit
Waits next (t ∷ ts) = Allows t next

module _ {C : Type 0} where
  abbrev pub held_list : Option C → List C
  held_list none = []
  held_list (some c) = c ∷ []

  -- Each context made has been freed or is the one held, once; the attempts are spaced.
  pub record IsOwned (s : Holder C × Ledger C) : Type 0 where
    pub owned : Perm s.1.made (s.1.freed ++ held_list s.0.ctx)
    pub spaced : Spaced s.1.tries
    pub waits : Waits s.0.next_try s.1.tries
    pub delay : (s.0.delay_ms ≡ 0) ⊎ (backoff_min ≤ s.0.delay_ms)

  drop-IsOwned :
      (held : Holder C) (l : Ledger C)
      → IsOwned (held, l)
      → IsOwned (drop (held, l)) × ((drop (held, l)).0.ctx ≡ none)
  unfolding drop
  drop-IsOwned held l o = elim (Option-cases held.ctx) [
    | inl e ↦ rw (drop, e) (o, e)
    | inr (c, e) ↦
        let all : Perm l.made (l.freed ++ c ∷ []) =
          subst (λ x. Perm l.made (l.freed ++ held_list x)) e o.owned in
        rw (drop, e)
          (
            record {
              owned = Perm.trans all (
                  Perm.trans (perm_middle l.freed [])
                    (rw (append-nil l.freed) (Perm.refl (c ∷ l.freed))));
              spaced = o.spaced;
              waits = o.waits;
              delay = o.delay;
            },
            refl,
          )
  ]

  -- What an attempt that begins in time adds.
  Spaced-more :
      (now : ℕ) (t : Try) (held : Holder C) (l : Ledger C)
      → t.began ≡ now
      → held.next_try ≤ now
      → Delays t
      → IsOwned (held, l)
      → Spaced (t ∷ l.tries)
  unfolding Spaced Waits
  Spaced-more now t held l began after d o = (d, go l.tries o.waits, o.spaced)
    where
      go :
          (ts : List Try)
          → Waits held.next_try ts
          → elim ts as (λ _. Type 0) [ [] ↦ Unit | before ∷ _ ↦ Allows before t.began ]
      go [] w = tt
      go (before ∷ _) w = elim (Option-cases before.again) [
        | inl e ↦ rw e tt
        | inr (again, e) ↦
            let waited : again ≤ held.next_try =
              subst (λ a. elim a as (λ _. Type 0) [ none ↦ Unit | some x ↦ x ≤ held.next_try ]) e
                w in
            rw e (omega (arith, waited, after, began))
      ]

  failed-IsOwned :
      (now later : ℕ) (left : Option C) (held : Holder C) (l : Ledger C)
      → held.ctx ≡ none
      → held.next_try ≤ now
      → IsOwned (held, l)
      → IsOwned (failed now later left (held, l))
  unfolding failed Waits
  failed-IsOwned now later left held l e after o =
      let (low, high) = longer-bounds backoff_min backoff_max held.delay_ms (omega arith) o.delay in
      let again = later + longer backoff_min backoff_max held.delay_ms in
      let spaced =
        Spaced-more now (record { began = now; ended = later; again = some again }) held l refl
          after (omega (arith, low), omega (arith, high)) o in
      go left low spaced
    where
      go :
          (left : Option C)
          → backoff_min ≤ longer backoff_min backoff_max held.delay_ms
          → Spaced (
              record {
                began = now;
                ended = later;
                again = some (later + longer backoff_min backoff_max held.delay_ms);
              }
              ∷ l.tries)
          → IsOwned (failed now later left (held, l))
      go none low spaced = record {
        owned = o.owned;
        spaced = spaced;
        waits = omega arith;
        delay = inr low;
      }
      go (some c) low spaced = record {
        owned = Perm.cons c o.owned;
        spaced = spaced;
        waits = omega arith;
        delay = inr low;
      }

  connected-IsOwned :
      (now later : ℕ) (c : C) (held : Holder C) (l : Ledger C)
      → held.ctx ≡ none
      → held.next_try ≤ now
      → IsOwned (held, l)
      → IsOwned (connected now later c (held, l))
  unfolding connected Waits
  connected-IsOwned now later c held l e after o =
      let all : Perm l.made (l.freed ++ []) =
        subst (λ x. Perm l.made (l.freed ++ held_list x)) e o.owned in
      record {
        owned = Perm.trans (Perm.cons c all) (Perm.symm (perm_middle l.freed []));
        spaced =
            Spaced-more now (record { began = now; ended = later; again = none }) held l refl after
              tt o;
        waits = tt;
        delay = inl refl;
      }

  reopen-IsOwned :
      (err : C → Bool) (now later : ℕ) (made : Option C) (held : Holder C) (l : Ledger C)
      → held.ctx ≡ none
      → IsOwned (held, l)
      → IsOwned ((reopen err now later made (held, l)).1, (reopen err now later made (held, l)).2)
  unfolding reopen
  reopen-IsOwned err now later none held l e o = elim (Bool-cases (ltb now held.next_try)) [
    | inl early ↦ rw (reopen, early) o
    | inr late ↦ rw (reopen, late) (failed-IsOwned now later none held l e (ground arith) o)
  ]
  reopen-IsOwned err now later (some c) held l e o = elim (Bool-cases (ltb now held.next_try)) [
    | inl early ↦ rw (reopen, early) o
    | inr late ↦ elim (Bool-cases (err c)) [
      | inl bad ↦
          rw (reopen, late, bad) (failed-IsOwned now later (some c) held l e (ground arith) o)
      | inr good ↦ rw (reopen, late, good) (connected-IsOwned now later c held l e (ground arith) o)
    ]
  ]

  get-IsOwned :
      (err : C → Bool) (now later : ℕ) (made : Option C) (held : Holder C) (l : Ledger C)
      → IsOwned (held, l)
      → IsOwned ((get err now later made (held, l)).1, (get err now later made (held, l)).2)
  unfolding get
  get-IsOwned err now later made held l o =
      let (fresh, empty) = drop-IsOwned held l o in
      let anew =
        reopen-IsOwned err now later made (drop (held, l)).0 (drop (held, l)).1 empty fresh in
      elim (Option-cases held.ctx) [
        | inl e ↦ rw (get, e) anew
        | inr (c, e) ↦ elim (Bool-cases (err c)) [
          | inl bad ↦ rw (get, e, bad) anew
          | inr good ↦ rw (get, e, good) o
        ]
      ]

  calls-keep :
      (cs : List (Call C)) (held : Holder C) (l : Ledger C)
      → IsOwned (held, l)
      → IsOwned (calls cs (held, l))
  unfolding calls
  calls-keep [] held l o = o
  calls-keep (got err now later made ∷ cs) held l o =
      calls-keep cs _ _ (get-IsOwned err now later made held l o)
  calls-keep (dropped ∷ cs) held l o = calls-keep cs _ _ (drop-IsOwned held l o).0

-- Whatever a thread calls, each context that it was given by the library has been freed once or is
-- the one it holds; after an attempt that failed the next one begins 100 to 5000 ms later at the
-- earliest, and never before.
pub calls-IsOwned : {C : Type 0} (cs : List (Call C)) → IsOwned (calls cs (new_holder, new_ledger))
unfolding Spaced Waits
calls-IsOwned cs =
    calls-keep cs new_holder new_ledger
      (record { owned = Perm.refl []; spaced = tt; waits = tt; delay = inl refl })
