-- ===== src/Base/Text.antt =====
-- Texts as lists of bytes.
use Prim.Native.Nat.{ℕ}
use Prim.Native.Char.{code}
use Prim.Native.String.{String}
use mathlib.Core.Path.{◌≡◌, refl}
use mathlib.Core.Logic.{◌↔◌, ◌≢◌, inl, inr}
use mathlib.Core.Bool.{Bool, true, false, ◌&&◌}
use mathlib.Core.List.{List, [], ◌∷◌, ◌++◌}
use mathlib.Core.Option
use mathlib.Core.Option.{Option, none, some}
use native.Mathlib.Omega.{arith}
use cdr_processor.Base.Tests.{◌==◌, if◌then◌else◌, Option-cases}
use cdr_processor.Base.Lists.{All}

abbrev pub Bytes : Type 0
Bytes = List ℕ

-- The code points of a literal: its bytes, as the source's literals are ASCII.
abbrev pub codes : String → Bytes
codes String.[] = []
codes (String.◌∷◌ c s) = code c ∷ codes s

abbrev pub text_eq : Bytes → Bytes → Bool
text_eq [] [] = true
text_eq [] (_ ∷ _) = false
text_eq (_ ∷ _) [] = false
text_eq (a ∷ s) (b ∷ t) = (a == b) && text_eq s t

pub text_eq_iff : (s t : Bytes) → (text_eq s t ≡ true) ↔ (s ≡ t)
text_eq_iff [] [] = ground arith
text_eq_iff [] (b ∷ t) = ground arith
text_eq_iff (a ∷ s) [] = ground arith
text_eq_iff (a ∷ s) (b ∷ t) = ground (arith, text_eq_iff s t)

abbrev pub Lacks : ℕ → Bytes → Type 0
Lacks b = All (λ c. c ≢ b)

-- `find` and `memchr`: what stands before the first occurrence of a byte, and what follows it.
abbrev pub cut_at : ℕ → Bytes → Option (Bytes × Bytes)
cut_at b [] = none
cut_at b (c ∷ s) = if c == b then some ([], s) else Option.map (λ p. (c ∷ p.0, p.1)) (cut_at b s)

pub cut_at-some :
    (b : ℕ) (s : Bytes) {p : Bytes × Bytes}
    → cut_at b s ≡ some p
    → (s ≡ p.0 ++ b ∷ p.1) × Lacks b p.0
cut_at-some b [] h = cc
cut_at-some b (c ∷ s) h = elim (Option-cases (cut_at b s)) [
  | inl e ↦ ground arith
  | inr (q, e) ↦ ground (arith, cut_at-some b s e)
]

pub cut_at-none : (b : ℕ) (s : Bytes) → cut_at b s ≡ none → Lacks b s
cut_at-none b [] h = tt
cut_at-none b (c ∷ s) h = ground (arith, cut_at-none b s)

pub cut_at-append : (b : ℕ) (s rest : Bytes) → Lacks b s → cut_at b (s ++ b ∷ rest) ≡ some (s, rest)
cut_at-append b [] rest h = ground arith
cut_at-append b (c ∷ s) rest h = ground (arith, cut_at-append b s rest h.1)

pub cut_at-Lacks : (b : ℕ) (s : Bytes) → Lacks b s → cut_at b s ≡ none
cut_at-Lacks b [] h = refl
cut_at-Lacks b (c ∷ s) h = ground (arith, cut_at-Lacks b s h.1)
