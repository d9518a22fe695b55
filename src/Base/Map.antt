-- ===== src/Base/Map.antt =====
-- Keys with a Boolean equality, and `std::unordered_map` as an association list: an entry keeps its
-- place once it is made. The order is not the table's, and no theorem depends on it.
use Prim.Native.Nat.{ℕ}
use mathlib.Core.Path.{◌≡◌, refl}
use mathlib.Core.Logic.{◌↔◌}
use mathlib.Core.Bool.{Bool, true}
use mathlib.Core.Option.{Option, none, some}
use mathlib.Core.List.{List, [], ◌∷◌}
use native.Mathlib.Omega.{arith}
use cdr_processor.Base.Tests.{◌==◌ as nat_eq, ==_iff, if◌then◌else◌}
use cdr_processor.Base.Text.{Bytes, text_eq, text_eq_iff}

pub record Eq {ℓ} (K : Type ℓ) : Type ℓ where
  pub beq : K → K → Bool
  pub beq_iff : (a b : K) → (beq a b ≡ true) ↔ (a ≡ b)

instance abbrev pub ℕ_key : Eq ℕ
ℕ_key = record { beq = nat_eq; beq_iff = ==_iff }

instance abbrev pub text_key : Eq Bytes
text_key = record { beq = text_eq; beq_iff = text_eq_iff }

module _ {ℓ κ} {K : Type ℓ} {V : Type κ} ⦃key : Eq K⦄ where
  -- `m.find(k)`
  abbrev pub find : K → List (K × V) → Option V
  find k [] = none
  find k ((j, v) ∷ m) = if key.beq j k then some v else find k m

  -- what `m[k]` reads, which is `zero` where the key is new
  abbrev pub at_or : V → K → List (K × V) → V
  at_or d k [] = d
  at_or d k ((j, v) ∷ m) = if key.beq j k then v else at_or d k m

  -- `m[k] = f(m[k])`: a missing key starts from the default value
  abbrev pub modify : V → (V → V) → K → List (K × V) → List (K × V)
  modify d f k [] = (k, f d) ∷ []
  modify d f k ((j, v) ∷ m) = if key.beq j k then (j, f v) ∷ m else (j, v) ∷ modify d f k m

  pub find-modify :
      (d : V) (f : V → V) (k j : K) (m : List (K × V))
      → find j (modify d f k m) ≡ (if key.beq k j then some (f (at_or d k m)) else find j m)
  find-modify d f k j [] = refl
  find-modify d f k j ((i, v) ∷ m) =
      ground (arith, key.beq_iff k j, key.beq_iff i k, key.beq_iff i j, find-modify d f k j m)

  pub at_or-modify :
      (d : V) (f : V → V) (k j : K) (m : List (K × V))
      → at_or d j (modify d f k m) ≡ (if key.beq k j then f (at_or d k m) else at_or d j m)
  at_or-modify d f k j [] = refl
  at_or-modify d f k j ((i, v) ∷ m) =
      ground (arith, key.beq_iff k j, key.beq_iff i k, key.beq_iff i j, at_or-modify d f k j m)
