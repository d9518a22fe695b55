-- ===== src/Aggregate/Counting.antt =====
-- A 64-bit counter that a loop over a batch adds to.
use cdr_processor.Base.{
  ℕ, ◌<◌, ◌≡◌, List, [], ◌∷◌, foldl, arith, u64_mod, add64, sum, Bool, if◌then◌else◌,
}
use cdr_processor.Record.{CdrRecord, UsageType, usage_eq}

module _ {ℓ} {S : Type ℓ} (step : S → CdrRecord → S) (counter : S → ℕ)
    (weight : CdrRecord → ℕ) where
  -- If one record adds its weight to the counter, a batch adds the sum of the weights.
  pub foldl-counts :
      ((s : S) (r : CdrRecord)
        → counter s < u64_mod
        → counter (step s r) ≡ add64 (counter s) (weight r))
      → (s : S) (batch : List CdrRecord) → counter s < u64_mod
      → counter (foldl step s batch) ≡ add64 (counter s) (sum weight batch)
  foldl-counts one s [] h = omega arith
  foldl-counts one s (r ∷ batch) h =
      omega (arith, one s r h, foldl-counts one (step s r) batch (omega (arith, one s r h)))

-- What a record weighs where a test holds of it.
abbrev pub when : Bool → ℕ → ℕ
when c n = if c then n else 0

abbrev pub is : UsageType → CdrRecord → Bool
is t r = usage_eq r.usage_type t
