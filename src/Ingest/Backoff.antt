-- ===== src/Ingest/Backoff.antt =====
-- The delays between attempts to connect: `delay_ms` of src/ingest/rabbit_ingestor.cpp and
-- `held.delay_ms` of src/store/redis_conn.cpp, which have the same form with bounds of their own.
use native.Mathlib.Nat.{pow-suc, one-le-pow, mul-le-mul}
use cdr_processor.Base.{
  inr, inl, Bool-cases, ◌<◌, length, ◌⊎◌, sum, All, ◌||◌, ℕ, suc, zero, ◌-◌, ◌*◌, ◌^◌, ◌≤◌, ◌<◌,
  min, ◌≡◌, ap, ◌∙◌, ltb, ◌==◌, Bool, true, false, ◌&&◌, not, List, [], ◌∷◌, arith, if◌then◌else◌,
}

-- The delay after one more failure.
unfoldable pub longer : ℕ → ℕ → ℕ → ℕ
longer lo hi delay_ms = if delay_ms == 0 then lo else min (delay_ms * 2) hi

-- `kRabbitBackoffSliceMs`
abbrev pub slice_max : ℕ
slice_max = 100

-- `RabbitIngestor::backoff`: the slices slept, by what each test of `m_stop` finds.
unfoldable pub backoff : ℕ → List Bool → List ℕ
backoff left [] = []
backoff left (stop ∷ polls) =
    let slice = min left slice_max in
    let rest = backoff (left - slice) polls in if ltb 0 left && not stop then slice ∷ rest else []

-- The delay after so many failures in a row.
unfoldable pub delay_after : ℕ → ℕ → ℕ → ℕ
unfolding longer
delay_after lo hi zero = 0
delay_after lo hi (suc n) = longer lo hi (delay_after lo hi n)

pub longer-bounds :
    (lo hi d : ℕ) → lo ≤ hi → (d ≡ 0) ⊎ (lo ≤ d) → (lo ≤ longer lo hi d) × (longer lo hi d ≤ hi)
unfolding longer
longer-bounds lo hi d k h = ground arith

-- A further failure doubles the delay, up to the longest.
longer-min : (lo hi x : ℕ) → 1 ≤ x → 1 ≤ hi → longer lo hi (min x hi) ≡ min (x * 2) hi
unfolding longer
longer-min lo hi x h k = ground arith

-- After n + 1 failures in a row the delay is the first one doubled n times, or the longest where that
-- is less.
pub delay_after-longer :
    (lo hi n : ℕ) → 1 ≤ lo → lo ≤ hi → delay_after lo hi (suc n) ≡ min (lo * 2 ^ n) hi
unfolding delay_after longer
delay_after-longer lo hi zero h k = ground arith
delay_after-longer lo hi (suc n) h k =
    let e = delay_after-longer lo hi n h k in
    let twice : lo * 2 ^ suc n ≡ lo * 2 ^ n * 2 =
      ap (λ (p : ℕ). lo * p) (pow-suc 2 n) ∙ omega arith in
    let positive : 1 ≤ lo * 2 ^ n =
      let power : 1 ≤ 2 ^ n = one-le-pow n 2 (omega arith) in omega (arith, mul-le-mul h power) in
    rw (e, twice) (longer-min lo hi (lo * 2 ^ n) positive (omega (arith, h, k)))

abbrev pub any_stop : List Bool → Bool
any_stop [] = false
any_stop (stop ∷ polls) = stop || any_stop polls

-- No slice is longer than 100 ms, and together they are at most the delay; where no test finds
-- `m_stop` set and there are tests enough, they are the delay.
pub backoff-slices :
    (left : ℕ) (polls : List Bool)
    → All (λ slice. slice ≤ slice_max) (backoff left polls)
      × (sum (λ (n : ℕ). n) (backoff left polls) ≤ left)
      × ((any_stop polls ≡ true)
          ⊎ (length polls * slice_max < left)
          ⊎ (sum (λ (n : ℕ). n) (backoff left polls) ≡ left))
unfolding backoff
backoff-slices left [] = ground arith
backoff-slices left (stop ∷ polls) =
    let (a, b, c) = backoff-slices (left - min left slice_max) polls in
    elim (Bool-cases (ltb 0 left && not stop)) [
      | inl e ↦ rw e (ground arith, ground arith, ground arith)
      | inr e ↦ rw e (ground arith, ground arith, ground arith)
    ]
