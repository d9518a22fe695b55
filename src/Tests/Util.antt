-- ===== src/Tests/Util.antt =====
-- src/util/thread_pool.cpp under small schedules.
use mathlib.Core.List.{Perm}
use cdr_processor.Base.{ℕ, ◌≡◌, ◌≤◌, ◌⊎◌, refl, none, some, List, [], ◌∷◌, map, true, false}
use cdr_processor.Util.Pool.{
  Pool, Log, Action, submitted, worked, stopped, waiting, running, exited, new_pool, run, step,
  no_log,
}
use cdr_processor.Util.Pool.Conserved.{IsConserved, run-IsConserved}
use cdr_processor.Util.Pool.Shutdown.{all_exited, work_left, run_terminates, run-Perm}

-- Two workers and room for one task.
abbrev small : Pool ℕ
small = record { queue = []; capacity = 1; stop = false; workers = waiting ∷ waiting ∷ [] }

created : new_pool 2 1 ≡ some small
unfolding new_pool
created = refl

-- A second task waits for room; the second worker overtakes the first.
abbrev schedule : List (Action ℕ)
schedule =
    submitted 5
    ∷ worked 0
    ∷ submitted 6
    ∷ worked 1
    ∷ worked 1
    ∷ stopped
    ∷ submitted 7
    ∷ worked 1
    ∷ worked 0
    ∷ worked 0
    ∷ []

abbrev joined : Pool ℕ
joined = record { queue = []; capacity = 1; stop = true; workers = exited ∷ exited ∷ [] }

abbrev seen : Log ℕ
seen = record { accepted = 5 ∷ 6 ∷ []; started = 5 ∷ 6 ∷ []; ended = 6 ∷ 5 ∷ [] }

ran : run schedule (small, no_log) ≡ some (joined, seen)
unfolding run
ran = refl

no_room : run (submitted 5 ∷ submitted 6 ∷ []) (small, no_log) ≡ none
unfolding run
no_room = refl

all_joined : all_exited joined.workers ≡ true
unfolding all_exited
all_joined = refl

run-IsConserved_example : IsConserved (joined, seen)
run-IsConserved_example = run-IsConserved 2 1 schedule created ran

run-Perm_example : Perm seen.ended seen.accepted × (joined.queue ≡ [])
run-Perm_example = run-Perm 2 1 schedule created ran all_joined

-- A stopped pool with a task in its queue.
abbrev stopping : Pool ℕ
stopping = record { queue = 5 ∷ []; capacity = 1; stop = true; workers = waiting ∷ [] }

abbrev half_way : Pool ℕ
half_way = record { queue = []; capacity = 1; stop = true; workers = running 5 ∷ [] }

went_on :
    run (map (λ i. worked i) (0 ∷ [])) (stopping, no_log)
    ≡ some (half_way, record { accepted = []; started = 5 ∷ []; ended = [] })
unfolding run
went_on = refl

run_terminates_example :
    (1 ≤ work_left stopping)
    × ((all_exited half_way.workers ≡ true)
        ⊎ ((i : ℕ) × (s' : Pool ℕ × Log ℕ) × (step
                (worked i)
                (half_way, record { accepted = []; started = 5 ∷ []; ended = [] })
              ≡ some s')))
run_terminates_example = run_terminates (0 ∷ []) stopping no_log refl went_on
