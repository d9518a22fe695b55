-- ===== src/Util/Pool/Shutdown.antt =====
-- The destructor of src/util/thread_pool.cpp: what the workers do between the stop and the joins.
use mathlib.Core.List.{Perm}
use mathlib.Core.List.Perm as Perm
use cdr_processor.Base.{
  ◌≢◌, ℕ, zero, suc, ◌+◌, ◌*◌, ◌≤◌, ◌<◌, ◌≡◌, refl, ◌∙◌, ap, subst, Bool, true, false, Option-cases,
  ◌⊎◌, inl, inr, some, List, [], ◌∷◌, ◌++◌, append-nil, map, length, get_elem?, set, >>=-eq-some,
  arith, List-cases,
}
use cdr_processor.Util.Pool.{
  Worker, waiting, running, exited, Pool, new_pool, fetch, Log, Action, worked, log_fetch, work,
  step, run, no_log,
}
use cdr_processor.Util.Pool.Conserved.{if_so, run-IsConserved, fetch-cases}
use cdr_processor.Util.Pool.Workers.{in_progress, any_exited}

module _ {T : Type 0} where
  -- `join` has returned for every worker.
  unfoldable pub all_exited : List (Worker T) → Bool
  all_exited [] = true
  all_exited (waiting ∷ ws) = false
  all_exited (running task ∷ ws) = false
  all_exited (exited ∷ ws) = all_exited ws

  in_progress-exited : (ws : List (Worker T)) → all_exited ws ≡ true → in_progress ws ≡ []
  unfolding all_exited in_progress
  in_progress-exited [] h = refl
  in_progress-exited (waiting ∷ ws) h = cc
  in_progress-exited (running task ∷ ws) h = cc
  in_progress-exited (exited ∷ ws) h = in_progress-exited ws h

  any_exited-all :
      (ws : List (Worker T)) → 1 ≤ length ws → all_exited ws ≡ true → any_exited ws ≡ true
  unfolding all_exited any_exited
  any_exited-all [] n h = absurd (omega arith)
  any_exited-all (waiting ∷ ws) n h = cc
  any_exited-all (running task ∷ ws) n h = cc
  any_exited-all (exited ∷ ws) n h = refl

  -- How many actions of workers may be left: two for each task in the queue and the end of the one in
  -- progress, and one for each worker to leave.
  unfoldable pub worker_work : List (Worker T) → ℕ
  worker_work [] = 0
  worker_work (waiting ∷ ws) = 1 + worker_work ws
  worker_work (running task ∷ ws) = 2 + worker_work ws
  worker_work (exited ∷ ws) = worker_work ws

  unfoldable pub work_left : Pool T → ℕ
  unfolding worker_work
  work_left p = 2 * length p.queue + worker_work p.workers

  worker_work-running :
      (ws : List (Worker T)) (i : ℕ) (task : T)
      → get_elem? ws i ≡ some waiting
      → worker_work (set ws i (running task)) ≡ 1 + worker_work ws
  unfolding worker_work
  worker_work-running [] i task h = cc
  worker_work-running (w ∷ ws) zero task h = ground arith
  worker_work-running (w ∷ ws) (suc i) task h = ground (arith, worker_work-running ws i task)

  worker_work-exited :
      (ws : List (Worker T)) (i : ℕ)
      → get_elem? ws i ≡ some waiting
      → 1 + worker_work (set ws i exited) ≡ worker_work ws
  unfolding worker_work
  worker_work-exited [] i h = cc
  worker_work-exited (w ∷ ws) zero h = ground arith
  worker_work-exited (w ∷ ws) (suc i) h = ground (arith, worker_work-exited ws i)

  worker_work-waiting :
      (ws : List (Worker T)) (i : ℕ) (task : T)
      → get_elem? ws i ≡ some (running task)
      → 1 + worker_work (set ws i waiting) ≡ worker_work ws
  unfolding worker_work
  worker_work-waiting [] i task h = cc
  worker_work-waiting (w ∷ ws) zero task h = ground arith
  worker_work-waiting (w ∷ ws) (suc i) task h = ground (arith, worker_work-waiting ws i task)

  -- An action of a worker uses up some of it, and leaves the stop as it is.
  work-less :
      (i : ℕ) (w : Worker T) (p : Pool T) (l : Log T) {s' : Pool T × Log T}
      → get_elem? p.workers i ≡ some w
      → work i w (p, l) ≡ some s'
      → (work_left s'.0 < work_left p) × (s'.0.stop ≡ p.stop)
  unfolding work work_left
  work-less i waiting p l {s'} at h = elim (Option-cases (fetch p)) [
    | inl e ↦ ground (arith, e)
    | inr (r, got) ↦ elim (fetch-cases p got) [
      | inl (s, q, x) ↦ ground (arith, got, x, q, worker_work-exited p.workers i at)
      | inr (task, rest, q, x) ↦ ground (arith, got, x, q, worker_work-running p.workers i task at)
    ]
  ]
  work-less i (running task) p l at h = ground (arith, worker_work-waiting p.workers i task at)
  work-less i exited p l at h = cc

  step-less :
      (i : ℕ) (p : Pool T) (l : Log T) {s' : Pool T × Log T}
      → step (worked i) (p, l) ≡ some s'
      → (work_left s'.0 < work_left p) × (s'.0.stop ≡ p.stop)
  unfolding step
  step-less i p l h =
      let (w, at, e) = >>=-eq-some (get_elem? p.workers i) (λ w. work i w (p, l)) h in
      work-less i w p l at e

  run-less :
      (is : List ℕ) (s : Pool T × Log T) {s' : Pool T × Log T}
      → run (map (λ i. worked i) is) s ≡ some s'
      → (length is + work_left s'.0 ≤ work_left s.0) × (s'.0.stop ≡ s.0.stop)
  unfolding run
  run-less [] s h = ground arith
  run-less (i ∷ is) (p, l) h =
      let (t, one, rest) = >>=-eq-some (step (worked i) (p, l)) (run (map (λ i. worked i) is)) h in
      ground (arith, step-less i p l one, run-less is t rest)

  -- Once the pool has stopped no worker waits.
  fetch-stopped : (p : Pool T) → p.stop ≡ true → (r : Worker T × List T) × (fetch p ≡ some r)
  unfolding fetch
  fetch-stopped p h = elim (List-cases p.queue) [
    | inl e ↦ ((exited, p.queue), ground (arith, h, e))
    | inr (task, rest, e) ↦ ((running task, rest), ground (arith, h, e))
  ]

  work-stopped :
      (i : ℕ) (w : Worker T) (p : Pool T) (l : Log T)
      → p.stop ≡ true
      → (w ≡ exited) ⊎ ((s' : Pool T × Log T) × (work i w (p, l) ≡ some s'))
  unfolding work
  work-stopped i waiting p l h =
      let (r, e) = fetch-stopped p h in
      inr ((record p { queue = r.1; workers = set p.workers i r.0 }, log_fetch r.0 l), rw e)
  work-stopped i (running task) p l h = inr (_, refl)
  work-stopped i exited p l h = inl refl

  unexited :
      (ws : List (Worker T))
      → (all_exited ws ≡ true)
        ⊎ ((i : ℕ) × (w : Worker T) × (get_elem? ws i ≡ some w) × (w ≢ exited))
  unfolding all_exited
  unexited [] = inl refl
  unexited (waiting ∷ ws) = inr (0, waiting, refl, λ e. cc)
  unexited (running task ∷ ws) = inr (0, running task, refl, λ e. cc)
  unexited (exited ∷ ws) = elim (unexited ws) [
    | inl h ↦ inl h
    | inr (i, w, at, n) ↦ inr (suc i, w, at, n)
  ]

-- After the stop the workers come to an end: however they are scheduled, they take no more actions
-- than the work that is left, and until all of them have left there is one that can go on.
pub run_terminates :
    {T : Type 0} (is : List ℕ) (p : Pool T) (l : Log T) {s : Pool T × Log T}
    → p.stop ≡ true
    → run (map (λ i. worked i) is) (p, l) ≡ some s
    → (length is ≤ work_left p)
      × ((all_exited s.0.workers ≡ true)
          ⊎ ((i : ℕ) × (s' : Pool T × Log T) × (step (worked i) s ≡ some s')))
unfolding step
run_terminates is p l {s} h r =
    let (less, same) = run-less is (p, l) r in
    (
      omega arith,
      elim (unexited s.0.workers) [
        | inl done ↦ inl done
        | inr (i, w, at, n) ↦ elim (work-stopped i w s.0 s.1 (same ∙ h)) [
          | inl gone ↦ absurd (n gone)
          | inr (s', e) ↦ inr (i, s', rw at e)
        ]
      ],
    )

-- When the destructor of a pool has joined all its workers, every task that was queued has ended, each
-- exactly once, and none is left.
pub run-Perm :
    {T : Type 0} (workers_count capacity : ℕ) (schedule : List (Action T)) {p : Pool T}
    {s : Pool T × Log T}
    → new_pool workers_count capacity ≡ some p
    → run schedule (p, no_log) ≡ some s
    → all_exited s.0.workers ≡ true
    → Perm s.1.ended s.1.accepted × (s.0.queue ≡ [])
run-Perm workers_count capacity schedule {p} {s} created h gone =
    let c = run-IsConserved workers_count capacity schedule created h in
    let empty = (if_so c.leaves (any_exited-all s.0.workers c.manned gone)).1 in
    let idle = in_progress-exited s.0.workers gone in
    let all : s.1.accepted ≡ s.1.started =
      c.order ∙ ap (λ ts. s.1.started ++ ts) empty ∙ append-nil s.1.started in
    let once : Perm s.1.started s.1.ended =
      subst (λ ts. Perm s.1.started ts) (ap (λ ts. s.1.ended ++ ts) idle ∙ append-nil s.1.ended)
        c.once in
    (rw all (Perm.symm once), empty)
