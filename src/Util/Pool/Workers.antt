-- ===== src/Util/Pool/Workers.antt =====
-- The workers of src/util/thread_pool.cpp and the tasks that they are in.
use mathlib.Core.List.{Perm}
use mathlib.Core.List.Perm as Perm
use cdr_processor.Base.{
  ℕ, zero, suc, ◌≡◌, refl, ap, Bool, true, false, some, List, [], ◌∷◌, length, get_elem?, set,
  arith,
}
use cdr_processor.Util.Pool.{Worker, waiting, running, exited}

module _ {T : Type 0} where
  -- The tasks that workers are in.
  unfoldable pub in_progress : List (Worker T) → List T
  in_progress [] = []
  in_progress (waiting ∷ ws) = in_progress ws
  in_progress (running task ∷ ws) = task ∷ in_progress ws
  in_progress (exited ∷ ws) = in_progress ws

  unfoldable pub any_exited : List (Worker T) → Bool
  any_exited [] = false
  any_exited (waiting ∷ ws) = any_exited ws
  any_exited (running task ∷ ws) = any_exited ws
  any_exited (exited ∷ ws) = true

  -- A worker that takes a task, and one that ends it.
  pub set-running :
      (ws : List (Worker T)) (i : ℕ) (task : T)
      → get_elem? ws i ≡ some waiting
      → Perm (in_progress (set ws i (running task))) (task ∷ in_progress ws)
  unfolding in_progress
  set-running [] i task h = cc
  set-running (w ∷ ws) zero task h =
      let e : w ≡ waiting = cc in rw e (Perm.refl (task ∷ in_progress ws))
  set-running (waiting ∷ ws) (suc i) task h = set-running ws i task h
  set-running (running t ∷ ws) (suc i) task h =
      Perm.trans (Perm.cons t (set-running ws i task h)) (Perm.swap task t (in_progress ws))
  set-running (exited ∷ ws) (suc i) task h = set-running ws i task h

  pub set-waiting :
      (ws : List (Worker T)) (i : ℕ) (task : T)
      → get_elem? ws i ≡ some (running task)
      → Perm (in_progress ws) (task ∷ in_progress (set ws i waiting))
  unfolding in_progress
  set-waiting [] i task h = cc
  set-waiting (w ∷ ws) zero task h =
      let e : w ≡ running task = cc in rw e (Perm.refl (task ∷ in_progress ws))
  set-waiting (waiting ∷ ws) (suc i) task h = set-waiting ws i task h
  set-waiting (running t ∷ ws) (suc i) task h =
      Perm.trans (Perm.cons t (set-waiting ws i task h))
        (Perm.swap task t (in_progress (set ws i waiting)))
  set-waiting (exited ∷ ws) (suc i) task h = set-waiting ws i task h

  pub set-exited :
      (ws : List (Worker T)) (i : ℕ)
      → get_elem? ws i ≡ some waiting
      → in_progress (set ws i exited) ≡ in_progress ws
  unfolding in_progress
  set-exited [] i h = cc
  set-exited (w ∷ ws) zero h = let e : w ≡ waiting = cc in rw e
  set-exited (waiting ∷ ws) (suc i) h = set-exited ws i h
  set-exited (running t ∷ ws) (suc i) h = ap (λ ts. t ∷ ts) (set-exited ws i h)
  set-exited (exited ∷ ws) (suc i) h = set-exited ws i h

  -- A write of a worker that has not left adds none that has.
  pub any_exited-set :
      (ws : List (Worker T)) (i : ℕ) (w : Worker T)
      → any_exited (w ∷ []) ≡ false
      → any_exited (set ws i w) ≡ true
      → any_exited ws ≡ true
  unfolding any_exited
  any_exited-set [] i w n h = h
  any_exited-set (v ∷ ws) zero w n h = ground arith
  any_exited-set (waiting ∷ ws) (suc i) w n h = any_exited-set ws i w n h
  any_exited-set (running t ∷ ws) (suc i) w n h = any_exited-set ws i w n h
  any_exited-set (exited ∷ ws) (suc i) w n h = refl

  pub length-set : (ws : List (Worker T)) (i : ℕ) (w : Worker T) → length (set ws i w) ≡ length ws
  length-set [] i w = refl
  length-set (v ∷ ws) zero w = refl
  length-set (v ∷ ws) (suc i) w = omega (arith, length-set ws i w)
