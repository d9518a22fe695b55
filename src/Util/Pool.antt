-- ===== src/Util/Pool.antt =====
-- src/util/thread_pool.cpp: a bounded queue of tasks and the workers that run them. An action is one
-- step of a thread that holds the mutex, or the end of a task; `none` is a thread that waits. The
-- notifications only wake waiting threads, which test their condition again, so a schedule of
-- actions is any list of them. The log lines are left out.
pub mod Workers
pub mod Conserved
pub mod Shutdown
use cdr_processor.Base.{
  ℕ, zero, suc, ◌+◌, ltb, ◌==◌, Bool, true, false, ◌&&◌, ◌||◌, not, Option, none, some, List, [],
  ◌∷◌, ◌++◌, length, get_elem?, set, replicate, if◌then◌else◌, ◌>>=◌,
}

-- Where a worker stands in `run`: before the critical section, in its task, or behind the loop.
pub data Worker (T : Type 0) : Type 0 where
  waiting : Worker T
  running : T → Worker T
  exited : Worker T

pub record Pool (T : Type 0) : Type 0 where
  pub queue : List T
  pub capacity : ℕ
  pub stop : Bool
  pub workers : List (Worker T)

module _ {T : Type 0} where
  -- The constructor, which throws where there are no workers or no room.
  unfoldable pub new_pool : ℕ → ℕ → Option (Pool T)
  new_pool workers_count capacity =
      if (workers_count == 0) || (capacity == 0)
      then none
      else some (record {
        queue = [];
        capacity = capacity;
        stop = false;
        workers = replicate workers_count waiting;
      })

  abbrev pub is_empty : List T → Bool
  is_empty [] = true
  is_empty (_ ∷ _) = false

  -- `submit`: whether the task was queued.
  unfoldable pub submit : T → Pool T → Option (Bool × Pool T)
  submit task p =
      if not (p.stop || ltb (length p.queue) p.capacity)
      then none
      else if p.stop
      then some (false, p)
      else some (true, record p { queue = p.queue ++ task ∷ [] })

  -- The critical section of `run`: what becomes of the worker, and the queue.
  unfoldable pub fetch : Pool T → Option (Worker T × List T)
  fetch p =
      if not (p.stop || not (is_empty p.queue))
      then none
      else if p.stop && is_empty p.queue
      then some (exited, p.queue)
      else elim p.queue [ [] ↦ none | task ∷ rest ↦ some (running task, rest) ]

-- What has become of the tasks: those that `submit` has queued, those that a worker has taken, and
-- those that have returned or thrown, each in the order of time.
pub record Log (T : Type 0) : Type 0 where
  pub accepted : List T
  pub started : List T
  pub ended : List T

-- A caller submits a task, a worker goes on, or the destructor sets `m_stop`.
pub data Action (T : Type 0) : Type 0 where
  submitted : T → Action T
  worked : ℕ → Action T
  stopped : Action T

module _ {T : Type 0} where
  -- A worker that got a task has started it.
  unfoldable pub log_fetch : Worker T → Log T → Log T
  log_fetch waiting l = l
  log_fetch (running task) l = record l { started = l.started ++ task ∷ [] }
  log_fetch exited l = l

  -- What the worker of an index does next in `run`. A task that throws is caught.
  unfoldable pub work : ℕ → Worker T → Pool T × Log T → Option (Pool T × Log T)
  unfolding fetch log_fetch
  work i waiting (p, l) = do
    (w, queue) ← fetch p
    some (record p { queue = queue; workers = set p.workers i w }, log_fetch w l)
  work i (running task) (p, l) =
      some
        (record p { workers = set p.workers i waiting }, record l { ended = l.ended ++ task ∷ [] })
  work i exited s = none

  unfoldable pub step : Action T → Pool T × Log T → Option (Pool T × Log T)
  unfolding submit work
  step (submitted task) (p, l) = do
    (queued, p') ← submit task p
    some (p', if queued then record l { accepted = l.accepted ++ task ∷ [] } else l)
  step (worked i) (p, l) = get_elem? p.workers i >>= λ w. work i w (p, l)
  step stopped (p, l) = some (record p { stop = true }, l)

  -- A schedule: each action is one that its thread can take.
  unfoldable pub run : List (Action T) → Pool T × Log T → Option (Pool T × Log T)
  unfolding step
  run [] s = some s
  run (a ∷ rest) s = step a s >>= λ s'. run rest s'

  abbrev pub no_log : Log T
  no_log = record { accepted = []; started = []; ended = [] }
