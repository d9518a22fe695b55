-- ===== src/Util/Pool/Conserved.antt =====
-- What happens to the tasks of src/util/thread_pool.cpp, whatever the schedule.
use mathlib.Core.List.{Perm, perm_middle, perm_append_comm}
use mathlib.Core.List.Perm as Perm
use cdr_processor.Base.{
  List-cases, ◌⊎◌, ℕ, zero, suc, ◌≤◌, ◌≡◌, refl, sym, ◌∙◌, ap, subst, Bool, true, false, Bool-cases,
  Option-cases, inl, inr, some, List, [], ◌∷◌, ◌++◌, append_assoc, length, length-append, get_elem?,
  set, replicate, >>=-eq-some, arith, ltb,
}
use cdr_processor.Util.Pool.Workers.{
  in_progress, any_exited, set-running, set-waiting, set-exited, any_exited-set, length-set,
}
use cdr_processor.Util.Pool.{
  Worker, waiting, running, exited, Pool, new_pool, submit, fetch, Log, Action, submitted, worked,
  stopped, work, step, run, no_log,
}

or_so : {b : Bool} {P : Type 0} → (b ≡ true → P) → (b ≡ false) ⊎ P
or_so {b} f = elim (Bool-cases b) [ inl e ↦ inr (f e) | inr e ↦ inl e ]

pub if_so : {b : Bool} {P : Type 0} → (b ≡ false) ⊎ P → b ≡ true → P
if_so (inl e) h = cc
if_so (inr p) h = p

module _ {T : Type 0} where
  -- Tasks start in the order in which they were queued; those that have started have ended or are
  -- in progress, each once; the queue is within the capacity, and a worker leaves only once the
  -- pool has stopped and the queue is empty.
  pub record IsConserved (s : Pool T × Log T) : Type 0 where
    pub order : s.1.accepted ≡ s.1.started ++ s.0.queue
    pub once : Perm s.1.started (s.1.ended ++ in_progress s.0.workers)
    pub bounded : length s.0.queue ≤ s.0.capacity
    pub leaves : (any_exited s.0.workers ≡ false) ⊎ ((s.0.stop ≡ true) × (s.0.queue ≡ []))
    pub manned : 1 ≤ length s.0.workers

  submitted-IsConserved :
      (task : T) (p : Pool T) (l : Log T) {s' : Pool T × Log T}
      → step (submitted task) (p, l) ≡ some s'
      → IsConserved (p, l)
      → IsConserved s'
  unfolding step submit
  submitted-IsConserved task p l {s'} h c = elim (Bool-cases p.stop) [
    | inl e ↦ let same : s' ≡ (p, l) = ground (arith, e) in rw same c
    | inr e ↦ elim (Bool-cases (ltb (length p.queue) p.capacity)) [
      | inr full ↦ ground (arith, e)
      | inl room ↦
          let p' : Pool T = record p { queue = p.queue ++ task ∷ [] } in
          let same : s' ≡ (p', record l { accepted = l.accepted ++ task ∷ [] }) =
            ground (arith, e) in
          rw same (record {
            order = ap (λ ts. ts ++ task ∷ []) c.order ∙ append_assoc l.started p.queue (task ∷ []);
            once = c.once;
            bounded = ground (arith, length-append p.queue (task ∷ []));
            leaves = or_so (λ x. ground (arith, if_so c.leaves x, e));
            manned = c.manned;
          })
    ]
  ]

  stopped-IsConserved :
      (p : Pool T) (l : Log T) → IsConserved (p, l) → IsConserved (record p { stop = true }, l)
  stopped-IsConserved p l c = record {
    order = c.order;
    once = c.once;
    bounded = c.bounded;
    leaves = or_so (λ x. (refl, (if_so c.leaves x).1));
    manned = c.manned;
  }

  ended-IsConserved :
      (i : ℕ) (task : T) (p : Pool T) (l : Log T)
      → get_elem? p.workers i ≡ some (running task)
      → IsConserved (p, l)
      → IsConserved (
        record p { workers = set p.workers i waiting },
        record l { ended = l.ended ++ task ∷ [] },
      )
  ended-IsConserved i task p l h c = record {
    order = c.order;
    once = Perm.trans c.once (
        Perm.trans (Perm.append_left l.ended (set-waiting p.workers i task h)) (
          rw (append_assoc l.ended (task ∷ []) (in_progress (set p.workers i waiting)))
            (Perm.refl (l.ended ++ task ∷ in_progress (set p.workers i waiting)))));
    bounded = c.bounded;
    leaves =
        or_so
          (λ x. if_so c.leaves (any_exited-set p.workers i waiting (unfold any_exited in refl) x));
    manned = omega (arith, c.manned, length-set p.workers i waiting);
  }

  taken-IsConserved :
      (i : ℕ) (task : T) (rest : List T) (p : Pool T) (l : Log T)
      → get_elem? p.workers i ≡ some waiting
      → p.queue ≡ task ∷ rest
      → IsConserved (p, l)
      → IsConserved (
        record p { queue = rest; workers = set p.workers i (running task) },
        record l { started = l.started ++ task ∷ [] },
      )
  taken-IsConserved i task rest p l h e c = record {
    order = c.order ∙ ap (λ ts. l.started ++ ts) e ∙ sym (append_assoc l.started (task ∷ []) rest);
    once = Perm.trans (perm_append_comm l.started (task ∷ [])) (
        Perm.trans (Perm.cons task c.once) (
          Perm.trans (Perm.symm (perm_middle l.ended (in_progress p.workers)))
            (Perm.append_left l.ended (Perm.symm (set-running p.workers i task h)))));
    bounded = ground (arith, c.bounded, e);
    leaves = or_so (λ x.
        let gone =
          (if_so c.leaves
            (any_exited-set p.workers i (running task) (unfold any_exited in refl) x)).1 in
        cc);
    manned = omega (arith, c.manned, length-set p.workers i (running task));
  }

  left-IsConserved :
      (i : ℕ) (p : Pool T) (l : Log T)
      → get_elem? p.workers i ≡ some waiting
      → p.stop ≡ true
      → p.queue ≡ []
      → IsConserved (p, l)
      → IsConserved (record p { workers = set p.workers i exited }, l)
  left-IsConserved i p l h s e c = record {
    order = c.order;
    once = rw (set-exited p.workers i h) c.once;
    bounded = c.bounded;
    leaves = or_so (λ x. (s, e));
    manned = omega (arith, c.manned, length-set p.workers i exited);
  }

  pub fetch-cases :
      (p : Pool T) {r : Worker T × List T}
      → fetch p ≡ some r
      → ((p.stop ≡ true) × (p.queue ≡ []) × (r ≡ (exited, p.queue)))
        ⊎ ((task : T) × (rest : List T) × (p.queue ≡ task ∷ rest) × (r ≡ (running task, rest)))
  unfolding fetch
  fetch-cases p h = elim (List-cases p.queue) [
    | inl e ↦ inl (ground (arith, e), e, ground (arith, e))
    | inr (task, rest, e) ↦ inr (task, rest, e, ground (arith, e))
  ]

  work-IsConserved :
      (i : ℕ) (w : Worker T) (p : Pool T) (l : Log T) {s' : Pool T × Log T}
      → get_elem? p.workers i ≡ some w
      → work i w (p, l) ≡ some s'
      → IsConserved (p, l)
      → IsConserved s'
  unfolding work
  work-IsConserved i waiting p l {s'} at h c = elim (Option-cases (fetch p)) [
    | inl e ↦ ground (arith, e)
    | inr (r, got) ↦ elim (fetch-cases p got) [
      | inl (s, q, x) ↦
          let same : s' ≡ (record p { workers = set p.workers i exited }, l) =
            ground (arith, got, x) in
          rw same (left-IsConserved i p l at s q c)
      | inr (task, rest, q, x) ↦
          let p' : Pool T = record p { queue = rest; workers = set p.workers i (running task) } in
          let same : s' ≡ (p', record l { started = l.started ++ task ∷ [] }) =
            ground (arith, got, x) in
          rw same (taken-IsConserved i task rest p l at q c)
    ]
  ]
  work-IsConserved i (running task) p l {s'} at h c =
      subst IsConserved (cc) (ended-IsConserved i task p l at c)
  work-IsConserved i exited p l at h c = cc

  step-IsConserved :
      (a : Action T) (p : Pool T) (l : Log T) {s' : Pool T × Log T}
      → step a (p, l) ≡ some s'
      → IsConserved (p, l)
      → IsConserved s'
  unfolding step
  step-IsConserved (submitted task) p l h c = submitted-IsConserved task p l h c
  step-IsConserved (worked i) p l h c =
      let (w, at, e) = >>=-eq-some (get_elem? p.workers i) (λ w. work i w (p, l)) h in
      work-IsConserved i w p l at e c
  step-IsConserved stopped p l h c = subst IsConserved (cc) (stopped-IsConserved p l c)

  run-keeps :
      (schedule : List (Action T)) (s : Pool T × Log T) {s' : Pool T × Log T}
      → run schedule s ≡ some s'
      → IsConserved s
      → IsConserved s'
  unfolding run
  run-keeps [] s h c = subst IsConserved (cc) c
  run-keeps (a ∷ schedule) (p, l) h c =
      let (s, one, rest) = >>=-eq-some (step a (p, l)) (run schedule) h in
      run-keeps schedule s rest (step-IsConserved a p l one c)

  replicate-waiting :
      (n : ℕ)
      → let ws : List (Worker T) = replicate n waiting in
        (in_progress ws ≡ []) × (any_exited ws ≡ false) × (length ws ≡ n)
  unfolding in_progress any_exited
  replicate-waiting zero = (refl, refl, refl)
  replicate-waiting (suc n) = let (a, b, c) = replicate-waiting n in (a, b, omega (arith, c))

  new_pool-IsConserved :
      (workers_count capacity : ℕ) {p : Pool T}
      → new_pool workers_count capacity ≡ some p
      → IsConserved (p, no_log)
  unfolding new_pool
  new_pool-IsConserved n capacity {p} h =
      let (none_running, none_left, length_is) = replicate-waiting n in
      let same : p ≡ record {
        queue = [];
        capacity = capacity;
        stop = false;
        workers = replicate n waiting;
      } =
        ground arith in
      rw same (record {
        order = refl;
        once = rw none_running (Perm.refl []);
        bounded = omega arith;
        leaves = or_so (λ x. cc);
        manned = ground (arith, length_is);
      })

-- Whatever the schedule of a new pool, the tasks start in the order in which they were queued; those
-- that have started have ended or are in progress, each once; the queue never exceeds the capacity;
-- there is a worker; and one leaves its loop only once the pool has stopped and the queue is empty.
pub run-IsConserved :
    {T : Type 0} (workers_count capacity : ℕ) (schedule : List (Action T)) {p : Pool T}
    {s : Pool T × Log T}
    → new_pool workers_count capacity ≡ some p
    → run schedule (p, no_log) ≡ some s
    → IsConserved s
run-IsConserved workers_count capacity schedule {p} created h =
    run-keeps schedule (p, no_log) h (new_pool-IsConserved workers_count capacity created)
