-- ===== src/Store/RedisConn.antt =====
-- src/store/redis_conn.cpp: the connection that one thread holds. Contexts are those of hiredis, of a
-- type `C`; what a call finds outside is its arguments: which contexts hiredis has marked with an
-- error, the clock's two readings in ms, and what `redisConnectWithTimeout` returns. What the calls
-- make and free is kept beside the holder. The log lines are left out, `logged_down` is not.
pub mod Owned
use cdr_processor.Base.{
  ℕ, ◌+◌, ltb, Bool, true, false, not, Option, none, some, List, [], ◌∷◌, ◌++◌, if◌then◌else◌,
}
use cdr_processor.Ingest.Backoff.{longer}

-- `kRedisBackoffMinMs`
abbrev pub backoff_min : ℕ
backoff_min = 100

-- `kRedisBackoffMaxMs`
abbrev pub backoff_max : ℕ
backoff_max = 5000

-- An attempt to connect: when it began, and, where it failed, when the thread may try again.
pub record Try : Type 0 where
  pub began : ℕ
  pub ended : ℕ
  pub again : Option ℕ

-- `RedisConn::Holder`
pub record Holder (C : Type 0) : Type 0 where
  pub ctx : Option C
  pub next_try : ℕ
  pub delay_ms : ℕ
  pub logged_down : Bool

-- The contexts that `redisConnectWithTimeout` has returned, those given to `redisFree`, and the
-- attempts, the last first.
pub record Ledger (C : Type 0) : Type 0 where
  pub made : List C
  pub freed : List C
  pub tries : List Try

pub data Call (C : Type 0) : Type 0 where
  got : (C → Bool) → ℕ → ℕ → Option C → Call C
  dropped : Call C

module _ {C : Type 0} where
  -- A thread's holder at its start.
  abbrev pub new_holder : Holder C
  new_holder = record { ctx = none; next_try = 0; delay_ms = 0; logged_down = false }

  abbrev pub new_ledger : Ledger C
  new_ledger = record { made = []; freed = []; tries = [] }

  -- `RedisConn::peek`
  abbrev pub peek : Holder C → Option C
  peek held = held.ctx

  -- `RedisConn::drop`; the destructor of `Holder` frees the context in the same way.
  unfoldable pub drop : Holder C × Ledger C → Holder C × Ledger C
  drop (held, l) = elim held.ctx [
    | none ↦ (held, l)
    | some c ↦ (record held { ctx = none }, record l { freed = c ∷ l.freed })
  ]

  -- An attempt that failed, with the context that it left where there is one.
  unfoldable pub failed : ℕ → ℕ → Option C → Holder C × Ledger C → Holder C × Ledger C
  unfolding longer
  failed now later left (held, l) =
      let delay = longer backoff_min backoff_max held.delay_ms in
      let again = later + delay in
      let tries = record { began = now; ended = later; again = some again } ∷ l.tries in
      (
        record held { next_try = again; delay_ms = delay; logged_down = true },
        elim left [
          | none ↦ record l { tries = tries }
          | some c ↦ record { made = c ∷ l.made; freed = c ∷ l.freed; tries = tries }
        ],
      )

  unfoldable pub connected : ℕ → ℕ → C → Holder C × Ledger C → Holder C × Ledger C
  connected now later c (held, l) = (
    record { ctx = some c; next_try = 0; delay_ms = 0; logged_down = false },
    record l {
      made = c ∷ l.made;
      tries = record { began = now; ended = later; again = none } ∷ l.tries;
    },
  )

  -- `RedisConn::get` where there is no context that can be used.
  unfoldable pub reopen :
      (C → Bool) → ℕ → ℕ → Option C → Holder C × Ledger C → Option C × Holder C × Ledger C
  unfolding failed connected
  reopen err now later made (held, l) =
      let refused : Option C × Holder C × Ledger C =
        (let (held', l') = failed now later made (held, l) in (none, held', l')) in
      if ltb now held.next_try then (none, held, l) else elim made [
        | none ↦ refused
        | some c ↦
            if err c
            then refused
            else (let (held', l') = connected now later c (held, l) in (some c, held', l'))
      ]

  -- `RedisConn::get`
  unfoldable pub get :
      (C → Bool) → ℕ → ℕ → Option C → Holder C × Ledger C → Option C × Holder C × Ledger C
  unfolding reopen drop
  get err now later made (held, l) =
      let anew = reopen err now later made (drop (held, l)) in
      elim held.ctx [ none ↦ anew | some c ↦ if err c then anew else (some c, held, l) ]

  unfoldable pub calls : List (Call C) → Holder C × Ledger C → Holder C × Ledger C
  unfolding get drop
  calls [] s = s
  calls (got err now later made ∷ rest) s =
      let (_, held, l) = get err now later made s in calls rest (held, l)
  calls (dropped ∷ rest) s = calls rest (drop s)
