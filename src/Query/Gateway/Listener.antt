-- ===== src/Query/Gateway/Listener.antt =====
-- `start`, `stop` and `port` of src/query/http_gateway.cpp. What binding gives is an argument; the thread
-- that listens is there exactly while `m_running` is set.
use cdr_processor.Base.{
  ◌==◌, ◌≡◌, refl, Bool, true, false, Bool-cases, inl, inr, not, if◌then◌else◌, ltb, ◌⊎◌,
}
use cdr_processor.Base.Int.{ℤ, pos, negsuc}

pub record Listener : Type 0 where
  pub port : ℤ
  pub running : Bool

-- What `bind_to_any_port` returns, and whether `bind_to_port` succeeds.
pub record Binding : Type 0 where
  pub any_port : ℤ
  pub bound : Bool

abbrev pub is_zero : ℤ → Bool
is_zero (pos n) = n == 0
is_zero (negsuc n) = false

abbrev pub is_positive : ℤ → Bool
is_positive (pos n) = ltb 0 n
is_positive (negsuc n) = false

-- The port that `start` has bound, or -1.
abbrev pub bound_port : Binding → Listener → ℤ
bound_port b l = if is_zero l.port then b.any_port else if b.bound then l.port else negsuc 0

-- `HttpGateway::start`
unfoldable pub start : Binding → Listener → Bool × Listener
start b l =
    let bound = bound_port b l in
    if l.running
    then (true, l)
    else if not (is_positive bound)
    then (false, l)
    else (true, record { port = bound; running = true })

-- `HttpGateway::stop`
unfoldable pub stop : Listener → Listener
stop l = if not l.running then l else record l { running = false }

-- A gateway that could not be bound stays stopped, and one that is started listens on a port above 0,
-- if it did not run before.
pub start-running :
    (b : Binding) (l : Listener)
    → l.running ≡ false
    → ((start b l).1.running ≡ (start b l).0)
      × (((start b l).0 ≡ false) ⊎ (is_positive (start b l).1.port ≡ true))
unfolding start
start-running b l h = elim (Bool-cases (is_positive (bound_port b l))) [
  | inl e ↦ rw (start, h, e) (refl, inr e)
  | inr e ↦ rw (start, h, e) (refl, inl refl)
]
