-- ===== src/Store.antt =====
-- inc/store: the interface through which counters are written.
pub mod Redis
pub mod RedisConn
use cdr_processor.Base.{ℕ, Bool, Bytes}

-- `IStore` over a state `S`: each call returns its result and the state that it leaves.
pub record IStore (S : Type 0) : Type 0 where
  pub increment : Bytes → Bytes → ℕ → S → Bool × S
  pub rank : Bytes → Bytes → ℕ → S → Bool × S
  pub flush : S → Bool × S
  pub mark : Bytes → ℕ → S → Bool × S
  pub resume_at : Bytes → S → ℕ × S
