-- ===== src/Store/Redis.antt =====
-- src/store/redis_store.cpp: counters sent to Redis as one transaction for each batch. The state is
-- that of one thread: the static `queued` and `open_batch`, and the world behind the connection.
-- What hiredis and RedisConn (src/store/redis_conn.cpp) do to the world is a parameter. The log
-- lines are left out.
pub mod Queue
pub mod Transaction
pub mod Server
pub mod Progress
use cdr_processor.Base.{
  ℕ, zero, suc, ◌+◌, ltb, Bool, true, false, ◌&&◌, not, Option, none, some, List, [], ◌∷◌, ◌++◌,
  Bytes, codes, if◌then◌else◌, ◌==◌,
}
use cdr_processor.Charconv.{from_chars}
use cdr_processor.Store.{IStore}

-- The commands as they are sent.
pub data Wire : Type 0 where
  multi : Wire
  exec : Wire
  hincrby : Bytes → Bytes → ℕ → Wire
  zincrby : Bytes → ℕ → Bytes → Wire
  hset : Bytes → Bytes → ℕ → Wire

-- The context of the thread: there is none, it has an error, or it can be used.
pub data Context : Type 0 where
  missing broken ready : Context

-- What `redisGetReply` gives: a context that broke, an error, or any other reply.
pub data Reply : Type 0 where
  lost rejected accepted : Reply

-- What `redisCommand` gives for one field.
pub data Field : Type 0 where
  no_reply : Field
  text : Bytes → Field
  other : Field

-- `RedisConn`, `redisAppendCommand`, `redisGetReply` and `redisCommand` over a world `W`.
pub record Connection (W : Type 0) : Type 0 where
  pub peek : W → Context
  pub get : W → Bool × W
  pub drop : W → W
  pub append : Wire → W → Bool × W
  pub reply : W → Reply × W
  pub hget : Bytes → Bytes → W → Field × W

-- `kRedisPipelineDepth` and `kProgressKey`
abbrev pub pipeline_depth : ℕ
pipeline_depth = 1024

abbrev pub progress_key : Bytes
progress_key = codes "prog:file"

pub record Thread (W : Type 0) : Type 0 where
  pub queued : ℕ
  pub open_batch : Bool
  pub world : W

module _ {W : Type 0} (conn : Connection W) where
  -- The first step of `batch`: what was queued on a broken context is given up.
  unfoldable pub repair : Thread W → Thread W
  repair s = elim (conn.peek s.world) [
    | broken ↦ record { queued = 0; open_batch = false; world = conn.drop s.world }
    | missing ↦ s
    | ready ↦ s
  ]

  -- `RedisStore::batch`: whether there is a context, with a batch open on it.
  unfoldable pub batch : Thread W → Bool × Thread W
  unfolding repair
  batch s =
      let r = repair s in
      let (connected, w) = conn.get r.world in
      let (sent, w') = conn.append multi w in
      if not connected
      then (false, record r { world = w })
      else if r.open_batch
      then (true, record r { world = w })
      else if sent
      then (true, record { queued = r.queued + 1; open_batch = true; world = w' })
      else (false, record r { world = w' })

  -- The loop of `drain` over the replies: whether all were good, whether the context broke.
  unfoldable pub receive : ℕ → Bool → W → Bool × Bool × W
  receive zero ok w = (ok, false, w)
  receive (suc n) ok w =
      let (reply, w') = conn.reply w in
      let on = receive n ok w' in
      let bad = receive n false w' in
      elim reply [ lost ↦ (false, true, w') | rejected ↦ bad | accepted ↦ on ]

  -- `RedisStore::drain`
  unfoldable pub drain_replies : Thread W → Bool × Thread W
  drain_replies s =
      let (ok, cut, w) = receive s.queued true s.world in
      let gone : Bool × Thread W = (false, record s { queued = 0; open_batch = false }) in
      if s.queued == 0 then (true, s) else elim (conn.peek s.world) [
        | missing ↦ gone
        | broken ↦ gone
        | ready ↦
            (ok, record { queued = 0; open_batch = if cut then false else s.open_batch; world = w })
      ]

  -- What `increment`, `rank` and `mark` share: a command queued in the open batch.
  unfoldable pub enqueue : Wire → Thread W → Bool × Thread W
  enqueue command s =
      let (opened, s') = batch s in
      let (sent, w) = conn.append command s'.world in
      if not opened
      then (false, s')
      else if sent
      then (true, record s' { queued = s'.queued + 1; world = w })
      else (false, record s' { world = w })

  -- The end of `increment` and `rank`: a full pipeline is drained.
  unfoldable pub enqueue_bounded : Wire → Thread W → Bool × Thread W
  enqueue_bounded command s =
      let (sent, s') = enqueue command s in
      if not sent
      then (false, s')
      else if ltb s'.queued pipeline_depth
      then (true, s')
      else drain_replies s'

  -- `RedisStore::flush`
  unfoldable pub flush_batch : Thread W → Bool × Thread W
  flush_batch s =
      let (sent, w) = conn.append exec s.world in
      let gone : Bool × Thread W = (false, record s { queued = 0; open_batch = false }) in
      if not s.open_batch then drain_replies s else elim (conn.peek s.world) [
        | missing ↦ gone
        | broken ↦ gone
        | ready ↦
            if sent
            then drain_replies (record { queued = s.queued + 1; open_batch = false; world = w })
            else (false, record { queued = 0; open_batch = false; world = w })
      ]

  -- `RedisStore::resume_at`
  unfoldable pub resume_sequence : Bytes → Thread W → ℕ × Thread W
  resume_sequence source s =
      let s₁ = (flush_batch s).1 in
      let (connected, w) = conn.get s₁.world in
      let (field, w') = conn.hget progress_key source w in
      if not connected then (0, record s₁ { world = w }) else elim field [
        | no_reply ↦ (0, record s₁ { world = conn.drop w' })
        | text value ↦
            (elim (from_chars value) [ none ↦ 0 | some (seq, _) ↦ seq ], record s₁ { world = w' })
        | other ↦ (0, record s₁ { world = w' })
      ]

  -- `RedisStore` as the `IStore` of its thread.
  abbrev pub redis_store : IStore (Thread W)
  redis_store = record {
    increment = λ key field value. enqueue_bounded (hincrby key field value);
    rank = λ board member value. enqueue_bounded (zincrby board value member);
    flush = flush_batch;
    mark = λ source seq. enqueue (hset progress_key source seq);
    resume_at = resume_sequence;
  }
