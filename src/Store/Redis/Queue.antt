-- ===== src/Store/Redis/Queue.antt =====
-- What src/store/redis_store.cpp keeps of its queue, whatever the connection does.
use cdr_processor.Base.{Bytes, ◌+◌, ◌<◌, ◌≡◌, true, false, ◌⊎◌, inr, arith}
use cdr_processor.Store.Redis.{
  resume_sequence, progress_key, hset, zincrby, hincrby, Connection, Thread, Wire, repair, batch,
  drain_replies, enqueue, enqueue_bounded, exec, flush_batch, redis_store, pipeline_depth,
}
use cdr_processor.Aggregate.Writers.Commands.{Command, call, increment, rank, mark, flush}

module _ {W : Type 0} (conn : Connection W) where
  -- Commands wait only in a batch that is open.
  abbrev pub IsTidy : Thread W → Type 0
  IsTidy s = (s.open_batch ≡ true) ⊎ (s.queued ≡ 0)

  batch-IsTidy : (s : Thread W) → IsTidy s → IsTidy (batch conn s).1
  unfolding batch repair
  batch-IsTidy s h = ground arith

  -- A batch that is begun is open.
  batch-opens : (s : Thread W) → (batch conn s).0 ≡ true → (batch conn s).1.open_batch ≡ true
  unfolding batch
  batch-opens s h = ground arith

  enqueue-IsTidy : (c : Wire) (s : Thread W) → IsTidy s → IsTidy (enqueue conn c s).1
  unfolding enqueue
  enqueue-IsTidy c s h = ground (arith, batch-IsTidy s h, batch-opens s)

  drain_replies-empties : (s : Thread W) → (drain_replies conn s).1.queued ≡ 0
  unfolding drain_replies
  drain_replies-empties s = ground arith

  enqueue_bounded-IsTidy :
      (c : Wire) (s : Thread W) → IsTidy s → IsTidy (enqueue_bounded conn c s).1
  unfolding enqueue_bounded
  enqueue_bounded-IsTidy c s h =
      ground (arith, enqueue-IsTidy c s h, drain_replies-empties (enqueue conn c s).1)

  drain_replies-closed :
      (s : Thread W) → s.open_batch ≡ false → (drain_replies conn s).1.open_batch ≡ false
  unfolding drain_replies
  drain_replies-closed s h = ground arith

  -- Whatever the connection does, after a flush nothing waits and no batch is open.
  pub flush_batch-empties :
      (s : Thread W)
      → ((flush_batch conn s).1.queued ≡ 0) × ((flush_batch conn s).1.open_batch ≡ false)
  unfolding flush_batch
  flush_batch-empties s =
      let sent : Thread W = record {
        queued = s.queued + 1;
        open_batch = false;
        world = (conn.append exec s.world).1;
      } in
      ground (
        arith,
        drain_replies-empties s,
        drain_replies-closed s,
        drain_replies-empties sent,
        drain_replies-closed sent,
      )

  writes-IsTidy : (c : Command) (s : Thread W) → IsTidy s → IsTidy (call (redis_store conn) c s).1
  writes-IsTidy (increment key field value) s h =
      enqueue_bounded-IsTidy (hincrby key field value) s h
  writes-IsTidy (rank board member value) s h =
      enqueue_bounded-IsTidy (zincrby board value member) s h
  writes-IsTidy (mark source seq) s h = enqueue-IsTidy (hset progress_key source seq) s h
  writes-IsTidy flush s h = inr (flush_batch-empties s).0

  resume-IsTidy : (source : Bytes) (s : Thread W) → IsTidy (resume_sequence conn source s).1
  unfolding resume_sequence
  resume-IsTidy source s = ground (arith, flush_batch-empties s)

  -- From a thread where no command waits outside an open batch, none of the five calls of the store
  -- (increment, rank, mark, flush and resume_at) leaves one waiting so, whatever the connection does
  -- and whether the call succeeds.
  pub call-IsTidy :
      (c : Command) (source : Bytes) (s : Thread W)
      → IsTidy s
      → IsTidy (call (redis_store conn) c s).1 × IsTidy ((redis_store conn).resume_at source s).1
  call-IsTidy c source s h = (writes-IsTidy c s h, resume-IsTidy source s)

  batch-bounded :
      (s : Thread W)
      → IsTidy s
      → s.queued < pipeline_depth
      → (batch conn s).1.queued < pipeline_depth
  unfolding batch repair
  batch-bounded s h lt = ground arith

  enqueue-unsent :
      (c : Wire) (s : Thread W)
      → IsTidy s
      → s.queued < pipeline_depth
      → (enqueue conn c s).0 ≡ false
      → (enqueue conn c s).1.queued < pipeline_depth
  unfolding enqueue
  enqueue-unsent c s h lt fails = ground (arith, batch-bounded s h lt)

  -- Counting keeps the pipeline short: a thread with fewer than 1024 commands waiting, and none
  -- outside an open batch, has fewer than 1024 after an increment or a rank, whatever the connection does.
  pub enqueue_bounded-lt :
      (c : Wire) (s : Thread W)
      → IsTidy s
      → s.queued < pipeline_depth
      → (enqueue_bounded conn c s).1.queued < pipeline_depth
  unfolding enqueue_bounded
  enqueue_bounded-lt c s h lt =
      ground (arith, enqueue-unsent c s h lt, drain_replies-empties (enqueue conn c s).1)
