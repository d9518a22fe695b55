-- ===== src/Store/Redis/Progress.antt =====
-- The progress of a source in src/store/redis_store.cpp, over a server that keeps its transactions.
use cdr_processor.Base.{
  [], ◌∷◌, ◌++◌, All, subst, ℕ, zero, suc, ◌+◌, ◌≡◌, ◌∙◌, ap, refl, sym, true, false, arith, Bytes,
}
use cdr_processor.Store.Redis.{
  Connection, Thread, Wire, multi, exec, hset, repair, batch, receive, drain_replies, enqueue,
  enqueue_bounded, flush_batch, resume_sequence, redis_store, progress_key,
}
use cdr_processor.Store.Redis.Server.{View, IsServer, number_of, new_process}
use cdr_processor.Store.Redis.Transaction.{IsWrite, wire}
use cdr_processor.Aggregate.Writers.Commands.{Command, increment, rank, mark, flush, call}
use cdr_processor.Sink.Apart.{Fair}
use cdr_processor.Sink.Marked.{marked}
use cdr_processor.Sink.Progress.{Durable}

module _ {W : Type 0} (conn : Connection W) (source : Bytes) (view : W → View)
    (reconnect : W → W) where
  module _ (server : IsServer conn source view reconnect) where
    receive-view :
        (n : ℕ) (w : W)
        → ((receive conn n true w).1 ≡ false) × (view (receive conn n true w).2 ≡ view w)
    unfolding receive
    receive-view zero w = (refl, refl)
    receive-view (suc n) w =
        ground (arith, server.replies w, server.reply w, receive-view n (conn.reply w).1)

    drain_replies-view :
        (s : Thread W)
        → ((drain_replies conn s).1.open_batch ≡ s.open_batch)
          × (view (drain_replies conn s).1.world ≡ view s.world)
    unfolding drain_replies
    drain_replies-view s = ground (arith, server.peek s.world, receive-view s.queued s.world)

    -- The thread's flag and the server agree.
    abbrev pub Agrees : Thread W → Type 0
    Agrees s = (view s.world).in_multi ≡ s.open_batch

    batch-view :
        (s : Thread W)
        → Agrees s
        → ((batch conn s).0 ≡ true)
          × ((batch conn s).1.open_batch ≡ true)
          × (view (batch conn s).1.world ≡ record {
            in_multi = true;
            executed = (view s.world).executed;
            queued_up = (view s.world).queued_up;
          })
    unfolding batch repair
    batch-view s h =
        let w = (conn.get s.world).1 in
        ground (
          arith,
          server.peek s.world,
          server.connects s.world,
          server.get s.world,
          server.appends multi w,
          server.begin w,
          server.idle s.world,
        )

    -- A command queued in the batch, which is then open.
    enqueue-view :
        (c : Wire) (s : Thread W)
        → Agrees s
        → ((enqueue conn c s).0 ≡ true)
          × ((enqueue conn c s).1.open_batch ≡ true)
          × ((enqueue conn c s).1.world ≡ (conn.append c (batch conn s).1.world).1)
    unfolding enqueue
    enqueue-view c s h = ground (arith, batch-view s h, server.appends c (batch conn s).1.world)

    enqueue_bounded-view :
        (c : Wire) (s : Thread W)
        → Agrees s
        → ((enqueue_bounded conn c s).1.open_batch ≡ true)
          × (view (enqueue_bounded conn c s).1.world
              ≡ view (conn.append c (batch conn s).1.world).1)
    unfolding enqueue_bounded
    enqueue_bounded-view c s h = ground (
      arith,
      enqueue-view c s h,
      drain_replies-view (enqueue conn c s).1,
      ap view (enqueue-view c s h).2,
    )

    flush_batch-view :
        (s : Thread W)
        → Agrees s
        → ((flush_batch conn s).1.open_batch ≡ false)
          × (view (flush_batch conn s).1.world ≡ record {
            in_multi = false;
            executed = (view s.world).queued_up;
            queued_up = (view s.world).queued_up;
          })
    unfolding flush_batch
    flush_batch-view s h =
        let w = (conn.append exec s.world).1 in
        ground (
          arith,
          server.peek s.world,
          server.appends exec s.world,
          server.commit s.world,
          server.idle s.world,
          drain_replies-view s,
          drain_replies-view (record { queued = s.queued + 1; open_batch = false; world = w }),
        )

    -- What a write leaves, which is queued in the open batch.
    abbrev pub Queued : Command → Thread W → Thread W → Type 0
    Queued c s s' =
        Agrees s'
        × ((view s'.world).executed ≡ (view s.world).executed)
        × ((view s'.world).queued_up ≡ (view s.world).queued_up ++ c ∷ [])

    append-Queued :
        (c : Command) (s s' : Thread W)
        → IsWrite c
        → Agrees s
        → s'.open_batch ≡ true
        → view s'.world ≡ view (conn.append (wire c) (batch conn s).1.world).1
        → Queued c s s'
    append-Queued c s s' write h flag same =
        let (_, _, opened) = batch-view s h in
        let all =
          same ∙ server.queues c (batch conn s).1.world write (ap (λ v. v.in_multi) opened) in
        (
          ap (λ v. v.in_multi) all ∙ sym flag,
          ap (λ v. v.executed) all ∙ ap (λ v. v.executed) opened,
          ap (λ v. v.queued_up) all ∙ ap (λ v. v.queued_up ++ c ∷ []) opened,
        )

    enqueue_bounded-Queued :
        (c : Command) (s : Thread W)
        → IsWrite c
        → Agrees s
        → Queued c s (enqueue_bounded conn (wire c) s).1
    enqueue_bounded-Queued c s write h =
        let (flag, same) = enqueue_bounded-view (wire c) s h in
        append-Queued c s (enqueue_bounded conn (wire c) s).1 write h flag same

    pub call-Queued :
        (c : Command) (s : Thread W)
        → Fair c
        → Agrees s
        → Queued c s (call (redis_store conn) c s).1
    call-Queued (increment key field value) s fair h = enqueue_bounded-Queued _ s tt h
    call-Queued (rank board member value) s fair h = enqueue_bounded-Queued _ s tt h
    call-Queued (mark name seq) s fair h =
        let (_, flag, same) = enqueue-view (hset progress_key name seq) s h in
        append-Queued (mark name seq) s (enqueue conn (hset progress_key name seq) s).1 tt h flag
          (ap view same)
    call-Queued flush s fair h = absurd fair

    pub resume-view :
        (s : Thread W)
        → Agrees s
        → All Fair (view s.world).queued_up
        → let (seq, s') = resume_sequence conn source s in
          (seq ≡ marked source 0 (view s.world).queued_up)
          × Agrees s'
          × ((view s'.world).executed ≡ (view s.world).queued_up)
          × ((view s'.world).queued_up ≡ (view s.world).queued_up)
    unfolding resume_sequence number_of
    resume-view s h fair =
        let s₁ = (flush_batch conn s).1 in
        let w = (conn.get s₁.world).1 in
        let (flag, flushed) = flush_batch-view s h in
        let at_w = server.get s₁.world ∙ flushed in
        let executed = ap (λ v. v.executed) at_w in
        let number =
          server.reads w (ap (λ v. v.in_multi) at_w) (subst (All Fair) (sym executed) fair)
          ∙ ap (marked source 0) executed in
        ground
          (arith, server.connects s₁.world, server.answers w, server.hget w, flag, at_w, number)

    pub flush-view :
        (s : Thread W)
        → Agrees s
        → Agrees (flush_batch conn s).1
          × ((view (flush_batch conn s).1.world).executed ≡ (view s.world).queued_up)
          × ((view (flush_batch conn s).1.world).queued_up ≡ (view s.world).queued_up)
    flush-view s h =
        let (flag, all) = flush_batch-view s h in
        (ap (λ v. v.in_multi) all ∙ sym flag, ap (λ v. v.executed) all, ap (λ v. v.queued_up) all)

    pub restart-view :
        (s : Thread W)
        → Agrees (new_process reconnect s)
          × ((view (new_process reconnect s).world).executed ≡ (view s.world).executed)
          × ((view (new_process reconnect s).world).queued_up ≡ (view s.world).executed)
    unfolding new_process
    restart-view s =
        let all = server.lost s.world in
        (ap (λ v. v.in_multi) all, ap (λ v. v.executed) all, ap (λ v. v.queued_up) all)

    -- Over a server that keeps its transactions, what `AggregateSink` writes lasts from the next
    -- flush on, a batch that is cut off leaves nothing, and a new process reads what lasts.
    abbrev pub redis_store-Durable : Durable (redis_store conn) (new_process reconnect) source
    redis_store-Durable = record {
      sound = Agrees;
      lasting = λ s. (view s.world).executed;
      pending = λ s. (view s.world).queued_up;
      write_waits = call-Queued;
      flush_lasts = λ s h. flush-view s h;
      resume_reads = λ s h fair. resume-view s h fair;
      restart_keeps = λ s h. restart-view s;
    }
