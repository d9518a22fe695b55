-- ===== src/Tests/Redis.antt =====
-- src/store/redis_store.cpp over small connections.
use cdr_processor.Base.{
  ◌≡◌, refl, inl, List, [], ◌∷◌, ◌++◌, map, codes, true, false, text_eq, if◌then◌else◌,
}
use cdr_processor.Record.{CdrRecord, moc, sample}
use cdr_processor.Store.Redis.{
  Connection, Thread, Wire, Context, ready, broken, accepted, no_reply, multi, exec, hincrby,
  zincrby, hset, batch, enqueue, enqueue_bounded, flush_batch, redis_store, repair, drain_replies,
  receive,
}
use cdr_processor.Store.Redis.Queue.{IsTidy, call-IsTidy}
use cdr_processor.Store.Redis.Transaction.{IsSteady, transaction, wire}
use cdr_processor.Aggregate.Writers.Commands.{Command, call, send_all, increment, rank, mark, flush}
use cdr_processor.Sink.{consume_store}
use cdr_processor.Sink.Transaction.{batch_writes, consume_store-transaction}

-- A connection that holds; its world is what was sent.
abbrev steady_connection : Connection (List Wire)
steady_connection = record {
  peek = λ w. ready;
  get = λ w. (true, w);
  drop = λ w. w;
  append = λ c w. (true, w ++ c ∷ []);
  reply = λ w. (accepted, w);
  hget = λ key field w. (no_reply, w);
}

steady : IsSteady steady_connection (λ w. w)
steady = record {
  peek = λ w. refl;
  connects = λ w. refl;
  get = λ w. refl;
  appends = λ c w. refl;
  append = λ c w. refl;
  replies = λ w. refl;
  reply = λ w. refl;
}

abbrev idle : Thread (List Wire)
idle = record { queued = 0; open_batch = false; world = [] }

abbrev writes : List Command
writes =
    increment (codes "op:42501") (codes "voice_out") 60
    ∷ mark (codes "calls.cdr") 7
    ∷ rank (codes "top:sms") (codes "5") 1
    ∷ []

abbrev sent_once : List Wire
sent_once =
    multi
    ∷ hincrby (codes "op:42501") (codes "voice_out") 60
    ∷ hset (codes "prog:file") (codes "calls.cdr") 7
    ∷ zincrby (codes "top:sms") 1 (codes "5")
    ∷ exec
    ∷ []

transaction_sent : transaction (map wire writes) ≡ sent_once
unfolding transaction
transaction_sent = refl

abbrev records : List CdrRecord
records = sample 7 moc 1 2 60 ∷ []

consume_store-transaction_example :
    let s' = consume_store (redis_store steady_connection) records (codes "calls.cdr") idle in
    (s'.world ≡ [] ++ transaction (map wire (batch_writes records (codes "calls.cdr"))))
    × ((s'.queued ≡ 0) × (s'.open_batch ≡ false))
consume_store-transaction_example =
    consume_store-transaction steady_connection (λ w. w) steady records (codes "calls.cdr") idle
      refl refl

-- A connection that breaks once, when a field named `b` is sent; the world is what the server has of
-- the connection that stands, and the context.
abbrev breaks_at_b : Wire → Context → Context
breaks_at_b (hincrby key field value) context =
    if text_eq field (codes "b") then broken else context
breaks_at_b multi context = context
breaks_at_b exec context = context
breaks_at_b (zincrby board value member) context = context
breaks_at_b (hset key source seq) context = context

abbrev breaking_connection : Connection (List Wire × Context)
breaking_connection = record {
  peek = λ w. w.1;
  get = λ w. (true, w);
  drop = λ w. ([], ready);
  append = λ c w. (true, (w.0 ++ c ∷ [], breaks_at_b c w.1));
  reply = λ w. (accepted, w);
  hget = λ key field w. (no_reply, w);
}

abbrev breaking : Thread (List Wire × Context)
breaking = record { queued = 0; open_batch = false; world = ([], ready) }

abbrev three_fields : List Command
three_fields =
    increment (codes "sub:1") (codes "a") 1
    ∷ increment (codes "sub:1") (codes "b") 1
    ∷ increment (codes "sub:1") (codes "c") 1
    ∷ flush
    ∷ []

-- The rest of the batch is committed without what was queued before the connection broke, and every
-- call answers that it succeeded.
part_committed :
    let (ok, s') = send_all (redis_store breaking_connection) three_fields breaking in
    (ok ≡ true) × (s'.world.0 ≡ multi ∷ hincrby (codes "sub:1") (codes "c") 1 ∷ exec ∷ [])
unfolding enqueue_bounded enqueue batch repair flush_batch drain_replies receive
part_committed = (refl, refl)

-- A thread with commands waiting on a context that broke.
abbrev waiting : Thread (List Wire × Context)
waiting = record { queued = 5; open_batch = true; world = (multi ∷ [], broken) }

call-IsTidy_example :
    IsTidy breaking_connection
      (call (redis_store breaking_connection) (mark (codes "calls.cdr") 7) waiting).1
    × IsTidy breaking_connection
        ((redis_store breaking_connection).resume_at (codes "calls.cdr") waiting).1
call-IsTidy_example =
    call-IsTidy breaking_connection (mark (codes "calls.cdr") 7) (codes "calls.cdr") waiting
      (inl refl)
