-- ===== src/Store/Redis/Transaction.antt =====
-- What src/store/redis_store.cpp sends for a batch while the connection holds.
use cdr_processor.Base.{
  append-nil, ℕ, zero, suc, ◌+◌, ◌≡◌, refl, Bool, true, false, List, [], ◌∷◌, ◌++◌, append_assoc,
  map, All, arith, if◌then◌else◌,
}
use cdr_processor.Store.Redis.{
  Connection, Thread, Wire, ready, accepted, multi, exec, hincrby, zincrby, hset, repair, batch,
  receive, drain_replies, enqueue, enqueue_bounded, flush_batch, redis_store, progress_key,
}
use cdr_processor.Store.Redis.Queue.{flush_batch-empties}
use cdr_processor.Aggregate.Writers.Commands.{Command, call, send_all, increment, rank, mark, flush}

-- The command that a write is sent as; a flush is none.
abbrev pub wire : Command → Wire
wire (increment key field value) = hincrby key field value
wire (rank board member value) = zincrby board value member
wire (mark source seq) = hset progress_key source seq
wire flush = exec

abbrev pub IsWrite : Command → Type 0
IsWrite (increment key field value) = Unit
IsWrite (rank board member value) = Unit
IsWrite (mark source seq) = Unit
IsWrite flush = ⊥

-- Commands as one transaction, if there are any.
unfoldable pub transaction : List Wire → List Wire
transaction [] = []
transaction (c ∷ cs) = multi ∷ c ∷ (cs ++ exec ∷ [])

module _ {W : Type 0} (conn : Connection W) (log : W → List Wire) where
  -- A connection that holds: what is appended is sent in order, and every reply is good.
  pub record IsSteady : Type 0 where
    pub peek : (w : W) → conn.peek w ≡ ready
    pub connects : (w : W) → (conn.get w).0 ≡ true
    pub get : (w : W) → log (conn.get w).1 ≡ log w
    pub appends : (c : Wire) (w : W) → (conn.append c w).0 ≡ true
    pub append : (c : Wire) (w : W) → log (conn.append c w).1 ≡ log w ++ c ∷ []
    pub replies : (w : W) → (conn.reply w).0 ≡ accepted
    pub reply : (w : W) → log (conn.reply w).1 ≡ log w

  module _ (steady : IsSteady) where
    -- Replies are read and nothing is sent.
    receive-accepted :
        (n : ℕ) (w : W)
        → ((receive conn n true w).0 ≡ true)
          × ((receive conn n true w).1 ≡ false)
          × (log (receive conn n true w).2 ≡ log w)
    unfolding receive
    receive-accepted zero w = (refl, refl, refl)
    receive-accepted (suc n) w =
        ground (arith, steady.replies w, steady.reply w, receive-accepted n (conn.reply w).1)

    drain_replies-accepted :
        (s : Thread W)
        → ((drain_replies conn s).0 ≡ true)
          × ((drain_replies conn s).1.open_batch ≡ s.open_batch)
          × (log (drain_replies conn s).1.world ≡ log s.world)
    unfolding drain_replies
    drain_replies-accepted s =
        ground (arith, steady.peek s.world, receive-accepted s.queued s.world)

    -- What precedes the next command: the batch is opened where it is not.
    opening : Bool → List Wire
    opening open_batch = if open_batch then [] else multi ∷ []

    repair-steady : (s : Thread W) → repair conn s ≡ s
    unfolding repair
    repair-steady s = ground (arith, steady.peek s.world)

    batch-steady :
        (s : Thread W)
        → ((batch conn s).0 ≡ true)
          × ((batch conn s).1.open_batch ≡ true)
          × (log (batch conn s).1.world ≡ log s.world ++ opening s.open_batch)
    unfolding batch opening
    batch-steady s =
        let w = (conn.get s.world).1 in
        rw (repair-steady s) (
          ground (
            arith,
            steady.connects s.world,
            steady.get s.world,
            steady.appends multi w,
            steady.append multi w,
            append-nil (log s.world),
          ))

    enqueue-steady :
        (c : Wire) (s : Thread W)
        → ((enqueue conn c s).0 ≡ true)
          × ((enqueue conn c s).1.open_batch ≡ true)
          × (log (enqueue conn c s).1.world ≡ log s.world ++ (opening s.open_batch ++ c ∷ []))
    unfolding enqueue
    enqueue-steady c s =
        let b = (batch conn s).1 in
        ground (
          arith,
          batch-steady s,
          steady.appends c b.world,
          steady.append c b.world,
          append_assoc (log s.world) (opening s.open_batch) (c ∷ []),
        )

    enqueue_bounded-steady :
        (c : Wire) (s : Thread W)
        → ((enqueue_bounded conn c s).0 ≡ true)
          × ((enqueue_bounded conn c s).1.open_batch ≡ true)
          × (log (enqueue_bounded conn c s).1.world
              ≡ log s.world ++ (opening s.open_batch ++ c ∷ []))
    unfolding enqueue_bounded
    enqueue_bounded-steady c s =
        ground (arith, enqueue-steady c s, drain_replies-accepted (enqueue conn c s).1)

    call-steady :
        (c : Command) (s : Thread W)
        → IsWrite c
        → ((call (redis_store conn) c s).0 ≡ true)
          × ((call (redis_store conn) c s).1.open_batch ≡ true)
          × (log (call (redis_store conn) c s).1.world
              ≡ log s.world ++ (opening s.open_batch ++ wire c ∷ []))
    call-steady (increment key field value) s h = enqueue_bounded-steady (hincrby key field value) s
    call-steady (rank board member value) s h =
        enqueue_bounded-steady (zincrby board value member) s
    call-steady (mark source seq) s h = enqueue-steady (hset progress_key source seq) s
    call-steady flush s h = absurd h

    flush_batch-steady :
        (s : Thread W)
        → s.open_batch ≡ true
        → ((flush_batch conn s).0 ≡ true)
          × (log (flush_batch conn s).1.world ≡ log s.world ++ exec ∷ [])
    unfolding flush_batch
    flush_batch-steady s h =
        let w = (conn.append exec s.world).1 in
        let sent : Thread W = record { queued = s.queued + 1; open_batch = false; world = w } in
        ground (
          arith,
          steady.peek s.world,
          steady.appends exec s.world,
          steady.append exec s.world,
          drain_replies-accepted sent,
        )

    -- A flush of an idle thread sends nothing.
    flush_batch-idle :
        (s : Thread W) → s.open_batch ≡ false → s.queued ≡ 0 → flush_batch conn s ≡ (true, s)
    unfolding flush_batch drain_replies
    flush_batch-idle s o q = ground arith

    -- Writes to an open batch, and the flush that closes it.
    rest-steady :
        (cs : List Command) (s : Thread W)
        → All IsWrite cs
        → s.open_batch ≡ true
        → let (ok, s') = send_all (redis_store conn) (cs ++ flush ∷ []) s in
          (ok ≡ true)
          × (log s'.world ≡ log s.world ++ (map wire cs ++ exec ∷ []))
          × ((s'.queued ≡ 0) × (s'.open_batch ≡ false))
    unfolding opening
    rest-steady [] s h o = ground (arith, flush_batch-steady s o, flush_batch-empties conn s)
    rest-steady (c ∷ cs) s (w, h) o =
        let (sent, opened, logged) = call-steady c s w in
        let (all, whole, idle) = rest-steady cs (call (redis_store conn) c s).1 h opened in
        (
          ground (arith, sent, all),
          ground (
            arith,
            whole,
            logged,
            o,
            append_assoc (log s.world) (wire c ∷ []) (map wire cs ++ exec ∷ []),
          ),
          idle,
        )

    -- Over a connection that holds, writes and a flush from an idle thread are one transaction: the
    -- commands are sent in order between one MULTI and one EXEC, or nothing where there are none; all
    -- calls succeed, and the thread is idle again.
    pub send_all-transaction :
        (cs : List Command) (s : Thread W)
        → All IsWrite cs
        → s.open_batch ≡ false
        → s.queued ≡ 0
        → let (ok, s') = send_all (redis_store conn) (cs ++ flush ∷ []) s in
          (ok ≡ true)
          × (log s'.world ≡ log s.world ++ transaction (map wire cs))
          × ((s'.queued ≡ 0) × (s'.open_batch ≡ false))
    unfolding opening transaction
    send_all-transaction [] s h o q =
        ground (arith, flush_batch-idle s o q, flush_batch-empties conn s, append-nil (log s.world))
    send_all-transaction (c ∷ cs) s (w, h) o q =
        let (sent, opened, logged) = call-steady c s w in
        let (all, whole, idle) = rest-steady cs (call (redis_store conn) c s).1 h opened in
        (
          ground (arith, sent, all),
          ground (
            arith,
            whole,
            logged,
            o,
            append_assoc (log s.world) (multi ∷ wire c ∷ []) (map wire cs ++ exec ∷ []),
          ),
          idle,
        )
