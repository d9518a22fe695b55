-- ===== src/Sink/Transaction.antt =====
-- A batch of src/sink/aggregate_sink.cpp on Redis (src/store/redis_store.cpp).
use cdr_processor.Base.{
  ℕ, ◌≡◌, ◌∙◌, ap, false, List, [], ◌∷◌, ◌++◌, append_assoc, map, All, All-append, arith, Bytes,
}
use cdr_processor.Record.{CdrRecord}
use cdr_processor.Store.Redis.{Connection, Thread, Wire, redis_store}
use cdr_processor.Store.Redis.Transaction.{
  IsWrite, IsSteady, transaction, wire, send_all-transaction,
}
use cdr_processor.Aggregate.Totals.{Totals, no_totals, add_batch}
use cdr_processor.Aggregate.Delta.{fold, Delta}
use cdr_processor.Aggregate.Writers.{
  Addition, for_each, sub_additions, op_additions, link_additions, sub_scores, op_scores,
  totals_additions,
}
use cdr_processor.Aggregate.Writers.Commands.{
  mark, Command, commands, totals_commands, rank_commands, delta_commands, send_all, flush,
  increment, rank,
}
use cdr_processor.Sink.{highest, consume_store}
use cdr_processor.Sink.Consume.{progress_commands, batch_commands, consume-sends}

-- What holds of every increment and every rank holds of what the writers send.
module _ (P : Command → Type 0)
    (p_increment : (key field : Bytes) (value : ℕ) → P (increment key field value))
    (p_rank : (board member : Bytes) (value : ℕ) → P (rank board member value)) where
  commands-All :
      (make : Bytes → Bytes → ℕ → Command)
      → ((key field : Bytes) (value : ℕ) → P (make key field value))
      → (adds : List Addition) → All P (commands make adds)
  unfolding commands
  commands-All make h [] = tt
  commands-All make h ((key, field, value) ∷ rest) =
      ground (arith, h key field value, commands-All make h rest)

  pub totals_commands-All : (t : Totals) → All P (totals_commands t)
  unfolding totals_commands
  totals_commands-All t = commands-All increment p_increment (totals_additions t)

  pub delta_commands-All : (delta : Delta) → All P (delta_commands delta)
  unfolding delta_commands
  delta_commands-All delta =
      let all = commands-All increment p_increment in
      let subs = for_each sub_additions delta.subs in
      let ops = for_each op_additions delta.ops in
      let links = for_each link_additions delta.links in
      All-append P (commands increment subs) (commands increment ops ++ commands increment links)
        (all subs)
        (All-append P (commands increment ops) (commands increment links) (all ops) (all links))

  pub rank_commands-All : (delta : Delta) → All P (rank_commands delta)
  unfolding rank_commands
  rank_commands-All delta =
      let all = commands-All rank p_rank in
      let subs = for_each sub_scores delta.subs in
      let ops = for_each op_scores delta.ops in
      All-append P (commands rank subs) (commands rank ops) (all subs) (all ops)

-- The writes of one batch.
unfoldable pub batch_writes : List CdrRecord → Bytes → List Command
batch_writes batch source =
    totals_commands (add_batch no_totals batch)
    ++ (progress_commands source (highest batch)
        ++ (rank_commands (fold batch) ++ delta_commands (fold batch)))

pub batch_writes-flush :
    (batch : List CdrRecord) (source : Bytes)
    → batch_commands batch source ≡ batch_writes batch source ++ flush ∷ []
unfolding batch_writes batch_commands
batch_writes-flush batch source =
    let tcs = totals_commands (add_batch no_totals batch) in
    let pcs = progress_commands source (highest batch) in
    let rcs = rank_commands (fold batch) in
    let dcs = delta_commands (fold batch) in
    let end = flush ∷ [] in
    ground (
      arith,
      append_assoc tcs (pcs ++ (rcs ++ dcs)) end,
      append_assoc pcs (rcs ++ dcs) end,
      append_assoc rcs dcs end,
    )

-- And of what a batch sends, with the marks of its source.
pub batch_writes-All :
    (P : Command → Type 0) (batch : List CdrRecord) (source : Bytes)
    → ((key field : Bytes) (value : ℕ) → P (increment key field value))
    → ((board member : Bytes) (value : ℕ) → P (rank board member value))
    → P (mark source (highest batch))
    → All P (batch_writes batch source)
unfolding batch_writes progress_commands
batch_writes-All P batch source p_increment p_rank p_mark =
    let totals = add_batch no_totals batch in
    let tcs = totals_commands totals in
    let pcs = progress_commands source (highest batch) in
    let rcs = rank_commands (fold batch) in
    let dcs = delta_commands (fold batch) in
    let marks : All P pcs = ground (arith, p_mark) in
    All-append P tcs (pcs ++ (rcs ++ dcs)) (totals_commands-All P p_increment p_rank totals) (
      All-append P pcs (rcs ++ dcs) marks (
        All-append P rcs dcs (rank_commands-All P p_increment p_rank (fold batch))
          (delta_commands-All P p_increment p_rank (fold batch))))

-- Over a connection that holds, a batch is one transaction: from an idle thread, the totals of the
-- batch, its progress, its boards and its counters are sent between one MULTI and one EXEC, and the
-- thread is idle again.
pub consume_store-transaction :
    {W : Type 0} (conn : Connection W) (log : W → List Wire)
    → IsSteady conn log
    → (batch : List CdrRecord) (source : Bytes) (s : Thread W) → s.open_batch ≡ false
    → s.queued ≡ 0
    → let s' = consume_store (redis_store conn) batch source s in
      (log s'.world ≡ log s.world ++ transaction (map wire (batch_writes batch source)))
      × ((s'.queued ≡ 0) × (s'.open_batch ≡ false))
consume_store-transaction conn log steady batch source s o q =
    let writes = batch_writes batch source in
    let (ok, logged, idle) =
      send_all-transaction conn log steady writes s
        (batch_writes-All IsWrite batch source (λ k f v. tt) (λ b m v. tt) tt) o q in
    let run =
      consume-sends (redis_store conn) batch source s
      ∙ ap (λ (cs : List Command). (send_all (redis_store conn) cs s).1)
          (batch_writes-flush batch source) in
    (ap (λ s'. log s'.world) run ∙ logged, rw run idle)
