-- ===== src/Sink/Consume.antt =====
-- The calls that `AggregateSink::consume` (src/sink/aggregate_sink.cpp) makes of its store.
use cdr_processor.Base.{
  ℕ, ◌≡◌, ◌==◌, ◌&&◌, not, List, [], ◌∷◌, ◌++◌, arith, Bytes, length, if◌then◌else◌,
}
use cdr_processor.Record.{CdrRecord}
use cdr_processor.Store.{IStore}
use cdr_processor.Aggregate.Totals.{no_totals, add_batch}
use cdr_processor.Aggregate.Delta.{fold}
use cdr_processor.Aggregate.Writers.Commands.{
  Command, mark, flush, send_all, send_all-append, totals_commands, rank_commands, delta_commands,
  write_totals-sends, write_ranks-sends, write_delta-sends,
}
use cdr_processor.Sink.{highest, mark_progress, consume_store}

-- The progress of a source that has a name, where the batch has a sequence above 0.
unfoldable pub progress_commands : Bytes → ℕ → List Command
progress_commands source seq =
    if not (length source == 0) && not (seq == 0) then mark source seq ∷ [] else []

-- The commands of one batch: totals, progress, boards, counters, and one flush behind all of them.
unfoldable pub batch_commands : List CdrRecord → Bytes → List Command
batch_commands batch source =
    totals_commands (add_batch no_totals batch)
    ++ (progress_commands source (highest batch)
        ++ (rank_commands (fold batch) ++ (delta_commands (fold batch) ++ flush ∷ [])))

module _ {S : Type 0} (store : IStore S) where
  mark_progress-sends :
      (source : Bytes) (seq : ℕ) (s : S)
      → mark_progress store source seq s ≡ (send_all store (progress_commands source seq) s).1
  unfolding mark_progress progress_commands
  mark_progress-sends source seq s = ground arith

  -- Consuming a batch makes exactly these calls, in this order, whatever the store answers: the
  -- batch's totals, its progress where the source has a name, its boards, its counters, and one
  -- flush at the end.
  pub consume-sends :
      (batch : List CdrRecord) (source : Bytes) (s : S)
      → consume_store store batch source s ≡ (send_all store (batch_commands batch source) s).1
  unfolding consume_store batch_commands
  consume-sends batch source s =
      let delta = fold batch in
      let totals = add_batch no_totals batch in
      let tcs = totals_commands totals in
      let pcs = progress_commands source (highest batch) in
      let rcs = rank_commands delta in
      let dcs = delta_commands delta ++ flush ∷ [] in
      let s₁ = (send_all store tcs s).1 in
      let s₂ = (send_all store pcs s₁).1 in
      let s₃ = (send_all store rcs s₂).1 in
      ground (
        arith,
        write_totals-sends store totals s,
        mark_progress-sends source (highest batch) s₁,
        write_ranks-sends store delta s₂,
        write_delta-sends store delta s₃,
        send_all-append store tcs (pcs ++ (rcs ++ dcs)) s,
        send_all-append store pcs (rcs ++ dcs) s₁,
        send_all-append store rcs dcs s₂,
      )
