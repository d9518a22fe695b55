-- ===== src/Tests/Sink.antt =====
-- src/sink and the writers of src/aggregate over a store that notes every call.
use cdr_processor.Base.{
  ◌≡◌, ℕ, ◌+◌, ◌&&◌, Bytes, text_eq, if◌then◌else◌, refl, List, [], ◌∷◌, ◌++◌, codes, true, false,
}
use cdr_processor.Record.{CdrRecord, moc, sample}
use cdr_processor.Store.{IStore}
use cdr_processor.Aggregate.Delta.{Delta}
use cdr_processor.Aggregate.Writers.{op_scores, op_additions, write_delta, write_ranks}
use cdr_processor.Aggregate.Writers.Commands.{Command, increment, rank, mark, flush}
use cdr_processor.Sink.Counted.{IsAdding, name_of, consume_store-totals}
use cdr_processor.Aggregate.Totals.{moc_dur}
use cdr_processor.Aggregate.Totals.Counts.{weight, wrapped}
use cdr_processor.Sink.{consume_store}
use cdr_processor.Charconv.{to_chars}

-- Calls noted at the end of the log; a rank fails.
abbrev log_store : IStore (List Command)
log_store = record {
  increment = λ key field value log. (true, log ++ increment key field value ∷ []);
  rank = λ board member value log. (false, log ++ rank board member value ∷ []);
  flush = λ log. (true, log ++ flush ∷ []);
  mark = λ source seq log. (true, log ++ mark source seq ∷ []);
  resume_at = λ source log. (0, log);
}

abbrev batch : List CdrRecord
batch = sample 7 moc 1 2 60 ∷ []

abbrev delta : Delta
delta = record {
  subs = [];
  ops = (42501, record { voice_out = 60; voice_in = 0; sms_out = 2; sms_in = 0 }) ∷ [];
  links = [];
}

-- What is then in the log.
delta_log : write_delta log_store delta [] ≡ (
  true,
  increment (codes "op:42501") (codes "voice_out") 60
      ∷ increment (codes "op:42501") (codes "sms_out") 2
      ∷ flush
      ∷ [],
)
unfolding write_delta op_additions to_chars
delta_log = refl

ranks_log : write_ranks log_store delta [] ≡ (
  false,
  rank (codes "top:op-voice") (codes "42501") 60 ∷ rank (codes "top:op-sms") (codes "42501") 2 ∷ [],
)
unfolding write_ranks op_scores to_chars
ranks_log = refl

-- Counters by key and field.
abbrev counting : IStore (Bytes → Bytes → ℕ)
counting = record {
  increment =
      λ key field n s. (true, λ k f. s k f + (if text_eq key k && text_eq field f then n else 0));
  rank = λ board member n s. (true, s);
  flush = λ s. (true, s);
  mark = λ source seq s. (true, s);
  resume_at = λ source s. (0, s);
}

counting-IsAdding : IsAdding counting (λ s. s)
counting-IsAdding = record {
  increments = λ key field n s k f. refl;
  ranks = λ board member n s k f. refl;
  marks = λ source seq s k f. refl;
  flushes = λ s k f. refl;
}

consume_store-totals_example :
    consume_store counting batch
      (codes "calls.cdr")
      (λ k f. 2)
      (codes "total:proc")
      (name_of moc_dur)
    ≡ 2 + wrapped (weight moc_dur) batch
consume_store-totals_example =
    consume_store-totals counting (λ s. s) counting-IsAdding moc_dur batch (codes "calls.cdr")
      (λ k f. 2)
