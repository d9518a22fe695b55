-- ===== src/Sink/Apart.antt =====
-- The commands of a batch of src/sink/aggregate_sink.cpp beside the progress of the sources
-- (src/store/redis_store.cpp).
use cdr_processor.Base.{
  u64_mod, ◌<◌, ℕ, ◌≡◌, false, List, [], ◌∷◌, ◌++◌, All, All-append, arith, Bytes, text_eq,
}
use cdr_processor.Record.{CdrRecord}
use cdr_processor.Store.Redis.{progress_key}
use cdr_processor.Aggregate.Totals.{Totals, no_totals, add_batch}
use cdr_processor.Aggregate.Delta.{fold, Delta, SubDelta, OpDelta, LinkKey, LinkDelta}
use cdr_processor.Aggregate.Writers.{
  Addition, for_each, sub_additions, op_additions, link_additions, sub_scores, op_scores,
  totals_additions,
}
use cdr_processor.Aggregate.Writers.Commands.{
  Command, increment, rank, mark, flush, commands, totals_commands, rank_commands, delta_commands,
}
use cdr_processor.Sink.{highest}
use cdr_processor.Sink.Consume.{progress_commands}
use cdr_processor.Sink.Transaction.{batch_writes}

-- A counter or a board that is not the key of the progress, or a mark of 64 bits.
abbrev pub Fair : Command → Type 0
Fair (increment key field value) = text_eq key progress_key ≡ false
Fair (rank board member value) = text_eq board progress_key ≡ false
Fair (mark source seq) = seq < u64_mod
Fair flush = ⊥

abbrev Apart : Addition → Type 0
Apart (key, field, value) = text_eq key progress_key ≡ false

sub_additions-Apart : (e : ℕ × SubDelta) → All Apart (sub_additions e)
unfolding sub_additions
sub_additions-Apart (msisdn, sub) = ground arith

op_additions-Apart : (e : ℕ × OpDelta) → All Apart (op_additions e)
unfolding op_additions
op_additions-Apart (mccmnc, op) = ground arith

link_additions-Apart : (e : LinkKey × LinkDelta) → All Apart (link_additions e)
unfolding link_additions
link_additions-Apart (link, edge) = ground arith

totals_additions-Apart : (t : Totals) → All Apart (totals_additions t)
unfolding totals_additions
totals_additions-Apart t = ground arith

sub_scores-Apart : (e : ℕ × SubDelta) → All Apart (sub_scores e)
unfolding sub_scores
sub_scores-Apart (msisdn, sub) = ground arith

op_scores-Apart : (e : ℕ × OpDelta) → All Apart (op_scores e)
unfolding op_scores
op_scores-Apart (mccmnc, op) = ground arith

for_each-Apart :
    {A : Type 0} (lines : A → List Addition)
    → ((a : A) → All Apart (lines a))
    → (es : List A) → All Apart (for_each lines es)
unfolding for_each
for_each-Apart lines h [] = tt
for_each-Apart lines h (e ∷ es) =
    All-append Apart (lines e) (for_each lines es) (h e) (for_each-Apart lines h es)

commands-All :
    (P : Command → Type 0) (make : Bytes → Bytes → ℕ → Command)
    → ((key field : Bytes) (value : ℕ)
        → text_eq key progress_key ≡ false
        → P (make key field value))
    → (adds : List Addition) → All Apart adds
    → All P (commands make adds)
unfolding commands
commands-All P make h [] apart = tt
commands-All P make h ((key, field, value) ∷ rest) (a, apart) =
    ground (arith, h key field value a, commands-All P make h rest apart)

-- What holds of every counter and board apart from the progress holds of what the writers send.
module _ (P : Command → Type 0)
    (p_increment : (key field : Bytes) (value : ℕ)
      → text_eq key progress_key ≡ false
      → P (increment key field value))
    (p_rank : (board member : Bytes) (value : ℕ)
      → text_eq board progress_key ≡ false
      → P (rank board member value)) where
  totals_commands-Apart : (t : Totals) → All P (totals_commands t)
  unfolding totals_commands
  totals_commands-Apart t =
      commands-All P increment p_increment (totals_additions t) (totals_additions-Apart t)

  delta_commands-Apart : (delta : Delta) → All P (delta_commands delta)
  unfolding delta_commands
  delta_commands-Apart delta =
      let all = commands-All P increment p_increment in
      let subs = for_each sub_additions delta.subs in
      let ops = for_each op_additions delta.ops in
      let links = for_each link_additions delta.links in
      All-append P (commands increment subs) (commands increment ops ++ commands increment links)
        (all subs (for_each-Apart sub_additions sub_additions-Apart delta.subs))
        (All-append P (commands increment ops) (commands increment links)
          (all ops (for_each-Apart op_additions op_additions-Apart delta.ops))
          (all links (for_each-Apart link_additions link_additions-Apart delta.links)))

  rank_commands-Apart : (delta : Delta) → All P (rank_commands delta)
  unfolding rank_commands
  rank_commands-Apart delta =
      let all = commands-All P rank p_rank in
      let subs = for_each sub_scores delta.subs in
      let ops = for_each op_scores delta.ops in
      All-append P (commands rank subs) (commands rank ops)
        (all subs (for_each-Apart sub_scores sub_scores-Apart delta.subs))
        (all ops (for_each-Apart op_scores op_scores-Apart delta.ops))

-- No counter of a batch has the key of the progress.
pub batch_writes-Fair :
    (batch : List CdrRecord) (source : Bytes)
    → highest batch < u64_mod
    → All Fair (batch_writes batch source)
unfolding batch_writes progress_commands
batch_writes-Fair batch source fits =
    let totals = add_batch no_totals batch in
    let tcs = totals_commands totals in
    let pcs = progress_commands source (highest batch) in
    let rcs = rank_commands (fold batch) in
    let dcs = delta_commands (fold batch) in
    let marks : All Fair pcs = ground (arith, fits) in
    let apart = λ (k f : Bytes) (v : ℕ) (e : text_eq k progress_key ≡ false). e in
    All-append Fair tcs (pcs ++ (rcs ++ dcs)) (totals_commands-Apart Fair apart apart totals) (
      All-append Fair pcs (rcs ++ dcs) marks (
        All-append Fair rcs dcs (rank_commands-Apart Fair apart apart (fold batch))
          (delta_commands-Apart Fair apart apart (fold batch))))
