-- ===== src/Sink/Counted.antt =====
-- What a batch of src/sink/aggregate_sink.cpp adds to the counters of all records.
use cdr_processor.Base.{
  ℕ, ◌+◌, ◌≡◌, ◌∙◌, ap, refl, ◌&&◌, List, [], ◌∷◌, ◌++◌, arith, Bytes, codes, text_eq,
  if◌then◌else◌,
}
use cdr_processor.Record.{CdrRecord}
use cdr_processor.Store.{IStore}
use cdr_processor.Aggregate.Totals.{
  Totals, no_totals, add_batch, snapshot, Counter, records, moc_cnt, mtc_cnt, sms_mo_cnt,
  sms_mt_cnt, data_cnt, noans_cnt, busy_cnt, failed_cnt, moc_dur, mtc_dur, data_dur, data_rx,
  data_tx,
}
use cdr_processor.Aggregate.Totals.Counts.{weight, wrapped, exact_totals, add_batch-exact}
use cdr_processor.Aggregate.Delta.{fold, Delta, SubDelta, OpDelta, LinkKey, LinkDelta}
use cdr_processor.Aggregate.Writers.{
  Addition, for_each, sub_additions, op_additions, link_additions, sub_scores, op_scores,
  totals_additions,
}
use cdr_processor.Aggregate.Writers.Commands.{
  Command, increment, rank, mark, flush, commands, totals_commands, rank_commands, delta_commands,
  send_all,
}
use cdr_processor.Sink.{highest, consume_store}
use cdr_processor.Sink.Consume.{progress_commands, batch_commands, consume-sends}

-- A store that adds: an increment adds its value to its field of its key, and nothing else changes
-- what the fields hold.
pub record IsAdding {S : Type 0} (store : IStore S) (value : S → Bytes → Bytes → ℕ) : Type 0 where
  pub increments :
      (key field : Bytes) (n : ℕ) (s : S) (k f : Bytes)
      → value (store.increment key field n s).1 k f
        ≡ value s k f + (if text_eq key k && text_eq field f then n else 0)
  pub ranks :
      (board member : Bytes) (n : ℕ) (s : S) (k f : Bytes)
      → value (store.rank board member n s).1 k f ≡ value s k f
  pub marks :
      (source : Bytes) (seq : ℕ) (s : S) (k f : Bytes)
      → value (store.mark source seq s).1 k f ≡ value s k f
  pub flushes : (s : S) (k f : Bytes) → value (store.flush s).1 k f ≡ value s k f

-- What commands add to one field of a key.
abbrev added : Bytes → Bytes → List Command → ℕ
added k f [] = 0
added k f (increment key field n ∷ cs) =
    (if text_eq key k && text_eq field f then n else 0) + added k f cs
added k f (rank board member n ∷ cs) = added k f cs
added k f (mark source seq ∷ cs) = added k f cs
added k f (flush ∷ cs) = added k f cs

abbrev summed : Bytes → Bytes → List Addition → ℕ
summed k f [] = 0
summed k f ((key, field, n) ∷ adds) =
    (if text_eq key k && text_eq field f then n else 0) + summed k f adds

module _ {S : Type 0} (store : IStore S) (value : S → Bytes → Bytes → ℕ)
    (adding : IsAdding store value) where
  send_all-added :
      (cs : List Command) (s : S) (k f : Bytes)
      → value (send_all store cs s).1 k f ≡ value s k f + added k f cs
  send_all-added [] s k f = omega arith
  send_all-added (increment key field n ∷ cs) s k f =
      let s' = (store.increment key field n s).1 in
      omega (arith, send_all-added cs s' k f, adding.increments key field n s k f)
  send_all-added (rank board member n ∷ cs) s k f =
      send_all-added cs (store.rank board member n s).1 k f
      ∙ ap (λ (m : ℕ). m + added k f cs) (adding.ranks board member n s k f)
  send_all-added (mark source seq ∷ cs) s k f =
      send_all-added cs (store.mark source seq s).1 k f
      ∙ ap (λ (m : ℕ). m + added k f cs) (adding.marks source seq s k f)
  send_all-added (flush ∷ cs) s k f =
      send_all-added cs (store.flush s).1 k f
      ∙ ap (λ (m : ℕ). m + added k f cs) (adding.flushes s k f)

module _ (k f : Bytes) where
  added-append : (xs ys : List Command) → added k f (xs ++ ys) ≡ added k f xs + added k f ys
  added-append [] ys = omega arith
  added-append (increment key field n ∷ xs) ys = omega (arith, added-append xs ys)
  added-append (rank board member n ∷ xs) ys = added-append xs ys
  added-append (mark source seq ∷ xs) ys = added-append xs ys
  added-append (flush ∷ xs) ys = added-append xs ys

  summed-append : (xs ys : List Addition) → summed k f (xs ++ ys) ≡ summed k f xs + summed k f ys
  summed-append [] ys = omega arith
  summed-append ((key, field, n) ∷ xs) ys = omega (arith, summed-append xs ys)

  -- That a counter of 0 is left out changes no sum.
  added-commands : (adds : List Addition) → added k f (commands increment adds) ≡ summed k f adds
  unfolding commands
  added-commands [] = refl
  added-commands ((key, field, n) ∷ adds) = ground (arith, added-commands adds)

  added-ranks : (adds : List Addition) → added k f (commands rank adds) ≡ 0
  unfolding commands
  added-ranks [] = refl
  added-ranks ((key, field, n) ∷ adds) = ground (arith, added-ranks adds)

  summed-for_each :
      {A : Type 0} (lines : A → List Addition)
      → ((a : A) → summed k f (lines a) ≡ 0)
      → (es : List A) → summed k f (for_each lines es) ≡ 0
  unfolding for_each
  summed-for_each lines h [] = refl
  summed-for_each lines h (e ∷ es) =
      omega (arith, summed-append (lines e) (for_each lines es), h e, summed-for_each lines h es)

  rank_commands-added : (delta : Delta) → added k f (rank_commands delta) ≡ 0
  unfolding rank_commands
  rank_commands-added delta =
      let subs = for_each sub_scores delta.subs in
      let ops = for_each op_scores delta.ops in
      omega (
        arith,
        added-append (commands rank subs) (commands rank ops),
        added-ranks subs,
        added-ranks ops,
      )

  progress_commands-added :
      (source : Bytes) (seq : ℕ) → added k f (progress_commands source seq) ≡ 0
  unfolding progress_commands
  progress_commands-added source seq = ground arith

-- The key of the counters of all records, and the field of each.
abbrev pub total : Bytes
total = codes "total:proc"

abbrev pub name_of : Counter → Bytes
name_of records = codes "records"
name_of moc_cnt = codes "moc_cnt"
name_of mtc_cnt = codes "mtc_cnt"
name_of sms_mo_cnt = codes "sms_mo_cnt"
name_of sms_mt_cnt = codes "sms_mt_cnt"
name_of data_cnt = codes "data_cnt"
name_of noans_cnt = codes "noans_cnt"
name_of busy_cnt = codes "busy_cnt"
name_of failed_cnt = codes "failed_cnt"
name_of moc_dur = codes "moc_dur"
name_of mtc_dur = codes "mtc_dur"
name_of data_dur = codes "data_dur"
name_of data_rx = codes "data_rx"
name_of data_tx = codes "data_tx"

sub_additions-elsewhere : (f : Bytes) (e : ℕ × SubDelta) → summed total f (sub_additions e) ≡ 0
unfolding sub_additions
sub_additions-elsewhere f (msisdn, sub) = refl

op_additions-elsewhere : (f : Bytes) (e : ℕ × OpDelta) → summed total f (op_additions e) ≡ 0
unfolding op_additions
op_additions-elsewhere f (mccmnc, op) = refl

link_additions-elsewhere :
    (f : Bytes) (e : LinkKey × LinkDelta) → summed total f (link_additions e) ≡ 0
unfolding link_additions
link_additions-elsewhere f (link, edge) = refl

-- No counter of a subscriber, an operator or a link is one of all records.
delta_commands-elsewhere : (f : Bytes) (delta : Delta) → added total f (delta_commands delta) ≡ 0
unfolding delta_commands
delta_commands-elsewhere f delta =
    let subs = for_each sub_additions delta.subs in
    let ops = for_each op_additions delta.ops in
    let links = for_each link_additions delta.links in
    omega (
      arith,
      added-append total f (commands increment subs)
          (commands increment ops ++ commands increment links),
      added-append total f (commands increment ops) (commands increment links),
      added-commands total f subs,
      added-commands total f ops,
      added-commands total f links,
      summed-for_each total f sub_additions (sub_additions-elsewhere f) delta.subs,
      summed-for_each total f op_additions (op_additions-elsewhere f) delta.ops,
      summed-for_each total f link_additions (link_additions-elsewhere f) delta.links,
    )

-- What the writer adds to one of them.
totals_commands-added :
    (c : Counter) (t : Totals)
    → added total (name_of c) (totals_commands t) ≡ summed total (name_of c) (totals_additions t)
unfolding totals_commands
totals_commands-added c t = added-commands total (name_of c) (totals_additions t)

summed-exact :
    (c : Counter) (w : Counter → ℕ) → summed total (name_of c) (totals_additions (snapshot w)) ≡ w c
unfolding totals_additions snapshot
summed-exact records w = omega arith
summed-exact moc_cnt w = omega arith
summed-exact mtc_cnt w = omega arith
summed-exact sms_mo_cnt w = omega arith
summed-exact sms_mt_cnt w = omega arith
summed-exact data_cnt w = omega arith
summed-exact noans_cnt w = omega arith
summed-exact busy_cnt w = omega arith
summed-exact failed_cnt w = omega arith
summed-exact moc_dur w = omega arith
summed-exact mtc_dur w = omega arith
summed-exact data_dur w = omega arith
summed-exact data_rx w = omega arith
summed-exact data_tx w = omega arith

batch_commands-added :
    (c : Counter) (batch : List CdrRecord) (source : Bytes)
    → added total (name_of c) (batch_commands batch source) ≡ wrapped (weight c) batch
unfolding batch_commands exact_totals
batch_commands-added c batch source =
    let f = name_of c in
    let t = add_batch no_totals batch in
    let tcs = totals_commands t in
    let pcs = progress_commands source (highest batch) in
    let rcs = rank_commands (fold batch) in
    let dcs = delta_commands (fold batch) in
    let exact : summed total f (totals_additions t) ≡ wrapped (weight c) batch =
      ap (λ (u : Totals). summed total f (totals_additions u)) (add_batch-exact batch)
      ∙ summed-exact c (λ b. wrapped (weight b) batch) in
    omega (
      arith,
      added-append total f tcs (pcs ++ (rcs ++ (dcs ++ flush ∷ []))),
      added-append total f pcs (rcs ++ (dcs ++ flush ∷ [])),
      added-append total f rcs (dcs ++ flush ∷ []),
      added-append total f dcs (flush ∷ []),
      totals_commands-added c t,
      exact,
      progress_commands-added total f source (highest batch),
      rank_commands-added total f (fold batch),
      delta_commands-elsewhere f (fold batch),
    )

-- On a store that adds, consuming a batch raises each of the fourteen counters of all records, under
-- its name in `total:proc`, by what the batch's records are worth to it, a sum modulo 2^64.
pub consume_store-totals :
    {S : Type 0} (store : IStore S) (value : S → Bytes → Bytes → ℕ)
    → IsAdding store value
    → (c : Counter) (batch : List CdrRecord) (source : Bytes) (s : S)
    → value (consume_store store batch source s) (codes "total:proc") (name_of c)
      ≡ value s (codes "total:proc") (name_of c) + wrapped (weight c) batch
consume_store-totals store value adding c batch source s =
    let f = name_of c in
    ap (λ t. value t total f) (consume-sends store batch source s)
    ∙ send_all-added store value adding (batch_commands batch source) s total f
    ∙ ap (λ (n : ℕ). value s total f + n) (batch_commands-added c batch source)
