-- ===== src/Aggregate/Writers.antt =====
-- src/aggregate/aggregate_writer.cpp and src/aggregate/rank_writer.cpp: a folded batch written
-- through a store. A run of lines `ok = add(…) && ok` is a list of what they add, in their order.
pub mod Commands
use cdr_processor.Constants.{
  data_board, fail_board, field_busy, field_busy_cnt, field_cnt_suffix, field_data_cnt,
  field_data_dur, field_data_rx, field_data_tx, field_dur_suffix, field_failed, field_failed_cnt,
  field_moc_cnt, field_moc_dur, field_mtc_cnt, field_mtc_dur, field_noans, field_noans_cnt,
  field_records, field_sms_in, field_sms_mo_cnt, field_sms_mt_cnt, field_sms_out, field_sms_suffix,
  field_voice_in, field_voice_out, link_prefix, op_prefix, op_sms_board, op_voice_board, sms_board,
  sub_prefix, total_key, voice_board,
}
use cdr_processor.Base.{
  ℕ, ◌+◌, ◌==◌, Bool, true, false, ◌&&◌, not, List, [], ◌∷◌, ◌++◌, map, Bytes, codes, add64,
  if◌then◌else◌,
}
use cdr_processor.Charconv.{to_chars}
use cdr_processor.Store.{IStore}
use cdr_processor.Aggregate.Totals.{Totals}
use cdr_processor.Aggregate.Delta.{SubDelta, OpDelta, LinkDelta, LinkKey, Delta}

-- What a writer adds: to a field of a key, or to a member of a board.
abbrev pub Addition : Type 0
Addition = Bytes × Bytes × ℕ

-- The nine lines for a subscriber.
unfoldable pub sub_additions : ℕ × SubDelta → List Addition
sub_additions (msisdn, sub) =
    let key = sub_prefix ++ to_chars msisdn in
    (key, field_voice_out, sub.voice_out)
    ∷ (key, field_voice_in, sub.voice_in)
    ∷ (key, field_data_rx, sub.data_rx)
    ∷ (key, field_data_tx, sub.data_tx)
    ∷ (key, field_sms_out, sub.sms_out)
    ∷ (key, field_sms_in, sub.sms_in)
    ∷ (key, field_noans, sub.noans)
    ∷ (key, field_busy, sub.busy)
    ∷ (key, field_failed, sub.failed)
    ∷ []

-- The four lines for an operator.
unfoldable pub op_additions : ℕ × OpDelta → List Addition
op_additions (mccmnc, op) =
    let key = op_prefix ++ to_chars mccmnc in
    (key, field_voice_out, op.voice_out)
    ∷ (key, field_voice_in, op.voice_in)
    ∷ (key, field_sms_out, op.sms_out)
    ∷ (key, field_sms_in, op.sms_in)
    ∷ []

-- The three lines for a link.
unfoldable pub link_additions : LinkKey × LinkDelta → List Addition
link_additions (link, edge) =
    let key = link_prefix ++ to_chars link.owner in
    let peer = to_chars link.peer in
    (key, peer ++ field_dur_suffix, edge.dur)
    ∷ (key, peer ++ field_sms_suffix, edge.sms)
    ∷ (key, peer ++ field_cnt_suffix, edge.cnt)
    ∷ []

-- The fourteen lines for the totals.
unfoldable pub totals_additions : Totals → List Addition
totals_additions t =
    let key = total_key in
    (key, field_records, t.records)
    ∷ (key, field_moc_cnt, t.moc_cnt)
    ∷ (key, field_mtc_cnt, t.mtc_cnt)
    ∷ (key, field_sms_mo_cnt, t.sms_mo_cnt)
    ∷ (key, field_sms_mt_cnt, t.sms_mt_cnt)
    ∷ (key, field_data_cnt, t.data_cnt)
    ∷ (key, field_noans_cnt, t.noans_cnt)
    ∷ (key, field_busy_cnt, t.busy_cnt)
    ∷ (key, field_failed_cnt, t.failed_cnt)
    ∷ (key, field_moc_dur, t.moc_dur)
    ∷ (key, field_mtc_dur, t.mtc_dur)
    ∷ (key, field_data_dur, t.data_dur)
    ∷ (key, field_data_rx, t.data_rx)
    ∷ (key, field_data_tx, t.data_tx)
    ∷ []

-- The scores of a subscriber, sums in 64 bits.
unfoldable pub sub_scores : ℕ × SubDelta → List Addition
sub_scores (msisdn, sub) =
    let member = to_chars msisdn in
    (voice_board, member, add64 sub.voice_out sub.voice_in)
    ∷ (sms_board, member, add64 sub.sms_out sub.sms_in)
    ∷ (data_board, member, add64 sub.data_rx sub.data_tx)
    ∷ (fail_board, member, add64 (add64 sub.noans sub.busy) sub.failed)
    ∷ []

-- The scores of an operator.
unfoldable pub op_scores : ℕ × OpDelta → List Addition
op_scores (mccmnc, op) =
    let member = to_chars mccmnc in
    (op_voice_board, member, add64 op.voice_out op.voice_in)
    ∷ (op_sms_board, member, add64 op.sms_out op.sms_in)
    ∷ []

-- One body of lines for each entry of a map.
unfoldable pub for_each {ℓ} : {A : Type ℓ} → (A → List Addition) → List A → List Addition
for_each lines [] = []
for_each lines (e ∷ es) = lines e ++ for_each lines es

module _ {S : Type 0} where
  -- `add` of either writer, over the call of the store that it makes.
  unfoldable pub add : (Bytes → Bytes → ℕ → S → Bool × S) → Addition → S → Bool × S
  add call (key, field, value) s = if value == 0 then (true, s) else call key field value s

  -- `ok = add(…) && ok` for one addition after another.
  unfoldable pub add_all : (Bytes → Bytes → ℕ → S → Bool × S) → List Addition → Bool → S → Bool × S
  unfolding add
  add_all call [] ok s = (ok, s)
  add_all call (a ∷ rest) ok s =
      let (added, s') = add call a s in add_all call rest (added && ok) s'

  -- `AggregateWriter::write(const Delta&)`
  unfoldable pub write_delta : IStore S → Delta → S → Bool × S
  unfolding add_all for_each
  write_delta store delta s =
      let (ok, s₁) = add_all store.increment (for_each sub_additions delta.subs) true s in
      let (ok', s₂) = add_all store.increment (for_each op_additions delta.ops) ok s₁ in
      let (ok'', s₃) = add_all store.increment (for_each link_additions delta.links) ok' s₂ in
      let (flushed, s₄) = store.flush s₃ in
      (if not flushed then (false, s₄) else if not ok'' then (false, s₄) else (true, s₄))

  -- `AggregateWriter::write(const Totals&)`
  unfoldable pub write_totals : IStore S → Totals → S → Bool × S
  unfolding add_all
  write_totals store t s = add_all store.increment (totals_additions t) true s

  -- `RankWriter::write`
  unfoldable pub write_ranks : IStore S → Delta → S → Bool × S
  unfolding add_all for_each
  write_ranks store delta s =
      let (ok, s') = add_all store.rank (for_each sub_scores delta.subs) true s in
      add_all store.rank (for_each op_scores delta.ops) ok s'
