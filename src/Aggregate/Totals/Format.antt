-- ===== src/Aggregate/Totals/Format.antt =====
-- The summary of src/aggregate/totals.cpp.
use cdr_processor.Base.{ℕ, ◌-◌, ◌≡◌, refl, [], ◌∷◌, ◌++◌, Bytes, codes, length, foldl, replicate}
use cdr_processor.Charconv.{to_chars}
use cdr_processor.Aggregate.Totals.{Totals}
use cdr_processor.Aggregate.Writers.{totals_additions}

-- `kTotalsNameWidth`
abbrev pub name_width : ℕ
name_width = 12

-- `appendField`. Every name is shorter than the width.
unfoldable pub append_field : Bytes → Bytes → ℕ → Bytes
append_field out name value =
    out ++ (10 ∷ 9 ∷ []) ++ name ++ replicate (name_width - length name) b' ' ++ to_chars value

-- `Totals::format`
unfoldable pub format : Totals → Bytes
unfolding append_field
format t =
    let out = append_field [] (codes "records") t.records in
    let out = append_field out (codes "moc_cnt") t.moc_cnt in
    let out = append_field out (codes "mtc_cnt") t.mtc_cnt in
    let out = append_field out (codes "sms_mo_cnt") t.sms_mo_cnt in
    let out = append_field out (codes "sms_mt_cnt") t.sms_mt_cnt in
    let out = append_field out (codes "data_cnt") t.data_cnt in
    let out = append_field out (codes "noans_cnt") t.noans_cnt in
    let out = append_field out (codes "busy_cnt") t.busy_cnt in
    let out = append_field out (codes "failed_cnt") t.failed_cnt in
    let out = append_field out (codes "moc_dur") t.moc_dur in
    let out = append_field out (codes "mtc_dur") t.mtc_dur in
    let out = append_field out (codes "data_dur") t.data_dur in
    let out = append_field out (codes "data_rx") t.data_rx in
    append_field out (codes "data_tx") t.data_tx

-- The summary lists the counters that the store is given, in their order and under the same names.
pub format-totals_additions :
    (t : Totals) → format t ≡ foldl (λ out a. append_field out a.1 a.2) [] (totals_additions t)
unfolding format totals_additions
format-totals_additions t = refl
