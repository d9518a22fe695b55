-- ===== src/Query/Boards.antt =====
-- src/query/services/rank_service.cpp and src/query/services/stats_service.cpp: boards, the state of
-- the service and its totals.
use cdr_processor.Constants.{
  data_board, fail_board, field_busy_cnt, field_data_cnt, field_data_dur, field_data_rx,
  field_data_tx, field_failed_cnt, field_moc_cnt, field_moc_dur, field_mtc_cnt, field_mtc_dur,
  field_noans_cnt, field_records, field_sms_mo_cnt, field_sms_mt_cnt, json_max_hops,
  json_max_visited, op_sms_board, op_voice_board, sms_board, total_key, voice_board,
}
use cdr_processor.Base.{
  ℕ, ◌==◌, Bool, true, false, none, some, List, [], ◌∷◌, map, Bytes, codes, text_eq, length,
  if◌then◌else◌,
}
use cdr_processor.Json.{add_text, add_number, add_objects, error}
use cdr_processor.Query.Params.{QueryParams}
use cdr_processor.Query.Links.{IQueryStore}
use cdr_processor.Query.Reports.{Result, unavailable, answered, add_fields}

-- `kBoards`
abbrev pub boards : List (Bytes × Bytes)
boards =
    (codes "voice", voice_board)
    ∷ (codes "sms", sms_board)
    ∷ (codes "data", data_board)
    ∷ (codes "fail", fail_board)
    ∷ (codes "op-voice", op_voice_board)
    ∷ (codes "op-sms", op_sms_board)
    ∷ []

-- `RankService::keyOf` over the boards; empty where there is none.
unfoldable pub key_of : List (Bytes × Bytes) → Bytes → Bytes
key_of [] board = []
key_of ((name, key) ∷ rest) board = if text_eq name board then key else key_of rest board

-- One member of a board.
abbrev pub board_entry : Bytes × ℕ → Bytes
board_entry (id, score) = add_number (add_text [] (codes "id") id) (codes "score") score

-- `RankService::top`
unfoldable pub top_report : IQueryStore → Bytes → QueryParams → Result
unfolding key_of
top_report store board q =
    let key = key_of boards board in
    if length key == 0
    then record { status = 400; body = error (codes "no such board") }
    else elim (store.top key q.offset q.limit) [
      | none ↦ unavailable
      | some (ranked, count) ↦
          let json = add_number (add_text [] (codes "board") board) (codes "count") count in
          let json' =
            add_number (add_number json (codes "offset") q.offset) (codes "limit") q.limit in
          answered (add_objects json' (codes "entries") (map board_entry ranked))
    ]

-- `StatsService::health`, with the two limits of the configuration.
unfoldable pub health_report : IQueryStore → ℕ → ℕ → Result
health_report store max_hops max_visited =
    let (up, keys) : Bool × ℕ = elim store.dbsize [ none ↦ (false, 0) | some n ↦ (true, n) ] in
    let json = add_text [] (codes "status") (codes "ok") in
    let json' = add_text json (codes "store") (if up then codes "up" else codes "down") in
    let json'' = add_number json' (codes "keys") (if up then keys else 0) in
    answered (add_number (add_number json'' json_max_hops max_hops) json_max_visited max_visited)

-- `reported`
unfoldable pub reported : Bytes → Bytes
reported [] = []
reported (c ∷ s) = (if c == b'_' then b'-' else c) ∷ reported s

-- `kTotalFields`
abbrev pub total_fields : List Bytes
total_fields =
    field_records ∷ field_moc_cnt ∷ field_mtc_cnt ∷ field_sms_mo_cnt ∷ field_sms_mt_cnt
    ∷ field_data_cnt ∷ field_noans_cnt ∷ field_busy_cnt ∷ field_failed_cnt ∷ field_moc_dur
    ∷ field_mtc_dur ∷ field_data_dur ∷ field_data_rx ∷ field_data_tx ∷ []

-- `StatsService::totals`
unfoldable pub totals_report : IQueryStore → Result
unfolding reported
totals_report store = elim (store.hgetall total_key) [
  | none ↦ unavailable
  | some fields ↦ answered (add_fields fields (map (λ f. (f, reported f)) total_fields) [])
]
