-- ===== src/Constants.antt =====
-- inc/constants.hpp: the names of keys, boards, fields and parameters, which the writers and the
-- readers of the store share. The numbers stand with what they bound.
use cdr_processor.Base.{Bytes, codes}

abbrev pub sub_prefix : Bytes
sub_prefix = codes "sub:"

abbrev pub op_prefix : Bytes
op_prefix = codes "op:"

abbrev pub link_prefix : Bytes
link_prefix = codes "link:"

abbrev pub voice_board : Bytes
voice_board = codes "top:voice"

abbrev pub sms_board : Bytes
sms_board = codes "top:sms"

abbrev pub data_board : Bytes
data_board = codes "top:data"

abbrev pub fail_board : Bytes
fail_board = codes "top:fail"

abbrev pub op_voice_board : Bytes
op_voice_board = codes "top:op-voice"

abbrev pub op_sms_board : Bytes
op_sms_board = codes "top:op-sms"

abbrev pub field_voice_out : Bytes
field_voice_out = codes "voice_out"

abbrev pub field_voice_in : Bytes
field_voice_in = codes "voice_in"

abbrev pub field_data_rx : Bytes
field_data_rx = codes "data_rx"

abbrev pub field_data_tx : Bytes
field_data_tx = codes "data_tx"

abbrev pub field_sms_out : Bytes
field_sms_out = codes "sms_out"

abbrev pub field_sms_in : Bytes
field_sms_in = codes "sms_in"

abbrev pub field_noans : Bytes
field_noans = codes "noans"

abbrev pub field_busy : Bytes
field_busy = codes "busy"

abbrev pub field_failed : Bytes
field_failed = codes "failed"

abbrev pub field_dur_suffix : Bytes
field_dur_suffix = codes ":dur"

abbrev pub field_sms_suffix : Bytes
field_sms_suffix = codes ":sms"

abbrev pub field_cnt_suffix : Bytes
field_cnt_suffix = codes ":cnt"

abbrev pub total_key : Bytes
total_key = codes "total:proc"

abbrev pub field_records : Bytes
field_records = codes "records"

abbrev pub field_moc_cnt : Bytes
field_moc_cnt = codes "moc_cnt"

abbrev pub field_mtc_cnt : Bytes
field_mtc_cnt = codes "mtc_cnt"

abbrev pub field_sms_mo_cnt : Bytes
field_sms_mo_cnt = codes "sms_mo_cnt"

abbrev pub field_sms_mt_cnt : Bytes
field_sms_mt_cnt = codes "sms_mt_cnt"

abbrev pub field_data_cnt : Bytes
field_data_cnt = codes "data_cnt"

abbrev pub field_noans_cnt : Bytes
field_noans_cnt = codes "noans_cnt"

abbrev pub field_busy_cnt : Bytes
field_busy_cnt = codes "busy_cnt"

abbrev pub field_failed_cnt : Bytes
field_failed_cnt = codes "failed_cnt"

abbrev pub field_moc_dur : Bytes
field_moc_dur = codes "moc_dur"

abbrev pub field_mtc_dur : Bytes
field_mtc_dur = codes "mtc_dur"

abbrev pub field_data_dur : Bytes
field_data_dur = codes "data_dur"

abbrev pub sort_dur : Bytes
sort_dur = codes "dur"

abbrev pub sort_sms : Bytes
sort_sms = codes "sms"

abbrev pub json_voice_out : Bytes
json_voice_out = codes "voice-out"

abbrev pub json_voice_in : Bytes
json_voice_in = codes "voice-in"

abbrev pub json_data_out : Bytes
json_data_out = codes "data-out"

abbrev pub json_data_in : Bytes
json_data_in = codes "data-in"

abbrev pub json_sms_out : Bytes
json_sms_out = codes "sms-out"

abbrev pub json_sms_in : Bytes
json_sms_in = codes "sms-in"

abbrev pub json_noans : Bytes
json_noans = codes "no-answer"

abbrev pub json_busy : Bytes
json_busy = codes "busy"

abbrev pub json_failed : Bytes
json_failed = codes "failed"

abbrev pub json_duration : Bytes
json_duration = codes "duration"

abbrev pub json_sms : Bytes
json_sms = codes "sms"

abbrev pub json_calls : Bytes
json_calls = codes "calls"

abbrev pub json_max_hops : Bytes
json_max_hops = codes "max-hops"

abbrev pub json_max_visited : Bytes
json_max_visited = codes "max-visited"
