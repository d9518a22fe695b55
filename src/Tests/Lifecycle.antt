-- ===== src/Tests/Lifecycle.antt =====
-- The ingestors of src/ingest started, stopped and started again.
use cdr_processor.Base.{not, ◌&&◌, Bool, ◌≡◌, refl, List, [], ◌∷◌, true, false}
use cdr_processor.Ingest.Lifecycle.{
  Call, started, stopped, FileSetup, file_calls, rabbit_calls, new_file_ingestor,
  new_rabbit_ingestor, stop_file, destroy_file, destroy_rabbit,
}
use cdr_processor.Ingest.Lifecycle.Joined.{FileJoined, RabbitJoined, calls-Joined}

abbrev set_up : FileSetup
set_up = record { has_parser = true; watcher_ok = true; dirs_ok = true }

abbrev file : List (Call FileSetup)
file = started set_up ∷ stopped ∷ started set_up ∷ []

-- The second `start` finds `m_stop` still set.
restarted :
    file_calls file new_file_ingestor
    ≡ record { running = true; stop = true; feeder = true; pool = false }
unfolding file_calls
restarted = refl

abbrev rabbit : List (Call Bool)
rabbit = started true ∷ started true ∷ stopped ∷ started true ∷ []

reconnected :
    rabbit_calls rabbit 4 new_rabbit_ingestor
    ≡ record { running = true; stop = false; conns = 4; threads = 4 }
unfolding rabbit_calls
reconnected = refl

calls-Joined_example :
    let i = file_calls file new_file_ingestor in
    let j = rabbit_calls rabbit 4 new_rabbit_ingestor in
    FileJoined i
    × ((stop_file i).pool ≡ (not i.running && i.pool))
    × RabbitJoined 4 j
    × ((destroy_file i).feeder ≡ false)
    × ((destroy_file i).pool ≡ false)
    × ((destroy_rabbit j).threads ≡ 0)
    × ((destroy_rabbit j).conns ≡ 0)
calls-Joined_example = calls-Joined file rabbit 4
