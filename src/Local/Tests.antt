-- ===== src/Local/Tests.antt =====
-- Runs of deploy/data/backup.mjs, and the theorems at them.
use cartyx_infrastructure.Base.{
  Text, text, [], ◌∷◌, some, take, drop, ◌≡◌, refl, text_eq, starts_with,
}
use cartyx_infrastructure.Script.{
  Log, resolved, called, ok, call, after_call, and_then, finishing, settling,
}
use cartyx_infrastructure.Script.Discipline.{Did}
use cartyx_infrastructure.Cluster.Clock.{to_iso_string, date_of_day, file_stamp}
use cartyx_infrastructure.Local.Places.{split, enter, walk, resolve, suffixed}
use cartyx_infrastructure.Local.Requests.{
  Configured, Answer, Settings, read_config, ensure_directory, create_lock, remove_lock,
  find_container, inspect, stop_service, drain, save_volume, receive, hash_file, write_manifest,
  start_services,
}
use cartyx_infrastructure.Local.Saving.{
  Source, data_volume, check_tar, archive_id, destination_of, manifest_of, find_source, run_tar,
  save, back_up_locally,
}
use cartyx_infrastructure.Local.Main.{output_of, lock_of, act, keep, run}
use cartyx_infrastructure.Local.Trust.{IsSource, AllStopped, IsTrue, output}
use cartyx_infrastructure.Local.Ends.{HasDone}
use cartyx_infrastructure.Local.Promises.{
  packing-IsQuiet, local_manifest-IsTrue, local_success_is_complete,
}
use cartyx_infrastructure.Local.Machine.{
  configured, details, graph, name, archive_file, manifest, answer, machine, backups,
}

abbrev backup : Settings
unfolding text
backup = record { action = some (text "local-backup"); input = some []; directory = text "r" ∷ [] }

-- The lock, the checks and the shutdown, the latest first.
abbrev stopped_log : Log Answer
unfolding text backups configured details graph
stopped_log =
    called (stop_service (text "cassandra") 180) (resolved tt)
    ∷ called drain (resolved tt)
    ∷ called (stop_service (text "janusgraph") 60) (resolved tt)
    ∷ called (inspect (text "janusgraph")) (resolved graph)
    ∷ called (find_container (text "janusgraph")) (resolved (text "janusgraph"))
    ∷ called (inspect (text "cassandra")) (resolved details)
    ∷ called (find_container (text "cassandra")) (resolved (text "cassandra"))
    ∷ called (create_lock (text "operation.lock" ∷ backups)) (resolved tt)
    ∷ called (ensure_directory backups) (resolved tt)
    ∷ called read_config (resolved configured)
    ∷ []

abbrev saved : Log Answer
unfolding text backups archive_file manifest stopped_log
saved =
    called (remove_lock (text "operation.lock" ∷ backups)) (resolved tt)
    ∷ called start_services (resolved tt)
    ∷ called (write_manifest (suffixed archive_file (text ".json")) manifest) (resolved tt)
    ∷ called (hash_file archive_file) (resolved (text "5a"))
    ∷ called (receive archive_file) (resolved tt)
    ∷ called (save_volume (text "v") (text "c")) (resolved (some 0))
    ∷ stopped_log

saved-trace : (run (machine 0) backup 0).1.log ≡ saved
unfolding text text_eq call after_call and_then finishing settling to_iso_string date_of_day
    file_stamp split enter walk resolve starts_with data_volume check_tar archive_id destination_of
    manifest_of find_source run_tar save back_up_locally output_of act keep configured details graph
    name archive_file manifest backup backups stopped_log saved answer
saved-trace = refl

saved-outcome : (run (machine 0) backup 0).0 ≡ ok tt
unfolding text text_eq call after_call and_then finishing settling to_iso_string date_of_day
    file_stamp split enter walk resolve starts_with data_volume check_tar archive_id destination_of
    manifest_of find_source run_tar save back_up_locally output_of act keep configured details graph
    name archive_file manifest backup backups stopped_log saved answer
saved-outcome = refl

-- A tar that fails.
abbrev failed : Log Answer
unfolding text backups archive_file stopped_log
failed =
    called (remove_lock (text "operation.lock" ∷ backups)) (resolved tt)
    ∷ called start_services (resolved tt)
    ∷ called (receive archive_file) (resolved tt)
    ∷ called (save_volume (text "v") (text "c")) (resolved (some 1))
    ∷ stopped_log

packing-IsQuiet_example :
    (c : Configured) × (s : Source) × IsSource c s (drop 6 saved)
    × AllStopped (drop 6 saved)
    × ((text "v" ≡ s.volume) × (text "c" ≡ c.cassandra))
unfolding saved stopped_log
packing-IsQuiet_example =
    packing-IsQuiet (machine 0) backup 0 (take 5 saved) (drop 6 saved) (text "v") (text "c")
      (resolved (some 0)) saved-trace

local_manifest-IsTrue_example :
    (c : Configured) × (s : Source) × (n : Text) × IsSource c s (drop 3 saved)
    × IsTrue c s (n ∷ output backup) manifest (drop 3 saved)
    × (suffixed archive_file (text ".json") ≡ suffixed (n ∷ output backup) (text ".json"))
unfolding saved stopped_log archive_file
local_manifest-IsTrue_example =
    local_manifest-IsTrue (machine 0) backup 0 (take 2 saved) (drop 3 saved)
      (suffixed archive_file (text ".json")) manifest (resolved tt) saved-trace

local_success_is_complete_example :
    HasDone backup (run (machine 0) backup 0).1.log
    × Did (remove_lock (lock_of (output backup))) tt (run (machine 0) backup 0).1.log
local_success_is_complete_example = local_success_is_complete (machine 0) backup 0 saved-outcome
