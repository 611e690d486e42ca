-- ===== src/Local/RehearsalTests.antt =====
-- Rehearsals of deploy/data/backup.mjs, and the theorems at them.
use cartyx_infrastructure.Base.{
  Text, text, [], ◌∷◌, false, some, take, drop, ◌≡◌, refl, text_eq, starts_with, decimal,
}
use cartyx_infrastructure.Script.{Log, resolved, called, ok, call, after_call, and_then, finishing}
use cartyx_infrastructure.Script.Discipline.{Did}
use cartyx_infrastructure.Upload.{trimmed, last_segment, basename}
use cartyx_infrastructure.Local.Places.{Place, split, enter, walk, resolve}
use cartyx_infrastructure.Local.Requests.{
  Container, Answer, Settings, read_config, ensure_directory, create_lock, remove_lock, hash_file,
  read_manifest, image_id, create_volume, extract, write_override, start_restored, smoke_test,
}
use cartyx_infrastructure.Local.Saving.{archive_id, destination_of, manifest_of}
use cartyx_infrastructure.Local.Restoring.{
  contains, or_else, mismatched, restore_volume, override_for, other_image, check_manifest,
  rehearse_in, restore_locally,
}
use cartyx_infrastructure.Local.Main.{output_of, act, keep, run}
use cartyx_infrastructure.Local.Trust.{IsLoaded, given_place}
use cartyx_infrastructure.Local.Promises.{second_stack-IsLoaded}
use cartyx_infrastructure.Local.Accepted.{backup-IsAccepted}
use cartyx_infrastructure.Local.Machine.{
  configured, details, graph, name, archive_file, manifest, answer, machine, backups,
}

abbrev rehearsal : Settings
unfolding text
rehearsal = record {
  action = some (text "local-restore");
  input = some (text ".local/backups/a.tar.gz.json");
  directory = text "r" ∷ [];
}

abbrev volume : Text
unfolding text
volume = text "cartyx-restore-6"

abbrev archive_place : Place
unfolding text name backups
archive_place = name ∷ backups

abbrev override : Place
unfolding text backups
override = text "restore.compose.yaml" ∷ backups

abbrev rehearsed : Log Answer
unfolding text backups archive_place volume override manifest configured name override_for
rehearsed =
    called (remove_lock (text "operation.lock" ∷ backups)) (resolved tt)
    ∷ called (smoke_test (text "wss://localhost:18183/gremlin")) (resolved tt)
    ∷ called (start_restored override) (resolved tt)
    ∷ called (write_override override (override_for volume)) (resolved tt)
    ∷ called (extract volume backups (text "c") name) (resolved tt)
    ∷ called (create_volume volume) (resolved tt)
    ∷ called (hash_file archive_place) (resolved (text "5a"))
    ∷ called (image_id (text "c")) (resolved (text "i"))
    ∷ called (read_manifest (text "a.tar.gz.json" ∷ backups)) (resolved manifest)
    ∷ called (create_lock (text "operation.lock" ∷ backups)) (resolved tt)
    ∷ called (ensure_directory backups) (resolved tt)
    ∷ called read_config (resolved configured)
    ∷ []

rehearsed-trace : (run (machine 0) rehearsal 0).1.log ≡ rehearsed
unfolding text text_eq call after_call and_then finishing split enter walk resolve starts_with
    trimmed last_segment basename contains or_else mismatched restore_volume override_for
    other_image check_manifest rehearse_in restore_locally output_of act keep decimal configured
    details graph name archive_file manifest rehearsal backups archive_place volume override
    manifest_of rehearsed answer
rehearsed-trace = refl

second_stack-IsLoaded_example :
    (v : Text) × Did (write_override override (override_for v)) tt (drop 3 rehearsed)
    × IsLoaded (given_place rehearsal) v (drop 3 rehearsed)
unfolding rehearsed
second_stack-IsLoaded_example =
    second_stack-IsLoaded (machine 0) rehearsal 0 (take 2 rehearsed) (drop 3 rehearsed) override
      (resolved tt) rehearsed-trace

-- The machine's images have one identity, which both containers ran.
abbrev same : Container
unfolding details text
same = details

backup-IsAccepted_example :
    (check_manifest
      (machine 0)
      configured
      (manifest_of configured same same
        (archive_id 3)
        (destination_of backups (archive_id 3))
        []
        (text "5a"))
      (record { log = []; time = 3; cancelled = false; vars = tt })).0
    ≡ ok tt
unfolding same details answer
backup-IsAccepted_example =
    backup-IsAccepted (machine 0) configured same same backups 3 [] (text "5a")
      (record { log = []; time = 3; cancelled = false; vars = tt }) (λ log. refl) (λ log. refl)
