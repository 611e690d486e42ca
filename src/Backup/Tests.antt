-- ===== src/Backup/Tests.antt =====
-- Runs of deploy/data/backup-cluster.mjs against environments in which every answer is fixed, and
-- the theorems at such runs.
use mathlib.Core.Option.{or_else}
use cartyx_infrastructure.Base.{
  true, ◌≢◌, ◌++◌, ◌⊎◌, Text, String, take, drop, ◌≡◌, refl, text, includes, text_eq, starts_with,
  ends_with, drop_last, decimal, ℕ, text, [], ◌∷◌, false, none, some,
}
use cartyx_infrastructure.Script.{
  Event, called, call, after_call, sleep, and_then, when, catching, finishing, for_each, settling,
  resolved,
}
use cartyx_infrastructure.Cluster.Documents.{
  release, acquire, janusgraph, cassandra, StatusPatch, Manifest,
}
use cartyx_infrastructure.Cluster.Request.{
  Request, Answer, History, get_lease, get_helm, get_flux, get_graph, get_cassandra, get_config,
  get_pods, patch_lease, patch_status, suspend_helm, suspend_flux, scale, list_objects,
  delete_object, upload_archive, read_back, put_manifest, read_file, make_directory, read_directory,
  copy_file, write_config, write_manifest, archive, hash_file, file_size,
}
use cartyx_infrastructure.Backup.Steps.{
  phase_only, preflight, has_condition, take_lease, suspend_reconcilers, read_sources,
  stop_databases, checkpoint, no_pods, idle as idle_check, standard,
}
use cartyx_infrastructure.Backup.Main.{
  start, operate, back_up, main, recover, handle, set_failed, clean_up, undo, Settings, run,
  exit_status,
}
use cartyx_infrastructure.Backup.Archive.{
  archive_path, write_archive, bring_back, publish, report, copy_credential, run_tar, check_exit,
  manifest_of, variable,
}
use cartyx_infrastructure.Backup.Retention.{
  delete_backup, retire, list_all, markers, latest_first, place, more_pages, retire_old_backups,
}
use cartyx_infrastructure.Cluster.Wait.{until}
use cartyx_infrastructure.Cluster.Resume.{resume, recovered}
use cartyx_infrastructure.Cluster.Paths.{paths, paths_in, encode_uri_component}
use cartyx_infrastructure.Cluster.Clock.{to_iso_string, date_of_day, micro_time, file_stamp}
use cartyx_infrastructure.Cluster.Sample.{answer, healthy}
use cartyx_infrastructure.Backup.Protocol.{idle, follow}
use cartyx_infrastructure.Backup.Protocol.Meaning.{
  said, words, IsQuiet, IsUntouched, IsRestored, HasMarker,
}
use cartyx_infrastructure.Backup.Conduct.Whole.{is_recovery, run_follows_protocol}
use cartyx_infrastructure.Backup.Promises.{
  IsMarked, archive-IsQuiet, release_is_safe, marker-IsVerified, deletion_is_marked,
  change_is_exclusive, success_is_complete,
}

abbrev settings : Settings
settings = record {
  pod_namespace = some (text "dev");
  pod_name = some (text "p");
  argument = none;
  page_limit = 1;
}

abbrev start_time : ℕ
start_time = 8640000000

abbrev did : Request → Event Answer
did q = called q (answer q)

abbrev key : Text
unfolding text
key = text "cartyx-data/dev/cluster/1970-04-11T00-00-00-005Z-p.tar.gz"

abbrev saved : Manifest
unfolding text
saved = record {
  format = 2;
  method = text "stopped-full-data-directory";
  environment = text "dev";
  id = text "1970-04-11T00-00-00-005Z-p";
  captured_at = text "1970-04-11T00:00:00.028Z";
  cassandra_image = text "image";
  janusgraph_image = text "image";
  chart_revision = some (text "1.2.0");
  graph_keyspace = none;
  state_keyspace = none;
  sha256 = none;
  bytes = none;
  key = none;
}

abbrev published_manifest : Manifest
unfolding text
published_manifest = record saved { sha256 = some (text "5a"); bytes = some 10; key = some key }

abbrev phase : String → StatusPatch
unfolding text
phase name = phase_only (text name)

-- The calls of the run, the latest first.
abbrev trace : History
unfolding text
trace =
    did (patch_lease (release none))
    ∷ did (
        patch_status (record (phase "completed") {
          last_success = some (text "1970-04-11T00:00:00.046Z");
          key = some (key ++ text ".json");
          sha256 = some (text "5a");
          bytes = some (text "10");
          error = some [];
        }))
    ∷ did (delete_object (text "cartyx-data/dev/cluster/a.tar.gz"))
    ∷ did (delete_object (text "cartyx-data/dev/cluster/a.tar.gz.json"))
    ∷ did (list_objects (text "cartyx-data/dev/cluster/") none)
    ∷ did (put_manifest (key ++ text ".json") published_manifest)
    ∷ did (read_back key)
    ∷ did (upload_archive archive_path key)
    ∷ did (file_size archive_path)
    ∷ did (hash_file archive_path)
    ∷ did (patch_status (phase "uploading"))
    ∷ did (suspend_flux false)
    ∷ did (suspend_helm false)
    ∷ did get_graph
    ∷ did get_cassandra
    ∷ did (scale janusgraph 1)
    ∷ did (scale cassandra 1)
    ∷ did (archive archive_path)
    ∷ did (write_manifest (text "/work/recovery/manifest.json") saved)
    ∷ did (write_config (text "/work/recovery/config.json") [])
    ∷ did get_config
    ∷ did
        (copy_file (text "/database-secret/username") (text "/work/recovery/credentials/username"))
    ∷ did (read_directory (text "/database-secret"))
    ∷ did (make_directory (text "/work/recovery/credentials"))
    ∷ did (patch_status (phase "archiving"))
    ∷ did (get_pods cassandra)
    ∷ did (scale cassandra 0)
    ∷ did (get_pods janusgraph)
    ∷ did (scale janusgraph 0)
    ∷ did get_helm
    ∷ did get_cassandra
    ∷ did get_graph
    ∷ did get_helm
    ∷ did (suspend_helm true)
    ∷ did get_flux
    ∷ did (suspend_flux true)
    ∷ did (
        patch_status (record (phase "preparing") {
          last_attempt = some (text "1970-04-11T00:00:00.011Z");
          owner = some (text "p");
        }))
    ∷ did (
        patch_lease
          (acquire (text "7") standard (text "p") (text "1970-04-11T00:00:00.010000Z") 3600))
    ∷ did get_flux
    ∷ did get_helm
    ∷ did get_cassandra
    ∷ did get_graph
    ∷ did get_lease
    ∷ did (read_file (text "/backup-secret/AWS_SECRET_ACCESS_KEY"))
    ∷ did (read_file (text "/backup-secret/AWS_ACCESS_KEY_ID"))
    ∷ did (read_file (text "/backup-secret/R2_ACCOUNT_ID"))
    ∷ did (read_file (text "/backup-secret/R2_BUCKET"))
    ∷ did (read_file (text "/var/run/secrets/kubernetes.io/serviceaccount/ca.crt"))
    ∷ []

healthy-trace : (run healthy settings start_time).1.log ≡ trace
unfolding start operate back_up main recover handle set_failed clean_up undo preflight has_condition
    take_lease suspend_reconcilers read_sources stop_databases checkpoint no_pods idle_check
    write_archive bring_back publish report copy_credential run_tar check_exit manifest_of variable
    delete_backup retire list_all markers latest_first place more_pages retire_old_backups until
    resume recovered text includes text_eq starts_with ends_with drop_last decimal paths paths_in
    encode_uri_component to_iso_string date_of_day micro_time file_stamp call after_call sleep
    and_then when catching finishing for_each settling or_else
healthy-trace = refl

healthy_status : exit_status (run healthy settings start_time) ≡ some 0
unfolding start operate back_up main recover handle set_failed clean_up undo preflight has_condition
    take_lease suspend_reconcilers read_sources stop_databases checkpoint no_pods idle_check
    write_archive bring_back publish report copy_credential run_tar check_exit manifest_of variable
    delete_backup retire list_all markers latest_first place more_pages retire_old_backups until
    resume recovered text includes text_eq starts_with ends_with drop_last decimal paths paths_in
    encode_uri_component to_iso_string date_of_day micro_time file_stamp call after_call sleep
    and_then when catching finishing for_each settling or_else
healthy_status = refl

no_recovery : is_recovery settings ≡ false
unfolding text_eq text
no_recovery = refl

run_follows_protocol_example : follow idle (run healthy settings start_time).1.log ≢ none
run_follows_protocol_example = run_follows_protocol healthy settings start_time no_recovery

archive-IsQuiet_example : IsQuiet (words (drop 18 trace))
unfolding text
archive-IsQuiet_example =
    archive-IsQuiet healthy settings start_time no_recovery (take 17 trace) (drop 18 trace)
      archive_path (resolved (some 0)) healthy-trace

release_is_safe_example : IsUntouched (words (drop 1 trace)) ⊎ IsRestored (words (drop 1 trace))
unfolding text
release_is_safe_example =
    release_is_safe healthy settings start_time no_recovery [] (drop 1 trace) none (resolved tt)
      healthy-trace

marker-IsVerified_example :
    IsRestored (words (drop 6 trace))
    × IsMarked (key ++ text ".json") published_manifest (words (drop 6 trace))
unfolding text
marker-IsVerified_example =
    marker-IsVerified healthy settings start_time no_recovery (take 5 trace) (drop 6 trace)
      (key ++ text ".json") published_manifest (resolved tt) healthy-trace

deletion_is_marked_example : HasMarker (words (drop 3 trace))
unfolding text
deletion_is_marked_example =
    deletion_is_marked healthy settings start_time no_recovery (take 2 trace) (drop 3 trace)
      (text "cartyx-data/dev/cluster/a.tar.gz") (resolved tt) healthy-trace

change_is_exclusive_example : (words (drop 27 trace)).lease ≡ said true
unfolding trace
change_is_exclusive_example =
    change_is_exclusive healthy settings start_time no_recovery (take 26 trace) (drop 27 trace)
      (scale cassandra 0) (resolved tt) refl healthy-trace

success_is_complete_example :
    IsRestored (words (run healthy settings start_time).1.log)
    × HasMarker (words (run healthy settings start_time).1.log)
    × ((words (run healthy settings start_time).1.log).lease ≡ said false)
success_is_complete_example =
    success_is_complete healthy settings start_time no_recovery healthy_status
