-- ===== src/Backup/RecoveryTests.antt =====
-- A run of deploy/data/backup-cluster.mjs with the argument `recover`, one of its retention, and the
-- theorems at them.
use cartyx_infrastructure.Base.{
  Text, [], ◌∷◌, ends_with, drop_last, drop, take, ◌++◌, text, true, false, some, none, ◌≡◌, ◌≢◌,
  ◌⊎◌, refl, text_eq, includes, starts_with,
}
use cartyx_infrastructure.Script.{
  called, Settled, resolved, call, after_call, sleep, and_then, when, catching, finishing, settling,
}
use cartyx_infrastructure.Cluster.Clock.{to_iso_string, date_of_day, file_stamp}
use cartyx_infrastructure.Cluster.Documents.{StoredObject, Lease, cassandra}
use cartyx_infrastructure.Cluster.Paths.{paths, paths_in}
use cartyx_infrastructure.Cluster.Request.{
  History, delete_object, list_objects, Request, Answer, Environment, get_lease, scale,
}
use cartyx_infrastructure.Cluster.Resume.{recovered, resume}
use cartyx_infrastructure.Cluster.Sample.{stale, healthy, answer}
use cartyx_infrastructure.Cluster.Wait.{until}
use cartyx_infrastructure.Script.Discipline.{Did}
use cartyx_infrastructure.Backup.Retention.{
  markers, place, latest_first, more_pages, list_all, delete_backup, retire, retire_old_backups,
}
use cartyx_infrastructure.Backup.Retention.Scope.{IsMarkerKey, fresh, deletion_is_scoped}
use cartyx_infrastructure.Backup.Retention.Policy.{IsTidy}
use cartyx_infrastructure.Backup.Retention.Tidying.{retire_old_backups-IsTidy}
use cartyx_infrastructure.Backup.Steps.{standard}
use cartyx_infrastructure.Backup.Main.{
  Settings, start, recover, operate, handle, clean_up, main, run, exit_status,
}
use cartyx_infrastructure.Backup.Protocol.{unsure, follow}
use cartyx_infrastructure.Backup.Conduct.Whole.{is_recovery}
use cartyx_infrastructure.Backup.Conduct.Unsure.{IsVacant, IsFreed}
use cartyx_infrastructure.Backup.Conduct.Founded.{IsFounded, change-IsFounded}
use cartyx_infrastructure.Backup.Conduct.Recovering.{
  recovery_follows_protocol, recovery_success_is_complete,
}

abbrev held_lease : Lease
unfolding text
held_lease = record {
  holder = some (text "q");
  resource_version = text "9";
  original = resolved standard;
}

-- The lease is held by a pod that is gone.
abbrev held : (q : Request) → Settled (Answer q)
unfolding held_lease
held get_lease = resolved held_lease
held q = answer q

abbrev interrupted : Environment
interrupted = record {
  answer = λ q log. record { result = held q; elapsed = 1; signalled = false };
  oversleep = λ log. record { result = resolved tt; elapsed = 0; signalled = false };
}

abbrev settings : Settings
unfolding text
settings = record {
  pod_namespace = some (text "prod");
  pod_name = some (text "p");
  argument = some (text "recover");
  page_limit = 1;
}

recovery : is_recovery settings ≡ true
unfolding text text_eq settings
recovery = refl

interrupted-status : exit_status (run interrupted settings 0) ≡ some 0
unfolding text text_eq includes starts_with call after_call sleep and_then when catching finishing
    settling to_iso_string date_of_day file_stamp paths paths_in recovered resume until start
    recover operate handle clean_up main settings held held_lease
interrupted-status = refl

recovery_follows_protocol_example : follow unsure (run interrupted settings 0).1.log ≢ none
recovery_follows_protocol_example = recovery_follows_protocol interrupted settings recovery 0

recovery_success_is_complete_example :
    IsVacant (run interrupted settings 0).1 ⊎ IsFreed (run interrupted settings 0).1
recovery_success_is_complete_example =
    recovery_success_is_complete interrupted settings recovery 0 interrupted-status

-- The first change is the scaling of Cassandra.
scaling-trace :
    (run interrupted settings 0).1.log
    ≡ take 7 (run interrupted settings 0).1.log
      ++ (called (scale cassandra 1) (resolved tt) ∷ drop 8 (run interrupted settings 0).1.log)
unfolding text text_eq includes starts_with call after_call sleep and_then when catching finishing
    settling to_iso_string date_of_day file_stamp paths paths_in recovered resume until start
    recover operate handle clean_up main settings held held_lease
scaling-trace = refl

change-IsFounded_example : IsFounded (drop 8 (run interrupted settings 0).1.log)
change-IsFounded_example =
    change-IsFounded interrupted settings recovery 0 (take 7 (run interrupted settings 0).1.log)
      (drop 8 (run interrupted settings 0).1.log) (scale cassandra 1) (resolved tt) refl
      scaling-trace

abbrev prefix : Text
unfolding text
prefix = text "cartyx-data/dev/cluster/"

abbrev archive_key : Text
unfolding text
archive_key = text "cartyx-data/dev/cluster/a.tar.gz"

abbrev marker_key : Text
unfolding text
marker_key = text "cartyx-data/dev/cluster/a.tar.gz.json"

abbrev retired : History
unfolding text archive_key marker_key prefix
retired =
    called (delete_object archive_key) (resolved tt)
    ∷ called (delete_object marker_key) (resolved tt)
    ∷ called (list_objects prefix none)
        (resolved (record { contents = stale ∷ []; is_truncated = false; next_token = none }))
    ∷ []

retired-trace : (retire_old_backups healthy prefix 1 (fresh 8640000000)).1.log ≡ retired
unfolding text text_eq starts_with ends_with drop_last call after_call and_then markers place
    latest_first more_pages list_all delete_backup retire retire_old_backups prefix archive_key
    marker_key retired
retired-trace = refl

deletion_is_scoped_example :
    (starts_with archive_key prefix ≡ true)
    × ((ends_with archive_key (text ".tar.gz.json") ≡ true)
        ⊎ ((e : StoredObject) × (archive_key ≡ drop_last 5 e.key)
            × (ends_with archive_key (text ".tar.gz") ≡ true)
            × IsMarkerKey e
            × Did (delete_object e.key) tt (drop 1 retired)))
unfolding retired
deletion_is_scoped_example =
    deletion_is_scoped healthy prefix 1 8640000000 [] (drop 1 retired) archive_key (resolved tt)
      retired-trace

retire_old_backups-IsTidy_example :
    IsTidy
      (retire_old_backups healthy prefix 1 (fresh 8640000000)).1.time
      (retire_old_backups healthy prefix 1 (fresh 8640000000)).1.log
retire_old_backups-IsTidy_example = retire_old_backups-IsTidy healthy prefix 1 8640000000
