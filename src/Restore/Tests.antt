-- ===== src/Restore/Tests.antt =====
-- A run of deploy/data/restore-cluster.mjs, and the theorems at it.
use cartyx_infrastructure.Base.{
  Text, text, List, [], ◌∷◌, ◌++◌, false, some, none, take, drop, ◌≡◌, refl, text_eq, starts_with,
  ends_with, drop_last, includes, decimal,
}
use cartyx_infrastructure.Script.{
  Env, Log, Event, Settled, resolved, called, ok, or_empty, call, after_call, and_then, finishing,
  for_each,
}
use cartyx_infrastructure.Cluster.Clock.{to_iso_string, date_of_day}
use cartyx_infrastructure.Restore.Requests.{
  Completion, Outcomes, Request, Answer, Settings, make_directory, get_backup_secret,
  get_completion, read_defaults, read_storage, download, hash_file, member_manifest, member_config,
  member_credential, read_chart_file, write_credential, create_namespace, create_secret,
  create_claim, create_loader, wait_loader, extract, delete_loader, install_chart, forward_port,
  smoke_test, security_test, cql_security_test, get_claim, write_result,
}
use cartyx_infrastructure.Restore.Checks.{
  is_digest, is_file_name, connect, read_marker, check_images, fetch_archive, check_file,
  check_archive,
}
use cartyx_infrastructure.Restore.Loading.{
  credential_names, check_extraction, copy_member, copy_credentials, load, test_services, conclude,
}
use cartyx_infrastructure.Restore.Main.{
  archive_of, credentials_of, directory_of, rehearse, stop_forward, restore, run,
}
use cartyx_infrastructure.Restore.Trust.{IsCleared, IsTested, IsTrusted, scratch}
use cartyx_infrastructure.Restore.Promises.{change-IsCleared, result-IsTested}

abbrev key : Text
unfolding text
key = text "cartyx-data/dev/cluster/a.tar.gz.json"

abbrev digest : Text
unfolding text
digest = text "0123456789abcdef0123456789abcdef0123456789abcdef0123456789abcdef"

abbrev marker : Completion
unfolding text digest
marker = record {
  format = 2;
  environment = text "dev";
  key = text "cartyx-data/dev/cluster/a.tar.gz";
  sha256 = digest;
  id = text "a";
  cassandra_image = text "c";
  janusgraph_image = text "j";
  captured_at = text "t";
}

abbrev answer : (q : Request) → Settled (Answer q)
unfolding text digest marker
answer (get_backup_secret namespace) =
    resolved
      (record { endpoint = text "https://e"; bucket = text "b"; access_key = []; secret_key = [] })
answer (get_completion bucket name) =
    resolved (record { content_length = 300; body = resolved marker })
answer read_defaults = resolved (record { cassandra = text "c"; janusgraph = text "j" })
answer (read_storage environment) = resolved (text "1Gi")
answer (hash_file path) = resolved digest
answer (member_manifest path) = resolved (record {
  id = text "a";
  environment = text "dev";
  cassandra_image = text "c";
  janusgraph_image = text "j";
})
answer (member_config path) = resolved ((text "a.yaml", text "x") ∷ [])
answer (member_credential path name) = resolved []
answer (read_chart_file name) = resolved (text "x")
answer (extract namespace path) = resolved (some 0)
answer (forward_port namespace) = resolved (text "1")
answer (get_claim namespace) = resolved (text "v")
answer (make_directory path) = resolved tt
answer (download bucket name path) = resolved tt
answer (write_credential path content) = resolved tt
answer (create_namespace n) = resolved tt
answer (create_secret n c names) = resolved tt
answer (create_claim n storage) = resolved tt
answer (create_loader n image) = resolved tt
answer (wait_loader n) = resolved tt
answer (delete_loader n) = resolved tt
answer (install_chart n e) = resolved tt
answer (smoke_test c port) = resolved tt
answer (security_test c port) = resolved tt
answer (cql_security_test e n) = resolved tt
answer (write_result path o) = resolved tt

abbrev healthy : Env Answer
healthy = record {
  answer = λ q log. record { result = answer q; elapsed = 1; signalled = false };
  oversleep = λ log. record { result = resolved tt; elapsed = 0; signalled = false };
}

abbrev settings : Settings
unfolding text key
settings = record {
  environment = some (text "dev");
  manifest_key = some key;
  kubeconfig = some (text "k");
  endpoint = none;
  bucket = none;
  access_key = none;
  secret_key = none;
}

abbrev did : Request → Event Answer
unfolding answer
did q = called q (answer q)

abbrev namespace : Text
unfolding text
namespace = text "cartyx-restore-dev-7"

abbrev copies : List Text → Log Answer → Log Answer
unfolding text did namespace
copies [] log = log
copies (name ∷ names) log = copies names (
    did (write_credential (credentials_of namespace ++ (text "/" ++ name)) [])
    ∷ did (member_credential (archive_of namespace) name)
    ∷ log)

abbrev outcomes : Outcomes
unfolding text namespace key digest
outcomes = record {
  verified_at = text "1970-01-01T00:00:00.047Z";
  environment = text "dev";
  namespace = namespace;
  volume = text "v";
  manifest_key = key;
  sha256 = digest;
  duration_seconds = 0;
  source_captured_at = text "t";
}

-- The calls of the run, the latest first.
abbrev trace : Log Answer
unfolding text did namespace copies credential_names outcomes key
trace =
    did (write_result (directory_of namespace ++ text "/result.json") outcomes)
    ∷ did (get_claim namespace)
    ∷ did (cql_security_test (text "dev") namespace)
    ∷ did (security_test (credentials_of namespace) (text "1"))
    ∷ did (smoke_test (credentials_of namespace) (text "1"))
    ∷ did (forward_port namespace)
    ∷ did (install_chart namespace (text "dev"))
    ∷ did (delete_loader namespace)
    ∷ did (extract namespace (archive_of namespace))
    ∷ did (wait_loader namespace)
    ∷ did (create_loader namespace (text "c"))
    ∷ did (create_claim namespace (text "1Gi"))
    ∷ did (create_secret namespace (credentials_of namespace) credential_names)
    ∷ did (create_namespace namespace)
    ∷ copies credential_names (
        did (make_directory (credentials_of namespace))
        ∷ did (read_chart_file (text "a.yaml"))
        ∷ did (member_config (archive_of namespace))
        ∷ did (member_manifest (archive_of namespace))
        ∷ did (hash_file (archive_of namespace))
        ∷ did (download (text "b") (text "cartyx-data/dev/cluster/a.tar.gz") (archive_of namespace))
        ∷ did (read_storage (text "dev"))
        ∷ did read_defaults
        ∷ did (get_completion (text "b") key)
        ∷ did (get_backup_secret (text "dev"))
        ∷ did (make_directory (directory_of namespace))
        ∷ [])

healthy-trace : (run healthy settings 7).1.log ≡ trace
unfolding text text_eq starts_with ends_with drop_last includes decimal call after_call and_then
    finishing for_each to_iso_string date_of_day is_digest is_file_name connect read_marker
    check_images fetch_archive check_file check_archive credential_names check_extraction
    copy_member copy_credentials load test_services conclude rehearse stop_forward restore key
    digest marker answer settings namespace outcomes did copies trace
healthy-trace = refl

healthy-outcome : (run healthy settings 7).0 ≡ ok tt
unfolding text text_eq starts_with ends_with drop_last includes decimal call after_call and_then
    finishing for_each to_iso_string date_of_day is_digest is_file_name connect read_marker
    check_images fetch_archive check_file check_archive credential_names check_extraction
    copy_member copy_credentials load test_services conclude rehearse stop_forward restore key
    digest marker answer settings namespace outcomes did
healthy-outcome = refl

change-IsCleared_example : IsCleared settings 7 namespace (drop 9 trace)
unfolding trace did answer namespace text decimal
change-IsCleared_example =
    change-IsCleared healthy settings 7 (take 8 trace) (drop 9 trace)
      (extract namespace (archive_of namespace)) (resolved (some 0)) namespace refl healthy-trace

result-IsTested_example :
    IsTested settings 7 (drop 1 trace)
    × ((m : Completion) × IsTrusted
          (or_empty settings.environment)
          (or_empty settings.manifest_key)
          (archive_of (scratch settings 7))
          m
          (drop 1 trace)
        × (outcomes.sha256 ≡ m.sha256))
unfolding trace did answer
result-IsTested_example =
    result-IsTested healthy settings 7 [] (drop 1 trace)
      (directory_of namespace ++ text "/result.json") outcomes (resolved tt) healthy-trace
