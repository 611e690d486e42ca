-- ===== src/Restore/Main.antt =====
-- The whole of deploy/data/restore-cluster.mjs.
use cartyx_infrastructure.Base.{
  ℕ, Text, text, [], ◌++◌, false, not, ◌||◌, decimal, includes, starts_with, ends_with,
}
use cartyx_infrastructure.Script.{
  Env, Outcome, Script, call, gets, modify, throw_if, try_finally, given, or_empty, ◌>>=◌, ◌>>◌,
}
use cartyx_infrastructure.Cluster.Paths.{environments}
use cartyx_infrastructure.Restore.Requests.{Answer, Settings, State, make_directory}
use cartyx_infrastructure.Restore.Checks.{
  connect, read_marker, check_images, fetch_archive, check_archive,
}
use cartyx_infrastructure.Restore.Loading.{copy_credentials, load, test_services, conclude}

-- `namespace`, from the environment and the time.
abbrev pub scratch_namespace : Text → ℕ → Text
scratch_namespace environment now =
    text "cartyx-restore-" ++ (environment ++ (text "-" ++ decimal now))

-- `directory`, `archive` and `credentials`, from the directory in which the script runs.
abbrev pub directory_of : Text → Text
directory_of namespace = text ".local/restores/" ++ namespace

abbrev pub archive_of : Text → Text
archive_of namespace = directory_of namespace ++ text "/backup.tar.gz"

abbrev pub credentials_of : Text → Text
credentials_of namespace = directory_of namespace ++ text "/credentials"

-- `forward?.kill('SIGTERM')`
unfoldable pub stop_forward : Script State (Unit {0})
stop_forward = modify (λ w. record w { vars = record { forwarding = false } })

module _ (env : Env Answer) where
  -- The body of the `try`.
  unfoldable pub rehearse : Text → Text → Text → Text → ℕ → Script State (Unit {0})
  rehearse environment namespace bucket key started = do
    m ← read_marker env environment bucket key
    storage ← check_images env environment m
    fetch_archive env bucket (archive_of namespace) m
    check_archive env environment (archive_of namespace) m
    copy_credentials env (archive_of namespace) (credentials_of namespace)
    load env namespace (archive_of namespace) (credentials_of namespace) storage m
    test_services env environment namespace (credentials_of namespace)
    conclude env environment namespace (directory_of namespace) key started m

  unfoldable pub restore : Settings → Script State (Unit {0})
  unfolding rehearse stop_forward
  restore s = do
    let environment = or_empty s.environment
    let key = or_empty s.manifest_key
    throw_if (not (includes environments environment) || not (given s.kubeconfig))
        (text "Set DATA_KUBECONFIG; usage: restore-cluster.mjs dev|prod <R2 manifest key>")
    throw_if
        (not (starts_with key (text "cartyx-data/" ++ (environment ++ text "/cluster/")))
          || not (ends_with key (text ".tar.gz.json")))
        (text "Manifest must be in the selected environment cluster-backup prefix")
    now ← gets (λ w. w.time)
    let namespace = scratch_namespace environment now
    call env (make_directory (directory_of namespace))
    connection ← connect env environment s
    throw_if (not (starts_with connection.endpoint (text "https://")))
        (text "Backup endpoint requires HTTPS")
    started ← gets (λ w. w.time)
    try_finally (rehearse environment namespace connection.bucket key started) stop_forward

-- A run of the process that begins at a time.
abbrev pub run : Env Answer → Settings → ℕ → Outcome (Unit {0}) × State
run env s now =
    restore env s
      (record { log = []; time = now; cancelled = false; vars = record { forwarding = false } })
