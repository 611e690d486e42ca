-- ===== src/Local/Main.antt =====
-- The whole of deploy/data/backup.mjs.
use cartyx_infrastructure.Base.{ℕ, text, [], ◌∷◌, false, text_eq, if◌then◌else◌}
use cartyx_infrastructure.Script.{
  Env, Outcome, Script, call, fail, try_finally, or_empty, ◌>>=◌, ◌>>◌,
}
use cartyx_infrastructure.Local.Places.{Place, resolve}
use cartyx_infrastructure.Local.Requests.{
  Configured, Answer, Settings, State, read_config, ensure_directory, create_lock, remove_lock,
}
use cartyx_infrastructure.Local.Saving.{back_up_locally}
use cartyx_infrastructure.Local.Restoring.{restore_locally}

-- `outputDirectory`
unfoldable pub output_of : Place → Place
output_of directory = resolve directory (text ".local/backups")

-- `lock`
abbrev pub lock_of : Place → Place
lock_of output = text "operation.lock" ∷ output

module _ (env : Env Answer) where
  -- The body of the outer `try`.
  unfoldable pub act : Settings → Configured → Place → Script State (Unit {0})
  act settings configured output =
      if text_eq (or_empty settings.action) (text "local-backup")
      then back_up_locally env configured output
      else if text_eq (or_empty settings.action) (text "local-restore")
      then restore_locally env configured output settings
      else fail (text "Usage: backup.mjs local-backup | local-restore <manifest.tar.gz.json>")

  -- The whole script.
  unfoldable pub keep : Settings → Script State (Unit {0})
  unfolding act output_of
  keep settings = do
    let output = output_of settings.directory
    configured ← call env read_config
    call env (ensure_directory output)
    call env (create_lock (lock_of output))
    try_finally (act settings configured output) (call env (remove_lock (lock_of output)))

-- A run of the process.
abbrev pub run : Env Answer → Settings → ℕ → Outcome (Unit {0}) × State
run env settings now =
    keep env settings (record { log = []; time = now; cancelled = false; vars = tt })
