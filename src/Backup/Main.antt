-- ===== src/Backup/Main.antt =====
-- The whole of deploy/data/backup-cluster.mjs.
use cartyx_infrastructure.Base.{
  ℕ, Text, text, [], ◌++◌, Bool, true, false, not, ◌||◌, ◌==◌, Option, none, some, text_eq, some_of,
  take, if◌then◌else◌,
}
use cartyx_infrastructure.Script.{
  given, or_empty, throw, exit, diverged, Outcome, ok, stop, Script, call, pure, fail, quit, gets,
  when, attempt, settled, throw_if, try_catch, try_finally, ◌>>=◌, ◌>>◌,
}
use cartyx_infrastructure.Cluster.Clock.{file_stamp}
use cartyx_infrastructure.Cluster.Paths.{paths}
use cartyx_infrastructure.Cluster.Documents.{Original, Lease, release, Pod}
use cartyx_infrastructure.Cluster.Request.{
  Environment, get_lease, get_pods_named, patch_lease, patch_status, read_file,
}
use cartyx_infrastructure.Cluster.Resume.{resume}
use cartyx_infrastructure.Backup.Retention.{retire_old_backups}
use cartyx_infrastructure.Backup.Steps.{
  Vars, State, Context, phase_only, set_vars, is_held, preflight, take_lease, suspend_reconcilers,
  read_sources, stop_databases,
}
use cartyx_infrastructure.Backup.Archive.{write_archive, bring_back, publish, report}

-- `process.env` and `process.argv[2]`, and the pages that a bucket listing may have.
pub record Settings : Type 0 where
  pub pod_namespace : Option Text
  pub pod_name : Option Text
  pub argument : Option Text
  pub page_limit : ℕ

abbrev pub is_active : Pod → Bool
is_active pod = text_eq pod.phase (text "Running") || text_eq pod.phase (text "Pending")

-- `previous` is not what a backup saves.
abbrev pub unexpected : Original → Bool
unexpected o = not (o.graph == 1) || not (o.cassandra == 1) || o.helm || o.flux

module _ (env : Environment) where
  -- The statements above the `try`. The values of the bucket's secret only configure its client.
  unfoldable pub start : Settings → Script State Context
  start settings = do
    call env (read_file (text "/var/run/secrets/kubernetes.io/serviceaccount/ca.crt"))
    p ← (λ w. (paths (or_empty settings.pod_namespace), w))
    throw_if (not (given settings.pod_name)) (text "POD_NAME is required")
    call env (read_file (text "/backup-secret/R2_BUCKET"))
    call env (read_file (text "/backup-secret/R2_ACCOUNT_ID"))
    call env (read_file (text "/backup-secret/AWS_ACCESS_KEY_ID"))
    call env (read_file (text "/backup-secret/AWS_SECRET_ACCESS_KEY"))
    now ← gets (λ w. w.time)
    let owner = or_empty settings.pod_name
    let prefix = text "cartyx-data/" ++ (p.namespace ++ text "/cluster/")
    let id = file_stamp now ++ (text "-" ++ owner)
    pure (record {
      namespace = p.namespace;
      owner = owner;
      prefix = prefix;
      id = id;
      key = prefix ++ (id ++ text ".tar.gz");
    })

  -- The branch `process.argv[2] === 'recover'`.
  unfoldable pub recover : Lease → Script State (Unit {0})
  recover lease = do
    when (not (is_held lease)) (quit 0)
    pods ← call env (get_pods_named (or_empty lease.holder))
    throw_if (some_of is_active pods)
        (text "Original backup pod is still active; refusing concurrent recovery")
    previous ← settled lease.original
    throw_if (unexpected previous) (text "Unexpected recovery state; inspect manually")
    resume env previous
    call env (patch_lease (release (some lease.resource_version)))
    call env (
        patch_status (record (phase_only (text "recovered")) {
          error = some (text "Interrupted backup recovered; run a new backup");
        }))
    quit 0

  -- What follows the read of the lease in a run with no argument.
  unfoldable pub back_up : Context → ℕ → Lease → Script State (Unit {0})
  back_up ctx pages lease = do
    throw_if (is_held lease)
        (text "Backup lease is held; inspect/recover the previous operation before retrying")
    preflight env
    take_lease env ctx lease.resource_version
    suspend_reconcilers env
    sources ← read_sources env
    stop_databases env
    manifest ← write_archive env ctx sources
    bring_back env
    complete ← publish env ctx manifest
    retire_old_backups env ctx.prefix pages
    report env ctx complete

  -- The body of the `try`.
  unfoldable pub operate : Settings → Context → Script State (Unit {0})
  unfolding recover back_up when
  operate settings ctx = do
    lease ← call env get_lease
    if text_eq (or_empty settings.argument) (text "recover")
        then recover lease
        else if given settings.argument
        then fail (text "Only the optional recover argument is supported")
        else back_up ctx settings.page_limit lease

  unfoldable pub set_failed : Script State (Unit {0})
  set_failed = set_vars (λ v. record v { exit_code = 1 })

  -- The `catch`: the error is reported, and a failure to report it is ignored.
  unfoldable pub handle : Text → Script State (Unit {0})
  unfolding set_failed
  handle message = do
    v ← gets (λ w. w.vars)
    when v.locked (do
      reported ← attempt (
          call env (
            patch_status (record (phase_only (text "failed")) { error = some (take 500 message) })))
      pure tt)
    set_failed

  -- `resume(api, p, original)` in the `finally`; `original` is set wherever it is needed.
  unfoldable pub undo : Script State (Unit {0})
  undo = do
    v ← gets (λ w. w.vars)
    when v.needs_recovery (elim v.original [
      | none ↦ fail (text "Cannot read properties of undefined")
      | some original ↦ resume env original
    ])

  -- The `finally`: the lease is released only if nothing is left to recover.
  unfoldable pub clean_up : Script State (Unit {0})
  unfolding set_failed undo
  clean_up = do
    v ← gets (λ w. w.vars)
    when v.locked (do
      recovered ← try_catch (do undo; pure true) (λ message. do set_failed; pure false)
      when recovered (call env (patch_lease (release none))))

  unfoldable pub main : Settings → Script State (Unit {0})
  unfolding start operate handle clean_up
  main settings = do
    ctx ← start settings
    try_finally (try_catch (operate settings ctx) handle) clean_up

-- The status with which the process ends: an error that reaches the top gives 1.
abbrev pub exit_status : Outcome (Unit {0}) × State → Option ℕ
exit_status (ok a, w) = some w.vars.exit_code
exit_status (stop (throw e), w) = some 1
exit_status (stop (exit n), w) = some n
exit_status (stop diverged, w) = none

abbrev pub start_vars : Vars
start_vars = record { original = none; locked = false; needs_recovery = false; exit_code = 0 }

abbrev pub start_state : ℕ → State
start_state now = record { log = []; time = now; cancelled = false; vars = start_vars }

-- A run of the process that begins at a time.
abbrev pub run : Environment → Settings → ℕ → Outcome (Unit {0}) × State
run env settings now = main env settings (start_state now)
