-- ===== src/Backup/Archive.antt =====
-- The archive of deploy/data/backup-cluster.mjs, its upload and its completion marker.
use mathlib.Core.Option
use mathlib.Core.Option.{or_else}
use cartyx_infrastructure.Base.{
  ℕ, Text, text, List, [], ◌∷◌, ◌++◌, false, not, ◌==◌, Option, none, some, text_eq, starts_with,
  decimal, if◌then◌else◌,
}
use cartyx_infrastructure.Script.{Script, call, pure, fail, gets, throw_if, for_each, ◌>>=◌, ◌>>◌}
use cartyx_infrastructure.Cluster.Clock.{to_iso_string}
use cartyx_infrastructure.Cluster.Documents.{Release, Workload, Manifest}
use cartyx_infrastructure.Cluster.Request.{
  Environment, get_config, patch_status, make_directory, read_directory, copy_file, write_config,
  write_manifest, archive, hash_file, file_size, upload_archive, read_back, put_manifest,
}
use cartyx_infrastructure.Cluster.Resume.{resume}
use cartyx_infrastructure.Backup.Steps.{State, Context, phase_only, checkpoint, set_vars, standard}

-- `env.find(e => e.name === name)?.value`
unfoldable pub variable : Text → List (Text × Option Text) → Option Text
variable name [] = none
variable name ((key, value) ∷ rest) = if text_eq key name then value else variable name rest

-- `helm.status?.lastAppliedRevision ?? helm.status?.history?.[0]?.chartVersion`
abbrev pub chart_revision : Release → Option Text
chart_revision helm =
    or_else helm.last_applied_revision (elim helm.history [ [] ↦ none | first ∷ rest ↦ first ])

abbrev pub archive_path : Text
archive_path = text "/work/backup.tar.gz"

abbrev pub recovery_path : Text
recovery_path = text "/work/recovery"

-- The manifest before the archive is known.
unfoldable pub manifest_of : Context → Text → Workload × Workload × Release → Manifest
unfolding variable
manifest_of ctx captured (graph, db, helm) = record {
  format = 2;
  method = text "stopped-full-data-directory";
  environment = ctx.namespace;
  id = ctx.id;
  captured_at = captured;
  cassandra_image = db.image;
  janusgraph_image = graph.image;
  chart_revision = chart_revision helm;
  graph_keyspace = variable (text "GRAPH_KEYSPACE") graph.variables;
  state_keyspace = variable (text "STATE_KEYSPACE") db.variables;
  sha256 = none;
  bytes = none;
  key = none;
}

-- The manifest with what is known of the archive.
abbrev pub complete_manifest : Context → Manifest → Text → ℕ → Manifest
complete_manifest ctx manifest sum size = record manifest {
  sha256 = some sum;
  bytes = some size;
  key = some ctx.key;
}

-- `code === 0 ? resolve() : reject(new Error(...))`, where the code of a signal is `null`.
unfoldable pub check_exit : Option ℕ → Script State (Unit {0})
check_exit none = fail (text "Archive failed: null")
check_exit (some n) = if n == 0 then pure tt else fail (text "Archive failed: " ++ decimal n)

module _ (env : Environment) where
  -- A name that begins with a dot is filtered out.
  unfoldable pub copy_credential : Text → Script State (Unit {0})
  copy_credential name =
      if starts_with name (text ".")
      then pure tt
      else call env (
          copy_file (text "/database-secret/" ++ name)
            (recovery_path ++ (text "/credentials/" ++ name)))

  unfoldable pub run_tar : Script State (Unit {0})
  unfolding check_exit
  run_tar = do code ← call env (archive archive_path); check_exit code

  unfoldable pub write_archive : Context → Workload × Workload × Release → Script State Manifest
  unfolding copy_credential run_tar manifest_of checkpoint
  write_archive ctx sources = do
    call env (patch_status (phase_only (text "archiving")))
    call env (make_directory (recovery_path ++ text "/credentials"))
    names ← call env (read_directory (text "/database-secret"))
    for_each names copy_credential
    config ← call env get_config
    now ← gets (λ w. w.time)
    let manifest = manifest_of ctx (to_iso_string now) sources
    call env (write_config (recovery_path ++ text "/config.json") config)
    call env (write_manifest (recovery_path ++ text "/manifest.json") manifest)
    run_tar
    checkpoint
    pure manifest

  -- The services come back before the upload.
  unfoldable pub bring_back : Script State (Unit {0})
  bring_back = do resume env standard; set_vars (λ v. record v { needs_recovery = false })

  -- The archive is stored and read back; only then is its completion marker published.
  unfoldable pub publish : Context → Manifest → Script State Manifest
  unfolding checkpoint
  publish ctx manifest = do
    call env (patch_status (phase_only (text "uploading")))
    sum ← call env (hash_file archive_path)
    size ← call env (file_size archive_path)
    let complete = complete_manifest ctx manifest sum size
    call env (upload_archive archive_path ctx.key)
    stored ← call env (read_back ctx.key)
    throw_if (not (text_eq stored sum)) (text "Off-host read-back checksum mismatch")
    checkpoint
    call env (put_manifest (ctx.key ++ text ".json") complete)
    pure complete

  unfoldable pub report : Context → Manifest → Script State (Unit {0})
  report ctx manifest = do
    now ← gets (λ w. w.time)
    call env (
        patch_status (record (phase_only (text "completed")) {
          last_success = some (to_iso_string now);
          key = some (ctx.key ++ text ".json");
          sha256 = manifest.sha256;
          bytes = Option.map decimal manifest.bytes;
          error = some [];
        }))
