-- ===== src/Local/Restoring.antt =====
-- `local-restore` of deploy/data/backup.mjs.
use cartyx_infrastructure.Base.{
  ℕ, Text, text, [], ◌∷◌, ◌++◌, Bool, true, false, not, ◌||◌, ◌==◌, text_eq, starts_with, decimal,
  if◌then◌else◌,
}
use cartyx_infrastructure.Script.{
  Env, Script, call, pure, gets, throw_if, given, or_empty, ◌>>=◌, ◌>>◌,
}
use cartyx_infrastructure.Upload.{basename}
use cartyx_infrastructure.Local.Places.{Place, dirname, last_name, resolve}
use cartyx_infrastructure.Local.Requests.{
  Configured, ArchiveManifest, Answer, Settings, State, hash_file, read_manifest, image_id,
  create_volume, extract, write_override, start_restored, smoke_test,
}

-- `s.includes(p)`
unfoldable pub contains : Text → Text → Bool
contains [] p = starts_with [] p
contains (c ∷ s) p = starts_with (c ∷ s) p || contains s p

-- `a || b`, where `b` is evaluated if `a` is false.
unfoldable pub or_else : Bool → Script State Bool → Script State Bool
or_else true m = pure true
or_else false m = m

-- The first three tests of the manifest.
unfoldable pub mismatched : Configured → ArchiveManifest → Bool
mismatched configured m =
    not (m.format == 2)
    || not (text_eq m.cassandra_image configured.cassandra)
    || not (text_eq m.janusgraph_image configured.janusgraph)

-- `volume`
unfoldable pub restore_volume : ℕ → Text
restore_volume now = text "cartyx-restore-" ++ decimal now

-- The Compose file that is merged with the one of the live stack.
unfoldable pub override_for : Text → Text
override_for volume =
    text "services:\n  janusgraph:\n    ports: !override\n      - '127.0.0.1:18183:8182'\n"
    ++ (text "  cql-proxy:\n    ports: !override\n      - '127.0.0.1:19043:9042'\n"
        ++ (text "volumes:\n  cassandra-data:\n    external: true\n    name: "
            ++ (volume ++ text "\n")))

module _ (env : Env Answer) where
  -- An image that is not named by its digest must be the very one of the archive.
  unfoldable pub other_image : Text → Text → Script State Bool
  unfolding contains
  other_image image recorded =
      if contains image (text "@sha256:")
      then pure false
      else do actual ← call env (image_id image); pure (not (text_eq recorded actual))

  -- The tests of the manifest.
  unfoldable pub check_manifest : Configured → ArchiveManifest → Script State (Unit {0})
  unfolding mismatched or_else other_image
  check_manifest configured m = do
    graph_or_cassandra ←
        or_else (mismatched configured m) (other_image configured.cassandra m.cassandra_image_id)
    mismatch ← or_else graph_or_cassandra (other_image configured.janusgraph m.janusgraph_image_id)
    throw_if (mismatch || not (text_eq m.environment (text "local")))
        (text "Only matching-version local archives are supported by this rehearsal")
    throw_if (not (text_eq (basename m.file) m.file)) (text "Invalid archive filename")

  -- The archive goes into a new volume, and a second stack is started on it.
  unfoldable pub rehearse_in : Configured → Place → Place → Text → Script State (Unit {0})
  unfolding override_for
  rehearse_in configured output archive volume = do
    call env (create_volume volume)
    call env (extract volume (dirname archive) configured.cassandra (last_name archive))
    call env (write_override (text "restore.compose.yaml" ∷ output) (override_for volume))
    call env (start_restored (text "restore.compose.yaml" ∷ output))
    call env (smoke_test (text "wss://localhost:18183/gremlin"))

  -- `local-restore`
  unfoldable pub restore_locally : Configured → Place → Settings → Script State (Unit {0})
  unfolding check_manifest rehearse_in restore_volume
  restore_locally configured output settings = do
    throw_if (not (given settings.input)) (text "Pass an archive manifest (.tar.gz.json)")
    let manifest_place = resolve settings.directory (or_empty settings.input)
    m ← call env (read_manifest manifest_place)
    check_manifest configured m
    let archive = resolve (dirname manifest_place) m.file
    sum ← call env (hash_file archive)
    throw_if (not (text_eq sum m.sha256)) (text "Backup checksum mismatch")
    now ← gets (λ w. w.time)
    rehearse_in configured output archive (restore_volume now)
