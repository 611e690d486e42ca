-- ===== src/Restore/Checks.antt =====
-- What deploy/data/restore-cluster.mjs checks before it creates anything.
use cartyx_infrastructure.Base.{
  Text, text, List, [], ◌∷◌, Bool, not, ◌&&◌, ◌||◌, ◌==◌, leb, ltb, Option, text_eq, drop_last,
  some_of, every, length, if◌then◌else◌,
}
use cartyx_infrastructure.Script.{
  Env, Script, call, pure, settled, throw_if, for_each, given, or_empty, ◌>>=◌, ◌>>◌,
}
use cartyx_infrastructure.Restore.Requests.{
  Completion, Inner, Connection, Answer, Settings, State, get_backup_secret, get_completion,
  read_defaults, read_storage, download, hash_file, member_manifest, member_config, read_chart_file,
}

-- `/^[a-f0-9]{64}$/`
unfoldable pub is_digest : Text → Bool
is_digest s =
    (length s == 64) && every (λ c. (leb b'a' c && leb c b'f') || (leb b'0' c && leb c b'9')) s

-- `/^[a-zA-Z0-9_.-]+$/`
unfoldable pub is_file_name : Text → Bool
is_file_name s =
    not (length s == 0)
    && every
        (λ c.
          (leb b'a' c && leb c b'z')
          || (leb b'A' c && leb c b'Z')
          || (leb b'0' c && leb c b'9')
          || (c == b'_' || c == b'.' || c == b'-'))
        s

abbrev pub external : Settings → List (Option Text)
external s = s.endpoint ∷ s.bucket ∷ s.access_key ∷ s.secret_key ∷ []

-- The guards on the completion marker.
abbrev pub is_invalid : Text → Text → Completion → Bool
is_invalid environment key m =
    not (m.format == 2)
    || not (text_eq m.environment environment)
    || not (text_eq m.key (drop_last 5 key))
    || not (is_digest m.sha256)

abbrev pub differs : Text → Completion → Inner → Bool
differs environment m inner =
    not (text_eq inner.id m.id)
    || not (text_eq inner.environment environment)
    || not (text_eq inner.cassandra_image m.cassandra_image)
    || not (text_eq inner.janusgraph_image m.janusgraph_image)

module _ (env : Env Answer) where
  -- The four variables, or the cluster's Secret if none is set.
  unfoldable pub connect : Text → Settings → Script State Connection
  connect environment s =
      if some_of given (external s)
      then (do
        throw_if (not (every given (external s))) (text "Provide all four DATA_BACKUP_* settings")
        pure (record {
          endpoint = or_empty s.endpoint;
          bucket = or_empty s.bucket;
          access_key = or_empty s.access_key;
          secret_key = or_empty s.secret_key;
        }))
      else call env (get_backup_secret environment)

  unfoldable pub read_marker : Text → Text → Text → Script State Completion
  read_marker environment bucket key = do
    response ← call env (get_completion bucket key)
    throw_if (ltb 1048576 response.content_length) (text "Manifest exceeds 1 MiB")
    m ← settled response.body
    throw_if (is_invalid environment key m) (text "Invalid completion manifest")
    pure m

  -- Both files of values are read before the images are compared. The result is the storage's size.
  unfoldable pub check_images : Text → Completion → Script State Text
  check_images environment m = do
    defaults ← call env read_defaults
    storage ← call env (read_storage environment)
    throw_if
        (not (text_eq m.cassandra_image defaults.cassandra)
          || not (text_eq m.janusgraph_image defaults.janusgraph))
        (text "Check out the matching database image/chart revision before restoring")
    pure storage

  unfoldable pub fetch_archive : Text → Text → Completion → Script State (Unit {0})
  fetch_archive bucket archive m = do
    call env (download bucket m.key archive)
    sum ← call env (hash_file archive)
    throw_if (not (text_eq sum m.sha256)) (text "Downloaded archive checksum mismatch")

  -- A name that is no plain file name is refused before the file is read.
  unfoldable pub check_file : Text × Text → Script State (Unit {0})
  check_file (name, content) = do
    throw_if (not (is_file_name name))
        (text "Check out the matching chart configuration before restoring")
    kept ← call env (read_chart_file name)
    throw_if (not (text_eq kept content))
        (text "Check out the matching chart configuration before restoring")

  unfoldable pub check_archive : Text → Text → Completion → Script State (Unit {0})
  unfolding check_file
  check_archive environment archive m = do
    inner ← call env (member_manifest archive)
    throw_if (differs environment m inner)
        (text "Archive metadata does not match its completion manifest")
    config ← call env (member_config archive)
    for_each config check_file
