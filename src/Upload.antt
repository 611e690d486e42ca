-- ===== src/Upload.antt =====
-- deploy/data/backup-upload.mjs: the upload of a local archive and of its manifest.
pub mod Checked
mod Tests
use cartyx_infrastructure.Base.{
  ℕ, Text, text, [], ◌∷◌, ◌++◌, Bool, false, not, ◌&&◌, ◌==◌, ltb, Option, text_eq, starts_with,
  some_of, if◌then◌else◌,
}
use cartyx_infrastructure.Script.{
  Env, Log, Outcome, Script, World, call, pure, throw_if, try_finally, given, or_empty, ◌>>=◌, ◌>>◌,
}

-- What is read of the manifest of an archive.
pub record LocalManifest : Type 0 where
  pub file : Text
  pub sha256 : Text
  pub environment : Text
  pub id : Text

-- The files stand beside the manifest; an object is put with its length.
pub data Request : Type 0 where
  read_manifest : Text → Request
  hash_beside : Text → Request
  size_beside : Text → Request
  put_archive : Text → ℕ → Request
  hash_stored : Text → Request
  put_manifest : Text → LocalManifest → Request

abbrev pub Answer : Request → Type 0
Answer (read_manifest path) = LocalManifest
Answer (hash_beside file) = Text
Answer (size_beside file) = ℕ
Answer (hash_stored key) = Text
Answer _ = Unit

pub record Settings : Type 0 where
  pub manifest_path : Option Text
  pub endpoint : Option Text
  pub bucket : Option Text
  pub access_key : Option Text
  pub secret_key : Option Text

abbrev pub State : Type 0
State = World Answer (Unit {0})

abbrev pub is_slash : ℕ → Bool
is_slash c = c == b'/'

-- A path without its last slashes.
unfoldable pub trimmed : Text → Text
trimmed [] = []
trimmed (c ∷ s) =
    let rest = trimmed s in elim rest [ [] ↦ if is_slash c then [] else c ∷ [] | d ∷ t ↦ c ∷ d ∷ t ]

-- What stands after the last slash.
unfoldable pub last_segment : Text → Text
last_segment [] = []
last_segment (c ∷ s) = let rest = last_segment s in if some_of is_slash (c ∷ s) then rest else c ∷ s

-- `basename` of a POSIX path.
unfoldable pub basename : Text → Text
unfolding trimmed last_segment
basename path = last_segment (trimmed path)

-- `Key`
abbrev pub object_key : LocalManifest → Text
object_key m =
    text "cartyx-data/" ++ (m.environment ++ (text "/" ++ (m.id ++ (text "/" ++ m.file))))

module _ (env : Env Answer) where
  -- The body of the `try`.
  unfoldable pub send : LocalManifest → Script State (Unit {0})
  send m = do
    size ← call env (size_beside m.file)
    call env (put_archive (object_key m) size)
    stored ← call env (hash_stored (object_key m))
    throw_if (not (text_eq stored m.sha256)) (text "Off-host backup checksum mismatch")
    call env (put_manifest (object_key m ++ text ".json") m)

  -- The whole script. `client.destroy()` in the `finally` only closes connections.
  unfoldable pub upload : Settings → Script State (Unit {0})
  unfolding send basename
  upload settings = do
    m ← call env (read_manifest (or_empty settings.manifest_path))
    throw_if (not (text_eq (basename m.file) m.file)) (text "Invalid archive path")
    throw_if (not (given settings.endpoint)) (text "Missing DATA_BACKUP_ENDPOINT")
    throw_if (not (given settings.bucket)) (text "Missing DATA_BACKUP_BUCKET")
    throw_if (not (given settings.access_key)) (text "Missing DATA_BACKUP_ACCESS_KEY_ID")
    throw_if (not (given settings.secret_key)) (text "Missing DATA_BACKUP_SECRET_ACCESS_KEY")
    throw_if (not (starts_with (or_empty settings.endpoint) (text "https://")))
        (text "Backup endpoint requires HTTPS")
    sum ← call env (hash_beside m.file)
    throw_if (not (text_eq sum m.sha256)) (text "Local archive checksum mismatch")
    size ← call env (size_beside m.file)
    throw_if (ltb 5000000000 size)
        (text "Archive exceeds single-upload limit; implement multipart upload before retrying")
    try_finally (send m) (pure tt)

-- A run of the process.
abbrev pub run : Env Answer → Settings → ℕ → Outcome (Unit {0}) × State
run env settings now =
    upload env settings (record { log = []; time = now; cancelled = false; vars = tt })
