-- ===== src/Kubernetes/Secrets.antt =====
-- `provision-backup-secret` and `provision-secret` of deploy/data/kubernetes.mjs.
use cartyx_infrastructure.Base.{
  ℕ, Text, text, List, [], ◌∷◌, ◌++◌, Bool, not, ◌||◌, ◌&&◌, ◌==◌, leb, ltb, length, map, text_eq,
  includes, some_of, if◌then◌else◌,
}
use cartyx_infrastructure.Script.{
  Env, Script, call, pure, throw_if, try_finally, for_each, given, or_empty, ◌>>=◌, ◌>>◌,
}
use cartyx_infrastructure.Kubernetes.Requests.{
  Data, entry, AppSecret, Answer, State, get_name, read_source, create_secret, read_secret, exists,
  provision, read_file, make_scratch, write_patch, patch_secret, remove_scratch, create_from_files,
}

-- The keys that are copied.
unfoldable pub source_keys : List Text
unfolding text
source_keys =
    text "R2_ACCOUNT_ID"
    ∷ text "R2_BUCKET"
    ∷ text "AWS_ACCESS_KEY_ID"
    ∷ text "AWS_SECRET_ACCESS_KEY"
    ∷ []

-- Where the backup's credentials come from.
abbrev pub platform : Text
platform = text "platform"

abbrev pub platform_backup : Text
platform_backup = text "platform-backup"

abbrev pub backup_secret : Text
backup_secret = text "cartyx-data-backup"

abbrev pub data_secret : Text
data_secret = text "cartyx-data"

-- `appKey`
abbrev pub app_key : Text
app_key = text "gremlin-app-password"

-- `files`
unfoldable pub credential_files : List Text
unfolding text
credential_files =
    text "tls.p12"
    ∷ text "tls.crt"
    ∷ text "tls-password"
    ∷ text "gremlin-password"
    ∷ app_key
    ∷ text "cassandra-admin-password"
    ∷ text "cassandra-graph-password"
    ∷ text "cassandra-state-password"
    ∷ []

-- `directory`, from the directory in which the script runs.
abbrev pub directory_of : Text → Text
directory_of environment = text ".local/data/" ++ environment

abbrev pub file_in : Text → Text → Text
file_in directory name = directory ++ (text "/" ++ name)

-- White space and line terminators of JavaScript.
unfoldable pub is_space : ℕ → Bool
is_space c =
    (leb 9 c && leb c 13)
    || (leb 8192 c && leb c 8202)
    || some_of (λ d. c == d) (32 ∷ 160 ∷ 5760 ∷ 8232 ∷ 8233 ∷ 8239 ∷ 8287 ∷ 12288 ∷ 65279 ∷ [])

unfoldable pub trim_start : Text → Text
unfolding is_space
trim_start [] = []
trim_start (c ∷ s) = let rest = trim_start s in if is_space c then rest else c ∷ s

unfoldable pub trim_end : Text → Text
unfolding is_space
trim_end [] = []
trim_end (c ∷ s) =
    let rest = trim_end s in
    elim rest [ [] ↦ if is_space c then [] else c ∷ [] | d ∷ t ↦ c ∷ d ∷ t ]

-- `s.trim()`
unfoldable pub trim : Text → Text
unfolding trim_start trim_end
trim s = trim_end (trim_start s)

-- `secret.data?.['gremlin-password'] && Buffer.from(...).equals(value)`
unfoldable pub is_operator_password : Data → Text → Bool
unfolding entry
is_operator_password contents value =
    given (entry contents (text "gremlin-password"))
    && text_eq (or_empty (entry contents (text "gremlin-password"))) value

-- The loop over `source_keys`, with the entries copied so far in `copied`, the latest last.
unfoldable pub copy_keys : Data → List Text → Data → Script State Data
unfolding entry
copy_keys source [] copied = pure copied
copy_keys source (key ∷ keys) copied = do
  throw_if (not (given (entry source key))) (text "Missing backup source key: " ++ key)
  copy_keys source keys (copied ++ ((key, or_empty (entry source key)) ∷ []))

module _ (env : Env Answer) where
  -- `provision-backup-secret`
  unfoldable pub provision_backup_secret : Text → Text → Script State (Unit {0})
  unfolding copy_keys trim
  provision_backup_secret environment namespace = do
    throw_if (not (includes (text "dev" ∷ text "prod" ∷ []) environment))
        (text "Cluster backup credentials are only for dev/prod")
    present ← call env (get_name namespace backup_secret)
    if not (text_eq (trim present) []) then pure tt else do
      source ← call env (read_source platform platform_backup)
      contents ← copy_keys source source_keys []
      call env (create_secret namespace backup_secret contents)

  -- The body of the `try`.
  unfoldable pub send_patch : Text → AppSecret → Text → Text → Script State (Unit {0})
  send_patch namespace secret value scratch = do
    call env (write_patch (file_in scratch (text "patch.json")) secret.resource_version value)
    call env (patch_secret namespace (file_in scratch (text "patch.json")))

  -- The application's key is added to a Secret that has none.
  unfoldable pub add_app_key : Text → Text → AppSecret → Script State (Unit {0})
  unfolding send_patch trim is_operator_password
  add_app_key environment namespace secret = do
    present ← call env (exists (file_in (directory_of environment) (text "tls.p12")))
    throw_if (not present) (
        text "Existing Secret needs "
        ++ (app_key ++ (text "; restore .local/data/" ++ (environment ++ text " first"))))
    call env (provision environment)
    value ← call env (read_file (file_in (directory_of environment) app_key))
    throw_if (ltb (length (trim value)) 32) (text "Invalid " ++ app_key)
    throw_if (is_operator_password secret.contents value)
        (app_key ++ text " must differ from the operator credential")
    scratch ← call env make_scratch
    try_finally (send_patch namespace secret value scratch) (call env (remove_scratch scratch))

  -- A body of the loop over `files`.
  unfoldable pub check_file : Text → Text → Script State (Unit {0})
  check_file directory name = do
    present ← call env (exists (file_in directory name))
    throw_if (not present) (text "Missing or empty credential file: " ++ name)
    content ← call env (read_file (file_in directory name))
    throw_if (length content == 0) (text "Missing or empty credential file: " ++ name)

  -- A Secret that is not there is made of the files.
  unfoldable pub create_all : Text → Text → Script State (Unit {0})
  unfolding check_file
  create_all environment namespace = do
    call env (provision environment)
    for_each credential_files (check_file (directory_of environment))
    call env (
        create_from_files namespace
          (map (λ name. (name, file_in (directory_of environment) name)) credential_files))

  -- `provision-secret`
  unfoldable pub provision_secret : Text → Text → Script State (Unit {0})
  unfolding entry add_app_key create_all trim
  provision_secret environment namespace = do
    existing ← call env (get_name namespace data_secret)
    if text_eq (trim existing) [] then create_all environment namespace else do
      secret ← call env (read_secret namespace)
      if given (entry secret.contents app_key)
          then pure tt
          else add_app_key environment namespace secret
