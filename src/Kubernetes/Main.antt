-- ===== src/Kubernetes/Main.antt =====
-- The whole of deploy/data/kubernetes.mjs.
use cartyx_infrastructure.Base.{
  ℕ, Text, text, List, [], ◌∷◌, ◌++◌, Bool, false, not, ◌||◌, ◌&&◌, leb, none, some, length, drop,
  every, text_eq, starts_with, includes, if◌then◌else◌,
}
use cartyx_infrastructure.Script.{Env, Outcome, Script, call, throw_if, given, or_empty, ◌>>◌}
use cartyx_infrastructure.Kubernetes.Requests.{Answer, Settings, State, get_namespace}
use cartyx_infrastructure.Kubernetes.Secrets.{provision_backup_secret, provision_secret}
use cartyx_infrastructure.Kubernetes.Jobs.{check_cql_security}

unfoldable pub actions : List Text
unfolding text
actions = text "provision-secret" ∷ text "provision-backup-secret" ∷ text "cql-security" ∷ []

unfoldable pub targets : List Text
unfolding text
targets = text "dev" ∷ text "prod" ∷ text "local" ∷ []

-- The namespace of an environment.
unfoldable pub own_namespace : Text → Text
own_namespace environment =
    if text_eq environment (text "local") then text "cartyx-local" else environment

-- `namespace`
unfoldable pub namespace_of : Settings → Text
unfolding own_namespace
namespace_of s = elim s.namespace [
  | none ↦ own_namespace (or_empty s.environment)
  | some namespace ↦ namespace
]

abbrev pub scratch_prefix : Text → Text
scratch_prefix environment = text "cartyx-restore-" ++ (environment ++ text "-")

-- /^cartyx-restore-${environment}-[0-9]+$/
unfoldable pub is_scratch : Text → Text → Bool
is_scratch environment namespace =
    let digits = drop (length (scratch_prefix environment)) namespace in
    starts_with namespace (scratch_prefix environment)
    && leb 1 (length digits)
    && every (λ c. leb b'0' c && leb c b'9') digits

module _ (env : Env Answer) where
  -- What follows the guards. Each `process.exit(0)` stands where nothing is left to do.
  unfoldable pub serve : Text → Text → Text → Script State (Unit {0})
  serve action environment namespace =
      if text_eq action (text "provision-backup-secret")
      then provision_backup_secret env environment namespace
      else if text_eq action (text "cql-security")
      then check_cql_security env namespace
      else provision_secret env environment namespace

  -- The whole script.
  unfoldable pub administer : Settings → Script State (Unit {0})
  unfolding namespace_of is_scratch serve
  administer s = do
    let action = or_empty s.action
    let environment = or_empty s.environment
    let namespace = namespace_of s
    throw_if (not (includes actions action) || not (includes targets environment)) (
        text
          "Usage: node deploy/data/kubernetes.mjs provision-secret|provision-backup-secret|cql-security dev|prod|local")
    throw_if (not (given s.kubeconfig))
        (text "Set DATA_KUBECONFIG explicitly to the target cluster config")
    throw_if
        (given s.namespace
          && (not (text_eq action (text "cql-security")) || not (is_scratch environment namespace)))
        (text "DATA_NAMESPACE is only supported for a matching scratch-restore CQL security check")
    call env (get_namespace namespace)
    serve action environment namespace

-- A run of the process.
abbrev pub run : Env Answer → Settings → ℕ → Outcome (Unit {0}) × State
run env s now = administer env s (record { log = []; time = now; cancelled = false; vars = tt })
