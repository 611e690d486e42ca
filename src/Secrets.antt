-- ===== src/Secrets.antt =====
-- deploy/data/secrets.mjs: the credentials of an environment on the operator's machine.
pub mod Writing
pub mod Provision
mod Tests
use cartyx_infrastructure.Base.{
  ℕ, Text, text, List, [], ◌∷◌, ◌++◌, Bool, false, not, Option, none, some, includes, if◌then◌else◌,
}
use cartyx_infrastructure.Script.{
  Env, Outcome, Script, World, call, pure, throw_if, for_each, ◌>>=◌, ◌>>◌,
}

-- `create_directory` and `write_new` fail if the path exists; `ensure_directory` does not.
pub data Request : Type 0 where
  ensure_directory : Text → Request
  create_directory : Text → Request
  change_mode : Text → ℕ → Request
  exists : Text → Request
  random_hex : ℕ → Request
  write_new : Text → Text → Request
  write_file : Text → Text → Request
  request_certificate : Text → Request
  export_certificate : Text → Request

-- Of `random_hex`, the hexadecimal digits of so many random bytes.
abbrev pub Answer : Request → Type 0
Answer (exists path) = Bool
Answer (random_hex n) = Text
Answer _ = Unit

abbrev pub State : Type 0
State = World Answer (Unit {0})

unfoldable pub known_environments : List Text
unfolding text
known_environments = text "local" ∷ text "dev" ∷ text "prod" ∷ text "restore" ∷ []

unfoldable pub app_key : Text
unfolding text
app_key = text "gremlin-app-password"

unfoldable pub key_names : List Text
unfolding text app_key
key_names =
    text "cassandra-admin-password"
    ∷ text "cassandra-graph-password"
    ∷ text "cassandra-state-password"
    ∷ text "gremlin-password"
    ∷ app_key
    ∷ text "tls-password"
    ∷ []

-- `parent` and `directory`, from the directory in which the script runs, and `join(directory, name)`.
abbrev pub parent : Text
parent = text ".local/data"

abbrev pub directory_of : Text → Text
directory_of environment = parent ++ (text "/" ++ environment)

abbrev pub file_in : Text → Text → Text
file_in directory name = directory ++ (text "/" ++ name)

-- The two services, each with its two names in a namespace.
abbrev service_hosts : Text → List Text → List Text
service_hosts namespace rest =
    (text "cartyx-data-cassandra." ++ (namespace ++ text ".svc"))
    ∷ (text "cartyx-data-cassandra." ++ (namespace ++ text ".svc.cluster.local"))
    ∷ (text "cartyx-data-janusgraph." ++ (namespace ++ text ".svc"))
    ∷ (text "cartyx-data-janusgraph." ++ (namespace ++ text ".svc.cluster.local"))
    ∷ rest

abbrev pub hosts : Text → List Text
hosts environment =
    text "localhost"
    ∷ text "cassandra"
    ∷ text "janusgraph"
    ∷ text "cartyx-data-cassandra"
    ∷ text "cartyx-data-janusgraph"
    ∷ service_hosts environment (service_hosts (text "cartyx-local") [])

-- `hosts.map(h => 'DNS:' + h).join(',')`
unfoldable pub alternative_names : List Text → Text
alternative_names [] = []
alternative_names (h ∷ []) = text "DNS:" ++ h
alternative_names (h ∷ g ∷ rest) = text "DNS:" ++ (h ++ (text "," ++ alternative_names (g ∷ rest)))

unfoldable pub certificate_config : Text → Text
unfolding alternative_names
certificate_config environment =
    text
      "[req]\ndistinguished_name=dn\nx509_extensions=extensions\nprompt=no\n[dn]\nCN=cartyx-data-"
    ++ (environment
        ++ (text
              "\n[extensions]\nbasicConstraints=critical,CA:TRUE\nkeyUsage=critical,digitalSignature,keyEncipherment,keyCertSign\nsubjectAltName="
            ++ (alternative_names (hosts environment) ++ text ",IP:127.0.0.1\n")))

-- `process.argv[2] ?? 'local'`
abbrev pub chosen : Option Text → Text
chosen argument = elim argument [ none ↦ text "local" | some environment ↦ environment ]

module _ (env : Env Answer) where
  unfoldable pub write_key : Text → Text → Script State (Unit {0})
  write_key directory key = do
    value ← call env (random_hex 32)
    call env (write_new (file_in directory key) (value ++ text "\n"))

  -- An environment with credentials gets the application's key, if it has none.
  unfoldable pub add_app_key : Text → Script State (Unit {0})
  unfolding write_key
  add_app_key directory = do
    present ← call env (exists (file_in directory app_key))
    if present then pure tt else write_key directory app_key

  -- An environment without credentials gets all of them.
  unfoldable pub create_all : Text → Text → Script State (Unit {0})
  unfolding write_key
  create_all environment directory = do
    incomplete ← call env (exists directory)
    throw_if incomplete
        (text "Incomplete credentials at " ++ (directory ++ text "; inspect before retrying"))
    call env (create_directory directory)
    for_each key_names (write_key directory)
    call env (write_file (file_in directory (text "openssl.cnf")) (certificate_config environment))
    call env (request_certificate directory)
    call env (export_certificate directory)
    call env (change_mode (file_in directory (text "tls.p12")) 420)

  -- The whole script. Its `process.exit(0)` stands where nothing is left to do.
  unfoldable pub provision : Option Text → Script State (Unit {0})
  unfolding add_app_key create_all
  provision argument = do
    let environment = chosen argument
    let directory = directory_of environment
    throw_if (not (includes known_environments environment))
        (text "Environment must be local, dev, prod, or restore")
    call env (ensure_directory parent)
    call env (change_mode parent 448)
    present ← call env (exists (file_in directory (text "tls.p12")))
    if present then add_app_key directory else create_all environment directory

-- A run of the process.
abbrev pub run : Env Answer → Option Text → ℕ → Outcome (Unit {0}) × State
run env argument now =
    provision env argument (record { log = []; time = now; cancelled = false; vars = tt })
