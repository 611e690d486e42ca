-- ===== src/Commands.antt =====
-- scripts/dev-data.mjs: the developer's commands, each of which runs other programs.
pub mod Reporting
mod Tests
use cartyx_infrastructure.Base.{
  ℕ, zero, suc, false, Text, text, List, [], ◌∷◌, ◌++◌, Option, none, some, text_eq, if◌then◌else◌,
}
use cartyx_infrastructure.Script.{
  Env, Outcome, Script, World, call, pure, fail, quit, for_each, ◌>>=◌, ◌>>◌,
}

-- What `spawnSync` says: an error, or a status, which a signal leaves out.
pub record Result : Type 0 where
  pub error : Option Text
  pub status : Option ℕ

pub record Program : Type 0 where
  pub command : Text
  pub arguments : List Text

pub data Request : Type 0 where
  spawn : Program → Request

abbrev pub Answer : Request → Type 0
Answer _ = Result

-- `process.execPath`, `process.argv[2]` and `process.argv[3]`.
pub record Settings : Type 0 where
  pub exec_path : Text
  pub action : Option Text
  pub argument : Option Text

abbrev pub State : Type 0
State = World Answer (Unit {0})

-- `value ?? other`
abbrev pub value_or : Option Text → Text → Text
value_or value other = elim value [ none ↦ other | some s ↦ s ]

-- `if (result.error) throw result.error`
abbrev pub raise : Option Text → Script State (Unit {0})
raise none = pure tt
raise (some e) = fail e

-- `if (result.status !== 0) process.exit(result.status ?? 1)`
abbrev pub exit_with : Option ℕ → Script State (Unit {0})
exit_with none = quit 1
exit_with (some zero) = pure tt
exit_with (some (suc n)) = quit (suc n)

abbrev pub compose : List Text
compose =
    text "compose"
    ∷ text "-p"
    ∷ text "cartyx-local"
    ∷ text "-f"
    ∷ text "deploy/local/data.compose.yaml"
    ∷ []

abbrev pub in_compose : List Text → Program
in_compose more = record { command = text "docker"; arguments = compose ++ more }

abbrev pub in_node : Settings → List Text → Program
in_node s more = record { command = s.exec_path; arguments = more }

-- The programs of each case of the `switch`, in their order; none is the default case.
unfoldable pub programs_of : Settings → Text → Option (List Program)
programs_of s action =
    if text_eq action (text "up")
    then some (
        in_node s (text "deploy/data/secrets.mjs" ∷ text "local" ∷ [])
        ∷ in_compose
            (text "up" ∷ text "-d" ∷ text "--wait" ∷ text "--wait-timeout" ∷ text "600" ∷ [])
        ∷ [])
    else if text_eq action (text "down")
    then some (in_compose (text "stop" ∷ text "janusgraph" ∷ text "cassandra" ∷ []) ∷ [])
    else if text_eq action (text "status")
    then some (in_compose (text "ps" ∷ text "-a" ∷ []) ∷ [])
    else if text_eq action (text "smoke")
    then some
        (in_node s (text "deploy/data/smoke.mjs" ∷ value_or s.argument (text "verify") ∷ []) ∷ [])
    else if text_eq action (text "tools")
    then some (
        record {
          command = text "npm";
          arguments =
              text "ci" ∷ text "--prefix" ∷ text "deploy/data" ∷ text "--ignore-scripts" ∷ [];
        }
        ∷ [])
    else if text_eq action (text "chart-test")
    then some (in_node s (text "--test" ∷ text "deploy/data/tests/chart.test.mjs" ∷ []) ∷ [])
    else if text_eq action (text "secrets")
    then some (in_node s (text "deploy/data/secrets.mjs" ∷ text "local" ∷ []) ∷ [])
    else if text_eq action (text "kind")
    then some
        (record { command = text "bash"; arguments = text "deploy/local/data-kind.sh" ∷ [] } ∷ [])
    else none

abbrev pub usage : Text
usage =
    text
      "Usage: dev-data.mjs up|down|status|tools|chart-test|secrets|kind|smoke [seed|verify|clean]"

abbrev pub action_of : Settings → Text
action_of s = value_or s.action (text "up")

module _ (env : Env Answer) where
  -- `run`
  unfoldable pub run_program : Program → Script State (Unit {0})
  run_program p = do result ← call env (spawn p); raise result.error; exit_with result.status

  unfoldable pub run_all : Option (List Program) → Script State (Unit {0})
  unfolding run_program
  run_all none = fail usage
  run_all (some programs) = for_each programs run_program

  -- The whole script.
  unfoldable pub dispatch : Settings → Script State (Unit {0})
  unfolding run_all programs_of
  dispatch s = run_all (programs_of s (action_of s))

-- A run of the process.
abbrev pub run : Env Answer → Settings → ℕ → Outcome (Unit {0}) × State
run env s now = dispatch env s (record { log = []; time = now; cancelled = false; vars = tt })
