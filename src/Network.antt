-- ===== src/Network.antt =====
-- deploy/data/network-security.mjs: which Pods can reach the databases of an environment, tried with
-- four Jobs.
pub mod Cleaning
pub mod Verdict
pub mod Promises
mod Tests
use cartyx_infrastructure.Base.{
  ℕ, Text, text, List, [], ◌∷◌, ◌++◌, Bool, true, false, not, ◌||◌, Option, text_eq, includes,
  decimal, if◌then◌else◌,
}
use cartyx_infrastructure.Script.{
  Env, Outcome, Script, World, Settled, call, pure, gets, modify, throw_if, try_finally, attempt,
  settled, for_each, given, or_empty, ◌>>=◌, ◌>>◌,
}

-- A connection that the Python program of a Job tries, and whether it is to be allowed.
pub record Check : Type 0 where
  pub host : Text
  pub port : ℕ
  pub allowed : Bool

-- `expected` is about JanusGraph and about Cassandra.
pub record Case : Type 0 where
  pub name : Text
  pub namespace : Text
  pub labels : List (Text × Text)
  pub expected : Bool × Bool

-- An element of `jobs`.
pub record Probe : Type 0 where
  pub name : Text
  pub namespace : Text

-- A Job is created with the labels of its Pod and with its checks.
pub data Request : Type 0 where
  create_job : Probe → List (Text × Text) → List Check → Request
  wait_job : Probe → Request
  read_logs : Probe → Request
  delete_job : Probe → Request

abbrev pub Answer : Request → Type 0
Answer (read_logs probe) = Text
Answer _ = Unit

pub record Settings : Type 0 where
  pub target : Option Text
  pub kubeconfig : Option Text

-- The variable is `jobs`.
abbrev pub State : Type 0
State = World Answer (List Probe)

abbrev pub other_than : Text → Text
other_than target = if text_eq target (text "dev") then text "prod" else text "dev"

abbrev pub part_of_data : Text × Text
part_of_data = (text "app.kubernetes.io/part-of", text "cartyx-data")

abbrev pub data_client : Text × Text
data_client = (text "cartyx.io/data-client", text "true")

-- `cases`
abbrev pub cases_of : Text → List Case
cases_of target =
    record {
      name = text "data";
      namespace = target;
      labels = part_of_data ∷ [];
      expected = (true, true);
    }
    ∷ record {
      name = text "client";
      namespace = target;
      labels = data_client ∷ [];
      expected = (true, false);
    }
    ∷ record { name = text "unlabeled"; namespace = target; labels = []; expected = (false, false) }
    ∷ record {
      name = text "cross-namespace";
      namespace = other_than target;
      labels = part_of_data ∷ data_client ∷ [];
      expected = (false, false);
    }
    ∷ []

-- `checks` of the Python program.
abbrev pub checks_of : Text → Case → List Check
checks_of target c =
    record {
      host = text "cartyx-data-janusgraph." ++ (target ++ text ".svc.cluster.local");
      port = 8182;
      allowed = c.expected.0;
    }
    ∷ record {
      host = text "cartyx-data-cassandra." ++ (target ++ text ".svc.cluster.local");
      port = 9042;
      allowed = c.expected.1;
    }
    ∷ []

-- `name` at a time, and the namespace.
unfoldable pub probe_of : ℕ → Case → Probe
probe_of now c = record {
  name = text "cartyx-data-network-" ++ (decimal now ++ (text "-" ++ c.name));
  namespace = c.namespace;
}

-- `jobs.push(...)`
abbrev pub push : Probe → State → State
push probe w = record w { vars = w.vars ++ (probe ∷ []) }

module _ (env : Env Answer) where
  -- A body of the loop over the cases.
  unfoldable pub start_probe : Text → Case → Script State (Unit {0})
  unfolding probe_of
  start_probe target c = do
    now ← gets (λ w. w.time)
    let probe = probe_of now c
    call env (create_job probe c.labels (checks_of target c))
    modify (push probe)

  -- A body of `jobs.map`.
  unfoldable pub watch : Probe → Script State (Unit {0})
  watch probe = do call env (wait_job probe); call env (read_logs probe); pure tt

  -- `Promise.allSettled(...)`
  unfoldable pub watch_all : List Probe → Script State (List (Settled (Unit {0})))
  unfolding watch
  watch_all [] = pure []
  watch_all (probe ∷ probes) = do r ← attempt (watch probe); rs ← watch_all probes; pure (r ∷ rs)

  -- The body of the `try`.
  unfoldable pub try_probes : Text → Script State (Unit {0})
  unfolding start_probe watch_all
  try_probes target = do
    for_each (cases_of target) (start_probe target)
    jobs ← gets (λ w. w.vars)
    results ← watch_all jobs
    for_each results (λ r. settled r)

  -- The body of the `finally`.
  unfoldable pub delete_probes : Script State (Unit {0})
  delete_probes = do jobs ← gets (λ w. w.vars); for_each jobs (λ probe. call env (delete_job probe))

  -- The whole script.
  unfoldable pub verify_network : Settings → Script State (Unit {0})
  unfolding try_probes delete_probes
  verify_network s = do
    throw_if
        (not (includes (text "dev" ∷ text "prod" ∷ []) (or_empty s.target))
          || not (given s.kubeconfig))
        (text "Set DATA_KUBECONFIG and pass dev|prod")
    try_finally (try_probes (or_empty s.target)) delete_probes

-- A run of the process.
abbrev pub run : Env Answer → Settings → ℕ → Outcome (Unit {0}) × State
run env s now = verify_network env s (record { log = []; time = now; cancelled = false; vars = [] })
