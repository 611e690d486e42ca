-- ===== src/Kubernetes/Jobs.antt =====
-- `cql-security` of deploy/data/kubernetes.mjs.
use cartyx_infrastructure.Base.{
  ℕ, Text, text, List, [], ◌∷◌, ◌++◌, Option, none, some, starts_with, decimal, if◌then◌else◌,
}
use cartyx_infrastructure.Script.{Env, Script, call, pure, fail, gets, try_finally, ◌>>=◌, ◌>>◌}
use cartyx_infrastructure.Kubernetes.Requests.{
  Pod, Job, Answer, State, list_jobs, create_job, wait_job, read_logs, delete_job,
}

-- `bootstrap`
unfoldable pub bootstrap_of : List Job → Option Job
bootstrap_of [] = none
bootstrap_of (job ∷ jobs) =
    let rest = bootstrap_of jobs in
    if starts_with job.name (text "cartyx-data-bootstrap-") then some job else rest

unfoldable pub found : Option Job → Script State Job
found none = fail (text "Data bootstrap Job not found")
found (some job) = pure job

-- `pod.containers[0].command = ...`
unfoldable pub secured : Pod → Script State Pod
secured [] = fail (text "Cannot set properties of undefined (setting 'command')")
secured (c ∷ pod) = pure (
    record c { command = text "python3" ∷ text "/config/cassandra-admin.py" ∷ text "security" ∷ [] }
    ∷ pod)

-- `name`
unfoldable pub job_name : ℕ → Text
job_name now = text "cartyx-data-security-" ++ decimal now

module _ (env : Env Answer) where
  -- The body of the `try`.
  unfoldable pub watch_job : Text → Text → Script State (Unit {0})
  watch_job namespace name = do
    call env (wait_job namespace name)
    call env (read_logs namespace name)
    pure tt

  -- `cql-security`
  unfoldable pub check_cql_security : Text → Script State (Unit {0})
  unfolding bootstrap_of found secured job_name watch_job
  check_cql_security namespace = do
    jobs ← call env (list_jobs namespace)
    bootstrap ← found (bootstrap_of jobs)
    now ← gets (λ w. w.time)
    let name = job_name now
    pod ← secured bootstrap.pod
    call env (create_job namespace name pod)
    try_finally (watch_job namespace name) (call env (delete_job namespace name))
