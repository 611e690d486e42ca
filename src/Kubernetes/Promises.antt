-- ===== src/Kubernetes/Promises.antt =====
-- What deploy/data/kubernetes.mjs guarantees of the cluster, for every run.
use mathlib.Core.Path.{subst}
use cartyx_infrastructure.Base.{
  ℕ, Text, text, List, [], ◌∷◌, ◌++◌, All, true, map, includes, some, ◌≡◌,
}
use cartyx_infrastructure.Script.{Env, Log, Settled, called, Outcome, ok, or_empty}
use cartyx_infrastructure.Script.Post.{Post, returned, stopped}
use cartyx_infrastructure.Script.Discipline.{Did, Obeys, Obeys-append}
use cartyx_infrastructure.Kubernetes.Requests.{
  Data, AppSecret, Pod, Job, Request, Answer, Settings, State, read_source, create_secret,
  list_jobs, create_job, provision, write_patch, patch_secret, create_from_files,
}
use cartyx_infrastructure.Kubernetes.Secrets.{
  backup_secret, data_secret, platform, platform_backup, credential_files, directory_of, file_in,
}
use cartyx_infrastructure.Kubernetes.Jobs.{bootstrap_of}
use cartyx_infrastructure.Kubernetes.Main.{run}
use cartyx_infrastructure.Kubernetes.Trust.{
  IsAdmitted, IsAbsent, IsCopied, IsSecured, IsFilled, IsAddition, IsHere, Allowed, environment,
  here,
}
use cartyx_infrastructure.Kubernetes.Tidy.{IsTidy, Fails}
use cartyx_infrastructure.Kubernetes.Ends.{IsServed}
use cartyx_infrastructure.Kubernetes.Whole.{Finishes, run-Post}

module _ (env : Env Answer) (settings : Settings) (now : ℕ) where
  abbrev ended_log : Log Answer
  ended_log = (run env settings now).1.log

  ended : Obeys (Allowed settings) ended_log × IsTidy settings ended_log
  ended = go (run-Post env settings now)
    where
      go :
          {r : Outcome (Unit {0}) × State}
          → Post (Finishes env settings) (Fails settings env) r
          → Obeys (Allowed settings) r.1.log × IsTidy settings r.1.log
      go (returned p) = p.0
      go (stopped p) = p.1

  call-Allowed :
      (later log : Log Answer) (q : Request) (r : Settled (Answer q))
      → ended_log ≡ later ++ (called q r ∷ log)
      → Allowed settings q log
  call-Allowed later log q r e =
      Obeys-append (Allowed settings) later q r log (subst (Obeys (Allowed settings)) e ended.0)

  -- A run makes a call only if action and environment are known ones and a cluster is configured, and
  -- then every call to the cluster is in one namespace: the environment's own, or none if
  -- `DATA_NAMESPACE` is empty, or for the security check a scratch namespace of the environment. The
  -- one exception is the read of the Secret `platform-backup` of the namespace `platform`, which
  -- only `provision-backup-secret` makes.
  pub call-IsHere :
      (later log : Log Answer) (q : Request) (r : Settled (Answer q))
      → (run env settings now).1.log ≡ later ++ (called q r ∷ log)
      → IsAdmitted settings × IsHere settings q
  call-IsHere later log q r e =
      let (admitted, located, _) = call-Allowed later log q r e in (admitted, located)

  -- Whenever a run creates the Secret with the backup's credentials, it was asked for it for dev or
  -- prod, there was no such Secret, and the new one has just the four keys, each with the value of
  -- the platform's Secret, which is not empty.
  pub backup_secret-IsCopied :
      (later log : Log Answer) (namespace name : Text) (contents : Data) (r : Settled (Unit {0}))
      → (run env settings now).1.log
        ≡ later ++ (called (create_secret namespace name contents) r ∷ log)
      → (or_empty settings.action ≡ text "provision-backup-secret")
        × (includes (text "dev" ∷ text "prod" ∷ []) (environment settings) ≡ true)
        × ((name ≡ backup_secret) × IsAbsent (here settings) backup_secret log)
        × ((source : Data) × Did (read_source platform platform_backup) source log
            × IsCopied source contents)
  backup_secret-IsCopied later log namespace name contents r e =
      (call-Allowed later log (create_secret namespace name contents) r e).2

  -- Whenever a run patches the Secret, the patch tests the resource version of the Secret that was
  -- read, this Secret had no application key, and the key that the patch adds is the one in the
  -- environment's directory, has at least 32 characters without surrounding space, and is not the
  -- operator's password.
  pub patch-IsAddition :
      (later log : Log Answer) (namespace path : Text) (r : Settled (Unit {0}))
      → (run env settings now).1.log ≡ later ++ (called (patch_secret namespace path) r ∷ log)
      → (secret : AppSecret) × (value : Text) × Did
          (write_patch path secret.resource_version value)
          tt
          log
        × IsAddition settings secret value log
  patch-IsAddition later log namespace path r e =
      (call-Allowed later log (patch_secret namespace path) r e).2

  -- Whenever a run creates the Secret of files, there was no such Secret, the environment's
  -- credentials were provisioned, each of the eight keys comes from the file of its name in the
  -- environment's directory, and each of these files was there and not empty.
  pub new_secret-IsFilled :
      (later log : Log Answer) (namespace : Text) (files : Data) (r : Settled (Unit {0}))
      → (run env settings now).1.log ≡ later ++ (called (create_from_files namespace files) r ∷ log)
      → IsAbsent (here settings) data_secret log
        × Did (provision (environment settings)) tt log
        × (files
            ≡ map
                (λ name. (name, file_in (directory_of (environment settings)) name))
                credential_files)
        × All (λ f. IsFilled f.1 log) files
  new_secret-IsFilled later log namespace files r e =
      (call-Allowed later log (create_from_files namespace files) r e).2

  -- Whenever a run creates a Job, it was asked for the security check, and the Job's containers are
  -- those of the first bootstrap Job, with the first one's command replaced by the check.
  pub job-IsSecured :
      (later log : Log Answer) (namespace name : Text) (pod : Pod) (r : Settled (Unit {0}))
      → (run env settings now).1.log ≡ later ++ (called (create_job namespace name pod) r ∷ log)
      → (or_empty settings.action ≡ text "cql-security")
        × ((jobs : List Job) × (job : Job) × Did (list_jobs (here settings)) jobs log
            × (bootstrap_of jobs ≡ some job)
            × IsSecured job.pod pod)
  job-IsSecured later log namespace name pod r e =
      (call-Allowed later log (create_job namespace name pod) r e).2

  -- However a run ends, it has created neither a Job nor a scratch directory, or it has created just
  -- one of them, and its last call is the removal of this one.
  pub end-IsTidy : IsTidy settings (run env settings now).1.log
  end-IsTidy = ended.1

  -- A run that ends without an error has done what it was asked for. For `provision-backup-secret` it
  -- has found or created the Secret with the backup's credentials; for `cql-security` it has created
  -- a Job, seen it complete and deleted it; for `provision-secret` it has found the application's key
  -- in the Secret, added it, or created the Secret. It was asked for one of the three.
  pub administration_success-IsServed :
      (run env settings now).0 ≡ ok tt → IsServed settings (run env settings now).1.log
  administration_success-IsServed e = served (run-Post env settings now) e
    where
      served :
          {r : Outcome (Unit {0}) × State}
          → Post (Finishes env settings) (Fails settings env) r
          → r.0 ≡ ok tt
          → IsServed settings r.1.log
      served (returned p) e = p.1
      served (stopped p) e = cc e
