-- ===== src/Kubernetes/Trust.antt =====
-- What must be known before each call of deploy/data/kubernetes.mjs.
use cartyx_infrastructure.Base.{
  Text, text, List, [], ◌∷◌, All, true, false, some, map, length, ◌≡◌, ◌≤◌, ◌⊎◌, includes,
}
use cartyx_infrastructure.Script.{Log, given, or_empty}
use cartyx_infrastructure.Script.Discipline.{Did}
use cartyx_infrastructure.Kubernetes.Requests.{
  Data, entry, AppSecret, JobContainer, Pod, Job, Request, Answer, Settings, get_namespace,
  get_name, read_source, create_secret, list_jobs, create_job, wait_job, read_logs, delete_job,
  read_secret, exists, provision, read_file, make_scratch, write_patch, patch_secret,
  remove_scratch, create_from_files,
}
use cartyx_infrastructure.Kubernetes.Secrets.{
  source_keys, backup_secret, platform, platform_backup, data_secret, app_key, credential_files,
  directory_of, file_in, trim, is_operator_password,
}
use cartyx_infrastructure.Kubernetes.Jobs.{bootstrap_of}
use cartyx_infrastructure.Kubernetes.Main.{
  actions, targets, own_namespace, namespace_of, is_scratch,
}

-- The environment's own namespace, or none by an empty `DATA_NAMESPACE`, or for the security check a
-- scratch namespace of the environment.
abbrev pub IsScoped : Settings → Type 0
IsScoped s =
    (namespace_of s ≡ own_namespace (or_empty s.environment))
    ⊎ (namespace_of s ≡ [])
    ⊎ ((or_empty s.action ≡ text "cql-security")
        × (is_scratch (or_empty s.environment) (namespace_of s) ≡ true))

-- The arguments are known ones, and the namespace is in scope.
abbrev pub IsAdmitted : Settings → Type 0
IsAdmitted s =
    (includes actions (or_empty s.action) ≡ true)
    × (includes targets (or_empty s.environment) ≡ true)
    × (given s.kubeconfig ≡ true)
    × IsScoped s

-- There is no Secret of this name: what is printed for it is blank.
abbrev pub IsAbsent : Text → Text → Log Answer → Type 0
IsAbsent namespace name log =
    (printed : Text) × Did (get_name namespace name) printed log × (trim printed ≡ [])

-- The four keys, each with its value in the source, which is not empty.
abbrev pub IsCopied : Data → Data → Type 0
IsCopied source contents =
    (map (λ e. e.0) contents ≡ source_keys)
    × All (λ e. (entry source e.0 ≡ some e.1) × (given (some e.1) ≡ true)) contents

-- The first container's command is replaced, and nothing else.
abbrev pub IsSecured : Pod → Pod → Type 0
IsSecured original pod =
    (c : JobContainer) × (rest : Pod) × (original ≡ c ∷ rest)
    × (pod
        ≡ record c {
          command = text "python3" ∷ text "/config/cassandra-admin.py" ∷ text "security" ∷ [];
        }
          ∷ rest)

-- The file was there, and was not empty.
abbrev pub IsFilled : Text → Log Answer → Type 0
IsFilled path log =
    Did (exists path) true log
    × ((content : Text) × Did (read_file path) content log × (1 ≤ length content))

module _ (settings : Settings) where
  abbrev pub environment : Text
  environment = or_empty settings.environment

  abbrev pub here : Text
  here = namespace_of settings

  -- The application's key, as the operator's machine has it, may be added to this Secret.
  abbrev pub IsAddition : AppSecret → Text → Log Answer → Type 0
  IsAddition secret value log =
      Did (read_secret here) secret log
      × (given (entry secret.contents app_key) ≡ false)
      × Did (read_file (file_in (directory_of environment) app_key)) value log
      × (32 ≤ length (trim value))
      × (is_operator_password secret.contents value ≡ false)

  -- When each call is allowed, apart from its namespace.
  abbrev pub Founded : Request → Log Answer → Type 0
  Founded (create_secret namespace name contents) log =
      (or_empty settings.action ≡ text "provision-backup-secret")
      × (includes (text "dev" ∷ text "prod" ∷ []) environment ≡ true)
      × ((name ≡ backup_secret) × IsAbsent here backup_secret log)
      × ((source : Data) × Did (read_source platform platform_backup) source log
          × IsCopied source contents)
  Founded (create_job namespace name pod) log =
      (or_empty settings.action ≡ text "cql-security")
      × ((jobs : List Job) × (job : Job) × Did (list_jobs here) jobs log
          × (bootstrap_of jobs ≡ some job)
          × IsSecured job.pod pod)
  Founded (delete_job namespace name) log = (pod : Pod) × Did (create_job here name pod) tt log
  Founded (write_patch path version value) log =
      (secret : AppSecret) × (version ≡ secret.resource_version) × IsAddition secret value log
  Founded (patch_secret namespace path) log =
      (secret : AppSecret) × (value : Text) × Did (write_patch path secret.resource_version value)
        tt log
      × IsAddition secret value log
  Founded (remove_scratch path) log = Did make_scratch path log
  Founded (create_from_files namespace files) log =
      IsAbsent here data_secret log
      × Did (provision environment) tt log
      × (files ≡ map (λ name. (name, file_in (directory_of environment) name)) credential_files)
      × All (λ f. IsFilled f.1 log) files
  Founded _ log = Unit

  -- The namespace of a call to the cluster. The calls that are left are to local files and programs.
  abbrev pub IsHere : Request → Type 0
  IsHere (get_namespace n) = n ≡ here
  IsHere (get_name n name) = n ≡ here
  IsHere (read_source n name) =
      (n ≡ platform)
      × (name ≡ platform_backup)
      × (or_empty settings.action ≡ text "provision-backup-secret")
  IsHere (create_secret n name contents) = n ≡ here
  IsHere (list_jobs n) = n ≡ here
  IsHere (create_job n name pod) = n ≡ here
  IsHere (wait_job n name) = n ≡ here
  IsHere (read_logs n name) = n ≡ here
  IsHere (delete_job n name) = n ≡ here
  IsHere (read_secret n) = n ≡ here
  IsHere (patch_secret n path) = n ≡ here
  IsHere (create_from_files n files) = n ≡ here
  IsHere (exists path) = Unit
  IsHere (read_file path) = Unit
  IsHere (provision target) = Unit
  IsHere (make_scratch) = Unit
  IsHere (write_patch path version value) = Unit
  IsHere (remove_scratch path) = Unit

  abbrev pub Allowed : Request → Log Answer → Type 0
  Allowed q log = IsAdmitted settings × IsHere q × Founded q log

  -- Nothing is made that is to be removed again.
  abbrev pub MakesNothing : Request → Type 0
  MakesNothing (create_job n name pod) = ⊥
  MakesNothing (make_scratch) = ⊥
  MakesNothing _ = Unit

  abbrev pub Plain : Request → Log Answer → Type 0
  Plain q log = Allowed q log × MakesNothing q
