-- ===== src/Kubernetes/Tests.antt =====
-- Runs of deploy/data/kubernetes.mjs, and the theorems at them.
use cartyx_infrastructure.Base.{
  Text, text, [], ◌∷◌, All, true, false, take, drop, map, includes, ◌≡◌, refl, text_eq, starts_with,
  decimal,
}
use cartyx_infrastructure.Script.{
  Log, resolved, rejected, called, ok, call, after_call, and_then, finishing, for_each, or_empty,
}
use cartyx_infrastructure.Script.Discipline.{Did}
use cartyx_infrastructure.Kubernetes.Requests.{
  Data, entry, AppSecret, Pod, Answer, get_namespace, get_name, read_source, create_secret,
  list_jobs, create_job, wait_job, delete_job, read_secret, exists, provision, read_file,
  make_scratch, write_patch, patch_secret, remove_scratch, create_from_files,
}
use cartyx_infrastructure.Kubernetes.Secrets.{
  platform, platform_backup, source_keys, backup_secret, data_secret, app_key, credential_files,
  directory_of, file_in, is_space, trim_start, trim_end, trim, is_operator_password, copy_keys,
  provision_backup_secret, send_patch, add_app_key, check_file, create_all, provision_secret,
}
use cartyx_infrastructure.Kubernetes.Jobs.{
  bootstrap_of, found, secured, job_name, watch_job, check_cql_security,
}
use cartyx_infrastructure.Kubernetes.Main.{
  actions, targets, own_namespace, namespace_of, is_scratch, serve, administer, run,
}
use cartyx_infrastructure.Kubernetes.Trust.{
  IsAdmitted, IsAbsent, IsCopied, IsFilled, IsAddition, IsHere, environment, here,
}
use cartyx_infrastructure.Kubernetes.Tidy.{IsTidy}
use cartyx_infrastructure.Kubernetes.Ends.{IsServed}
use cartyx_infrastructure.Kubernetes.Promises.{
  call-IsHere, backup_secret-IsCopied, patch-IsAddition, new_secret-IsFilled, end-IsTidy,
  administration_success-IsServed,
}
use cartyx_infrastructure.Kubernetes.Sample.{
  key, source, bootstrap, secret, answer, cluster, asked, backup, check, credentials,
}

abbrev dev : Text
unfolding text
dev = text "dev"

abbrev copied : Data
unfolding text
copied =
    (text "R2_ACCOUNT_ID", text "a")
    ∷ (text "R2_BUCKET", text "b")
    ∷ (text "AWS_ACCESS_KEY_ID", text "k")
    ∷ (text "AWS_SECRET_ACCESS_KEY", text "s")
    ∷ []

abbrev backed_up : Log Answer
unfolding text dev source copied
backed_up =
    called (create_secret dev backup_secret copied) (resolved tt)
    ∷ called (read_source platform platform_backup) (resolved source)
    ∷ called (get_name dev backup_secret) (resolved [])
    ∷ called (get_namespace dev) (resolved tt)
    ∷ []

backed_up-trace : (run (cluster false (resolved tt)) backup 0).1.log ≡ backed_up
unfolding text text_eq includes call after_call and_then entry source_keys is_space trim_start
    trim_end trim copy_keys provision_backup_secret actions targets own_namespace namespace_of serve
    administer key source bootstrap secret answer asked backup dev copied backed_up
backed_up-trace = refl

abbrev scratch : Text
unfolding text
scratch = text "cartyx-restore-dev-12"

abbrev job : Text
unfolding text
job = text "cartyx-data-security-2"

abbrev pod : Pod
unfolding text
pod =
    record {
      image = text "c";
      command = text "python3" ∷ text "/config/cassandra-admin.py" ∷ text "security" ∷ [];
    }
    ∷ []

-- A check that fails.
abbrev checked : Log Answer
unfolding text scratch job pod bootstrap
checked =
    called (delete_job scratch job) (resolved tt)
    ∷ called (wait_job scratch job) (rejected (text "timeout"))
    ∷ called (create_job scratch job pod) (resolved tt)
    ∷ called (list_jobs scratch) (resolved (bootstrap ∷ []))
    ∷ called (get_namespace scratch) (resolved tt)
    ∷ []

checked-trace : (run (cluster false (rejected (text "timeout"))) check 0).1.log ≡ checked
unfolding text text_eq includes starts_with call after_call and_then finishing bootstrap_of found
    secured job_name watch_job check_cql_security decimal actions targets own_namespace namespace_of
    is_scratch serve administer key source bootstrap secret answer asked check scratch job pod
    checked
checked-trace = refl

abbrev patch : Text
unfolding text
patch = text "t/patch.json"

abbrev added : Log Answer
unfolding text dev patch key secret
added =
    called (remove_scratch (text "t")) (resolved tt)
    ∷ called (patch_secret dev patch) (resolved tt)
    ∷ called (write_patch patch (text "7") key) (resolved tt)
    ∷ called make_scratch (resolved (text "t"))
    ∷ called (read_file (file_in (directory_of dev) app_key)) (resolved key)
    ∷ called (provision dev) (resolved tt)
    ∷ called (exists (file_in (directory_of dev) (text "tls.p12"))) (resolved true)
    ∷ called (read_secret dev) (resolved secret)
    ∷ called (get_name dev data_secret) (resolved (text "secret/s\n"))
    ∷ called (get_namespace dev) (resolved tt)
    ∷ []

added-trace : (run (cluster true (resolved tt)) credentials 0).1.log ≡ added
unfolding text text_eq includes call after_call and_then finishing entry is_space trim_start
    trim_end trim is_operator_password send_patch add_app_key provision_secret actions targets
    own_namespace namespace_of serve administer key source bootstrap secret answer asked credentials
    dev patch added
added-trace = refl

added-outcome : (run (cluster true (resolved tt)) credentials 0).0 ≡ ok tt
unfolding text text_eq includes call after_call and_then finishing entry is_space trim_start
    trim_end trim is_operator_password send_patch add_app_key provision_secret actions targets
    own_namespace namespace_of serve administer key source bootstrap secret answer asked credentials
added-outcome = refl

abbrev files : Data
unfolding text dev credential_files
files = map (λ name. (name, file_in (directory_of dev) name)) credential_files

-- The files that are looked at, the latest first.
abbrev looked_at : Data → Log Answer → Log Answer
unfolding key
looked_at [] log = log
looked_at (f ∷ fs) log =
    looked_at fs (called (read_file f.1) (resolved key) ∷ called (exists f.1) (resolved true) ∷ log)

abbrev created : Log Answer
unfolding text dev files looked_at
created =
    called (create_from_files dev files) (resolved tt)
    ∷ looked_at files (
        called (provision dev) (resolved tt)
        ∷ called (get_name dev data_secret) (resolved [])
        ∷ called (get_namespace dev) (resolved tt)
        ∷ [])

created-trace : (run (cluster false (resolved tt)) credentials 0).1.log ≡ created
unfolding text text_eq includes call after_call and_then for_each entry is_space trim_start trim_end
    trim check_file create_all credential_files provision_secret actions targets own_namespace
    namespace_of serve administer key source bootstrap secret answer asked credentials dev files
    looked_at created
created-trace = refl

-- The one call to another namespace.
call-IsHere_example : IsAdmitted backup × IsHere backup (read_source platform platform_backup)
unfolding backed_up
call-IsHere_example =
    call-IsHere (cluster false (resolved tt)) backup 0 (take 1 backed_up) (drop 2 backed_up)
      (read_source platform platform_backup) (resolved source) backed_up-trace

backup_secret-IsCopied_example :
    (or_empty backup.action ≡ text "provision-backup-secret")
    × (includes (text "dev" ∷ text "prod" ∷ []) (environment backup) ≡ true)
    × ((backup_secret ≡ backup_secret) × IsAbsent (here backup) backup_secret (drop 1 backed_up))
    × ((s : Data) × Did (read_source platform platform_backup) s (drop 1 backed_up)
        × IsCopied s copied)
unfolding backed_up
backup_secret-IsCopied_example =
    backup_secret-IsCopied (cluster false (resolved tt)) backup 0 [] (drop 1 backed_up) dev
      backup_secret copied (resolved tt) backed_up-trace

patch-IsAddition_example :
    (s : AppSecret) × (value : Text) × Did
      (write_patch patch s.resource_version value)
      tt
      (drop 2 added)
    × IsAddition credentials s value (drop 2 added)
unfolding added
patch-IsAddition_example =
    patch-IsAddition (cluster true (resolved tt)) credentials 0 (take 1 added) (drop 2 added) dev
      patch (resolved tt) added-trace

new_secret-IsFilled_example :
    IsAbsent (here credentials) data_secret (drop 1 created)
    × Did (provision (environment credentials)) tt (drop 1 created)
    × (files
        ≡ map
            (λ name. (name, file_in (directory_of (environment credentials)) name))
            credential_files)
    × All (λ f. IsFilled f.1 (drop 1 created)) files
unfolding created
new_secret-IsFilled_example =
    new_secret-IsFilled (cluster false (resolved tt)) credentials 0 [] (drop 1 created) dev files
      (resolved tt) created-trace

end-IsTidy_example : IsTidy check (run (cluster false (rejected (text "timeout"))) check 0).1.log
end-IsTidy_example = end-IsTidy (cluster false (rejected (text "timeout"))) check 0

administration_success-IsServed_example :
    IsServed credentials (run (cluster true (resolved tt)) credentials 0).1.log
administration_success-IsServed_example =
    administration_success-IsServed (cluster true (resolved tt)) credentials 0 added-outcome
