-- ===== src/Kubernetes/Ends.antt =====
-- What a run of deploy/data/kubernetes.mjs has done that does not fail.
use cartyx_infrastructure.Base.{Text, text, [], true, false, ◌≡◌, ◌⊎◌, text_eq}
use cartyx_infrastructure.Script.{Log, given, or_empty}
use cartyx_infrastructure.Script.Discipline.{Did}
use cartyx_infrastructure.Kubernetes.Requests.{
  Data, entry, AppSecret, Pod, Answer, Settings, get_name, create_secret, create_job, wait_job,
  delete_job, read_secret, patch_secret, create_from_files,
}
use cartyx_infrastructure.Kubernetes.Secrets.{backup_secret, app_key, trim}
use cartyx_infrastructure.Kubernetes.Trust.{here}

module _ (settings : Settings) where
  -- The Job was created, has completed, and was deleted.
  abbrev pub IsChecked : Log Answer → Type 0
  IsChecked log =
      (name : Text) × (pod : Pod) × Did (create_job (here settings) name pod) tt log
      × Did (wait_job (here settings) name) tt log
      × Did (delete_job (here settings) name) tt log

  -- There was a Secret with the credentials, or it was created.
  abbrev pub IsBackedUp : Log Answer → Type 0
  IsBackedUp log =
      ((printed : Text) × Did (get_name (here settings) backup_secret) printed log
        × (text_eq (trim printed) [] ≡ false))
      ⊎ ((contents : Data) × Did (create_secret (here settings) backup_secret contents) tt log)

  -- The Secret had the application's key, or got it, or was created of the files.
  abbrev pub IsProvided : Log Answer → Type 0
  IsProvided log =
      ((secret : AppSecret) × Did (read_secret (here settings)) secret log
        × (given (entry secret.contents app_key) ≡ true))
      ⊎ ((path : Text) × Did (patch_secret (here settings) path) tt log)
      ⊎ ((files : Data) × Did (create_from_files (here settings) files) tt log)

  -- What was asked for is done.
  abbrev pub IsServed : Log Answer → Type 0
  IsServed log =
      ((or_empty settings.action ≡ text "provision-backup-secret") × IsBackedUp log)
      ⊎ ((or_empty settings.action ≡ text "cql-security") × IsChecked log)
      ⊎ ((or_empty settings.action ≡ text "provision-secret") × IsProvided log)
