-- ===== src/Kubernetes/Sample.antt =====
-- A cluster with the Secrets and the Jobs that deploy/data/kubernetes.mjs meets, for the tests.
use cartyx_infrastructure.Base.{
  Text, text, [], ◌∷◌, Bool, true, false, Option, none, some, if◌then◌else◌,
}
use cartyx_infrastructure.Script.{Env, Settled, resolved}
use cartyx_infrastructure.Kubernetes.Requests.{
  Data, AppSecret, Job, Request, Answer, Settings, get_namespace, get_name, read_source,
  create_secret, list_jobs, create_job, wait_job, read_logs, delete_job, read_secret, exists,
  provision, read_file, make_scratch, write_patch, patch_secret, remove_scratch, create_from_files,
}

unfoldable pub key : Text
unfolding text
key = text "0123456789abcdef0123456789abcdef\n"

unfoldable pub source : Data
unfolding text
source =
    (text "AWS_SECRET_ACCESS_KEY", text "s")
    ∷ (text "R2_ACCOUNT_ID", text "a")
    ∷ (text "R2_BUCKET", text "b")
    ∷ (text "AWS_ACCESS_KEY_ID", text "k")
    ∷ []

unfoldable pub bootstrap : Job
unfolding text
bootstrap = record {
  name = text "cartyx-data-bootstrap-1";
  pod = record { image = text "c"; command = [] } ∷ [];
}

unfoldable pub secret : AppSecret
unfolding text
secret = record { resource_version = text "7"; contents = (text "gremlin-password", text "p") ∷ [] }

-- A cluster whose Secrets are present or not, and on which the wait for a Job ends so.
unfoldable pub answer : Bool → Settled (Unit {0}) → (q : Request) → Settled (Answer q)
unfolding text key source bootstrap secret
answer present end (get_name namespace name) =
    resolved (if present then text "secret/s\n" else text "")
answer present end (read_source namespace name) = resolved source
answer present end (list_jobs namespace) = resolved (bootstrap ∷ [])
answer present end (wait_job namespace name) = end
answer present end (read_logs namespace name) = resolved (text "ok")
answer present end (read_secret namespace) = resolved secret
answer present end (exists path) = resolved true
answer present end (read_file path) = resolved key
answer present end (make_scratch) = resolved (text "t")
answer present end (get_namespace namespace) = resolved tt
answer present end (create_secret namespace name contents) = resolved tt
answer present end (create_job namespace name pod) = resolved tt
answer present end (delete_job namespace name) = resolved tt
answer present end (provision e) = resolved tt
answer present end (write_patch path version value) = resolved tt
answer present end (patch_secret namespace path) = resolved tt
answer present end (remove_scratch path) = resolved tt
answer present end (create_from_files namespace files) = resolved tt

abbrev pub cluster : Bool → Settled (Unit {0}) → Env Answer
cluster present end = record {
  answer = λ q log. record { result = answer present end q; elapsed = 1; signalled = false };
  oversleep = λ log. record { result = resolved tt; elapsed = 0; signalled = false };
}

unfoldable pub asked : Text → Option Text → Settings
unfolding text
asked action namespace = record {
  action = some action;
  environment = some (text "dev");
  kubeconfig = some (text "c");
  namespace = namespace;
}

unfoldable pub backup : Settings
unfolding text asked
backup = asked (text "provision-backup-secret") none

unfoldable pub check : Settings
unfolding text asked
check = asked (text "cql-security") (some (text "cartyx-restore-dev-12"))

unfoldable pub credentials : Settings
unfolding text asked
credentials = asked (text "provision-secret") none
