-- ===== src/Restore/Requests.antt =====
-- The calls of deploy/data/restore-cluster.mjs and the documents that it reads.
use cartyx_infrastructure.Base.{ℕ, Text, List, Option, Bool}
use cartyx_infrastructure.Script.{Settled, World}

-- The completion marker in the bucket, with the fields that are read.
pub record Completion : Type 0 where
  pub format : ℕ
  pub environment : Text
  pub key : Text
  pub sha256 : Text
  pub id : Text
  pub cassandra_image : Text
  pub janusgraph_image : Text
  pub captured_at : Text

-- The object's length, and what reading and parsing its body gives or throws.
pub record CompletionObject : Type 0 where
  pub content_length : ℕ
  pub body : Settled Completion

-- `manifest.json` inside the archive.
pub record Inner : Type 0 where
  pub id : Text
  pub environment : Text
  pub cassandra_image : Text
  pub janusgraph_image : Text

-- The two images of the chart's `values.yaml`.
pub record Images : Type 0 where
  pub cassandra : Text
  pub janusgraph : Text

pub record Connection : Type 0 where
  pub endpoint : Text
  pub bucket : Text
  pub access_key : Text
  pub secret_key : Text

pub record Outcomes : Type 0 where
  pub verified_at : Text
  pub environment : Text
  pub namespace : Text
  pub volume : Text
  pub manifest_key : Text
  pub sha256 : Text
  pub duration_seconds : ℕ
  pub source_captured_at : Text

pub data Request : Type 0 where
  make_directory : Text → Request
  get_backup_secret : Text → Request
  get_completion : Text → Text → Request
  read_defaults : Request
  read_storage : Text → Request
  download : Text → Text → Text → Request
  hash_file : Text → Request
  member_manifest : Text → Request
  member_config : Text → Request
  member_credential : Text → Text → Request
  read_chart_file : Text → Request
  write_credential : Text → Text → Request
  create_namespace : Text → Request
  create_secret : Text → Text → List Text → Request
  create_claim : Text → Text → Request
  create_loader : Text → Text → Request
  wait_loader : Text → Request
  extract : Text → Text → Request
  delete_loader : Text → Request
  install_chart : Text → Text → Request
  forward_port : Text → Request
  smoke_test : Text → Text → Request
  security_test : Text → Text → Request
  cql_security_test : Text → Text → Request
  get_claim : Text → Request
  write_result : Text → Outcomes → Request

-- Of `get_backup_secret`, the connection that the decoded values make; of `extract`, the exit code of
-- `kubectl exec`; of `get_claim`, the volume's name.
abbrev pub Answer : Request → Type 0
Answer (get_backup_secret namespace) = Connection
Answer (get_completion bucket key) = CompletionObject
Answer read_defaults = Images
Answer (read_storage environment) = Text
Answer (hash_file path) = Text
Answer (member_manifest path) = Inner
Answer (member_config path) = List (Text × Text)
Answer (member_credential path name) = Text
Answer (read_chart_file name) = Text
Answer (extract namespace path) = Option ℕ
Answer (forward_port namespace) = Text
Answer (get_claim namespace) = Text
Answer _ = Unit

-- `process.argv`, `DATA_KUBECONFIG` and the `DATA_BACKUP_*` variables.
pub record Settings : Type 0 where
  pub environment : Option Text
  pub manifest_key : Option Text
  pub kubeconfig : Option Text
  pub endpoint : Option Text
  pub bucket : Option Text
  pub access_key : Option Text
  pub secret_key : Option Text

-- `forward` is defined and was not killed.
pub record Vars : Type 0 where
  pub forwarding : Bool

abbrev pub State : Type 0
State = World Answer Vars
