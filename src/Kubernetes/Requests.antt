-- ===== src/Kubernetes/Requests.antt =====
-- The calls of deploy/data/kubernetes.mjs and the documents that it reads.
use cartyx_infrastructure.Base.{
  Text, List, [], ◌∷◌, Bool, Option, none, some, text_eq, if◌then◌else◌,
}
use cartyx_infrastructure.Script.{World}

-- The data of a Secret. A Secret without data has none.
abbrev pub Data : Type 0
Data = List (Text × Text)

-- `data?.[key]`
unfoldable pub entry : Data → Text → Option Text
entry [] key = none
entry ((k, v) ∷ contents) key =
    let rest = entry contents key in if text_eq k key then some v else rest

-- The Secret `cartyx-data`, with the values that its Base64 stands for.
pub record AppSecret : Type 0 where
  pub resource_version : Text
  pub contents : Data

pub record JobContainer : Type 0 where
  pub image : Text
  pub command : List Text

abbrev pub Pod : Type 0
Pod = List JobContainer

-- A Job, with the containers of its template.
pub record Job : Type 0 where
  pub name : Text
  pub pod : Pod

-- `get_name` prints the name of a Secret, or nothing if there is none. `read_source` reads the data
-- of a Secret of a namespace. `provision` runs deploy/data/secrets.mjs.
-- `write_patch` writes a patch that tests the resource version and adds the application's key.
pub data Request : Type 0 where
  get_namespace : Text → Request
  get_name : Text → Text → Request
  read_source : Text → Text → Request
  create_secret : Text → Text → Data → Request
  list_jobs : Text → Request
  create_job : Text → Text → Pod → Request
  wait_job : Text → Text → Request
  read_logs : Text → Text → Request
  delete_job : Text → Text → Request
  read_secret : Text → Request
  exists : Text → Request
  provision : Text → Request
  read_file : Text → Request
  make_scratch : Request
  write_patch : Text → Text → Text → Request
  patch_secret : Text → Text → Request
  remove_scratch : Text → Request
  create_from_files : Text → List (Text × Text) → Request

abbrev pub Answer : Request → Type 0
Answer (get_name namespace name) = Text
Answer (read_source namespace name) = Data
Answer (list_jobs namespace) = List Job
Answer (read_logs namespace name) = Text
Answer (read_secret namespace) = AppSecret
Answer (exists path) = Bool
Answer (read_file path) = Text
Answer (make_scratch) = Text
Answer _ = Unit

-- `process.argv`, `DATA_KUBECONFIG` and `DATA_NAMESPACE`.
pub record Settings : Type 0 where
  pub action : Option Text
  pub environment : Option Text
  pub kubeconfig : Option Text
  pub namespace : Option Text

abbrev pub State : Type 0
State = World Answer (Unit {0})
