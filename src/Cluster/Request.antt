-- ===== src/Cluster/Request.antt =====
-- The calls that the cluster backup makes: to the Kubernetes API, to the object store, and to the
-- container's files and programs.
use cartyx_infrastructure.Base.{ℕ, Text, List, Option, Bool}
use cartyx_infrastructure.Script.{Log, Env}
use cartyx_infrastructure.Cluster.Documents.{
  Lease, LeasePatch, StatusPatch, Release, Workload, Pod, Component, Manifest, Page, ConfigData,
}

pub data Request : Type 0 where
  get_lease get_helm get_flux get_graph get_cassandra get_config : Request
  get_pods : Component → Request
  get_pods_named : Text → Request
  patch_lease : LeasePatch → Request
  patch_status : StatusPatch → Request
  suspend_helm suspend_flux : Bool → Request
  scale : Component → ℕ → Request
  list_objects : Text → Option Text → Request
  delete_object : Text → Request
  upload_archive : Text → Text → Request
  read_back : Text → Request
  put_manifest : Text → Manifest → Request
  read_file : Text → Request
  make_directory : Text → Request
  read_directory : Text → Request
  copy_file : Text → Text → Request
  write_config : Text → ConfigData → Request
  write_manifest : Text → Manifest → Request
  archive : Text → Request
  hash_file : Text → Request
  file_size : Text → Request

-- What each call resolves to. Of `read_back` it is the SHA-256 of the body, of `archive` the exit
-- code of `tar`, with `none` for a signal. No value of a patch or a write is used.
abbrev pub Answer : Request → Type 0
Answer get_lease = Lease
Answer get_helm = Release
Answer get_flux = Release
Answer get_graph = Workload
Answer get_cassandra = Workload
Answer get_config = ConfigData
Answer (get_pods c) = List Pod
Answer (get_pods_named name) = List Pod
Answer (list_objects prefix token) = Page
Answer (read_back key) = Text
Answer (read_file path) = Text
Answer (read_directory path) = List Text
Answer (archive path) = Option ℕ
Answer (hash_file path) = Text
Answer (file_size path) = ℕ
Answer _ = Unit

abbrev pub History : Type 0
History = Log Answer

abbrev pub Environment : Type 0
Environment = Env Answer
