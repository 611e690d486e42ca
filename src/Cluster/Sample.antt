-- ===== src/Cluster/Sample.antt =====
-- A cluster, a bucket and a container in which every call succeeds, for the tests.
use cartyx_infrastructure.Base.{text, [], ◌∷◌, false, none, some}
use cartyx_infrastructure.Script.{Settled, resolved}
use cartyx_infrastructure.Cluster.Documents.{Lease, Release, Workload, StoredObject}
use cartyx_infrastructure.Cluster.Request.{
  Request, Answer, Environment, get_lease, get_helm, get_flux, get_graph, get_cassandra, get_config,
  get_pods, get_pods_named, patch_lease, patch_status, suspend_helm, suspend_flux, scale,
  list_objects, delete_object, upload_archive, read_back, put_manifest, read_file, make_directory,
  read_directory, copy_file, write_config, write_manifest, archive, hash_file, file_size,
}

abbrev pub free_lease : Lease
free_lease = record {
  holder = none;
  resource_version = text "7";
  original = resolved (record { graph = 1; cassandra = 1; helm = false; flux = false });
}

abbrev pub ready_release : Release
unfolding text
ready_release = record {
  suspend = false;
  conditions = record { kind = text "Ready"; status = text "True" } ∷ [];
  last_applied_revision = some (text "1.2.0");
  history = [];
}

abbrev pub database : Workload
database = record { replicas = 1; ready = some 1; image = text "image"; variables = [] }

abbrev pub stale : StoredObject
unfolding text
stale = record { key = text "cartyx-data/dev/cluster/a.tar.gz.json"; last_modified = 0 }

abbrev pub answer : (q : Request) → Settled (Answer q)
answer get_lease = resolved free_lease
answer get_helm = resolved ready_release
answer get_flux = resolved ready_release
answer get_graph = resolved database
answer get_cassandra = resolved database
answer get_config = resolved []
answer (get_pods c) = resolved []
answer (get_pods_named name) = resolved []
answer (patch_lease p) = resolved tt
answer (patch_status p) = resolved tt
answer (suspend_helm b) = resolved tt
answer (suspend_flux b) = resolved tt
answer (scale c n) = resolved tt
answer (list_objects prefix token) =
    resolved (record { contents = stale ∷ []; is_truncated = false; next_token = none })
answer (delete_object key) = resolved tt
answer (upload_archive path key) = resolved tt
answer (read_back key) = resolved (text "5a")
answer (put_manifest key m) = resolved tt
answer (read_file path) = resolved []
answer (make_directory path) = resolved tt
answer (read_directory path) = resolved (text "username" ∷ [])
answer (copy_file from to) = resolved tt
answer (write_config path config) = resolved tt
answer (write_manifest path m) = resolved tt
answer (archive path) = resolved (some 0)
answer (hash_file path) = resolved (text "5a")
answer (file_size path) = resolved 10

abbrev pub healthy : Environment
healthy = record {
  answer = λ q log. record { result = answer q; elapsed = 1; signalled = false };
  oversleep = λ log. record { result = resolved tt; elapsed = 0; signalled = false };
}
