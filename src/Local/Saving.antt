-- ===== src/Local/Saving.antt =====
-- `local-backup` of deploy/data/backup.mjs.
use cartyx_infrastructure.Base.{
  ℕ, Text, text, List, [], ◌∷◌, ◌++◌, not, Option, none, some, ◌==◌, text_eq, decimal,
  if◌then◌else◌,
}
use cartyx_infrastructure.Script.{
  Env, Script, call, pure, fail, gets, attempt, settled, throw_if, try_finally, given, or_empty,
  ◌>>=◌, ◌>>◌,
}
use cartyx_infrastructure.Cluster.Clock.{to_iso_string, file_stamp}
use cartyx_infrastructure.Local.Places.{Place, last_name, suffixed}
use cartyx_infrastructure.Local.Requests.{
  Configured, Mount, Container, ArchiveManifest, Answer, State, find_container, inspect,
  stop_service, drain, save_volume, receive, hash_file, write_manifest, start_services,
}

-- `details.Mounts.find(m => m.Destination === '/var/lib/cassandra')?.Name`
unfoldable pub data_volume : List Mount → Option Text
data_volume [] = none
data_volume (m ∷ mounts) =
    let rest = data_volume mounts in
    if text_eq m.destination (text "/var/lib/cassandra") then m.name else rest

-- `code === 0 ? res() : rej(...)`
unfoldable pub check_tar : Option ℕ → Script State (Unit {0})
check_tar none = fail (text "Backup tar exited null")
check_tar (some n) = if n == 0 then pure tt else fail (text "Backup tar exited " ++ decimal n)

-- `id`
unfoldable pub archive_id : ℕ → Text
archive_id now = text "local-" ++ file_stamp now

-- `destination`
unfoldable pub destination_of : Place → Text → Place
destination_of output id = (id ++ text ".tar.gz") ∷ output

-- `manifest`
unfoldable pub manifest_of :
    Configured → Container → Container → Text → Place → Text → Text → ArchiveManifest
manifest_of configured details graph id destination created sum = record {
  format = 2;
  id = id;
  created_at = created;
  environment = text "local";
  cassandra_image = configured.cassandra;
  cassandra_image_id = details.image;
  janusgraph_image = configured.janusgraph;
  janusgraph_image_id = graph.image;
  graph_keyspace = text "cartyx_graph";
  state_keyspace = text "cartyx_state";
  method = text "drained-and-stopped-full-data-directory";
  file = last_name destination;
  sha256 = sum;
  credentials = text "separate recovery copy of .local/data/local is required";
}

-- What is to be saved: the volume, and the two containers.
pub record Source : Type 0 where
  pub volume : Text
  pub details : Container
  pub graph : Container

module _ (env : Env Answer) where
  -- The checks before the services are stopped.
  unfoldable pub find_source : Configured → Script State Source
  unfolding data_volume
  find_source configured = do
    container ← call env (find_container (text "cassandra"))
    throw_if (text_eq container []) (text "Local Cassandra must be running for a drained backup")
    details ← call env (inspect container)
    throw_if (not (given (data_volume details.mounts)))
        (text "Cassandra data must use a named volume")
    throw_if (not (text_eq details.config_image configured.cassandra))
        (text "Unexpected Cassandra image; update/rehearse backup compatibility first")
    graph_container ← call env (find_container (text "janusgraph"))
    graph ← call env (inspect graph_container)
    throw_if (not (text_eq graph.config_image configured.janusgraph))
        (text "Unexpected JanusGraph image")
    pure (record {
      volume = or_empty (data_volume details.mounts);
      details = details;
      graph = graph;
    })

  -- `completed`
  unfoldable pub run_tar : Text → Text → Script State (Unit {0})
  unfolding check_tar
  run_tar volume image = do code ← call env (save_volume volume image); check_tar code

  -- The body of the inner `try`.
  unfoldable pub save : Configured → Source → Text → Place → Script State (Unit {0})
  unfolding run_tar manifest_of
  save configured source id destination = do
    call env (stop_service (text "janusgraph") 60)
    call env drain
    call env (stop_service (text "cassandra") 180)
    completed ← attempt (run_tar source.volume configured.cassandra)
    received ← attempt (call env (receive destination))
    settled received
    settled completed
    now ← gets (λ w. w.time)
    sum ← call env (hash_file destination)
    call env (
        write_manifest (suffixed destination (text ".json")) (
          manifest_of configured source.details source.graph id destination (to_iso_string now)
            sum))

  -- `local-backup`
  unfoldable pub back_up_locally : Configured → Place → Script State (Unit {0})
  unfolding find_source save archive_id destination_of
  back_up_locally configured output = do
    now ← gets (λ w. w.time)
    let id = archive_id now
    source ← find_source configured
    try_finally (save configured source id (destination_of output id)) (call env start_services)
