-- ===== src/Local/Requests.antt =====
-- The calls of deploy/data/backup.mjs and the documents that it reads.
use cartyx_infrastructure.Base.{ℕ, Text, List, Option}
use cartyx_infrastructure.Script.{World}
use cartyx_infrastructure.Local.Places.{Place}

-- The images of the two services in the Compose file.
pub record Configured : Type 0 where
  pub cassandra : Text
  pub janusgraph : Text

-- A bind mount has no name.
pub record Mount : Type 0 where
  pub destination : Text
  pub name : Option Text

-- A container as `docker inspect` prints it: its image's identity, and the image it was asked for.
pub record Container : Type 0 where
  pub image : Text
  pub config_image : Text
  pub mounts : List Mount

-- The manifest beside an archive.
pub record ArchiveManifest : Type 0 where
  pub format : ℕ
  pub id : Text
  pub created_at : Text
  pub environment : Text
  pub cassandra_image : Text
  pub cassandra_image_id : Text
  pub janusgraph_image : Text
  pub janusgraph_image_id : Text
  pub graph_keyspace : Text
  pub state_keyspace : Text
  pub method : Text
  pub file : Text
  pub sha256 : Text
  pub credentials : Text

-- `save_volume volume image` packs a volume with the image's tar, into the stream that `receive`
-- writes to a new file. `extract volume directory image file` unpacks a file of a directory.
pub data Request : Type 0 where
  read_config : Request
  ensure_directory : Place → Request
  create_lock : Place → Request
  remove_lock : Place → Request
  find_container : Text → Request
  inspect : Text → Request
  stop_service : Text → ℕ → Request
  drain : Request
  save_volume : Text → Text → Request
  receive : Place → Request
  hash_file : Place → Request
  write_manifest : Place → ArchiveManifest → Request
  start_services : Request
  read_manifest : Place → Request
  image_id : Text → Request
  create_volume : Text → Request
  extract : Text → Place → Text → Text → Request
  write_override : Place → Text → Request
  start_restored : Place → Request
  smoke_test : Text → Request

-- Of `find_container`, its identity, or nothing; of `save_volume`, tar's exit code, or none for a
-- signal. What cannot be parsed or lacks its first element is a rejection.
abbrev pub Answer : Request → Type 0
Answer read_config = Configured
Answer (find_container service) = Text
Answer (inspect container) = Container
Answer (save_volume volume image) = Option ℕ
Answer (hash_file place) = Text
Answer (read_manifest place) = ArchiveManifest
Answer (image_id image) = Text
Answer _ = Unit

-- `process.argv`, and the directory in which the script runs.
pub record Settings : Type 0 where
  pub action : Option Text
  pub input : Option Text
  pub directory : Place

abbrev pub State : Type 0
State = World Answer (Unit {0})
