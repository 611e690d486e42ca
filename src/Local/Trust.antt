-- ===== src/Local/Trust.antt =====
-- What must be known before each call of deploy/data/backup.mjs.
use cartyx_infrastructure.Base.{ℕ, Text, text, ◌∷◌, true, some, ◌≡◌, ◌⊎◌, inl, inr}
use cartyx_infrastructure.Script.{Log, resolved, called, or_empty}
use cartyx_infrastructure.Script.Discipline.{Did, Keeps}
use cartyx_infrastructure.Upload.Checked.{IsPlain}
use cartyx_infrastructure.Local.Places.{Place, dirname, last_name, resolve, suffixed}
use cartyx_infrastructure.Local.Requests.{
  Configured, Container, ArchiveManifest, Request, Answer, Settings, read_config, ensure_directory,
  create_lock, remove_lock, find_container, inspect, stop_service, drain, save_volume, receive,
  hash_file, write_manifest, start_services, read_manifest, image_id, create_volume, extract,
  write_override, start_restored, smoke_test,
}
use cartyx_infrastructure.Local.Saving.{Source, data_volume}
use cartyx_infrastructure.Local.Restoring.{contains, restore_volume, override_for}
use cartyx_infrastructure.Local.Main.{output_of, lock_of}

-- A container of the service was found, and this is what it is.
abbrev IsFound : Text → Container → Log Answer → Type 0
IsFound service details log =
    (container : Text) × Did (find_container service) container log
    × Did (inspect container) details log

-- The two services run with the images of the Compose file, and the volume is Cassandra's.
abbrev pub IsSource : Configured → Source → Log Answer → Type 0
IsSource c s log =
    Did read_config c log
    × IsFound (text "cassandra") s.details log
    × IsFound (text "janusgraph") s.graph log
    × (data_volume s.details.mounts ≡ some s.volume)
    × (s.details.config_image ≡ c.cassandra)
    × (s.graph.config_image ≡ c.janusgraph)

-- The latest call was that JanusGraph stopped.
abbrev pub GraphStopped : Log Answer → Type 0
GraphStopped log =
    (before : Log Answer) × (log
      ≡ called (stop_service (text "janusgraph") 60) (resolved tt) ∷ before)

-- The latest call was that Cassandra wrote its memory to disk, and the one before that JanusGraph stopped.
abbrev pub Drained : Log Answer → Type 0
Drained log =
    (before : Log Answer) × (log ≡ called drain (resolved tt) ∷ before) × GraphStopped before

-- The latest three calls: JanusGraph stopped, Cassandra drained, Cassandra stopped, in this order.
abbrev pub AllStopped : Log Answer → Type 0
AllStopped log =
    (before : Log Answer) × (log
      ≡ called (stop_service (text "cassandra") 180) (resolved tt) ∷ before)
    × Drained before

-- What a manifest says of the archive beside it.
abbrev pub IsTrue : Configured → Source → Place → ArchiveManifest → Log Answer → Type 0
IsTrue c s destination m log =
    Did (save_volume s.volume c.cassandra) (some 0) log
    × Did (receive destination) tt log
    × Did (hash_file destination) m.sha256 log
    × (m.file ≡ last_name destination)
    × ((m.format ≡ 2) × (m.environment ≡ text "local"))
    × ((m.cassandra_image ≡ c.cassandra) × (m.cassandra_image_id ≡ s.details.image))
    × ((m.janusgraph_image ≡ c.janusgraph) × (m.janusgraph_image_id ≡ s.graph.image))

-- An image is named by its digest, or it is the recorded one.
abbrev pub IsSameImage : Text → Text → Log Answer → Type 0
IsSameImage image recorded log =
    (contains image (text "@sha256:") ≡ true) ⊎ Did (image_id image) recorded log

-- The manifest was read from a place, has the format, the environment and the images of the Compose
-- file, and names a file without a slash.
abbrev pub IsFitting : Configured → ArchiveManifest → Place → Log Answer → Type 0
IsFitting c m place log =
    Did read_config c log
    × Did (read_manifest place) m log
    × ((m.format ≡ 2) × (m.environment ≡ text "local"))
    × ((m.cassandra_image ≡ c.cassandra) × IsSameImage c.cassandra m.cassandra_image_id log)
    × ((m.janusgraph_image ≡ c.janusgraph) × IsSameImage c.janusgraph m.janusgraph_image_id log)
    × IsPlain m.file

-- So it is, and the archive beside it has its hash.
abbrev pub IsVerified : Configured → ArchiveManifest → Place → Log Answer → Type 0
IsVerified c m place log =
    IsFitting c m place log × Did (hash_file (resolve (dirname place) m.file)) m.sha256 log

-- The volume was created, and a verified archive was unpacked into it.
abbrev pub IsLoaded : Place → Text → Log Answer → Type 0
IsLoaded place volume log =
    (c : Configured) × (m : ArchiveManifest) × IsVerified c m place log
    × Did (create_volume volume) tt log
    × Did
        (extract volume (dirname (resolve (dirname place) m.file)) c.cassandra
          (last_name (resolve (dirname place) m.file)))
        tt log

module _ (settings : Settings) where
  abbrev pub output : Place
  output = output_of settings.directory

  abbrev pub given_place : Place
  given_place = resolve settings.directory (or_empty settings.input)

  -- When each call is allowed that is made under the lock.
  abbrev pub Allowed : Request → Log Answer → Type 0
  Allowed (remove_lock place) log = ⊥
  Allowed (stop_service service seconds) log =
      ((c : Configured) × (s : Source) × IsSource c s log)
      × ((service ≡ text "janusgraph") ⊎ ((service ≡ text "cassandra") × Drained log))
  Allowed drain log = GraphStopped log
  Allowed (save_volume volume image) log =
      (c : Configured) × (s : Source) × IsSource c s log
      × AllStopped log
      × ((volume ≡ s.volume) × (image ≡ c.cassandra))
  Allowed (write_manifest place m) log =
      (c : Configured) × (s : Source) × (name : Text) × IsSource c s log
      × IsTrue c s (name ∷ output) m log
      × (place ≡ suffixed (name ∷ output) (text ".json"))
  Allowed (create_volume volume) log =
      ((now : ℕ) × (volume ≡ restore_volume now))
      × ((c : Configured) × (m : ArchiveManifest) × IsVerified c m given_place log)
  Allowed (extract volume directory image file) log =
      Did (create_volume volume) tt log
      × ((c : Configured) × (m : ArchiveManifest) × IsVerified c m given_place log
          × (image ≡ c.cassandra)
          × (directory ≡ dirname (resolve (dirname given_place) m.file))
          × (file ≡ last_name (resolve (dirname given_place) m.file)))
  Allowed (write_override place content) log =
      (volume : Text) × (content ≡ override_for volume) × IsLoaded given_place volume log
  Allowed (start_restored place) log =
      (volume : Text) × Did (write_override place (override_for volume)) tt log
      × IsLoaded given_place volume log
  Allowed (smoke_test url) log = (place : Place) × Did (start_restored place) tt log
  Allowed _ log = Unit

  -- This, and the lock was created. The calls that come before the lock need nothing.
  abbrev pub Held : Request → Log Answer → Type 0
  Held (read_config) log = Unit
  Held (ensure_directory place) log = Unit
  Held (create_lock place) log = Unit
  Held q log = Did (create_lock (lock_of output)) tt log × Allowed q log

-- The removal of the lock, which ends a run.
abbrev pub IsRemoval : Request → Type 0
IsRemoval (remove_lock place) = Unit
IsRemoval _ = ⊥

-- Each call of a whole run.
abbrev pub Ruled : Settings → Request → Log Answer → Type 0
Ruled settings q log = Held settings q log ⊎ IsRemoval q

-- The calls that are made before there is a lock.
abbrev pub IsOpening : Request → Type 0
IsOpening (read_config) = Unit
IsOpening (ensure_directory place) = Unit
IsOpening (create_lock place) = Unit
IsOpening _ = ⊥

-- The live services are not touched.
abbrev pub SparesServices : Request → Type 0
SparesServices (stop_service service seconds) = ⊥
SparesServices drain = ⊥
SparesServices (save_volume volume image) = ⊥
SparesServices start_services = ⊥
SparesServices _ = Unit

-- The calls before the services are stopped, and those of a rehearsal.
abbrev pub Calm : Settings → Request → Log Answer → Type 0
Calm settings q log = Held settings q log × SparesServices q

IsFound-kept :
    {service : Text} {details : Container} {log log' : Log Answer}
    → Keeps log log'
    → IsFound service details log
    → IsFound service details log'
IsFound-kept k (container, found, inspected) = (container, k _ _ found, k _ _ inspected)

pub IsSource-kept :
    {c : Configured} {s : Source} {log log' : Log Answer}
    → Keeps log log'
    → IsSource c s log
    → IsSource c s log'
IsSource-kept k (config, details, graph, volume, same, same_graph) =
    (k _ _ config, IsFound-kept k details, IsFound-kept k graph, volume, same, same_graph)

pub IsSameImage-kept :
    {image recorded : Text} {log log' : Log Answer}
    → Keeps log log'
    → IsSameImage image recorded log
    → IsSameImage image recorded log'
IsSameImage-kept k (inl by_digest) = inl by_digest
IsSameImage-kept k (inr same) = inr (k _ _ same)

pub IsFitting-kept :
    {c : Configured} {m : ArchiveManifest} {place : Place} {log log' : Log Answer}
    → Keeps log log'
    → IsFitting c m place log
    → IsFitting c m place log'
IsFitting-kept k (config, read, local, (same, id), (same_graph, graph_id), plain) = (
  k _ _ config,
  k _ _ read,
  local,
  (same, IsSameImage-kept k id),
  (same_graph, IsSameImage-kept k graph_id),
  plain,
)

pub IsVerified-kept :
    {c : Configured} {m : ArchiveManifest} {place : Place} {log log' : Log Answer}
    → Keeps log log'
    → IsVerified c m place log
    → IsVerified c m place log'
IsVerified-kept k (fitting, hashed) = (IsFitting-kept k fitting, k _ _ hashed)

pub IsLoaded-kept :
    {place : Place} {volume : Text} {log log' : Log Answer}
    → Keeps log log'
    → IsLoaded place volume log
    → IsLoaded place volume log'
IsLoaded-kept k (c, m, verified, created, extracted) =
    (c, m, IsVerified-kept k verified, k _ _ created, k _ _ extracted)
