-- ===== src/Restore/Trust.antt =====
-- What must be known before deploy/data/restore-cluster.mjs changes anything in the cluster.
use cartyx_infrastructure.Base.{
  ℕ, Text, List, All, true, Option, none, some, ◌≡◌, ◌≤◌, drop_last, [], ◌∷◌,
}
use cartyx_infrastructure.Script.{Log, resolved, or_empty}
use cartyx_infrastructure.Script.Discipline.{Did, Keeps}
use cartyx_infrastructure.Restore.Requests.{
  Completion, Inner, Images, Request, Answer, Settings, get_completion, read_defaults, hash_file,
  member_manifest, member_config, read_chart_file, create_namespace, create_secret, create_claim,
  create_loader, wait_loader, extract, delete_loader, install_chart, smoke_test, security_test,
  cql_security_test, write_result,
}
use cartyx_infrastructure.Restore.Checks.{is_digest, is_file_name}
use cartyx_infrastructure.Restore.Main.{scratch_namespace, archive_of, credentials_of}

-- The namespace in which a call creates, changes or runs something.
abbrev pub target : Request → Option Text
target (create_namespace n) = some n
target (create_secret n c names) = some n
target (create_claim n storage) = some n
target (create_loader n image) = some n
target (extract n path) = some n
target (delete_loader n) = some n
target (install_chart n e) = some n
target _ = none

-- A file of the configuration is the chart's.
abbrev pub IsSameFile : Text × Text → Log Answer → Type 0
IsSameFile e log = (is_file_name e.0 ≡ true) × Did (read_chart_file e.0) e.1 log

module _ (environment key archive : Text) where
  -- The marker names the environment and its own key, and was read whole from the bucket.
  abbrev pub IsMarker : Completion → Log Answer → Type 0
  IsMarker m log =
      (m.format ≡ 2)
      × (m.environment ≡ environment)
      × (m.key ≡ drop_last 5 key)
      × (is_digest m.sha256 ≡ true)
      × ((bucket : Text) × (size : ℕ) × Did (get_completion bucket key)
            (record { content_length = size; body = resolved m }) log
          × (size ≤ 1048576))

  -- The chart in use has the images of the marker.
  abbrev pub IsMatched : Completion → Log Answer → Type 0
  IsMatched m log =
      (images : Images) × Did read_defaults images log
      × (m.cassandra_image ≡ images.cassandra)
      × (m.janusgraph_image ≡ images.janusgraph)

  -- The archive has the hash of the marker.
  abbrev pub IsWhole : Completion → Log Answer → Type 0
  IsWhole m log = Did (hash_file archive) m.sha256 log

  -- The archive is the marker's, and each file of its configuration is the chart's.
  abbrev pub IsOwn : Completion → Log Answer → Type 0
  IsOwn m log =
      ((inner : Inner) × Did (member_manifest archive) inner log
        × (inner.id ≡ m.id)
        × (inner.environment ≡ environment)
        × (inner.cassandra_image ≡ m.cassandra_image)
        × (inner.janusgraph_image ≡ m.janusgraph_image))
      × ((config : List (Text × Text)) × Did (member_config archive) config log
          × All (λ e. IsSameFile e log) config)

  abbrev pub IsTrusted : Completion → Log Answer → Type 0
  IsTrusted m log = IsMarker m log × IsMatched m log × IsWhole m log × IsOwn m log

module _ (settings : Settings) (now : ℕ) where
  abbrev pub scratch : Text
  scratch = scratch_namespace (or_empty settings.environment) now

  -- The call is in the run's own namespace, and some marker and archive are trusted.
  abbrev pub IsCleared : Text → Log Answer → Type 0
  IsCleared n log =
      (n ≡ scratch)
      × ((m : Completion) × IsTrusted (or_empty settings.environment)
            (or_empty settings.manifest_key) (archive_of scratch) m log)

  -- The archive was unpacked into the new volume.
  abbrev pub IsLoaded : Log Answer → Type 0
  IsLoaded log =
      Did (create_namespace scratch) tt log
      × Did (wait_loader scratch) tt log
      × Did (extract scratch (archive_of scratch)) (some 0) log

  -- The services run on it, and all tests passed.
  abbrev pub IsTested : Log Answer → Type 0
  IsTested log =
      IsLoaded log
      × Did (install_chart scratch (or_empty settings.environment)) tt log
      × ((port : Text) × Did (smoke_test (credentials_of scratch) port) tt log
          × Did (security_test (credentials_of scratch) port) tt log)
      × Did (cql_security_test (or_empty settings.environment) scratch) tt log

  -- When each call is allowed.
  abbrev pub Allowed : Request → Log Answer → Type 0
  Allowed (create_namespace n) log = IsCleared n log
  Allowed (create_secret n c names) log = IsCleared n log × Did (create_namespace scratch) tt log
  Allowed (create_claim n storage) log = IsCleared n log × Did (create_namespace scratch) tt log
  Allowed (create_loader n image) log = IsCleared n log × Did (create_namespace scratch) tt log
  Allowed (extract n path) log =
      IsCleared n log × Did (create_namespace scratch) tt log × Did (wait_loader scratch) tt log
  Allowed (delete_loader n) log = IsCleared n log × IsLoaded log
  Allowed (install_chart n e) log = IsCleared n log × IsLoaded log
  Allowed (write_result path o) log =
      IsCleared o.namespace log
      × IsTested log
      × ((m : Completion) × IsTrusted (or_empty settings.environment)
            (or_empty settings.manifest_key) (archive_of scratch) m log
          × (o.sha256 ≡ m.sha256))
  Allowed _ log = Unit

All-kept :
    {log log' : Log Answer} (c : List (Text × Text))
    → Keeps log log'
    → All (λ x. IsSameFile x log) c
    → All (λ x. IsSameFile x log') c
All-kept [] k t = t
All-kept (x ∷ c) k ((n, d), t) = ((n, k _ _ d), All-kept c k t)

module _ (e key archive : Text) (m : Completion) {log log' : Log Answer} (k : Keeps log log') where
  pub IsMarker-kept : IsMarker e key archive m log → IsMarker e key archive m log'
  IsMarker-kept (f, n, own, digest, (bucket, size, d, small)) =
      (f, n, own, digest, (bucket, size, k _ _ d, small))

  pub IsMatched-kept : IsMatched e key archive m log → IsMatched e key archive m log'
  IsMatched-kept (images, d, c, j) = (images, k _ _ d, c, j)

  IsOwn-kept : IsOwn e key archive m log → IsOwn e key archive m log'
  IsOwn-kept ((inner, d, a, b, c, j), (config, d', files)) =
      ((inner, k _ _ d, a, b, c, j), (config, k _ _ d', All-kept config k files))

  pub IsTrusted-kept : IsTrusted e key archive m log → IsTrusted e key archive m log'
  IsTrusted-kept (marker, matched, whole, own) =
      (IsMarker-kept marker, IsMatched-kept matched, k _ _ whole, IsOwn-kept own)
