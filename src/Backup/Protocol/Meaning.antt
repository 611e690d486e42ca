-- ===== src/Backup/Protocol/Meaning.antt =====
-- What a history of calls says of the cluster and of the archive, without the protocol, and what each
-- stage of the protocol means in these terms.
use cartyx_infrastructure.Base.{ℕ, Text, List, [], ◌∷◌, Bool, true, false, ◌≡◌, ◌⊎◌}
use cartyx_infrastructure.Script.{Settled, resolved, rejected, called, slept}
use cartyx_infrastructure.Cluster.Documents.{acquire, release, Pod, janusgraph, cassandra}
use cartyx_infrastructure.Cluster.Request.{
  Request, Answer, History, get_pods, patch_lease, suspend_helm, suspend_flux, scale,
  upload_archive, read_back, put_manifest, hash_file,
}
use cartyx_infrastructure.Backup.Archive.{archive_path}
use cartyx_infrastructure.Backup.Protocol.{
  Stage, idle, locked, flux_paused, paused, graph_stopped, graph_gone, stopped, quiet, archived,
  unsure, cassandra_up, both_up, cassandra_ready, all_ready, helm_on, back, hashed, uploaded,
  verified, published, dangling, released,
}

-- The last word on a setting: it was never asked for, its last request was not acknowledged, or
-- its last request was.
pub data Word (A : Type 0) : Type 0 where
  never doubtful : Word A
  said : A → Word A

-- The hash is that of a file, the upload is of a file under a key, and what was read back is told with
-- its key.
pub record Words : Type 0 where
  pub flux : Word Bool
  pub helm : Word Bool
  pub graph : Word ℕ
  pub cassandra : Word ℕ
  pub graph_pods : Word (List Pod)
  pub cassandra_pods : Word (List Pod)
  pub hash : Word (Text × Text)
  pub sent : Word (Text × Text)
  pub stored : Word (Text × Text)
  pub marker : Word Text
  pub lease : Word Bool

abbrev acknowledged : {A B : Type 0} → B → Settled A → Word B
acknowledged b (resolved a) = said b
acknowledged b (rejected e) = doubtful

abbrev heard : {A : Type 0} → Settled A → Word A
heard (resolved a) = said a
heard (rejected e) = doubtful

abbrev heard_of : Text → Settled Text → Word (Text × Text)
heard_of name (resolved a) = said (name, a)
heard_of name (rejected e) = doubtful

abbrev pub silence : Words
silence = record {
  flux = never;
  helm = never;
  graph = never;
  cassandra = never;
  graph_pods = never;
  cassandra_pods = never;
  hash = never;
  sent = never;
  stored = never;
  marker = never;
  lease = never;
}

unfoldable pub hear : (q : Request) → Settled (Answer q) → Words → Words
hear (suspend_flux b) r t = record t { flux = acknowledged b r }
hear (suspend_helm b) r t = record t { helm = acknowledged b r }
hear (scale janusgraph n) r t = record t { graph = acknowledged n r }
hear (scale cassandra n) r t = record t { cassandra = acknowledged n r }
hear (get_pods janusgraph) r t = record t { graph_pods = heard r }
hear (get_pods cassandra) r t = record t { cassandra_pods = heard r }
hear (hash_file path) r t = record t { hash = heard_of path r }
hear (upload_archive path key) r t = record t { sent = acknowledged (path, key) r }
hear (read_back key) r t = record t { stored = heard_of key r }
hear (put_manifest key manifest) r t = record t { marker = acknowledged key r }
hear (patch_lease (acquire version original owner since seconds)) r t = record t {
  lease = acknowledged true r;
}
hear (patch_lease (release version)) r t = record t { lease = acknowledged false r }
hear _ r t = t

-- The last words of a history.
unfoldable pub words : History → Words
unfolding hear
words [] = silence
words (called q r ∷ log) = hear q r (words log)
words (slept ms ∷ log) = words log

-- Both reconcilers are off, both databases are scaled to nothing, and their pods were seen gone.
abbrev pub IsQuiet : Words → Type 0
IsQuiet t =
    (t.flux ≡ said true)
    × (t.helm ≡ said true)
    × (t.graph ≡ said 0)
    × (t.graph_pods ≡ said [])
    × (t.cassandra ≡ said 0)
    × (t.cassandra_pods ≡ said [])

-- Nothing was touched.
abbrev pub IsUntouched : Words → Type 0
IsUntouched t = (t.flux ≡ never) × (t.helm ≡ never) × (t.graph ≡ never) × (t.cassandra ≡ never)

-- Everything is back.
abbrev pub IsRestored : Words → Type 0
IsRestored t =
    (t.flux ≡ said false) × (t.helm ≡ said false) × (t.graph ≡ said 1) × (t.cassandra ≡ said 1)

-- The archive has this hash and was uploaded under this key, and what was read back from there has the
-- hash.
abbrev pub IsVerified : Text → Text → Words → Type 0
IsVerified key sum t =
    (t.hash ≡ said (archive_path, sum))
    × (t.sent ≡ said (archive_path, key))
    × (t.stored ≡ said (key, sum))

-- A completion marker was published.
abbrev pub HasMarker : Words → Type 0
HasMarker t = (key : Text) × (t.marker ≡ said key)

abbrev pub Means : Stage → Words → Type 0
Means idle t = IsUntouched t
Means locked t = IsUntouched t
Means flux_paused t = t.flux ≡ said true
Means paused t = (t.flux ≡ said true) × (t.helm ≡ said true)
Means graph_stopped t = (t.flux ≡ said true) × (t.helm ≡ said true) × (t.graph ≡ said 0)
Means graph_gone t =
    (t.flux ≡ said true) × (t.helm ≡ said true) × (t.graph ≡ said 0) × (t.graph_pods ≡ said [])
Means stopped t =
    (t.flux ≡ said true)
    × (t.helm ≡ said true)
    × (t.graph ≡ said 0)
    × (t.graph_pods ≡ said [])
    × (t.cassandra ≡ said 0)
Means quiet t = IsQuiet t
Means archived t = IsQuiet t
Means unsure t = Unit
Means (cassandra_up a) t = t.cassandra ≡ said 1
Means (both_up a) t = (t.cassandra ≡ said 1) × (t.graph ≡ said 1)
Means (cassandra_ready a) t = (t.cassandra ≡ said 1) × (t.graph ≡ said 1)
Means (all_ready a) t = (t.cassandra ≡ said 1) × (t.graph ≡ said 1)
Means (helm_on a) t = (t.cassandra ≡ said 1) × (t.graph ≡ said 1) × (t.helm ≡ said false)
Means (back a) t = IsRestored t
Means (hashed sum) t = IsRestored t × (t.hash ≡ said (archive_path, sum))
Means (uploaded key sum) t =
    IsRestored t × (t.hash ≡ said (archive_path, sum)) × (t.sent ≡ said (archive_path, key))
Means (verified key sum) t = IsRestored t × IsVerified key sum t
Means published t = IsRestored t × HasMarker t
Means dangling t = Unit
Means (released true) t = IsRestored t × HasMarker t × (t.lease ≡ said false)
Means (released false) t = IsUntouched t ⊎ IsRestored t
