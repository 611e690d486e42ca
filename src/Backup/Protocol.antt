-- ===== src/Backup/Protocol.antt =====
-- The protocol that deploy/data/README.md promises of a cluster backup, as a machine over the calls
-- that a run makes, whatever the script is: an exclusive lease; both reconcilers suspended, then
-- JanusGraph stopped, then Cassandra; the archive of the stopped data; the services back, Cassandra
-- first and the reconcilers last; the upload; its read-back; the completion marker; the retention.
pub mod Meaning
pub mod Following
pub mod Holding
use mathlib.Core.Option
use cartyx_infrastructure.Base.{
  ℕ, zero, suc, Text, List, [], ◌∷◌, Bool, true, false, ◌==◌, Option, none, some, text, text_eq,
  ◌&&◌, ◌++◌, if◌then◌else◌,
}
use cartyx_infrastructure.Script.{Settled, resolved, rejected, Event, called, slept}
use cartyx_infrastructure.Cluster.Documents.{
  acquire, release, Workload, Pod, Manifest, janusgraph, cassandra,
}
use cartyx_infrastructure.Backup.Archive.{archive_path}
use cartyx_infrastructure.Cluster.Request.{
  Request, Answer, History, get_graph, get_cassandra, get_pods, patch_lease, patch_status,
  suspend_helm, suspend_flux, scale, list_objects, delete_object, upload_archive, read_back,
  put_manifest, archive, hash_file,
}

-- `hashed` knows the hash of the archive, `uploaded` and `verified` also the key that it is stored under.
-- The flag of the later stages says whether the data was archived before the services came back.
-- `unsure`: a change was not acknowledged, and nothing but a recovery may follow. `dangling`: the
-- release of the lease was not acknowledged.
pub data Stage : Type 0 where
  idle locked flux_paused paused graph_stopped graph_gone stopped quiet archived unsure : Stage
  cassandra_up both_up cassandra_ready all_ready helm_on back : Bool → Stage
  hashed : Text → Stage
  uploaded verified : Text → Text → Stage
  published dangling : Stage
  released : Bool → Stage

-- A step under a condition.
abbrev pub only : {A : Type 0} → Bool → Option A → Option A
only true after = after
only false after = none

abbrev accepted : {A : Type 0} → Settled A → Stage → Stage → Option Stage
accepted (resolved a) after otherwise = some after
accepted (rejected e) after otherwise = some otherwise

abbrev take_lock : Stage → Settled (Unit {0}) → Option Stage
take_lock idle r = accepted r locked idle
take_lock _ r = none

-- The stages where nothing is left to recover.
abbrev pub calm : Stage → Bool
calm locked = true
calm (back a) = true
calm (hashed sum) = true
calm (uploaded key sum) = true
calm (verified key sum) = true
calm published = true
calm _ = false

abbrev pause_flux : Stage → Settled (Unit {0}) → Option Stage
pause_flux locked r = accepted r flux_paused unsure
pause_flux _ r = none

abbrev pause_helm : Stage → Settled (Unit {0}) → Option Stage
pause_helm flux_paused r = accepted r paused unsure
pause_helm _ r = none

abbrev stop_graph : Stage → Settled (Unit {0}) → Option Stage
stop_graph paused r = accepted r graph_stopped unsure
stop_graph _ r = none

abbrev stop_cassandra : Stage → Settled (Unit {0}) → Option Stage
stop_cassandra graph_gone r = accepted r stopped unsure
stop_cassandra _ r = none

-- The empty list of pods shows that a database has stopped.
abbrev when_none : {A : Type 0} → Settled (List A) → Stage → Stage → Stage
when_none (resolved []) gone still = gone
when_none (resolved (x ∷ xs)) gone still = still
when_none (rejected e) gone still = still

abbrev see_graph_pods : Stage → Settled (List Pod) → Option Stage
see_graph_pods graph_stopped r = some (when_none r graph_gone graph_stopped)
see_graph_pods _ r = none

abbrev see_cassandra_pods : Stage → Settled (List Pod) → Option Stage
see_cassandra_pods stopped r = some (when_none r quiet stopped)
see_cassandra_pods _ r = none

abbrev when_zero : Settled (Option ℕ) → Stage
when_zero (resolved (some zero)) = archived
when_zero (resolved (some (suc n))) = quiet
when_zero (resolved none) = quiet
when_zero (rejected e) = quiet

abbrev take_archive : Stage → Settled (Option ℕ) → Option Stage
take_archive quiet r = some (when_zero r)
take_archive _ r = none

-- The stages from which a recovery may start, with the flag for a finished archive.
abbrev pub restart : Stage → Option Bool
restart archived = some true
restart idle = none
restart locked = none
restart (back a) = none
restart (hashed sum) = none
restart (uploaded key sum) = none
restart (verified key sum) = none
restart published = none
restart dangling = none
restart (released a) = none
restart _ = some false

abbrev start_cassandra : Stage → Settled (Unit {0}) → Option Stage
start_cassandra stage r = elim (restart stage) [
  | none ↦ none
  | some a ↦ accepted r (cassandra_up a) unsure
]

abbrev start_graph : Stage → Settled (Unit {0}) → Option Stage
start_graph (cassandra_up a) r = accepted r (both_up a) unsure
start_graph _ r = none

-- One replica is ready.
abbrev pub is_one : Option ℕ → Bool
is_one none = false
is_one (some n) = n == 1

abbrev when_ready : Settled Workload → Stage → Stage → Stage
when_ready (resolved w) up still = if is_one w.ready then up else still
when_ready (rejected e) up still = still

abbrev see_cassandra : Stage → Settled Workload → Option Stage
see_cassandra (both_up a) r = some (when_ready r (cassandra_ready a) (both_up a))
see_cassandra stage r = some stage

abbrev see_graph : Stage → Settled Workload → Option Stage
see_graph (cassandra_ready a) r = some (when_ready r (all_ready a) (both_up a))
see_graph stage r = some stage

abbrev resume_helm : Stage → Settled (Unit {0}) → Option Stage
resume_helm (all_ready a) r = accepted r (helm_on a) unsure
resume_helm _ r = none

abbrev resume_flux : Stage → Settled (Unit {0}) → Option Stage
resume_flux (helm_on a) r = accepted r (back a) unsure
resume_flux _ r = none

abbrev see_hash : Stage → Settled Text → Option Stage
see_hash (back true) (resolved sum) = some (hashed sum)
see_hash (back true) (rejected e) = some (back true)
see_hash _ r = none

abbrev store : Text → Stage → Settled (Unit {0}) → Option Stage
store key (hashed sum) r = accepted r (uploaded key sum) (hashed sum)
store key _ r = none

-- Only the object that was uploaded is read back.
abbrev check_back : Text → Stage → Settled Text → Option Stage
check_back name (uploaded key sum) (resolved stored) =
    only (text_eq name key)
      (some (if text_eq stored sum then verified key sum else uploaded key sum))
check_back name (uploaded key sum) (rejected e) = only (text_eq name key) (some (uploaded key sum))
check_back name _ r = none

abbrev pub is_text : Option Text → Text → Bool
is_text none s = false
is_text (some t) s = text_eq t s

-- The marker stands beside the archive, and has its hash and its key.
abbrev pub is_marker : Text → Text → Text → Manifest → Bool
is_marker key sum name manifest =
    text_eq name (key ++ text ".json") && (is_text manifest.sha256 sum && is_text manifest.key key)

abbrev mark_complete : Text → Manifest → Stage → Settled (Unit {0}) → Option Stage
mark_complete name manifest (verified key sum) r =
    only (is_marker key sum name manifest) (accepted r published (verified key sum))
mark_complete name manifest _ r = none

abbrev tidy : Stage → Option Stage
tidy published = some published
tidy _ = none

abbrev pub is_published : Stage → Bool
is_published published = true
is_published _ = false

abbrev give_back : Stage → Settled (Unit {0}) → Option Stage
give_back stage r = if calm stage then accepted r (released (is_published stage)) dangling else none

-- The stage after a call, or `none` where the protocol forbids it. The flag of `released` says whether
-- the run had published its completion marker.
unfoldable pub step : Stage → (q : Request) → Settled (Answer q) → Option Stage
step stage (patch_lease (acquire version original owner since seconds)) r = take_lock stage r
step stage (patch_lease (release version)) r = give_back stage r
step stage (suspend_flux true) r = pause_flux stage r
step stage (suspend_helm true) r = pause_helm stage r
step stage (scale janusgraph zero) r = stop_graph stage r
step stage (get_pods janusgraph) r = see_graph_pods stage r
step stage (scale cassandra zero) r = stop_cassandra stage r
step stage (get_pods cassandra) r = see_cassandra_pods stage r
step stage (archive path) r = take_archive stage r
step stage (scale cassandra (suc zero)) r = start_cassandra stage r
step stage (scale janusgraph (suc zero)) r = start_graph stage r
step stage (scale component (suc (suc n))) r = none
step stage get_cassandra r = see_cassandra stage r
step stage get_graph r = see_graph stage r
step stage (suspend_helm false) r = resume_helm stage r
step stage (suspend_flux false) r = resume_flux stage r
step stage (hash_file path) r = only (text_eq path archive_path) (see_hash stage r)
step stage (upload_archive path key) r = only (text_eq path archive_path) (store key stage r)
step stage (read_back name) r = check_back name stage r
step stage (put_manifest name manifest) r = mark_complete name manifest stage r
step stage (list_objects prefix token) r = tidy stage
step stage (delete_object key) r = tidy stage
step stage _ r = some stage

unfoldable pub next : Stage → Event Answer → Option Stage
unfolding step
next stage (called q r) = step stage q r
next stage (slept ms) = some stage

-- The stage that a history has reached from one, if it keeps to the protocol.
unfoldable pub follow : Stage → History → Option Stage
follow start [] = some start
follow start (e ∷ log) = Option.bind (follow start log) (λ stage. next stage e)
