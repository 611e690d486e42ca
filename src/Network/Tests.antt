-- ===== src/Network/Tests.antt =====
-- Runs of deploy/data/network-security.mjs, and the theorems at them.
use cartyx_infrastructure.Base.{
  text, List, [], ◌∷◌, Bool, true, false, some, ◌≡◌, ◌⊎◌, refl, text_eq, includes, decimal,
  if◌then◌else◌,
}
use cartyx_infrastructure.Script.{
  Env, Log, Settled, throw, stop, resolved, rejected, called, call, after_call, and_then, for_each,
  finishing, settling,
}
use cartyx_infrastructure.Network.{
  Check, Probe, Request, Answer, Settings, create_job, wait_job, read_logs, delete_job,
  part_of_data, data_client, probe_of, start_probe, watch, watch_all, try_probes, delete_probes,
  verify_network, run,
}
use cartyx_infrastructure.Network.Cleaning.{IsClean, IsRefused}
use cartyx_infrastructure.Network.Promises.{network_end-IsClean}

-- The Jobs complete, or fail in the namespace of the other environment; deletions succeed or not.
abbrev answer : Bool → Bool → (q : Request) → Settled (Answer q)
unfolding text text_eq
answer completes deletes (create_job p labels checks) = resolved tt
answer completes deletes (wait_job p) =
    if completes
    then resolved tt
    else if text_eq p.namespace (text "prod")
    then rejected (text "timed out")
    else resolved tt
answer completes deletes (read_logs p) = resolved (text "allowed")
answer completes deletes (delete_job p) =
    if deletes then resolved tt else rejected (text "Forbidden")

abbrev cluster : Bool → Bool → Env Answer
cluster completes deletes = record {
  answer = λ q log. record { result = answer completes deletes q; elapsed = 1; signalled = false };
  oversleep = λ log. record { result = resolved tt; elapsed = 0; signalled = false };
}

abbrev dev : Settings
unfolding text
dev = record { target = some (text "dev"); kubeconfig = some (text "c") }

abbrev data_probe : Probe
unfolding text
data_probe = record { name = text "cartyx-data-network-0-data"; namespace = text "dev" }

abbrev client_probe : Probe
unfolding text
client_probe = record { name = text "cartyx-data-network-1-client"; namespace = text "dev" }

abbrev unlabeled_probe : Probe
unfolding text
unlabeled_probe = record { name = text "cartyx-data-network-2-unlabeled"; namespace = text "dev" }

abbrev foreign_probe : Probe
unfolding text
foreign_probe = record {
  name = text "cartyx-data-network-3-cross-namespace";
  namespace = text "prod";
}

abbrev checks : Bool → Bool → List Check
unfolding text
checks janusgraph cassandra =
    record {
      host = text "cartyx-data-janusgraph.dev.svc.cluster.local";
      port = 8182;
      allowed = janusgraph;
    }
    ∷ record {
      host = text "cartyx-data-cassandra.dev.svc.cluster.local";
      port = 9042;
      allowed = cassandra;
    }
    ∷ []

abbrev created : Log Answer
unfolding text data_probe client_probe unlabeled_probe foreign_probe checks
created =
    called (create_job foreign_probe (part_of_data ∷ data_client ∷ []) (checks false false))
      (resolved tt)
    ∷ called (create_job unlabeled_probe [] (checks false false)) (resolved tt)
    ∷ called (create_job client_probe (data_client ∷ []) (checks true false)) (resolved tt)
    ∷ called (create_job data_probe (part_of_data ∷ []) (checks true true)) (resolved tt)
    ∷ []

abbrev watched : Probe → Log Answer → Log Answer
unfolding text
watched p log =
    called (read_logs p) (resolved (text "allowed")) ∷ called (wait_job p) (resolved tt) ∷ log

-- One Job fails; all are deleted all the same.
failure-trace :
    (run (cluster false true) dev 0).1.log
    ≡ called (delete_job foreign_probe) (resolved tt)
      ∷ called (delete_job unlabeled_probe) (resolved tt)
      ∷ called (delete_job client_probe) (resolved tt)
      ∷ called (delete_job data_probe) (resolved tt)
      ∷ called (wait_job foreign_probe) (rejected (text "timed out"))
      ∷ watched unlabeled_probe (watched client_probe (watched data_probe created))
unfolding text text_eq includes decimal call after_call and_then for_each finishing settling
    probe_of start_probe watch watch_all try_probes delete_probes verify_network answer dev
    data_probe client_probe unlabeled_probe foreign_probe checks created watched
failure-trace = refl

-- A deletion that fails leaves the Jobs that follow.
refusal-trace :
    (run (cluster true false) dev 0).1.log
    ≡ called (delete_job data_probe) (rejected (text "Forbidden"))
      ∷ watched foreign_probe
          (watched unlabeled_probe (watched client_probe (watched data_probe created)))
unfolding text text_eq includes decimal call after_call and_then for_each finishing settling
    probe_of start_probe watch watch_all try_probes delete_probes verify_network answer dev
    data_probe client_probe unlabeled_probe foreign_probe checks created watched
refusal-trace = refl

failure-outcome : (run (cluster false true) dev 0).0 ≡ stop (throw (text "timed out"))
unfolding text text_eq includes decimal call after_call and_then for_each finishing settling
    probe_of start_probe watch watch_all try_probes delete_probes verify_network answer dev
failure-outcome = refl

network_end-IsClean_example :
    IsClean (run (cluster false true) dev 0).1.log
    ⊎ IsRefused (run (cluster false true) dev 0).1.log
network_end-IsClean_example = network_end-IsClean (cluster false true) dev 0
