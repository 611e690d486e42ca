-- ===== src/Restore/Promises.antt =====
-- What deploy/data/README.md promises of a restore, for every run of restore-cluster.mjs.
use mathlib.Core.Path.{subst}
use mathlib.Core.Option.{some-injective}
use cartyx_infrastructure.Base.{ℕ, Text, ◌∷◌, ◌++◌, some, false, ◌≡◌}
use cartyx_infrastructure.Script.{Env, Log, Settled, called, Outcome, ok, or_empty}
use cartyx_infrastructure.Script.Post.{Post, returned, stopped}
use cartyx_infrastructure.Script.Discipline.{Did, Obeys-append, Post-Obeys}
use cartyx_infrastructure.Restore.Requests.{
  Completion, Request, Answer, Settings, State, Outcomes, create_namespace, create_secret,
  create_claim, create_loader, extract, delete_loader, install_chart, write_result,
}
use cartyx_infrastructure.Restore.Main.{archive_of, run}
use cartyx_infrastructure.Restore.Trust.{Allowed, IsCleared, IsTrusted, IsTested, scratch, target}
use cartyx_infrastructure.Restore.Whole.{run-Post, Done, Bad, Concluded}

target-IsCleared :
    (settings : Settings) (now : ℕ) (q : Request) (n : Text) (log : Log Answer)
    → target q ≡ some n
    → Allowed settings now q log
    → IsCleared settings now n log
target-IsCleared s now (create_namespace n') n log e p =
    subst (λ x. IsCleared s now x log) (some-injective _ _ e) p
target-IsCleared s now (create_secret n' c names) n log e p =
    subst (λ x. IsCleared s now x log) (some-injective _ _ e) p.0
target-IsCleared s now (create_claim n' storage) n log e p =
    subst (λ x. IsCleared s now x log) (some-injective _ _ e) p.0
target-IsCleared s now (create_loader n' image) n log e p =
    subst (λ x. IsCleared s now x log) (some-injective _ _ e) p.0
target-IsCleared s now (extract n' path) n log e p =
    subst (λ x. IsCleared s now x log) (some-injective _ _ e) p.0
target-IsCleared s now (delete_loader n') n log e p =
    subst (λ x. IsCleared s now x log) (some-injective _ _ e) p.0
target-IsCleared s now (install_chart n' c) n log e p =
    subst (λ x. IsCleared s now x log) (some-injective _ _ e) p.0
target-IsCleared s now _ n log e p = cc e

module _ (env : Env Answer) (settings : Settings) (now : ℕ) where
  allowed :
      (later log : Log Answer) (q : Request) (r : Settled (Answer q))
      → (run env settings now).1.log ≡ later ++ (called q r ∷ log)
      → Allowed settings now q log
  allowed later log q r e =
      Obeys-append (Allowed settings now) later q r log
        (rw e at (Post-Obeys (Allowed settings now) (run-Post env settings now)))

  -- Whenever a run creates, unpacks, deletes or installs something in a namespace, this is the
  -- namespace that the run has named for itself, and some completion marker and archive are trusted:
  -- the marker names the environment and its own key, the chart has its images, and the archive has
  -- its hash, its identity and the chart's configuration files.
  pub change-IsCleared :
      (later log : Log Answer) (q : Request) (r : Settled (Answer q)) (n : Text)
      → target q ≡ some n
      → (run env settings now).1.log ≡ later ++ (called q r ∷ log)
      → IsCleared settings now n log
  change-IsCleared later log q r n t e =
      target-IsCleared settings now q n log t (allowed later log q r e)

  -- Whenever a run writes its result, the archive was unpacked in the run's own namespace with exit
  -- code 0, the chart was installed on it, and the three tests passed; and the hash in the result is
  -- that of a trusted archive.
  pub result-IsTested :
      (later log : Log Answer) (path : Text) (o : Outcomes) (r : Settled (Unit {0}))
      → (run env settings now).1.log ≡ later ++ (called (write_result path o) r ∷ log)
      → IsTested settings now log
        × ((m : Completion) × IsTrusted
              (or_empty settings.environment)
              (or_empty settings.manifest_key)
              (archive_of (scratch settings now))
              m
              log
            × (o.sha256 ≡ m.sha256))
  result-IsTested later log path o r e =
      let (_, tested, trusted) = allowed later log (write_result path o) r e in (tested, trusted)

  -- A run that ends without an error has written its result, and forwards no port any more.
  pub restore_success_is_complete :
      (run env settings now).0 ≡ ok tt
      → ((path : Text) × (o : Outcomes) × Did (write_result path o) tt (run env settings now).1.log)
        × ((run env settings now).1.vars.forwarding ≡ false)
  restore_success_is_complete e = concluded (run-Post env settings now) e
    where
      concluded :
          {r : Outcome (Unit {0}) × State}
          → Post (Done env settings now) (Bad env settings now) r
          → r.0 ≡ ok tt
          → Concluded env settings now r.1.log × (r.1.vars.forwarding ≡ false)
      concluded (returned p) e = p.1
      concluded (stopped p) e = cc e
