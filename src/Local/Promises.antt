-- ===== src/Local/Promises.antt =====
-- What deploy/data/backup.mjs guarantees of the services, of the archive and of the rehearsal.
use mathlib.Core.Path.{subst}
use cartyx_infrastructure.Base.{ℕ, Text, text, ◌∷◌, ◌++◌, ◌≡◌, inl, inr, sym, Option}
use cartyx_infrastructure.Script.{Env, Log, Settled, called, Outcome, ok}
use cartyx_infrastructure.Script.Post.{Post, returned, stopped}
use cartyx_infrastructure.Script.Discipline.{IsThrow, Did, Obeys, Obeys-append}
use cartyx_infrastructure.Script.Blocks.{Obeys-weaken}
use cartyx_infrastructure.Local.Places.{Place, suffixed}
use cartyx_infrastructure.Local.Requests.{
  Configured, ArchiveManifest, Request, Answer, Settings, State, remove_lock, save_volume,
  write_manifest, write_override, start_restored,
}
use cartyx_infrastructure.Local.Saving.{Source}
use cartyx_infrastructure.Local.Restoring.{override_for}
use cartyx_infrastructure.Local.Main.{lock_of, run}
use cartyx_infrastructure.Local.Trust.{
  IsSource, AllStopped, IsTrue, IsLoaded, Ruled, Calm, SparesServices, output, given_place,
}
use cartyx_infrastructure.Local.Ends.{Chose, IsBegun, IsEnded, HasDone}
use cartyx_infrastructure.Local.Whole.{run-Post}

module _ (env : Env Answer) (settings : Settings) (now : ℕ) where
  abbrev ended_log : Log Answer
  ended_log = (run env settings now).1.log

  abbrev Finished : Outcome (Unit {0}) × State → Type 0
  Finished =
      Post
        (λ _ w.
          IsEnded settings w.log
          × HasDone settings w.log
          × Did (remove_lock (lock_of (output settings))) tt w.log)
        (λ h w. IsThrow h × IsEnded settings w.log)

  Finished-IsEnded : {r : Outcome (Unit {0}) × State} → Finished r → IsEnded settings r.1.log
  Finished-IsEnded (returned p) = p.0
  Finished-IsEnded (stopped p) = p.1

  ended : IsEnded settings ended_log
  ended = Finished-IsEnded (run-Post env settings now)

  spared : (log : Log Answer) → Obeys (Calm settings) log → Obeys (λ q _. SparesServices q) log
  spared = Obeys-weaken (λ _ _ p. p.1)

  -- Each call of a run is ruled.
  ruled : (whole : Log Answer) → IsEnded settings whole → Obeys (Ruled settings) whole
  ruled whole (inl (_, o)) = Obeys-weaken {P = IsBegun settings} (λ _ _ p. p.2) whole o
  ruled whole (inr (r, rest, e, (held, _, _))) =
      subst (Obeys (Ruled settings)) (sym e) (inr tt, Obeys-weaken (λ _ _ p. inl p) rest held)

  call-Ruled :
      (later log : Log Answer) (q : Request) (r : Settled (Answer q))
      → ended_log ≡ later ++ (called q r ∷ log)
      → Ruled settings q log
  call-Ruled later log q r e =
      Obeys-append (Ruled settings) later q r log
        (subst (Obeys (Ruled settings)) e (ruled ended_log ended))

  -- A run that was asked for a rehearsal makes no call that stops, drains, packs or starts the live
  -- services.
  pub rehearsal-SparesServices :
      Chose settings (text "local-restore")
      → Obeys (λ q _. SparesServices q) (run env settings now).1.log
  unfolding text
  rehearsal-SparesServices chose = spares ended
    where
      spares : {whole : Log Answer} → IsEnded settings whole → Obeys (λ q _. SparesServices q) whole
      spares {whole} (inl (_, o)) = Obeys-weaken {P = IsBegun settings} (λ _ _ p. p.1) whole o
      spares {whole} (inr (r, rest, e, (_, _, inl calm))) =
          subst (Obeys _) (sym e) (tt, spared rest calm)
      spares {whole} (inr (r, rest, e, (_, _, inr (backup, _)))) = cc (backup, chose)

  -- Whenever a run packs a volume, its latest three calls were that JanusGraph stopped, that
  -- Cassandra was drained and that Cassandra stopped, all acknowledged; both services ran with the
  -- images of the Compose file, and the volume is the one that Cassandra's data was mounted from.
  pub packing-IsQuiet :
      (later log : Log Answer) (volume image : Text) (r : Settled (Option ℕ))
      → (run env settings now).1.log ≡ later ++ (called (save_volume volume image) r ∷ log)
      → (c : Configured) × (s : Source) × IsSource c s log
        × AllStopped log
        × ((volume ≡ s.volume) × (image ≡ c.cassandra))
  packing-IsQuiet later log volume image r e =
      elim (call-Ruled later log (save_volume volume image) r e) [ inl p ↦ p.1 | inr p ↦ absurd p ]

  -- Whenever a run writes a manifest, it stands beside the archive, tar ended with exit code 0, the
  -- archive was received whole, and the manifest has its name, its hash, and the images and their
  -- identities with which both services ran.
  pub local_manifest-IsTrue :
      (later log : Log Answer) (place : Place) (m : ArchiveManifest) (r : Settled (Unit {0}))
      → (run env settings now).1.log ≡ later ++ (called (write_manifest place m) r ∷ log)
      → (c : Configured) × (s : Source) × (name : Text) × IsSource c s log
        × IsTrue c s (name ∷ output settings) m log
        × (place ≡ suffixed (name ∷ output settings) (text ".json"))
  local_manifest-IsTrue later log place m r e =
      elim (call-Ruled later log (write_manifest place m) r e) [ inl p ↦ p.1 | inr p ↦ absurd p ]

  -- Whenever a run starts a second stack, its Compose file names a volume that the run has created,
  -- into which it unpacked an archive that has the hash of the manifest beside it; and the manifest
  -- is the one given, has format 2, the environment `local`, the images of the Compose file, and a
  -- file name without a slash.
  pub second_stack-IsLoaded :
      (later log : Log Answer) (place : Place) (r : Settled (Unit {0}))
      → (run env settings now).1.log ≡ later ++ (called (start_restored place) r ∷ log)
      → (volume : Text) × Did (write_override place (override_for volume)) tt log
        × IsLoaded (given_place settings) volume log
  second_stack-IsLoaded later log place r e =
      elim (call-Ruled later log (start_restored place) r e) [ inl p ↦ p.1 | inr p ↦ absurd p ]

  -- A run that ends without an error has removed its lock, and either was asked for a backup, wrote
  -- its manifest and started the services again, or was asked for a rehearsal and tested it.
  pub local_success_is_complete :
      (run env settings now).0 ≡ ok tt
      → HasDone settings (run env settings now).1.log
        × Did (remove_lock (lock_of (output settings))) tt (run env settings now).1.log
  local_success_is_complete e = complete (run-Post env settings now) e
    where
      complete :
          {r : Outcome (Unit {0}) × State}
          → Finished r
          → r.0 ≡ ok tt
          → HasDone settings r.1.log × Did (remove_lock (lock_of (output settings))) tt r.1.log
      complete (returned p) e = (p.1, p.2)
      complete (stopped p) e = cc e
