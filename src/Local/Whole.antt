-- ===== src/Local/Whole.antt =====
-- A whole run of deploy/data/backup.mjs: the lock around it, and the services at its end.
use mathlib.Core.Path.{subst}
use cartyx_infrastructure.Base.{
  ap, ℕ, Text, text, [], ◌∷◌, ◌++◌, false, ◌≡◌, inl, inr, refl, Bool-cases, text_eq, eq_of_text_eq,
}
use cartyx_infrastructure.Script.{
  Env, Log, resolved, rejected, called, Stop, call, or_empty, after_call,
}
use cartyx_infrastructure.Script.Post.{Post, stopped, weaken-Post, and_then-Post, call-Post}
use cartyx_infrastructure.Script.Discipline.{IsThrow, Did, latest, earlier, Keeps, Obeys}
use cartyx_infrastructure.Script.Blocks.{finally-Post, gets-Post, rejection-Did, Obeys-weaken}
use cartyx_infrastructure.Local.Places.{Place}
use cartyx_infrastructure.Local.Requests.{
  Configured, ArchiveManifest, Request, Answer, Settings, State, read_config, ensure_directory,
  create_lock, remove_lock, write_manifest, start_services,
}
use cartyx_infrastructure.Local.Saving.{archive_id, destination_of, back_up_locally}
use cartyx_infrastructure.Local.Restoring.{restore_locally}
use cartyx_infrastructure.Local.Main.{lock_of, act, keep, run}
use cartyx_infrastructure.Local.Trust.{Held, Ruled, Calm, IsOpening, SparesServices, output}
use cartyx_infrastructure.Script.Growth.{both-Post}
use cartyx_infrastructure.Local.Growth.{find_source-Grown, save-Grown, restore_locally-Grown}
use cartyx_infrastructure.Local.Finding.{IsReady, find_source-Post}
use cartyx_infrastructure.Local.Stopping.{save-Post}
use cartyx_infrastructure.Local.Rehearsing.{restore_locally-Post}
use cartyx_infrastructure.Local.Ends.{
  Chose, IsKept, IsEnded, HasDone, nothing-Did, config-Did, directory-Did, HasDone-kept,
}

module _ (env : Env Answer) (settings : Settings) where
  abbrev Returns : Unit {0} → State → Type 0
  Returns _ w = IsKept settings w.log × HasDone settings w.log

  abbrev Fails : Stop → State → Type 0
  Fails h w = IsThrow h × IsKept settings w.log

  Calm-Held : (log : Log Answer) → Obeys (Calm settings) log → Obeys (Held settings) log
  Calm-Held = Obeys-weaken (λ q log p. p.0)

  restart-Post :
      (w : State)
      → Chose settings (text "local-backup")
      → Did (create_lock (lock_of (output settings))) tt w.log
      → Obeys (Held settings) w.log
      → Post
          (λ _ w'. IsKept settings w'.log × Keeps w.log w'.log × Did start_services tt w'.log)
          Fails
          (call env start_services w)
  unfolding after_call
  restart-Post w chose l o =
      call-Post env start_services w
        (λ a e.
          ((((l, tt), o), earlier l, inr (chose, (_, _, refl))), (λ _ _ d. earlier d), rw e latest))
        (λ e _. (tt, (((l, tt), o), earlier l, inr (chose, (_, _, refl)))))

  unlock-Post :
      (w : State)
      → IsKept settings w.log
      → Post
          (λ _ w'.
            IsEnded settings w'.log
            × Keeps w.log w'.log
            × Did (remove_lock (lock_of (output settings))) tt w'.log)
          (λ h w'. IsThrow h × IsEnded settings w'.log)
          (call env (remove_lock (lock_of (output settings))) w)
  unfolding after_call
  unlock-Post w kept =
      call-Post env (remove_lock (lock_of (output settings))) w
        (λ a e. (inr (_, w.log, refl, kept), (λ _ _ d. earlier d), rw e latest))
        (λ e _. (tt, inr (_, w.log, refl, kept)))

  -- Under the lock, when the services are to be started again.
  abbrev IsStopped : State → Type 0
  IsStopped w = Obeys (Held settings) w.log × Did (create_lock (lock_of (output settings))) tt w.log

  abbrev IsWritten : Unit {0} → State → Type 0
  IsWritten _ w =
      IsStopped w
      × ((place : Place) × (m : ArchiveManifest) × Did (write_manifest place m) tt w.log)

  back_up_locally-Post :
      (c : Configured) (w : State)
      → Chose settings (text "local-backup")
      → IsReady env settings c w.log
      → Obeys (Calm settings) w.log
      → Post Returns Fails (back_up_locally env c (output settings) w)
  unfolding back_up_locally destination_of
  back_up_locally-Post c w chose (l, config) o =
      let id : Text = archive_id w.time in
      let name : Text = id ++ text ".tar.gz" in
      gets-Post (λ u. u.time) w _
        (and_then-Post
          (weaken-Post
            (both-Post (find_source-Post env settings c w (l, config) o)
              (find_source-Grown env c w (λ _ _ d. d)))
            (λ s w1 p. p)
            (λ h w1 ((thrown, o1), k1). (thrown, (Calm-Held w1.log o1, k1 _ _ l, inl o1))))
          λ source w1 ((o1, _, (l1, found)), k1).
            finally-Post {Q = IsWritten} {E = IsStopped}
              (weaken-Post
                (both-Post
                  (save-Post env settings c source id name w1 l1 found (Calm-Held w1.log o1))
                  (save-Grown env c source id (name ∷ output settings) w1 (λ _ _ d. d)))
                (λ _ w2 ((o2, saved), k2). ((o2, k2 _ _ l1), saved))
                (λ h w2 ((thrown, o2), k2). (thrown, (o2, k2 _ _ l1))))
              (λ _ w2 ((o2, l2), (place, m, saved)).
                weaken-Post (restart-Post w2 chose l2 o2)
                  (λ _ w3 (kept, k3, up). (kept, inl (chose, (place, m, k3 _ _ saved), up)))
                  (λ _ _ bad. bad))
              (λ w2 (o2, l2).
                weaken-Post (restart-Post w2 chose l2 o2) (λ _ _ (kept, _, _). kept)
                  (λ _ _ bad. bad)))

  restored-Post :
      (c : Configured) (w : State)
      → Chose settings (text "local-restore")
      → IsReady env settings c w.log
      → Obeys (Calm settings) w.log
      → Post Returns Fails (restore_locally env c (output settings) settings w)
  restored-Post c w chose (l, config) o =
      weaken-Post
        (both-Post (restore_locally-Post env settings c w (l, config) o)
          (restore_locally-Grown env c (output settings) settings w (λ _ _ d. d)))
        (λ _ w1 ((o1, tested), k1). ((Calm-Held w1.log o1, k1 _ _ l, inl o1), inr (chose, tested)))
        (λ h w1 ((thrown, o1), k1). (thrown, (Calm-Held w1.log o1, k1 _ _ l, inl o1)))

  act-Post :
      (c : Configured) (w : State)
      → IsReady env settings c w.log
      → Obeys (Calm settings) w.log
      → Post Returns Fails (act env settings c (output settings) w)
  unfolding act
  act-Post c w (l, config) o =
      elim (Bool-cases (text_eq (or_empty settings.action) (text "local-backup"))) [
        | inl h ↦ rw h (back_up_locally-Post c w (eq_of_text_eq _ _ h) (l, config) o)
        | inr h ↦
            rw h (elim (Bool-cases (text_eq (or_empty settings.action) (text "local-restore"))) [
              | inl h' ↦ rw h' (restored-Post c w (eq_of_text_eq _ _ h') (l, config) o)
              | inr h' ↦ rw h' (stopped (tt, (Calm-Held w.log o, l, inl o)))
            ])
      ]

  -- The calls before there is a lock.
  abbrev Opening : Request → Log Answer → Type 0
  Opening q log = (IsOpening q × SparesServices q) × Held settings q log × Ruled settings q log

  abbrev Unlocked : Log Answer → Type 0
  Unlocked log = Did (create_lock (lock_of (output settings))) tt log → ⊥

  -- A call that does not create the lock, if it is answered at all.
  opening :
      (q : Request) (w : State)
      → Opening q w.log
      → Obeys Opening w.log
      → (Did (create_lock (lock_of (output settings))) tt w.log → ⊥)
      → Post
          (λ a w'. (w'.log ≡ called q (resolved a) ∷ w.log) × Obeys Opening w'.log)
          (λ h w'. IsThrow h × IsEnded settings w'.log)
          (call env q w)
  unfolding after_call
  opening q w p o unlocked =
      call-Post env q w (λ a e. (ap (λ r. called q r ∷ w.log) e, (p, o)))
        (λ m e. (
          tt,
          inl (
            (λ d. unlocked (
                rejection-Did _ _ m w.log (
                  subst (λ r. Did (create_lock (lock_of (output settings))) tt (called q r ∷ w.log))
                    e d))),
            Obeys-weaken {P = Opening} (λ _ _ (first, _, ruled). (first.0, first.1, ruled))
                (called q (rejected m) ∷ w.log) (p, o),
          ),
        ))

  -- A whole run has ended, and if it returns it has done what it was asked, and removed the lock.
  pub run-Post :
      (now : ℕ)
      → Post
          (λ _ w.
            IsEnded settings w.log
            × HasDone settings w.log
            × Did (remove_lock (lock_of (output settings))) tt w.log)
          (λ h w. IsThrow h × IsEnded settings w.log)
          (run env settings now)
  unfolding keep
  run-Post now =
      let w : State = record { log = []; time = now; cancelled = false; vars = tt } in
      and_then-Post (opening read_config w ((tt, tt), tt, inl tt) tt (λ d. absurd (nothing-Did d)))
        λ c w1 (e1, o1).
          and_then-Post
            (opening (ensure_directory (output settings)) w1 ((tt, tt), tt, inl tt) o1
              (no_lock_1 c e1))
            λ _ w2 (e2, o2).
              and_then-Post
                (opening (create_lock (lock_of (output settings))) w2 ((tt, tt), tt, inl tt) o2
                  (no_lock_2 c e1 e2))
                λ _ w3 (e3, o3).
                  let locked : Did (create_lock (lock_of (output settings))) tt w3.log =
                    rw e3 latest in
                  let read : Did read_config c w3.log =
                    rw e3 (earlier (rw e2 (earlier (rw e1 latest)))) in
                  finally-Post
                    (act-Post c w3 (locked, read)
                      (Obeys-weaken (λ _ _ (first, held, _). (held, first.1)) w3.log o3))
                    (λ _ w4 (kept, done).
                      weaken-Post (unlock-Post w4 kept)
                        (λ _ w5 (ended, k5, removed).
                          (ended, HasDone-kept settings k5 done, removed))
                        (λ _ _ bad. bad))
                    (λ w4 kept.
                      weaken-Post (unlock-Post w4 kept) (λ _ _ (ended, _, _). ended)
                        (λ _ _ bad. bad))
    where
      no_lock_1 :
          (c : Configured) {log : Log Answer}
          → log ≡ called read_config (resolved c) ∷ []
          → Unlocked log
      no_lock_1 c e d =
          nothing-Did
            (config-Did _ [] (subst (Did (create_lock (lock_of (output settings))) tt) e d))

      no_lock_2 :
          (c : Configured) {log log' : Log Answer}
          → log ≡ called read_config (resolved c) ∷ []
          → log' ≡ called (ensure_directory (output settings)) (resolved tt) ∷ log
          → Unlocked log'
      no_lock_2 c e e' d =
          no_lock_1 c e
            (directory-Did _ _ _ (subst (Did (create_lock (lock_of (output settings))) tt) e' d))
