-- ===== src/Secrets/Provision.antt =====
-- What a run of deploy/data/secrets.mjs knows before it writes.
use cartyx_infrastructure.Base.{
  ℕ, Text, text, [], ◌∷◌, ◌++◌, Bool, true, false, Option, ◌≡◌, ◌⊎◌, if◌then◌else◌,
}
use cartyx_infrastructure.Script.{Env, Log, Settled, called, Outcome, ok}
use cartyx_infrastructure.Script.Post.{Post, returned, stopped}
use cartyx_infrastructure.Script.Discipline.{
  Did, Obeys, Kept, after-call, after-throw_if, Obeys-append, Post-Obeys,
}
use cartyx_infrastructure.Secrets.{
  Answer, State, ensure_directory, change_mode, exists, write_new, write_file, app_key, parent,
  directory_of, file_in, chosen, add_app_key, create_all, provision, run,
}
use cartyx_infrastructure.Secrets.Writing.{
  LacksAppKey, IsFresh, IsDrawn, Allowed, IsProvided, Done, add_app_key-Post, create_all-Post,
}

module _ (env : Env Answer) (argument : Option Text) where
  abbrev Ended : Outcome (Unit {0}) × State → Type 0
  Ended =
      Post (Done env (directory_of (chosen argument)))
        (Kept env (Allowed (directory_of (chosen argument))))

  run-Post : (now : ℕ) → Ended (run env argument now)
  unfolding provision
  run-Post now =
      let directory : Text = directory_of (chosen argument) in
      let w : State = record { log = []; time = now; cancelled = false; vars = tt } in
      after-throw_if env (Allowed directory) _ _ w _ tt λ known.
        after-call env (Allowed directory) (ensure_directory parent) w tt tt λ _ w1 (_, k1, o1, _).
          after-call env (Allowed directory) (change_mode parent 448) w1 tt o1
            λ _ w2 (_, k2, o2, _).
              after-call env (Allowed directory) (exists (file_in directory (text "tls.p12"))) w2 tt
                o2 λ present w3 (d, k3, o3, _). branch present w3 d o3
    where
      branch :
          (present : Bool) (w : State)
          → Did (exists (file_in (directory_of (chosen argument)) (text "tls.p12"))) present w.log
          → Obeys (Allowed (directory_of (chosen argument))) w.log
          → Ended (
              (if present
                  then add_app_key env (directory_of (chosen argument))
                  else create_all env (chosen argument) (directory_of (chosen argument)))
                w)
      branch true w d o = add_app_key-Post env (directory_of (chosen argument)) w o d
      branch false w d o =
          create_all-Post env (directory_of (chosen argument)) (chosen argument) w o d

  -- Whenever a run writes a key, it is made of random bytes that the run has drawn, and either there
  -- were credentials and the application's key was missing, and this is the one that is written, or
  -- there was no directory of credentials, and the run has made it.
  pub new_key-IsDrawn :
      (now : ℕ) (later log : Log Answer) (path content : Text) (r : Settled (Unit {0}))
      → (run env argument now).1.log ≡ later ++ (called (write_new path content) r ∷ log)
      → IsDrawn content log
        × (((path ≡ file_in (directory_of (chosen argument)) app_key)
              × LacksAppKey (directory_of (chosen argument)) log)
            ⊎ IsFresh (directory_of (chosen argument)) log)
  new_key-IsDrawn now later log path content r e =
      Obeys-append (Allowed (directory_of (chosen argument))) later (write_new path content) r log
        (rw e at (Post-Obeys (Allowed (directory_of (chosen argument))) (run-Post now)))

  -- Whenever a run writes a file that may exist, there was no directory of credentials, and the run
  -- has made it.
  pub overwrite-IsFresh :
      (now : ℕ) (later log : Log Answer) (path content : Text) (r : Settled (Unit {0}))
      → (run env argument now).1.log ≡ later ++ (called (write_file path content) r ∷ log)
      → IsFresh (directory_of (chosen argument)) log
  overwrite-IsFresh now later log path content r e =
      Obeys-append (Allowed (directory_of (chosen argument))) later (write_file path content) r log
        (rw e at (Post-Obeys (Allowed (directory_of (chosen argument))) (run-Post now)))

  -- A run that ends without an error found credentials, and found or wrote the application's key; or
  -- it found none, made the directory, and wrote all six keys and the certificate in both forms.
  pub provision_success-IsProvided :
      (now : ℕ)
      → (run env argument now).0 ≡ ok tt
      → IsProvided (directory_of (chosen argument)) (run env argument now).1.log
  provision_success-IsProvided now e = provided (run-Post now) e
    where
      provided :
          {r : Outcome (Unit {0}) × State}
          → Ended r
          → r.0 ≡ ok tt
          → IsProvided (directory_of (chosen argument)) r.1.log
      provided (returned p) e = p.1
      provided (stopped p) e = cc e
