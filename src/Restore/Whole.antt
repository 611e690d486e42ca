-- ===== src/Restore/Whole.antt =====
-- A whole run of deploy/data/restore-cluster.mjs makes each call only where it is allowed.
use cartyx_infrastructure.Base.{
  ℕ, Text, text, [], ◌++◌, false, ◌≡◌, refl, Bool-cases, inl, inr, some_of,
}
use cartyx_infrastructure.Script.{
  Env, Log, Stop, throw, exit, diverged, Outcome, or_empty, given, finishing, and_then,
}
use cartyx_infrastructure.Script.Post.{Post, returned, stopped, weaken-Post, and_then-Post}
use cartyx_infrastructure.Script.Discipline.{
  IsThrow, Did, Obeys, Kept, Adds, just-call, after-call, after-throw_if, after-gets,
}
use cartyx_infrastructure.Restore.Requests.{
  Completion, Request, Answer, Settings, State, Outcomes, get_backup_secret, make_directory,
  get_claim, write_result,
}
use cartyx_infrastructure.Restore.Checks.{connect, external}
use cartyx_infrastructure.Restore.Loading.{result_of, conclude}
use cartyx_infrastructure.Restore.Main.{
  archive_of, credentials_of, directory_of, rehearse, stop_forward, restore, run,
}
use cartyx_infrastructure.Restore.Trust.{Allowed, IsMarker-kept, IsMatched-kept, IsTested, scratch}
use cartyx_infrastructure.Restore.Volume.{
  Trusted, Trusted-kept, copy_credentials-Post, load-Post, IsTested-kept, test_services-Post,
}
use cartyx_infrastructure.Restore.Conduct.{
  read_marker-Post, check_images-Post, fetch_archive-Post, check_archive-Post,
}

module _ (env : Env Answer) (settings : Settings) (now : ℕ) where
  abbrev P : Request → Log Answer → Type 0
  P = Allowed settings now

  -- The result was written.
  abbrev pub Concluded : Log Answer → Type 0
  Concluded log = (path : Text) × (o : Outcomes) × Did (write_result path o) tt log

  conclude-Post :
      (started : ℕ) (m : Completion) (w : State)
      → Trusted env settings now m w.log
      → IsTested settings now w.log
      → Obeys P w.log
      → Post (Adds env P (λ _. Concluded) w) (Kept env P) (
          conclude env
            (or_empty settings.environment)
            (scratch settings now)
            (directory_of (scratch settings now))
            (or_empty settings.manifest_key)
            started
            m
            w)
  unfolding conclude and_then
  conclude-Post started m w t tested o =
      after-call env P (get_claim (scratch settings now)) w tt o λ volume w1 (_, k1, o1, _).
        let t1 = Trusted-kept env settings now k1 t in
        weaken-Post
          (just-call env P
            (write_result (directory_of (scratch settings now) ++ text "/result.json") (
              result_of (or_empty settings.environment) (scratch settings now) volume
                (or_empty settings.manifest_key) w1.time started m))
            w1 ((refl, (m, t1)), IsTested-kept env settings now k1 tested, (m, t1, refl)) o1)
          (λ _ w2 (done, k2, o2, _). (o2, (λ q a d. k2 q a (k1 q a d)), (_, _, done)))
          (λ _ _ bad. bad)

  rehearse-Post :
      (bucket : Text) (started : ℕ) (w : State)
      → Obeys P w.log
      → Post (Adds env P (λ _. Concluded) w) (Kept env P) (
          rehearse env
            (or_empty settings.environment)
            (scratch settings now)
            bucket
            (or_empty settings.manifest_key)
            started
            w)
  unfolding rehearse
  rehearse-Post bucket started w o =
      let n : Text = scratch settings now in
      let e : Text = or_empty settings.environment in
      let key : Text = or_empty settings.manifest_key in
      and_then-Post (read_marker-Post env settings now e key (archive_of n) bucket w o)
        λ m w1 (o1, k1, marker).
          and_then-Post (check_images-Post env settings now e key (archive_of n) m w1 o1)
            λ storage w2 (o2, k2, images).
              and_then-Post
                (fetch_archive-Post env settings now e key (archive_of n) bucket m w2 o2)
                λ _ w3 (o3, k3, whole).
                  and_then-Post (check_archive-Post env settings now e key (archive_of n) m w3 o3)
                    λ _ w4 (o4, k4, own).
                      let t4 : Trusted env settings now m w4.log = (
                        IsMarker-kept e key (archive_of n) m (λ q a d. k4 q a (k3 q a (k2 q a d)))
                            marker,
                        IsMatched-kept e key (archive_of n) m (λ q a d. k4 q a (k3 q a d)) images,
                        k4 _ _ whole,
                        own,
                      ) in
                      and_then-Post
                        (copy_credentials-Post env settings now (archive_of n) (credentials_of n) w4
                          o4)
                        λ _ w5 (o5, k5, _).
                          and_then-Post
                            (load-Post env settings now storage m w5
                              (Trusted-kept env settings now k5 t4) o5)
                            λ _ w6 (o6, k6, loaded).
                              let t6 =
                                Trusted-kept env settings now k6
                                  (Trusted-kept env settings now k5 t4) in
                              and_then-Post (test_services-Post env settings now m w6 t6 loaded o6)
                                λ _ w7 (o7, k7, tested).
                                  weaken-Post
                                    (conclude-Post started m w7
                                      (Trusted-kept env settings now k7 t6) tested o7)
                                    (λ _ w8 (o8, k8, done). (
                                      o8,
                                      (λ q a d. k8 q a (
                                          k7 q a (
                                            k6 q a
                                              (k5 q a (k4 q a (k3 q a (k2 q a (k1 q a d)))))))),
                                      done,
                                    ))
                                    (λ _ _ bad. bad)

  connect-Post :
      (w : State)
      → Obeys P w.log
      → Post
          (Adds env P (λ _ _. Unit {0}) w)
          (Kept env P)
          (connect env (or_empty settings.environment) settings w)
  unfolding connect
  connect-Post w o = elim (Bool-cases (some_of given (external settings))) [
    | inl h ↦ rw h (after-throw_if env P _ _ w _ o λ all_given. returned (o, (λ _ _ d. d), tt))
    | inr h ↦ rw h (
        weaken-Post (just-call env P (get_backup_secret (or_empty settings.environment)) w tt o)
          (λ _ w1 (_, k1, o1, _). (o1, k1, tt)) (λ _ _ bad. bad))
  ]

  -- A run that returns has written its result.
  abbrev pub Done : Unit {0} → State → Type 0
  Done _ w = Obeys P w.log × (Concluded w.log × (w.vars.forwarding ≡ false))

  -- However a run ends, the port is forwarded no more.
  abbrev pub Bad : Stop → State → Type 0
  Bad h w = IsThrow h × Obeys P w.log

  stopped_forward :
      {r : Outcome (Unit {0}) × State} (w : State)
      → Post (Adds env P (λ _. Concluded) w) (Kept env P) r
      → Post Done Bad (finishing r stop_forward)
  unfolding finishing and_then stop_forward
  stopped_forward w (returned (o, _, c)) = returned (o, (c, refl))
  stopped_forward w (stopped {h = throw e} o) = stopped o
  stopped_forward w (stopped {h = exit n} o) = stopped o
  stopped_forward w (stopped {h = diverged} o) = stopped o

  pub run-Post : Post Done Bad (run env settings now)
  unfolding restore
  run-Post =
      let n : Text = scratch settings now in
      let w : State = record {
        log = [];
        time = now;
        cancelled = false;
        vars = record { forwarding = false };
      } in
      after-throw_if env P _ _ w _ tt λ known. after-throw_if env P _ _ w _ tt λ scoped.
        after-gets env P (λ u. u.time) w _
          (after-call env P (make_directory (directory_of n)) w tt tt λ _ w1 (_, k1, o1, _).
            and_then-Post (connect-Post w1 o1) λ connection w2 (o2, k2, _).
              after-throw_if env P _ _ w2 _ o2 λ https.
                after-gets env P (λ u. u.time) w2 _
                  (stopped_forward w2 (rehearse-Post connection.bucket w2.time w2 o2)))
