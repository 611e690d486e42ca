-- ===== src/Restore/Volume.antt =====
-- How deploy/data/restore-cluster.mjs fills and tests the new volume, each call where it is allowed.
use mathlib.Core.Path.{subst}
use cartyx_infrastructure.Base.{
  ℕ, Text, text, ◌++◌, true, ◌==◌, ◌≡◌, refl, some, none, Option, number_of_guard, Bool-cases, inl,
  inr, ap,
}
use cartyx_infrastructure.Script.{Env, Log, or_empty, and_then}
use cartyx_infrastructure.Script.Post.{Post, returned, stopped, weaken-Post, and_then-Post}
use cartyx_infrastructure.Script.Discipline.{
  Did, Obeys, Keeps, Kept, Adds, just-call, after-call, for_each-Post,
}
use cartyx_infrastructure.Restore.Requests.{
  Completion, Request, Answer, Settings, State, make_directory, member_credential, write_credential,
  create_namespace, create_secret, create_claim, create_loader, wait_loader, extract, delete_loader,
  install_chart, forward_port, smoke_test, security_test, cql_security_test,
}
use cartyx_infrastructure.Restore.Loading.{
  credential_names, check_extraction, copy_member, copy_credentials, load, test_services,
}
use cartyx_infrastructure.Restore.Main.{archive_of, credentials_of}
use cartyx_infrastructure.Restore.Trust.{
  Allowed, IsTrusted, IsTrusted-kept, IsLoaded, IsTested, scratch,
}

module _ (env : Env Answer) (settings : Settings) (now : ℕ) where
  abbrev P : Request → Log Answer → Type 0
  P = Allowed settings now

  -- The marker and the archive of this run are trusted.
  abbrev pub Trusted : Completion → Log Answer → Type 0
  Trusted =
      IsTrusted (or_empty settings.environment) (or_empty settings.manifest_key)
        (archive_of (scratch settings now))

  pub Trusted-kept :
      {m : Completion} {log log' : Log Answer} → Keeps log log' → Trusted m log → Trusted m log'
  Trusted-kept {m} k t =
      IsTrusted-kept (or_empty settings.environment) (or_empty settings.manifest_key)
        (archive_of (scratch settings now)) m k t

  copy_member-Post :
      (archive credentials name : Text) (w : State)
      → Obeys P w.log
      → Post
          (Adds env P (λ _ _. Unit {0}) w)
          (Kept env P)
          (copy_member env archive credentials name w)
  unfolding copy_member
  copy_member-Post archive credentials name w o =
      after-call env P (member_credential archive name) w tt o λ content w1 (_, k1, o1, _).
        weaken-Post
          (just-call env P (write_credential (credentials ++ (text "/" ++ name)) content) w1 tt o1)
          (λ _ w2 (_, k2, o2, _). (o2, (λ q a d. k2 q a (k1 q a d)), tt)) (λ _ _ bad. bad)

  pub copy_credentials-Post :
      (archive credentials : Text) (w : State)
      → Obeys P w.log
      → Post
          (Adds env P (λ _ _. Unit {0}) w)
          (Kept env P)
          (copy_credentials env archive credentials w)
  unfolding copy_credentials
  copy_credentials-Post archive credentials w o =
      after-call env P (make_directory credentials) w tt o λ _ w1 (_, k1, o1, _).
        weaken-Post
          (for_each-Post env P (λ _ _. Unit {0}) (λ _ _ _ _ _. tt)
            (copy_member env archive credentials) w1
            (λ name w2 _ o2. copy_member-Post archive credentials name w2 o2) credential_names w1
            (λ _ _ d. d) o1)
          (λ _ w3 (o3, k3, _). (o3, (λ q a d. k3 q a (k1 q a d)), tt)) (λ _ _ bad. bad)

  check_extraction-Post :
      (code : Option ℕ) (w : State)
      → Obeys P w.log
      → Post (λ _ w'. (w' ≡ w) × (code ≡ some 0)) (Kept env P) (check_extraction code w)
  unfolding check_extraction
  check_extraction-Post none w o = stopped (tt, o)
  check_extraction-Post (some n) w o = elim (Bool-cases (n == 0)) [
    | inl h ↦ rw h (returned (refl, ap some (number_of_guard n 0 (rw h refl))))
    | inr h ↦ rw h (stopped (tt, o))
  ]

  pub load-Post :
      (storage : Text) (m : Completion) (w : State)
      → Trusted m w.log
      → Obeys P w.log
      → Post (Adds env P (λ _. IsLoaded settings now) w) (Kept env P) (
          load env
            (scratch settings now)
            (archive_of (scratch settings now))
            (credentials_of (scratch settings now))
            storage
            m
            w)
  unfolding load
  load-Post storage m w t o =
      let n : Text = scratch settings now in
      after-call env P (create_namespace n) w (refl, (m, t)) o
        λ _ w1 (made, k1, o1, _).
          let t1 = Trusted-kept k1 t in
          after-call env P (create_secret n (credentials_of n) credential_names) w1
            ((refl, (m, t1)), made) o1
            λ _ w2 (_, k2, o2, _).
              let t2 = Trusted-kept k2 t1 in
              after-call env P (create_claim n storage) w2 ((refl, (m, t2)), k2 _ _ made) o2
                λ _ w3 (_, k3, o3, _).
                  let t3 = Trusted-kept k3 t2 in
                  after-call env P (create_loader n m.cassandra_image) w3
                    ((refl, (m, t3)), k3 _ _ (k2 _ _ made)) o3
                    λ _ w4 (_, k4, o4, _).
                      let made4 = k4 _ _ (k3 _ _ (k2 _ _ made)) in
                      after-call env P (wait_loader n) w4 tt o4 λ _ w5 (ready, k5, o5, _).
                        let t5 = Trusted-kept k5 (Trusted-kept k4 t3) in
                        after-call env P (extract n (archive_of n)) w5
                          ((refl, (m, t5)), k5 _ _ made4, ready) o5
                          λ code w6 (out, k6, o6, _).
                            and_then-Post (check_extraction-Post code w6 o6) λ _ w7 (same, zero).
                              let loaded : IsLoaded settings now w6.log = (
                                k6 _ _ (k5 _ _ made4),
                                k6 _ _ ready,
                                subst (λ c. Did (extract n (archive_of n)) c w6.log) zero out,
                              ) in
                              rw same (
                                weaken-Post
                                  (just-call env P (delete_loader n) w6
                                    ((refl, (m, Trusted-kept k6 t5)), loaded) o6)
                                  (λ _ w8 (_, k8, o8, _). (
                                    o8,
                                    (λ q a d.
                                        k8 q a
                                          (k6 q a (k5 q a (k4 q a (k3 q a (k2 q a (k1 q a d))))))),
                                    (k8 _ _ loaded.0, k8 _ _ loaded.1, k8 _ _ loaded.2),
                                  ))
                                  (λ _ _ bad. bad))

  IsLoaded-kept :
      {log log' : Log Answer}
      → Keeps log log'
      → IsLoaded settings now log
      → IsLoaded settings now log'
  IsLoaded-kept k (a, b, c) = (k _ _ a, k _ _ b, k _ _ c)

  pub test_services-Post :
      (m : Completion) (w : State)
      → Trusted m w.log
      → IsLoaded settings now w.log
      → Obeys P w.log
      → Post (Adds env P (λ _. IsTested settings now) w) (Kept env P) (
          test_services env
            (or_empty settings.environment)
            (scratch settings now)
            (credentials_of (scratch settings now))
            w)
  unfolding test_services and_then
  test_services-Post m w t l o =
      let n : Text = scratch settings now in
      let e : Text = or_empty settings.environment in
      after-call env P (install_chart n e) w ((refl, (m, t)), l) o
        λ _ w1 (up, k1, o1, _).
          let w' : State = record w1 { vars = record { forwarding = true } } in
          after-call env P (forward_port n) w' tt o1 λ port w2 (_, k2, o2, _).
            after-call env P (smoke_test (credentials_of n) port) w2 tt o2
              λ _ w3 (smoke, k3, o3, _).
                after-call env P (security_test (credentials_of n) port) w3 tt o3
                  λ _ w4 (safe, k4, o4, _).
                    weaken-Post (just-call env P (cql_security_test e n) w4 tt o4)
                      (λ _ w5 (cql, k5, o5, _).
                        let k : Keeps w1.log w5.log =
                          λ q a d. k5 q a (k4 q a (k3 q a (k2 q a d))) in
                        (
                          o5,
                          (λ q a d. k q a (k1 q a d)),
                          (
                            IsLoaded-kept (λ q a d. k q a (k1 q a d)) l,
                            k _ _ up,
                            (port, k5 _ _ (k4 _ _ smoke), k5 _ _ safe),
                            cql,
                          ),
                        ))
                      (λ _ _ bad. bad)

  pub IsTested-kept :
      {log log' : Log Answer}
      → Keeps log log'
      → IsTested settings now log
      → IsTested settings now log'
  IsTested-kept k (l, up, (port, smoke, safe), cql) =
      (IsLoaded-kept k l, k _ _ up, (port, k _ _ smoke, k _ _ safe), k _ _ cql)
