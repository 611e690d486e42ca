-- ===== src/Kubernetes/Checking.antt =====
-- `cql-security` of deploy/data/kubernetes.mjs: each call is founded, and its Job is deleted.
use cartyx_infrastructure.Base.{
  Text, text, [], ◌∷◌, Option, none, some, ◌≡◌, inl, inr, refl, sym, ap,
}
use mathlib.Core.Path.{subst}
use cartyx_infrastructure.Script.{
  Env, Log, throw, called, resolved, call, after_call, or_empty, ◌>>=◌, try_finally,
}
use cartyx_infrastructure.Script.Post.{
  Post, returned, stopped, call-Post, weaken-Post, and_then-Post,
}
use cartyx_infrastructure.Script.Discipline.{IsThrow, Did, latest, Keeps, Obeys, just-call}
use cartyx_infrastructure.Script.Blocks.{finally-Post, gets-Post, append-Did}
use cartyx_infrastructure.Kubernetes.Requests.{
  Pod, Job, Answer, Settings, State, list_jobs, create_job, wait_job, read_logs, delete_job,
}
use cartyx_infrastructure.Kubernetes.Jobs.{
  bootstrap_of, found, secured, job_name, watch_job, check_cql_security,
}
use cartyx_infrastructure.Kubernetes.Ends.{IsChecked}
use cartyx_infrastructure.Kubernetes.Trust.{Allowed, Plain, IsAdmitted, IsSecured, here}
use cartyx_infrastructure.Kubernetes.Tidy.{
  IsTidy, Plain-Barren, Plain-Allowed, Fails, Plain-Fails, rejection-Fails, After, call-After,
  removal-Post,
}

module _ (env : Env Answer) (settings : Settings) (admitted : IsAdmitted settings) where
  abbrev pub Checks : Unit {0} → State → Type 0
  Checks _ w = (Obeys (Allowed settings) w.log × IsTidy settings w.log) × IsChecked settings w.log

  watch_job-Post :
      (name : Text) (base : Log Answer) (w : State)
      → After settings env base w
      → Post
          (λ _ w'. After settings env base w' × Did (wait_job (here settings) name) tt w'.log)
          (λ h w'. IsThrow h × After settings env base w')
          (watch_job env (here settings) name w)
  unfolding watch_job
  watch_job-Post name base w a =
      and_then-Post
        (call-After settings env base (wait_job (here settings) name) w tt (admitted, refl, tt) a)
        λ _ w1 (a1, waited, _).
          and_then-Post
            (call-After settings env base (read_logs (here settings) name) w1 tt
              (admitted, refl, tt) a1)
            λ _ w2 (a2, _, k2). returned (a2, k2 _ _ waited)

  create-Post :
      (name : Text) (pod : Pod) (w : State)
      → Allowed settings (create_job (here settings) name pod) w.log
      → Obeys (Plain settings) w.log
      → Post
          (λ _ w'.
            After settings env
              (called (create_job (here settings) name pod) (resolved tt) ∷ w.log)
              w')
          (Fails settings env)
          (call env (create_job (here settings) name pod) w)
  unfolding after_call
  create-Post name pod w p o =
      call-Post env (create_job (here settings) name pod) w
        (λ a e. (
          ([], ap (λ r. called (create_job (here settings) name pod) r ∷ w.log) e, tt),
          (p, Plain-Allowed settings w.log o),
        ))
        (λ m e. (
          tt,
          subst
              (λ r.
                Obeys (Allowed settings) (called (create_job (here settings) name pod) r ∷ w.log)
                × IsTidy settings (called (create_job (here settings) name pod) r ∷ w.log))
              (sym e) (rejection-Fails settings env (create_job (here settings) name pod) m w p o),
        ))

  created :
      (name : Text) (pod : Pod) (before : Log Answer) (w : State)
      → After settings env (called (create_job (here settings) name pod) (resolved tt) ∷ before) w
      → Did (create_job (here settings) name pod) tt w.log
  created name pod before w ((middle, e, _), _) = rw e (append-Did middle latest)

  delete-Post :
      (name : Text) (pod : Pod) (before : Log Answer) (w : State)
      → Obeys (Plain settings) before
      → After settings env (called (create_job (here settings) name pod) (resolved tt) ∷ before) w
      → Post
          (λ _ w'.
            Did (delete_job (here settings) name) tt w'.log
            × Keeps w.log w'.log
            × (Obeys (Allowed settings) w'.log × IsTidy settings w'.log))
          (Fails settings env)
          (call env (delete_job (here settings) name) w)
  delete-Post name pod before w o a =
      weaken-Post
        (removal-Post settings env (create_job (here settings) name pod) tt
          (delete_job (here settings) name) before w
          (admitted, refl, (pod, created name pod before w a)) (Plain-Barren settings before o) a)
        (λ _ w1 (deleted, k1, o1, removed). (deleted, k1, (o1, inr (inl (name, pod, removed)))))
        (λ h w1 (thrown, (o1, removed)). (thrown, (o1, inr (inl (name, pod, removed)))))

  run_job-Post :
      (name : Text) (pod : Pod) (w : State)
      → Allowed settings (create_job (here settings) name pod) w.log
      → Obeys (Plain settings) w.log
      → Post Checks (Fails settings env) (
          (call env (create_job (here settings) name pod) >>= λ _.
          try_finally
            (watch_job env (here settings) name)
            (call env (delete_job (here settings) name)))
            w)
  run_job-Post name pod w p o =
      let base : Log Answer = called (create_job (here settings) name pod) (resolved tt) ∷ w.log in
      and_then-Post (create-Post name pod w p o) λ _ w1 a1.
        finally-Post {E = λ u. After settings env base u} (watch_job-Post name base w1 a1)
          (λ _ w2 (a2, waited).
            weaken-Post (delete-Post name pod w.log w2 o a2)
              (λ _ w3 (deleted, k3, tidy).
                (tidy, (name, pod, k3 _ _ (created name pod w.log w2 a2), k3 _ _ waited, deleted)))
              (λ _ _ bad. bad))
          (λ w2 a2.
            weaken-Post (delete-Post name pod w.log w2 o a2) (λ _ _ (_, _, tidy). tidy)
              (λ _ _ bad. bad))

  found-Post :
      (job : Option Job) (w : State)
      → Obeys (Plain settings) w.log
      → Post (λ j w'. (job ≡ some j) × (w' ≡ w)) (Fails settings env) (found job w)
  unfolding found
  found-Post none w o =
      stopped (Plain-Fails settings env (throw (text "Data bootstrap Job not found")) w (tt, o))
  found-Post (some j) w o = returned (refl, refl)

  secured-Post :
      (pod : Pod) (w : State)
      → Obeys (Plain settings) w.log
      → Post (λ p w'. IsSecured pod p × (w' ≡ w)) (Fails settings env) (secured pod w)
  unfolding secured
  secured-Post [] w o = stopped (
      Plain-Fails settings env
        (throw (text "Cannot set properties of undefined (setting 'command')")) w (tt, o))
  secured-Post (c ∷ rest) w o = returned ((c, rest, refl, refl), refl)

  pub check_cql_security-Post :
      (w : State)
      → or_empty settings.action ≡ text "cql-security"
      → Obeys (Plain settings) w.log
      → Post Checks (Fails settings env) (check_cql_security env (here settings) w)
  unfolding check_cql_security
  check_cql_security-Post w chosen o =
      and_then-Post
        (weaken-Post
          (just-call env (Plain settings) (list_jobs (here settings)) w ((admitted, refl, tt), tt)
            o)
          (λ _ _ left. left) (Plain-Fails settings env))
        λ jobs w1 (listed, k1, o1, _).
          and_then-Post (found-Post (bootstrap_of jobs) w1 o1) λ job w2 (first, e2).
            gets-Post (λ u. u.time) w2 _
              (let o2 : Obeys (Plain settings) w2.log = rw e2 o1 in
                and_then-Post (secured-Post job.pod w2 o2) λ pod w3 (secure, e3).
                  run_job-Post (job_name w2.time) pod w3
                    (admitted, refl, (chosen, (jobs, job, (rw (e3, e2) listed), first, secure)))
                    (rw e3 o2))
