-- ===== src/Backup/Conduct/Founded.antt =====
-- What a run of deploy/data/backup-cluster.mjs with the argument `recover` has seen before it changes
-- anything.
use cartyx_infrastructure.Base.{
  ℕ, Text, text, List, Bool, true, false, not, ◌++◌, ◌∷◌, ◌≡◌, refl, some_of, if◌then◌else◌,
  true_of_guard, Bool-cases, includes, inl, inr,
}
use cartyx_infrastructure.Script.{
  Stop, Outcome, Settled, resolved, rejected, called, call, after_call, sleep, settled, throw_if,
  or_empty, finishing, throw, exit, diverged, and_then, given,
}
use cartyx_infrastructure.Script.Post.{
  Post, returned, stopped, call-Post, weaken-Post, and_then-Post, when-Post, catching-Post,
}
use cartyx_infrastructure.Script.Discipline.{Did, latest, earlier, Keeps, Obeys, Obeys-append}
use cartyx_infrastructure.Script.Blocks.{gets-Post}
use cartyx_infrastructure.Cluster.Documents.{cassandra, janusgraph, Lease, Pod}
use cartyx_infrastructure.Cluster.Request.{
  Request, Answer, History, Environment, get_lease, get_pods_named, patch_lease, patch_status,
  suspend_helm, suspend_flux, scale, read_file, get_cassandra, get_graph,
}
use cartyx_infrastructure.Cluster.Wait.Rules.{until-Post}
use cartyx_infrastructure.Cluster.Resume.{recovered, resume}
use cartyx_infrastructure.Cluster.Paths.{paths, environments}
use cartyx_infrastructure.Backup.Steps.{State, Context, is_held, standard}
use cartyx_infrastructure.Backup.Main.{
  Settings, is_active, unexpected, start, recover, operate, handle, set_failed, clean_up, main, run,
}
use cartyx_infrastructure.Backup.Conduct.Whole.{is_recovery}
use cartyx_infrastructure.Backup.Conduct.Unsure.{expected}

-- A call that changes the databases, the reconcilers or the lease.
abbrev pub changes : Request → Bool
changes (scale c n) = true
changes (suspend_helm b) = true
changes (suspend_flux b) = true
changes (patch_lease p) = true
changes _ = false

-- The lease is held, by a pod that was seen not to be active, and tells to restore the usual state.
abbrev pub IsFounded : History → Type 0
IsFounded log =
    (lease : Lease) × (pods : List Pod) × Did get_lease lease log
    × (is_held lease ≡ true)
    × (lease.original ≡ resolved standard)
    × Did (get_pods_named (or_empty lease.holder)) pods log
    × (some_of is_active pods ≡ false)

abbrev Allowed : Request → History → Type 0
Allowed q log = changes q ≡ true → IsFounded log

-- The lock of a backup was not taken.
abbrev Ends : Stop → State → Type 0
Ends _ w = Obeys Allowed w.log × (w.vars.locked ≡ false)

abbrev Calm : State → Type 0
Calm w = Obeys Allowed w.log × (w.vars.locked ≡ false)

abbrev Ready : State → Type 0
Ready w = Calm w × IsFounded w.log

IsFounded-later : (log log' : History) → Keeps log log' → IsFounded log → IsFounded log'
IsFounded-later log log' k (lease, pods, read, held, usual, listed, idle) =
    (lease, pods, k _ _ read, held, usual, k _ _ listed, idle)

either : {X : Type 0} (b : Bool) → X → if b then X else X
either true x = x
either false x = x

module _ (env : Environment) where
  call-Calm :
      (q : Request) (w : State)
      → Allowed q w.log
      → Calm w
      → Post (λ a w'. Did q a w'.log × Keeps w.log w'.log × Calm w') Ends (call env q w)
  unfolding after_call
  call-Calm q w p (o, l) =
      call-Post env q w (λ a e. (rw e latest, (λ _ _ d. earlier d), ((p, o), l)))
        (λ m e. ((p, o), l))

  call-Ready : (q : Request) (w : State) → Ready w → Post (λ _. Ready) Ends (call env q w)
  call-Ready q w (c, f) =
      weaken-Post (call-Calm q w (λ _. f) c)
        (λ _ w1 (_, k, c1). (c1, IsFounded-later w.log w1.log k f)) (λ _ _ x. x)

  recovered-Ready :
      (w : State)
      → Ready w
      → Post (λ done w'. if done then Ready w' else Ready w') Ends (recovered env standard w)
  unfolding recovered
  recovered-Ready w r =
      and_then-Post (call-Ready get_cassandra w r)
        λ c w1 r1. and_then-Post (call-Ready get_graph w1 r1) λ g w2 r2. returned (either _ r2)

  sleep-Ready : (w : State) → Ready w → Ready (sleep env 3000 w).1
  unfolding sleep
  sleep-Ready w (c, f) = (c, IsFounded-later w.log _ (λ _ _ d. earlier d) f)

  resume-Ready : (w : State) → Ready w → Post (λ _. Ready) Ends (resume env standard w)
  unfolding resume
  resume-Ready w r = and_then-Post (call-Ready (scale cassandra _) w r) λ _ w1 r1.
      and_then-Post (call-Ready (scale janusgraph _) w1 r1) λ _ w2 r2.
        and_then-Post
          (until-Post env (recovered env standard) Ready Ready Ends recovered-Ready sleep-Ready
            (λ _ _ _ r. r.0) (text "database recovery") 600 w2 r2)
          λ _ w3 r3.
            and_then-Post (call-Ready (suspend_helm _) w3 r3)
              λ _ w4 r4. call-Ready (suspend_flux _) w4 r4

  guard :
      (b : Bool) (message : Text) (w : State)
      → Calm w
      → Post (λ _ w'. (w' ≡ w) × (b ≡ false)) Ends (throw_if b message w)
  guard true message w c = stopped c
  guard false message w c = returned (refl, refl)

  saved :
      {A : Type 0} (r : Settled A) (w : State)
      → Calm w
      → Post (λ a w'. (w' ≡ w) × (r ≡ resolved a)) Ends (settled r w)
  saved (resolved a) w c = returned (refl, refl)
  saved (rejected e) w c = stopped c

  recover-Calm :
      (lease : Lease) (w : State)
      → Did get_lease lease w.log
      → Calm w
      → Post (λ _. Calm) Ends (recover env lease w)
  unfolding recover
  recover-Calm lease w read c =
      and_then-Post
        (when-Post {Q = λ _ w'. (w' ≡ w) × (is_held lease ≡ true)} (not (is_held lease)) _
          (λ _. stopped c) (λ held. (refl, true_of_guard _ held)))
        λ _ w1 (e1, held).
          and_then-Post
            (call-Calm (get_pods_named (or_empty lease.holder)) w1 (λ bad. cc bad) (rw e1 c))
            λ pods w2 (listed, k2, c2).
              and_then-Post (guard (some_of is_active pods) _ w2 c2) λ _ w3 (e3, idle).
                and_then-Post (saved lease.original w3 (rw e3 c2)) λ previous w4 (e4, usual).
                  and_then-Post (guard (unexpected previous) _ w4 (rw (e4, e3) c2))
                    λ _ w5 (e5, fits).
                      (let same : previous ≡ standard =
                          expected previous.graph previous.cassandra previous.helm previous.flux
                            fits in
                        let founded : IsFounded w5.log = (
                          lease,
                          pods,
                          rw (e5, e4, e3) (k2 _ _ (rw e1 read)),
                          held,
                          rw (usual, same) refl,
                          rw (e5, e4, e3) listed,
                          idle,
                        ) in
                        rw same (
                          and_then-Post (resume-Ready w5 (rw (e5, e4, e3) c2, founded)) λ _ w6 r6.
                            and_then-Post (call-Ready (patch_lease _) w6 r6) λ _ w7 r7.
                              and_then-Post (call-Ready (patch_status _) w7 r7)
                                λ _ w8 r8. stopped r8.0))

  located : (namespace : Text) (w : State) → Calm w → Post (λ _. Calm) Ends (paths namespace, w)
  unfolding paths
  located namespace w c = elim (Bool-cases (includes environments namespace)) [
    | inl known ↦ rw known (returned c)
    | inr unknown ↦ rw unknown (stopped c)
  ]

  start-Calm :
      (settings : Settings) (w : State) → Calm w → Post (λ _. Calm) Ends (start env settings w)
  unfolding start
  start-Calm settings w c =
      and_then-Post (plain (text "/var/run/secrets/kubernetes.io/serviceaccount/ca.crt") w c)
        λ _ w1 c1. and_then-Post (located (or_empty settings.pod_namespace) w1 c1) λ p w2 c2.
          and_then-Post (guard (not (given settings.pod_name)) _ w2 c2) λ _ w3 (e3, _).
            and_then-Post (plain (text "/backup-secret/R2_BUCKET") w3 (rw e3 c2)) λ _ w4 c4.
              and_then-Post (plain (text "/backup-secret/R2_ACCOUNT_ID") w4 c4) λ _ w5 c5.
                and_then-Post (plain (text "/backup-secret/AWS_ACCESS_KEY_ID") w5 c5) λ _ w6 c6.
                  and_then-Post (plain (text "/backup-secret/AWS_SECRET_ACCESS_KEY") w6 c6)
                    λ _ w7 c7. gets-Post (λ u. u.time) w7 _ (returned c7)
    where
      plain :
          (path : Text) (u : State) → Calm u → Post (λ _. Calm) Ends (call env (read_file path) u)
      plain path u c =
          weaken-Post (call-Calm (read_file path) u (λ bad. cc bad) c) (λ _ _ (_, _, c1). c1)
            (λ _ _ x. x)

  operate-Calm :
      (settings : Settings) (ctx : Context) (w : State)
      → is_recovery settings ≡ true
      → Calm w
      → Post (λ _. Calm) Ends (operate env settings ctx w)
  unfolding operate
  operate-Calm settings ctx w recovery c =
      and_then-Post (call-Calm get_lease w (λ bad. cc bad) c)
        λ lease w1 (read, _, c1). rw recovery (recover-Calm lease w1 read c1)

  handle-Calm : (message : Text) (w : State) → Calm w → Post (λ _. Calm) Ends (handle env message w)
  unfolding handle set_failed and_then
  handle-Calm message w c =
      and_then-Post
        (when-Post {Q = λ _. Calm} w.vars.locked _ (λ locked. cc (locked, c.1)) (λ _. c))
        λ _ w1 c1. returned c1

  clean_up-Calm : (w : State) → Calm w → Post (λ _. Calm) Ends (clean_up env w)
  unfolding clean_up and_then
  clean_up-Calm w c = when-Post w.vars.locked _ (λ locked. cc (locked, c.1)) (λ _. c)

  main-Calm :
      (settings : Settings) (now : ℕ)
      → is_recovery settings ≡ true
      → Post (λ _. Calm) Ends (run env settings now)
  unfolding main finishing
  main-Calm settings now recovery = and_then-Post (start-Calm settings _ (tt, refl)) λ ctx w c.
      finished (
        catching-Post (operate-Calm settings ctx w recovery c) (λ m u x. handle-Calm m u x)
          (λ _ _ x. x) (λ _ x. x))
    where
      finished :
          {r : Outcome (Unit {0}) × State}
          → Post (λ _. Calm) Ends r
          → Post (λ _. Calm) Ends (finishing r (clean_up env))
      finished (returned x) = and_then-Post (clean_up-Calm _ x) (λ _ _ x'. returned x')
      finished (stopped {h = throw e} x) = and_then-Post (clean_up-Calm _ x) (λ _ _ x'. stopped x')
      finished (stopped {h = exit n} x) = stopped x
      finished (stopped {h = diverged} x) = stopped x

module _ (env : Environment) (settings : Settings) (recovery : is_recovery settings ≡ true) where
  -- Whenever a run with the argument `recover` scales a database, sets a reconciler or changes the
  -- lease, it has read a lease that somebody holds and that tells to restore the usual state, and has
  -- seen that the pod that holds it is neither running nor pending.
  pub change-IsFounded :
      (now : ℕ) (later log : History) (q : Request) (r : Settled (Answer q))
      → changes q ≡ true
      → (run env settings now).1.log ≡ later ++ (called q r ∷ log)
      → IsFounded log
  change-IsFounded now later log q r change e =
      Obeys-append Allowed later q r log (rw e at (obeyed (main-Calm env settings now recovery)))
        change
    where
      obeyed : {s : Outcome (Unit {0}) × State} → Post (λ _. Calm) Ends s → Obeys Allowed s.1.log
      obeyed (returned c) = c.0
      obeyed (stopped c) = c.0
