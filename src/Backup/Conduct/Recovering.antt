-- ===== src/Backup/Conduct/Recovering.antt =====
-- A run with the argument `recover` keeps to the protocol from the stage where an interrupted run has
-- left everything unsure, and a run that reports success has restored the services.
use mathlib.Core.Option
use cartyx_infrastructure.Base.{
  ℕ, Text, true, false, none, some, ◌≡◌, ◌≢◌, ◌⊎◌, refl, inl, inr, arith,
}
use cartyx_infrastructure.Script.{
  Stop, throw, exit, diverged, Outcome, call, and_then, catching, finishing, after_call, when,
}
use cartyx_infrastructure.Script.Post.{
  Post, NoExit, returned, stopped, and_then-Post, catching-Post, weaken-Post, when-Post, call-Post,
}
use cartyx_infrastructure.Script.Discipline.{Did, latest}
use cartyx_infrastructure.Cluster.Request.{Environment, get_lease}
use cartyx_infrastructure.Backup.Steps.{State, Context}
use cartyx_infrastructure.Backup.Main.{
  Settings, start_vars, operate, handle, set_failed, clean_up, main, run, exit_status,
}
use cartyx_infrastructure.Backup.Protocol.{Stage, unsure, step, follow, next}
use cartyx_infrastructure.Backup.Conduct.Points.{Point}
use cartyx_infrastructure.Backup.Conduct.Whole.{is_recovery, start-Post}
use cartyx_infrastructure.Backup.Conduct.Unsure.{Lost, IsVacant, IsFreed, Over, recover-Post}

module _ (env : Environment) (settings : Settings) (recovery : is_recovery settings ≡ true) where
  known_lease :
      (w : State)
      → Point unsure unsure start_vars w
      → Post
          (λ lease w'. Point unsure unsure start_vars w' × Did get_lease lease w'.log)
          Over
          (call env get_lease w)
  unfolding follow next step after_call Option.bind
  known_lease w p =
      call-Post env get_lease w
        (λ a e. (record { at = rw p.at refl; holds = p.holds }, rw e latest))
        (λ e r. (unsure, record { at = rw p.at refl; holds = p.holds }))

  operate-Over :
      (ctx : Context) (w : State)
      → Point unsure unsure start_vars w
      → Post (λ _ _. ⊥) Over (operate env settings ctx w)
  unfolding operate
  operate-Over ctx w p =
      and_then-Post (known_lease w p)
        λ lease w1 (p1, d). rw recovery (recover-Post env lease w1 d p1)

  -- After the `catch`: nothing was locked, and the status is 1.
  abbrev Excused : State → Type 0
  Excused w =
      ((stage : Stage) × (follow unsure w.log ≡ some stage))
      × (w.vars.locked ≡ false)
      × (w.vars.exit_code ≡ 1)

  -- How the whole run is left.
  abbrev Left : Stop → State → Type 0
  Left (throw e) w = (stage : Stage) × (follow unsure w.log ≡ some stage)
  Left (exit n) w = (n ≡ 0) × (IsVacant w ⊎ IsFreed w)
  Left diverged w = (stage : Stage) × (follow unsure w.log ≡ some stage)

  -- How the `try` is left, its `catch` included.
  abbrev Shut : Stop → State → Type 0
  Shut (throw e) w = ⊥
  Shut (exit n) w = Left (exit n) w
  Shut diverged w = Left diverged w

  excused : (e : Text) (w : State) → Lost w → Post (λ _. Excused) Shut (handle env e w)
  unfolding handle set_failed when and_then
  excused e w (stage, p) = rw p.holds (returned ((stage, p.at), refl, refl))

  try_over :
      (ctx : Context) (w : State)
      → Point unsure unsure start_vars w
      → Post (λ _. Excused) Shut (catching (operate env settings ctx w) (handle env))
  try_over ctx w p =
      catching-Post (weaken-Post (operate-Over ctx w p) (λ _ _ no. absurd no) (λ _ _ l. l))
        (λ e w' l. excused e w' l) (λ n w' l. l) (λ w' l. (l.0, l.1.at))

  nothing_to_clean : (w : State) → Excused w → Post (λ _. Excused) Left (clean_up env w)
  unfolding clean_up and_then
  nothing_to_clean w x = when-Post w.vars.locked _ (λ locked. cc (locked, x.1)) (λ _. x)

  finished :
      {r : Outcome (Unit {0}) × State}
      → Post (λ _. Excused) Shut r
      → Post (λ _. Excused) Left (finishing r (clean_up env))
  unfolding finishing
  finished (returned x) = and_then-Post (nothing_to_clean _ x) (λ _ _ x. returned x)
  finished (stopped {h = throw e} l) = absurd l
  finished (stopped {h = exit n} l) = stopped l
  finished (stopped {h = diverged} l) = stopped l

  main_over : (now : ℕ) → Post (λ _. Excused) Left (run env settings now)
  unfolding main follow
  main_over now =
      and_then-Post
        (weaken-Post (start-Post env settings (record { at = refl; holds = refl })) (λ _ _ p. p)
          (λ h w s. left_early h w s.0 (s.1.stage, s.1.at)))
        λ ctx w p. finished (try_over ctx w p)
    where
      left_early :
          (h : Stop) (w : State)
          → NoExit h
          → (stage : Stage) × (follow unsure w.log ≡ some stage)
          → Left h w
      left_early (throw e) w n l = l
      left_early (exit m) w n l = absurd n
      left_early diverged w n l = l

  -- A run with the argument `recover` makes no call that the protocol forbids from the stage at which
  -- nothing is known of the services, whatever the cluster does, and however the run ends: above all,
  -- Flux and Helm are resumed only once both databases were seen ready, and the lease is released
  -- only after that.
  pub recovery_follows_protocol : (now : ℕ) → follow unsure (run env settings now).1.log ≢ none
  recovery_follows_protocol now = kept (main_over now)
    where
      kept :
          {r : Outcome (Unit {0}) × State}
          → Post (λ _. Excused) Left r
          → follow unsure r.1.log ≢ none
      kept (returned x) = λ e. cc (x.0.1, e)
      kept (stopped {h = throw m} l) = λ e. cc (l.1, e)
      kept (stopped {h = exit n} (_, inl vacant)) = λ e. cc (vacant.0, e)
      kept (stopped {h = exit n} (_, inr freed)) = λ e. cc (freed.0, e)
      kept (stopped {h = diverged} l) = λ e. cc (l.1, e)

  -- A run with the argument `recover` that ends with status 0 read a lease that nobody held, or the last
  -- words on both databases, on both reconcilers and on the lease are acknowledged: one replica each,
  -- no suspension, and a release.
  pub recovery_success_is_complete :
      (now : ℕ)
      → exit_status (run env settings now) ≡ some 0
      → IsVacant (run env settings now).1 ⊎ IsFreed (run env settings now).1
  recovery_success_is_complete now e = succeeded (main_over now) e
    where
      succeeded :
          {r : Outcome (Unit {0}) × State}
          → Post (λ _. Excused) Left r
          → exit_status r ≡ some 0
          → IsVacant r.1 ⊎ IsFreed r.1
      succeeded (returned (_, _, failed)) e = ground arith
      succeeded (stopped {h = throw m} l) e = ground arith
      succeeded (stopped {h = exit n} l) e = l.1
      succeeded (stopped {h = diverged} l) e = cc e
