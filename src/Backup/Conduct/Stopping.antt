-- ===== src/Backup/Conduct/Stopping.antt =====
-- The steps of the backup that lead to stopped databases, in the protocol.
use cartyx_infrastructure.Base.{Text, true, false, some, refl, inl, inr, Bool-cases, if◌then◌else◌}
use cartyx_infrastructure.Script.{Script, call, and_then}
use cartyx_infrastructure.Script.Post.{Post, returned, and_then-Post}
use cartyx_infrastructure.Cluster.Clock.{micro_time}
use cartyx_infrastructure.Cluster.Documents.{acquire, Release}
use cartyx_infrastructure.Cluster.Request.{
  Environment, get_helm, get_flux, get_graph, get_cassandra, patch_lease, suspend_helm,
  suspend_flux,
}
use cartyx_infrastructure.Backup.Steps.{
  Vars, State, Context, standard, preflight, take_lease, idle as idle_check, suspend_reconcilers,
  reconciling,
}
use cartyx_infrastructure.Backup.Main.{start_vars}
use cartyx_infrastructure.Backup.Protocol.{Stage, idle, locked, flux_paused, paused, unsure, step}
use cartyx_infrastructure.Backup.Conduct.Points.{Point, Halted, Sound, unlocked, settled, disturbed}
use cartyx_infrastructure.Backup.Conduct.Rules.{
  safe_call, same_call, attempt-call, settled-Post, throw_if-Post, set_vars_post, until_step,
}

abbrev prepared_vars : Vars
prepared_vars = record start_vars { original = some standard }

abbrev locked_vars : Vars
locked_vars = record prepared_vars { locked = true }

abbrev pub open_vars : Vars
open_vars = record locked_vars { needs_recovery = true }

module _ (env : Environment) where
  pub preflight-Post :
      {w : State}
      → Point idle idle start_vars w
      → Post (λ _. Point idle idle start_vars) (Halted idle) (preflight env w)
  unfolding preflight step
  preflight-Post p = and_then-Post (attempt-call env get_graph p (λ r. refl)) λ g _ p.
      and_then-Post (attempt-call env get_cassandra p (λ r. refl)) λ c _ p.
        and_then-Post (attempt-call env get_helm p (λ r. refl)) λ h _ p.
          and_then-Post (attempt-call env get_flux p (λ r. refl)) λ f _ p.
            and_then-Post (settled-Post env g p (unlocked refl)) λ _ _ p.
              and_then-Post (settled-Post env c p (unlocked refl)) λ _ _ p.
                and_then-Post (settled-Post env h p (unlocked refl)) λ _ _ p.
                  and_then-Post (settled-Post env f p (unlocked refl)) λ _ _ p.
                    and_then-Post (throw_if-Post env _ _ p (unlocked refl)) λ _ _ p.
                      and_then-Post (throw_if-Post env _ _ p (unlocked refl))
                        λ _ _ p. throw_if-Post env _ _ p (unlocked refl)

  pub take_lease-Post :
      (ctx : Context) (version : Text) {w : State}
      → Point idle idle start_vars w
      → Post (λ _. Point idle locked open_vars) (Halted idle) (take_lease env ctx version w)
  unfolding take_lease step and_then
  take_lease-Post ctx version {w} p =
      and_then-Post
        (safe_call env (patch_lease (acquire version standard ctx.owner (micro_time w.time) 3600))
          (λ _. locked) idle (set_vars_post env (λ v. record v { original = some standard }) p)
          (λ _. refl) (λ e. refl) (unlocked refl))
        λ _ _ p.
          and_then-Post
            (same_call env _ (set_vars_post env (λ v. record v { locked = true }) p) (λ r. refl)
              (settled refl refl refl))
            λ _ _ p. returned (set_vars_post env (λ v. record v { needs_recovery = true }) p)

  idle-Post :
      (q : Script State Release) (stage : Stage)
      → Sound open_vars stage
      → ((w : State)
          → Point idle stage open_vars w
          → Post (λ _. Point idle stage open_vars) (Halted idle) (q w))
      → (w : State) → Point idle stage open_vars w
      → Post
          (λ done w'. if done then Point idle stage open_vars w' else Point idle stage open_vars w')
          (Halted idle)
          (idle_check env q w)
  unfolding idle_check
  idle-Post q stage s h w p = and_then-Post (h w p) λ r w' p'. elim (Bool-cases (reconciling r)) [
    | inl busy ↦ rw busy (returned p')
    | inr free ↦ rw free (returned p')
  ]

  pub suspend_reconcilers-Post :
      {w : State}
      → Point idle locked open_vars w
      → Post (λ _. Point idle paused open_vars) (Halted idle) (suspend_reconcilers env w)
  unfolding suspend_reconcilers step
  suspend_reconcilers-Post p =
      and_then-Post
        (safe_call env (suspend_flux true) (λ _. flux_paused) unsure p (λ _. refl) (λ e. refl)
          (disturbed false refl refl refl refl))
        λ _ _ p.
          and_then-Post
            (until_step env _ flux_paused _ 120 p (disturbed false refl refl refl refl) (
              idle-Post (call env get_flux) flux_paused (disturbed false refl refl refl refl)
                (λ w p.
                  same_call env get_flux p (λ r. refl) (disturbed false refl refl refl refl))))
            λ _ _ p.
              and_then-Post
                (safe_call env (suspend_helm true) (λ _. paused) unsure p (λ _. refl) (λ e. refl)
                  (disturbed false refl refl refl refl))
                λ _ _ p. until_step env _ paused _ 120 p (disturbed false refl refl refl refl) (
                  idle-Post (call env get_helm) paused (disturbed false refl refl refl refl) (λ w p.
                    same_call env get_helm p (λ r. refl) (disturbed false refl refl refl refl)))
