-- ===== src/Backup/Conduct/Whole.antt =====
-- Every run of the backup keeps to the protocol, and a run that reports success has done all of it.
use cartyx_infrastructure.Base.{
  ℕ, Text, text, Bool, true, false, not, none, some, ◌≡◌, ◌≢◌, refl, inl, inr, arith, Bool-cases,
  text_eq, includes,
}
use cartyx_infrastructure.Script.{
  given, or_empty, throw, exit, diverged, Outcome, and_then, catching, finishing,
}
use cartyx_infrastructure.Script.Post.{
  Post, returned, stopped, and_then-Post, catching-Post, weaken-Post,
}
use cartyx_infrastructure.Cluster.Paths.{paths, environments}
use cartyx_infrastructure.Cluster.Documents.{Lease}
use cartyx_infrastructure.Cluster.Request.{Environment, get_lease, read_file}
use cartyx_infrastructure.Backup.Steps.{State, Context}
use cartyx_infrastructure.Backup.Main.{
  Settings, start_vars, start, back_up, operate, handle, clean_up, main, run, exit_status,
}
use cartyx_infrastructure.Backup.Protocol.{Stage, idle, published, released, step, follow}
use cartyx_infrastructure.Backup.Conduct.Points.{Point, Halted, Sound, unlocked, Point-Safe}
use cartyx_infrastructure.Backup.Conduct.Rules.{same_call, throw_if-Post}
use cartyx_infrastructure.Backup.Conduct.Stopping.{
  preflight-Post, take_lease-Post, suspend_reconcilers-Post,
}
use cartyx_infrastructure.Backup.Conduct.Databases.{read_sources-Post, stop_databases-Post}
use cartyx_infrastructure.Backup.Conduct.Saving.{
  closed_vars, write_archive-Post, bring_back-Post, publish-Post,
}
use cartyx_infrastructure.Backup.Conduct.Retiring.{retire_old_backups-Post, report-Post}
use cartyx_infrastructure.Backup.Conduct.Ending.{
  Ended, Stuck, Failed, Endless, handle-Post, clean_up-Failed, clean_up_finished,
}

-- `process.argv[2] === 'recover'`
abbrev pub is_recovery : Settings → Bool
is_recovery settings = text_eq (or_empty settings.argument) (text "recover")

fresh : {stage : Stage} → Sound start_vars stage
fresh = unlocked refl

paths-Post :
    (namespace : Text) {stage : Stage} {w : State}
    → Point stage stage start_vars w
    → Post (λ _. Point stage stage start_vars) (Halted stage) (paths namespace, w)
unfolding paths
paths-Post namespace p = elim (Bool-cases (includes environments namespace)) [
  | inl known ↦ rw known (returned p)
  | inr unknown ↦ rw unknown (stopped (tt, Point-Safe p fresh))
]

module _ (env : Environment) (settings : Settings) where
  -- The constants change nothing, from whatever stage the history is read.
  pub start-Post :
      {stage : Stage} {w : State}
      → Point stage stage start_vars w
      → Post (λ _. Point stage stage start_vars) (Halted stage) (start env settings w)
  unfolding start step and_then
  start-Post p =
      and_then-Post
        (same_call env (read_file (text "/var/run/secrets/kubernetes.io/serviceaccount/ca.crt")) p
          (λ r. refl) fresh)
        λ _ _ p. and_then-Post (paths-Post _ p) λ _ _ p.
          and_then-Post (throw_if-Post env (not (given settings.pod_name)) _ p fresh) λ _ _ p.
            and_then-Post
              (same_call env (read_file (text "/backup-secret/R2_BUCKET")) p (λ r. refl) fresh)
              λ _ _ p.
                and_then-Post
                  (same_call env (read_file (text "/backup-secret/R2_ACCOUNT_ID")) p (λ r. refl)
                    fresh)
                  λ _ _ p.
                    and_then-Post
                      (same_call env (read_file (text "/backup-secret/AWS_ACCESS_KEY_ID")) p
                        (λ r. refl) fresh)
                      λ _ _ p.
                        and_then-Post
                          (same_call env (read_file (text "/backup-secret/AWS_SECRET_ACCESS_KEY")) p
                            (λ r. refl) fresh)
                          λ _ _ p. returned p

  back_up-Post :
      (ctx : Context) (pages : ℕ) (lease : Lease) {w : State}
      → Point idle idle start_vars w
      → Post (λ _. Point idle published closed_vars) (Halted idle) (back_up env ctx pages lease w)
  unfolding back_up
  back_up-Post ctx pages lease p = and_then-Post (throw_if-Post env _ _ p fresh) λ _ _ p.
      and_then-Post (preflight-Post env p) λ _ _ p.
        and_then-Post (take_lease-Post env ctx lease.resource_version p) λ _ _ p.
          and_then-Post (suspend_reconcilers-Post env p) λ _ _ p.
            and_then-Post (read_sources-Post env p) λ sources _ p.
              and_then-Post (stop_databases-Post env p) λ _ _ p.
                and_then-Post (write_archive-Post env ctx sources p) λ manifest _ p.
                  and_then-Post (bring_back-Post env p) λ _ _ p.
                    and_then-Post (publish-Post env ctx manifest p) λ complete _ p.
                      and_then-Post (retire_old_backups-Post env ctx.prefix pages p)
                        λ _ _ p. report-Post env ctx complete p

  operate-Post :
      (ctx : Context) {w : State}
      → is_recovery settings ≡ false
      → Point idle idle start_vars w
      → Post (λ _. Point idle published closed_vars) (Halted idle) (operate env settings ctx w)
  unfolding operate step
  operate-Post ctx backup p =
      and_then-Post (same_call env get_lease p (λ r. refl) fresh) λ lease _ p.
        rw backup (elim (Bool-cases (given settings.argument)) [
          | inl argument ↦ rw argument (stopped (tt, Point-Safe p fresh))
          | inr plain ↦ rw plain (back_up-Post ctx settings.page_limit lease p)
        ])

  -- After the body of the `try` and the `catch`.
  data Handled (w : State) : Type 0 where
    succeeded : Point idle published closed_vars w → Handled w
    failed : Failed w → Handled w

  -- At the end of the run.
  data Closed (w : State) : Type 0 where
    complete : Point idle (released true) closed_vars w → Closed w
    incomplete : Ended w → w.vars.exit_code ≡ 1 → Closed w

  clean_up-Post : (w : State) → Handled w → Post (λ _. Closed) Stuck (clean_up env w)
  clean_up-Post w (succeeded p) =
      weaken-Post (clean_up_finished env w p) (λ _ _ q. complete q) (λ _ _ q. q)
  clean_up-Post w (failed f) =
      weaken-Post (clean_up-Failed env w f) (λ _ _ q. incomplete q.0 q.1) (λ _ _ q. q)

  finishing-Post :
      {r : Outcome (Unit {0}) × State}
      → Post (λ _. Handled) Endless r
      → Post (λ _. Closed) Stuck (finishing r (clean_up env))
  unfolding finishing
  finishing-Post (returned h) = and_then-Post (clean_up-Post _ h) (λ _ _ c. returned c)
  finishing-Post (stopped {h = throw e} s) = absurd s
  finishing-Post (stopped {h = exit n} s) = absurd s
  finishing-Post (stopped {h = diverged} s) = stopped (tt, s)

  try-Post :
      (ctx : Context) (w : State)
      → is_recovery settings ≡ false
      → Point idle idle start_vars w
      → Post (λ _. Handled) Endless (catching (operate env settings ctx w) (handle env))
  try-Post ctx w backup p =
      catching-Post (weaken-Post (operate-Post ctx backup p) (λ _ _ q. succeeded q) (λ _ _ h. h))
        (λ e w' h. weaken-Post (handle-Post env e w' h.1) (λ _ _ f. failed f) (λ _ _ no. absurd no))
        (λ n w' h. absurd h.0) (λ w' h. (h.1.stage, h.1.at))

  main-Post :
      (now : ℕ) → is_recovery settings ≡ false → Post (λ _. Closed) Stuck (run env settings now)
  unfolding main follow
  main-Post now backup =
      and_then-Post
        (weaken-Post (start-Post (record { at = refl; holds = refl })) (λ _ _ p. p)
          (λ h w s. (s.0, (s.1.stage, s.1.at))))
        λ ctx w p. finishing-Post (try-Post ctx w backup p)

  Closed-Ended : (w : State) → Closed w → Ended w
  Closed-Ended w (complete p) = (released true, p.at)
  Closed-Ended w (incomplete e _) = e

  ended : {r : Outcome (Unit {0}) × State} → Post (λ _. Closed) Stuck r → follow idle r.1.log ≢ none
  ended (returned c) = λ e. let (stage, at) = Closed-Ended _ c in cc (at, e)
  ended (stopped s) = λ e. cc (s.1.1, e)

  -- A run that is no recovery makes no call that the protocol forbids, whatever the cluster, the
  -- object store and the signals do, and however the run ends.
  pub run_follows_protocol :
      (now : ℕ) → is_recovery settings ≡ false → follow idle (run env settings now).1.log ≢ none
  run_follows_protocol now backup = ended (main-Post now backup)

  success :
      {r : Outcome (Unit {0}) × State}
      → Post (λ _. Closed) Stuck r
      → exit_status r ≡ some 0
      → follow idle r.1.log ≡ some (released true)
  success (returned (complete p)) e = p.at
  success (returned (incomplete _ status)) e = ground arith
  success (stopped {h = throw m} s) e = ground arith
  success (stopped {h = exit n} s) e = absurd s.0
  success (stopped {h = diverged} s) e = cc

  -- A run that is no recovery and ends with status 0 has gone through the whole protocol: the
  -- completion marker was published and the lease released.
  pub run_success_is_complete :
      (now : ℕ)
      → is_recovery settings ≡ false
      → exit_status (run env settings now) ≡ some 0
      → follow idle (run env settings now).1.log ≡ some (released true)
  run_success_is_complete now backup e = success (main-Post now backup) e
