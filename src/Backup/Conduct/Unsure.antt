-- ===== src/Backup/Conduct/Unsure.antt =====
-- The `recover` branch of deploy/data/backup-cluster.mjs, step by step.
use mathlib.Core.Option
use cartyx_infrastructure.Base.{
  ℕ, Text, text, Bool, true, false, not, ◌==◌, some, ◌≡◌, ◌⊎◌, refl, inl, inr, arith, some_of,
  both_of_guard, number_of_guard,
}
use cartyx_infrastructure.Script.{
  Stop, throw, exit, diverged, Settled, resolved, rejected, call, settled, throw_if, after_call,
  or_empty,
}
use cartyx_infrastructure.Script.Post.{
  Post, NoExit, returned, stopped, and_then-Post, weaken-Post, when-Post, call-Post,
}
use cartyx_infrastructure.Script.Discipline.{Did}
use cartyx_infrastructure.Cluster.Documents.{Lease, release}
use cartyx_infrastructure.Cluster.Request.{
  Request, Answer, Environment, get_lease, get_pods_named, patch_lease, patch_status,
}
use cartyx_infrastructure.Backup.Steps.{State, standard, is_held, phase_only}
use cartyx_infrastructure.Backup.Main.{start_vars, is_active, unexpected, recover}
use cartyx_infrastructure.Backup.Protocol.{
  Stage, unsure, back, dangling, released, step, follow, next,
}
use cartyx_infrastructure.Backup.Protocol.Meaning.{said, words, IsRestored}
use cartyx_infrastructure.Backup.Protocol.Following.{follow-Means}
use cartyx_infrastructure.Backup.Conduct.Points.{Point, Threw-NoExit, call-step}
use cartyx_infrastructure.Backup.Conduct.Recovery.{resume-Post}

-- Where a recovery that did not succeed was left, with none of its variables changed.
abbrev pub Lost : State → Type 0
Lost w = (stage : Stage) × Point unsure stage start_vars w

-- No lease was held, and nothing was changed.
abbrev pub IsVacant : State → Type 0
IsVacant w =
    (follow unsure w.log ≡ some unsure)
    × ((lease : Lease) × Did get_lease lease w.log × (is_held lease ≡ false))

-- Everything is back, and the lease is released.
abbrev pub IsFreed : State → Type 0
IsFreed w =
    (follow unsure w.log ≡ some (released false))
    × IsRestored (words w.log)
    × ((words w.log).lease ≡ said false)

-- How the body of the `try` is left.
abbrev pub Over : Stop → State → Type 0
Over (throw e) w = Lost w
Over (exit n) w = (n ≡ 0) × (IsVacant w ⊎ IsFreed w)
Over diverged w = Lost w

over : (h : Stop) (w : State) → NoExit h → Lost w → Over h w
over (throw e) w n l = l
over (exit m) w n l = absurd n
over diverged w n l = l

pub expected :
    (g c : ℕ) (h f : Bool)
    → unexpected (record { graph = g; cassandra = c; helm = h; flux = f }) ≡ false
    → record { graph = g; cassandra = c; helm = h; flux = f } ≡ standard
expected g c h f e =
    let (e1, flux_off) = both_of_guard _ f e in
    let (e2, helm_off) = both_of_guard _ h e1 in
    let (g_one, c_one) = both_of_guard (not (g == 1)) (not (c == 1)) e2 in
    cc (number_of_guard g 1 g_one, number_of_guard c 1 c_one, helm_off, flux_off)

pub not-true : (b : Bool) → not b ≡ true → b ≡ false
not-true b h = ground arith

module _ (env : Environment) where
  quiet_call :
      (q : Request) {w : State}
      → Point unsure unsure start_vars w
      → ((r : Settled (Answer q)) → step unsure q r ≡ some unsure)
      → Post (λ _. Point unsure unsure start_vars) Over (call env q w)
  quiet_call q {w} p same =
      weaken-Post
        (call-step env q (λ _. unsure) unsure w p (λ a. same (resolved a)) (λ e. same (rejected e)))
        (λ _ _ p'. p') (λ h w' l. over h w' (Threw-NoExit h l.0) (unsure, l.1))

  guarded :
      (b : Bool) (message : Text) {w : State}
      → Point unsure unsure start_vars w
      → Post (λ _ w'. Point unsure unsure start_vars w' × (b ≡ false)) Over (throw_if b message w)
  guarded true message p = stopped (unsure, p)
  guarded false message p = returned (p, refl)

  value_of :
      {A : Type 0} (r : Settled A) {w : State}
      → Point unsure unsure start_vars w
      → Post (λ _. Point unsure unsure start_vars) Over (settled r w)
  value_of (resolved a) p = returned p
  value_of (rejected e) p = stopped (unsure, p)

  -- The lease is released once everything is back.
  free :
      (v : Text) (w : State)
      → Point unsure (back false) start_vars w
      → Post
          (λ _ w'. IsFreed w' × (w'.vars ≡ start_vars))
          Over
          (call env (patch_lease (release (some v))) w)
  unfolding follow next words step after_call Option.bind
  free v w p =
      let m = follow-Means unsure w.log (back false) tt p.at in
      call-Post env (patch_lease (release (some v))) w
        (λ a e. ((rw (p.at, e) refl, m, rw e refl), p.holds))
        (λ e r. (dangling, record { at = rw (p.at, r) refl; holds = p.holds }))

  -- The status call says that the recovery is done, and changes no setting.
  told :
      (phase error : Text) (w : State)
      → IsFreed w
      → w.vars ≡ start_vars
      → Post
          (λ _. IsFreed)
          Over
          (call env (patch_status (record (phase_only phase) { error = some error })) w)
  unfolding follow next words step after_call Option.bind
  told phase error w (at, again, lease) v =
      call-Post env (patch_status (record (phase_only phase) { error = some error })) w
        (λ a e. (rw at refl, again, lease))
        (λ e r. (released false, record { at = rw at refl; holds = v }))

  pub recover-Post :
      (lease : Lease) (w : State)
      → Did get_lease lease w.log
      → Point unsure unsure start_vars w
      → Post (λ _ _. ⊥) Over (recover env lease w)
  unfolding recover step
  recover-Post lease w d p =
      and_then-Post
        (when-Post {Q = λ _. Point unsure unsure start_vars} (not (is_held lease)) _
          (λ vacant. stopped (refl, inl (p.at, (lease, d, not-true _ vacant)))) (λ _. p))
        λ _ w1 p1.
          and_then-Post (quiet_call (get_pods_named (or_empty lease.holder)) p1 (λ r. refl))
            λ pods w2 p2. and_then-Post (guarded (some_of is_active pods) _ p2) λ _ w3 (p3, _).
              and_then-Post (value_of lease.original p3) λ previous w4 p4.
                and_then-Post (guarded (unexpected previous) _ p4) λ _ w5 (p5, usual).
                  rw (expected previous.graph previous.cassandra previous.helm previous.flux usual)
                    (and_then-Post
                      (weaken-Post (resume-Post env unsure start_vars false w5 p5 refl)
                        (λ _ _ p6. p6) (λ h w6 u. over h w6 u.3 (u.0, u.1)))
                      λ _ w6 p6.
                        and_then-Post (free lease.resource_version w6 p6) λ _ w7 (freed, v).
                          and_then-Post
                            (told (text "recovered")
                              (text "Interrupted backup recovered; run a new backup") w7 freed v)
                            λ _ w8 done. stopped (refl, inr done))
