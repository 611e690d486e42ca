-- ===== src/Backup/Conduct/Saving.antt =====
-- The archive, the return of the services, the upload and the retention, in the protocol.
use cartyx_infrastructure.Base.{
  ℕ, zero, suc, Text, text, ◌++◌, true, false, not, ◌==◌, Option, none, some, ◌≡◌, refl, inl, inr,
  arith, Bool-cases, text_eq, text_eq_refl, starts_with, if◌then◌else◌,
}
use cartyx_infrastructure.Script.{Settled, resolved, rejected, throw_if, and_then}
use cartyx_infrastructure.Script.Post.{Post, returned, stopped, and_then-Post, weaken-Post}
use cartyx_infrastructure.Cluster.Documents.{Release, Workload, Manifest}
use cartyx_infrastructure.Cluster.Request.{
  Environment, get_config, patch_status, archive, copy_file, hash_file, file_size, upload_archive,
  read_back, put_manifest,
}
use cartyx_infrastructure.Backup.Steps.{Vars, State, Context, phase_only}
use cartyx_infrastructure.Backup.Archive.{
  copy_credential, check_exit, run_tar, write_archive, bring_back, publish, archive_path,
  recovery_path, complete_manifest,
}
use cartyx_infrastructure.Backup.Protocol.{
  Stage, idle, quiet, archived, back, hashed, uploaded, verified, published, step, is_marker,
}
use cartyx_infrastructure.Backup.Conduct.Points.{
  Point, Halted, Sound, settled, disturbed, Point-Safe,
}
use cartyx_infrastructure.Backup.Conduct.Recovery.{resume-Post}
use cartyx_infrastructure.Backup.Conduct.Rules.{
  safe_call, same_call, checkpoint-Post, set_vars_post, for_each-Post,
}
use cartyx_infrastructure.Backup.Conduct.Stopping.{open_vars}

-- The variables after the return of the services.
abbrev pub closed_vars : Vars
closed_vars = record open_vars { needs_recovery = false }

abbrev pending : Sound open_vars quiet
pending = disturbed false refl refl refl refl

-- The stage after `tar`.
abbrev after_tar : Option ℕ → Stage
after_tar none = quiet
after_tar (some zero) = archived
after_tar (some (suc n)) = quiet

module _ (env : Environment) where
  copy_credential-Post :
      (name : Text) (w : State)
      → Point idle quiet open_vars w
      → Post (λ _. Point idle quiet open_vars) (Halted idle) (copy_credential env name w)
  unfolding copy_credential step
  copy_credential-Post name w p = elim (Bool-cases (starts_with name (text "."))) [
    | inl hidden ↦ rw hidden (returned p)
    | inr shown ↦ rw shown (
        same_call env
          (copy_file (text "/database-secret/" ++ name)
            (recovery_path ++ (text "/credentials/" ++ name)))
          p (λ r. refl) pending)
  ]

  tar_step :
      (r : Settled (Option ℕ))
      → step quiet (archive archive_path) r
        ≡ some (elim r [ resolved code ↦ after_tar code | rejected e ↦ quiet ])
  unfolding step
  tar_step (resolved none) = refl
  tar_step (resolved (some zero)) = refl
  tar_step (resolved (some (suc n))) = refl
  tar_step (rejected e) = refl

  check_exit-Post :
      (code : Option ℕ) (w : State)
      → Point idle (after_tar code) open_vars w
      → Post (λ _. Point idle archived open_vars) (Halted idle) (check_exit code w)
  unfolding check_exit
  check_exit-Post none w p = stopped (tt, Point-Safe p pending)
  check_exit-Post (some zero) w p = returned p
  check_exit-Post (some (suc n)) w p =
      let e : (suc n == 0) ≡ false = ground arith in rw e (stopped (tt, Point-Safe p pending))

  run_tar-Post :
      {w : State}
      → Point idle quiet open_vars w
      → Post (λ _. Point idle archived open_vars) (Halted idle) (run_tar env w)
  unfolding run_tar
  run_tar-Post p =
      and_then-Post
        (safe_call env (archive archive_path) after_tar quiet p (λ code. tar_step (resolved code))
          (λ e. tar_step (rejected e)) pending)
        check_exit-Post

  pub write_archive-Post :
      (ctx : Context) (sources : Workload × Workload × Release) {w : State}
      → Point idle quiet open_vars w
      → Post (λ _. Point idle archived open_vars) (Halted idle) (write_archive env ctx sources w)
  unfolding write_archive step and_then
  write_archive-Post ctx sources p = and_then-Post (same_call env _ p (λ r. refl) pending) λ _ _ p.
      and_then-Post (same_call env _ p (λ r. refl) pending) λ _ _ p.
        and_then-Post (same_call env _ p (λ r. refl) pending) λ names _ p.
          and_then-Post (for_each-Post env names (copy_credential env) copy_credential-Post p)
            λ _ _ p. and_then-Post (same_call env get_config p (λ r. refl) pending) λ config _ p.
              and_then-Post (same_call env _ p (λ r. refl) pending) λ _ _ p.
                and_then-Post (same_call env _ p (λ r. refl) pending) λ _ _ p.
                  and_then-Post (run_tar-Post p) λ _ _ p.
                    and_then-Post (checkpoint-Post env p (disturbed true refl refl refl refl))
                      λ _ _ p. returned p

  pub bring_back-Post :
      {w : State}
      → Point idle archived open_vars w
      → Post (λ _. Point idle (back true) closed_vars) (Halted idle) (bring_back env w)
  unfolding bring_back
  bring_back-Post {w} p =
      and_then-Post
        (weaken-Post (resume-Post env idle open_vars true w p refl) (λ _ _ p. p)
          (λ h w u. (u.3, Point-Safe u.1 (disturbed false refl refl refl u.2))))
        λ _ _ p. returned (set_vars_post env (λ v. record v { needs_recovery = false }) p)

  -- The stage after the read-back.
  abbrev compared : Text → Text → Text → Stage
  compared key sum stored = if text_eq stored sum then verified key sum else uploaded key sum

  match-Post :
      (key sum stored : Text) (w : State)
      → Point idle (compared key sum stored) closed_vars w
      → Post
          (λ _. Point idle (verified key sum) closed_vars)
          (Halted idle)
          (throw_if (not (text_eq stored sum)) (text "Off-host read-back checksum mismatch") w)
  match-Post key sum stored w p = elim (Bool-cases (text_eq stored sum)) [
    | inl same ↦ rw same (returned (rw same at p))
    | inr differs ↦ rw differs (stopped (tt, Point-Safe (rw differs at p) (settled refl refl refl)))
  ]

  marked :
      (ctx : Context) (manifest : Manifest) (sum : Text) (size : ℕ)
      → is_marker ctx.key sum (ctx.key ++ text ".json") (complete_manifest ctx manifest sum size)
        ≡ true
  marked ctx manifest sum size =
      rw (text_eq_refl (ctx.key ++ text ".json"), text_eq_refl sum, text_eq_refl ctx.key) refl

  pub publish-Post :
      (ctx : Context) (manifest : Manifest) {w : State}
      → Point idle (back true) closed_vars w
      → Post (λ _. Point idle published closed_vars) (Halted idle) (publish env ctx manifest w)
  unfolding publish step text_eq text
  publish-Post ctx manifest p =
      and_then-Post
        (same_call env (patch_status (phase_only (text "uploading"))) p (λ r. refl)
          (settled refl refl refl))
        λ _ _ p.
          and_then-Post
            (safe_call env (hash_file archive_path) (λ sum. hashed sum) (back true) p (λ sum. refl)
              (λ e. refl) (settled refl refl refl))
            λ sum _ p.
              and_then-Post
                (same_call env (file_size archive_path) p (λ r. refl) (settled refl refl refl))
                λ size _ p.
                  and_then-Post
                    (safe_call env (upload_archive archive_path ctx.key) (λ _. uploaded ctx.key sum)
                      (hashed sum) p (λ _. refl) (λ e. refl) (settled refl refl refl))
                    λ _ _ p.
                      and_then-Post
                        (safe_call env (read_back ctx.key) (compared ctx.key sum)
                          (uploaded ctx.key sum) p (λ stored. rw (text_eq_refl ctx.key) refl)
                          (λ e. rw (text_eq_refl ctx.key) refl) (settled refl refl refl))
                        λ stored w p. and_then-Post (match-Post ctx.key sum stored w p) λ _ _ p.
                          and_then-Post (checkpoint-Post env p (settled refl refl refl)) λ _ _ p.
                            and_then-Post
                              (safe_call env
                                (put_manifest (ctx.key ++ text ".json")
                                  (complete_manifest ctx manifest sum size))
                                (λ _. published) (verified ctx.key sum) p
                                (λ _. rw (marked ctx manifest sum size) refl)
                                (λ e. rw (marked ctx manifest sum size) refl)
                                (settled refl refl refl))
                              λ _ _ p. returned p
