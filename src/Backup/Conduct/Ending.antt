-- ===== src/Backup/Conduct/Ending.antt =====
-- The `catch` and the `finally` of the backup, in the protocol.
use cartyx_infrastructure.Base.{Text, text, Bool, true, false, none, some, ◌≡◌, refl, ap, ◌∙◌, take}
use cartyx_infrastructure.Script.{throw, exit, diverged}
use cartyx_infrastructure.Script.{Stop, call, when, and_then, catching}
use cartyx_infrastructure.Script.Post.{
  Post, NoExit, returned, and_then-Post, when-Post, catching-Post, weaken-Post,
}
use cartyx_infrastructure.Cluster.Documents.{release}
use cartyx_infrastructure.Cluster.Request.{Environment, patch_lease, patch_status}
use cartyx_infrastructure.Backup.Steps.{Vars, State, phase_only}
use cartyx_infrastructure.Backup.Main.{handle, undo, clean_up}
use cartyx_infrastructure.Backup.Protocol.{
  Stage, idle, back, published, dangling, released, follow, step, calm, is_published,
}
use cartyx_infrastructure.Backup.Conduct.Points.{
  Point, Safe, Sound, unlocked, settled, disturbed, Threw-NoExit, call-step,
}
use cartyx_infrastructure.Backup.Conduct.Recovery.{resume-Post}
use cartyx_infrastructure.Backup.Conduct.Rules.{attempt-call}
use cartyx_infrastructure.Backup.Conduct.Saving.{closed_vars}

-- The history keeps to the protocol.
abbrev pub Ended : State → Type 0
Ended w = (stage : Stage) × (follow idle w.log ≡ some stage)

abbrev pub Stuck : Stop → State → Type 0
Stuck h w = NoExit h × Ended w

-- A failure was noted, and the variables still say what is left to undo.
abbrev pub Failed : State → Type 0
Failed w = Safe idle w × (w.vars.exit_code ≡ 1)

fail_vars : (v : Vars) {stage : Stage} → Sound v stage → Sound (record v { exit_code = 1 }) stage
fail_vars v (unlocked h) = unlocked h
fail_vars v (settled h n c) = settled h n c
fail_vars v (disturbed a h n o r) = disturbed a h n o r

-- The `catch` leaves nothing but a loop that ran out of rounds.
abbrev pub Endless : Stop → State → Type 0
Endless (throw e) w = ⊥
Endless (exit n) w = ⊥
Endless diverged w = Ended w

module _ (env : Environment) where
  pub handle-Post :
      (message : Text) (w : State)
      → Safe idle w
      → Post (λ _. Failed) (λ _ _. ⊥) (handle env message w)
  unfolding handle and_then step
  handle-Post message w s =
      let v = w.vars in
      and_then-Post {Q = λ _. Point idle s.stage v}
        (when-Post v.locked _
          (λ _.
            and_then-Post
              (attempt-call env
                (patch_status
                  (record (phase_only (text "failed")) { error = some (take 500 message) }))
                (record { at = s.at; holds = refl }) (λ r. refl))
              (λ _ _ p. returned p))
          (λ _. record { at = s.at; holds = refl }))
        λ _ w' p.
          returned
            (record { stage = s.stage; at = p.at; sound = rw p.holds (fail_vars v s.sound) }, refl)

  -- After the attempt of the `finally` to undo.
  abbrev Undone : Bool → State → Type 0
  Undone done w =
      (stage : Stage) × (follow idle w.log ≡ some stage)
      × (w.vars.exit_code ≡ 1)
      × (done ≡ true → calm stage ≡ true)

  undo-Post :
      (w : State) → Failed w → w.vars.locked ≡ true → Post (λ _. Undone true) Stuck (undo env w)
  unfolding undo when and_then
  undo-Post w (s, failed) locked = elim s.sound [
    | unlocked free ↦ cc (free, locked)
    | settled _ none_needed c ↦ simp none_needed (returned (s.stage, s.at, failed, λ _. c))
    | disturbed a _ needed saved again ↦
        simp (needed, saved)
          (weaken-Post (resume-Post env idle w.vars a w (record { at = s.at; holds = refl }) again)
            (λ _ w' p. (back a, p.at, ap (λ (v : Vars). v.exit_code) p.holds ∙ failed, λ _. refl))
            (λ h w' u. (u.3, (u.0, u.1.at))))
  ]

  release-Post :
      (done : Bool) (w : State)
      → Undone done w
      → Post
          (λ _ w'. Ended w' × (w'.vars.exit_code ≡ 1))
          Stuck
          (when done (call env (patch_lease (release none))) w)
  unfolding step when
  release-Post false w (stage, at, failed, calm_stage) = returned ((stage, at), failed)
  release-Post true w (stage, at, failed, calm_stage) =
      weaken-Post
        (call-step env (patch_lease (release none)) (λ _. released (is_published stage)) dangling w
          (record { at = at; holds = refl }) (λ _. rw (calm_stage refl))
          (λ e. rw (calm_stage refl)))
        (λ _ w' p.
          ((released (is_published stage), p.at), ap (λ (v : Vars). v.exit_code) p.holds ∙ failed))
        (λ h w' p. (Threw-NoExit h p.0, (dangling, p.1.at)))

  -- After a failure the lease goes only if nothing is left to recover, and the status is 1.
  pub clean_up-Failed :
      (w : State)
      → Failed w
      → Post (λ _ w'. Ended w' × (w'.vars.exit_code ≡ 1)) Stuck (clean_up env w)
  unfolding clean_up and_then
  clean_up-Failed w f =
      when-Post w.vars.locked _
        (λ locked.
          and_then-Post
            (catching-Post (and_then-Post (undo-Post w f locked) (λ _ _ u. returned u))
              (λ e w' stuck. returned (stuck.1.0, stuck.1.1, refl, λ true_false. cc true_false))
              (λ n w' stuck. absurd stuck.0) (λ w' stuck. stuck))
            release-Post)
        (λ _. ((f.0.stage, f.0.at), f.1))

  -- After a success nothing is left to recover, and the lease goes.
  pub clean_up_finished :
      (w : State)
      → Point idle published closed_vars w
      → Post (λ _. Point idle (released true) closed_vars) Stuck (clean_up env w)
  unfolding clean_up undo when and_then catching step
  clean_up_finished w p = simp p.holds (
      weaken-Post
        (call-step env (patch_lease (release none)) (λ _. released true) dangling w p (λ _. refl)
          (λ e. refl))
        (λ _ _ p. p) (λ h _ p. (Threw-NoExit h p.0, (dangling, p.1.at))))
