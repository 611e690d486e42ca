-- ===== src/Backup/Conduct/Rules.antt =====
-- The rules for the statements of the backup, with a sound point to fall back to where one stops.
use cartyx_infrastructure.Base.{
  ℕ, Text, text, List, [], ◌∷◌, Bool, true, false, some, ◌≡◌, ap, if◌then◌else◌,
}
use cartyx_infrastructure.Script.{
  Stop, throw, exit, diverged, Outcome, Script, Settled, resolved, rejected, call, attempt, settled,
  settling, throw_if, for_each, and_then,
}
use cartyx_infrastructure.Script.Post.{Post, returned, stopped, and_then-Post, weaken-Post}
use cartyx_infrastructure.Cluster.Request.{Request, Answer, Environment}
use cartyx_infrastructure.Cluster.Wait.{until}
use cartyx_infrastructure.Cluster.Wait.Rules.{until-Post}
use cartyx_infrastructure.Backup.Steps.{Vars, State, checkpoint}
use cartyx_infrastructure.Backup.Protocol.{Stage, step}
use cartyx_infrastructure.Backup.Conduct.Points.{
  Threw, Threw-NoExit, Point, Halted, Sound, Point-Safe, call-step, sleep_step,
}

module _ (env : Environment) {start stage : Stage} {v : Vars} where
  -- A call after whose rejection the variables are right about the stage.
  pub safe_call :
      (q : Request) (good : Answer q → Stage) (bad : Stage) {w : State}
      → Point start stage v w
      → ((a : Answer q) → step stage q (resolved a) ≡ some (good a))
      → ((e : Text) → step stage q (rejected e) ≡ some bad)
      → Sound v bad
      → Post (λ a. Point start (good a) v) (Halted start) (call env q w)
  safe_call q good bad {w} p ok_step bad_step s =
      weaken-Post (call-step env q good bad w p ok_step bad_step) (λ a w' p'. p')
        (λ h w' p'. (Threw-NoExit h p'.0, Point-Safe p'.1 s))

  -- A call of which the protocol takes no notice.
  pub same_call :
      (q : Request) {w : State}
      → Point start stage v w
      → ((r : Settled (Answer q)) → step stage q r ≡ some stage)
      → Sound v stage
      → Post (λ _. Point start stage v) (Halted start) (call env q w)
  same_call q p same s =
      safe_call q (λ _. stage) stage p (λ a. same (resolved a)) (λ e. same (rejected e)) s

  pub attempt-call :
      (q : Request) {w : State} {E : Stop → State → Type 0}
      → Point start stage v w
      → ((r : Settled (Answer q)) → step stage q r ≡ some stage)
      → Post (λ _. Point start stage v) E (attempt (call env q) w)
  unfolding settling
  attempt-call q {w} {E} p same =
      go (call-step env q (λ _. stage) stage w p (λ a. same (resolved a)) (λ e. same (rejected e)))
    where
      go :
          {r : Outcome (Answer q) × State}
          → Post (λ _. Point start stage v) (λ h w. Threw h × Point start stage v w) r
          → Post (λ _. Point start stage v) E (settling r)
      go (returned p) = returned p
      go (stopped {h = throw e} p) = returned p.1
      go (stopped {h = exit n} p) = absurd p.0
      go (stopped {h = diverged} p) = absurd p.0

  pub settled-Post :
      {A : Type 0} (r : Settled A) {w : State}
      → Point start stage v w
      → Sound v stage
      → Post (λ _. Point start stage v) (Halted start) (settled r w)
  settled-Post (resolved a) p s = returned p
  settled-Post (rejected e) p s = stopped (tt, Point-Safe p s)

  pub throw_if-Post :
      (b : Bool) (message : Text) {w : State}
      → Point start stage v w
      → Sound v stage
      → Post (λ _. Point start stage v) (Halted start) (throw_if b message w)
  throw_if-Post true message p s = stopped (tt, Point-Safe p s)
  throw_if-Post false message p s = returned p

  pub checkpoint-Post :
      {w : State}
      → Point start stage v w
      → Sound v stage
      → Post (λ _. Point start stage v) (Halted start) (checkpoint w)
  unfolding checkpoint and_then
  checkpoint-Post {w} p s =
      throw_if-Post w.cancelled (text "Backup interrupted; restoring services") p s

  pub set_vars_post :
      (f : Vars → Vars) {w : State}
      → Point start stage v w
      → Point start stage (f v) (record w { vars = f w.vars })
  set_vars_post f p = record { at = p.at; holds = ap f p.holds }

  -- A wait whose check leads from one stage to another and leaves the variables right in between.
  pub until_step :
      (check : Script State Bool) (after : Stage) (label : Text) (seconds : ℕ) {w : State}
      → Point start stage v w
      → Sound v stage
      → ((w : State)
          → Point start stage v w
          → Post
              (λ done w'. if done then Point start after v w' else Point start stage v w')
              (Halted start)
              (check w))
      → Post (λ _. Point start after v) (Halted start) (until env check label seconds w)
  until_step check after label seconds {w} p s poll =
      until-Post env check (Point start stage v) (Point start after v) (Halted start) poll
        (λ w p. sleep_step env 3000 w p) (λ h w n p. (n, Point-Safe p s)) label seconds w p

  pub for_each-Post :
      {A : Type 0} (xs : List A) (body : A → Script State (Unit {0}))
      → ((x : A) (w : State)
          → Point start stage v w
          → Post (λ _. Point start stage v) (Halted start) (body x w))
      → {w : State} → Point start stage v w
      → Post (λ _. Point start stage v) (Halted start) (for_each xs body w)
  unfolding for_each
  for_each-Post [] body h p = returned p
  for_each-Post (x ∷ xs) body h {w} p =
      and_then-Post (h x w p) λ _ w' p'. for_each-Post xs body h p'
