-- ===== src/Backup/Conduct/Points.antt =====
-- The assertions at the program points of the backup, and the rule for a call.
use mathlib.Core.Option
use cartyx_infrastructure.Base.{ℕ, Text, Bool, true, false, some, ◌≡◌}
use cartyx_infrastructure.Script.{
  Stop, throw, exit, diverged, resolved, rejected, call, after_call, sleep,
}
use cartyx_infrastructure.Script.Post.{Post, NoExit, call-Post}
use cartyx_infrastructure.Cluster.Request.{Request, Answer, Environment}
use cartyx_infrastructure.Backup.Steps.{Vars, State, standard}
use cartyx_infrastructure.Backup.Protocol.{Stage, step, next, follow, calm, restart}

-- The history has led from one stage to another, and the script's variables have these values.
pub record Point (start stage : Stage) (v : Vars) (w : State) : Type 0 where
  pub at : follow start w.log ≡ some stage
  pub holds : w.vars ≡ v

-- The script's variables say rightly what is left to undo.
pub data Sound : Vars → Stage → Type 0 where
  unlocked : {v : Vars} {stage : Stage} → v.locked ≡ false → Sound v stage
  settled :
      {v : Vars} {stage : Stage}
      → v.locked ≡ true
      → v.needs_recovery ≡ false
      → calm stage ≡ true
      → Sound v stage
  disturbed :
      {v : Vars} {stage : Stage} (a : Bool)
      → v.locked ≡ true
      → v.needs_recovery ≡ true
      → v.original ≡ some standard
      → restart stage ≡ some a
      → Sound v stage

-- What holds wherever the `try` is left.
pub record Safe (start : Stage) (w : State) : Type 0 where
  pub stage : Stage
  pub at : follow start w.log ≡ some stage
  pub sound : Sound w.vars stage

pub Point-Safe :
    {start stage : Stage} {v : Vars} {w : State}
    → Point start stage v w
    → Sound v stage
    → Safe start w
Point-Safe {stage} {v} {w} p s = record { stage = stage; at = p.at; sound = rw p.holds s }

-- A rejection arrives as an exception.
abbrev pub Threw : Stop → Type 0
Threw (throw e) = Unit
Threw (exit n) = ⊥
Threw diverged = ⊥

pub Threw-NoExit : (h : Stop) → Threw h → NoExit h
Threw-NoExit (throw e) t = tt
Threw-NoExit (exit n) t = t
Threw-NoExit diverged t = tt

-- The same, and the script was not left by `process.exit`.
abbrev pub Halted : Stage → Stop → State → Type 0
Halted start h w = NoExit h × Safe start w

module _ (env : Environment) {start : Stage} where
  -- A call moves a point along a step of the protocol, whichever way it ends.
  pub call-step :
      (q : Request) {stage : Stage} {v : Vars} (good : Answer q → Stage) (bad : Stage) (w : State)
      → Point start stage v w
      → ((a : Answer q) → step stage q (resolved a) ≡ some (good a))
      → ((e : Text) → step stage q (rejected e) ≡ some bad)
      → Post (λ a. Point start (good a) v) (λ h w. Threw h × Point start bad v w) (call env q w)
  unfolding follow next Option.bind after_call
  call-step q {stage} good bad w p ok_step bad_step =
      call-Post env q w (λ a e. record { at = rw (p.at, e) (ok_step a); holds = p.holds })
        (λ m e. (tt, record { at = rw (p.at, e) (bad_step m); holds = p.holds }))

  pub sleep_step :
      (ms : ℕ) {stage : Stage} {v : Vars} (w : State)
      → Point start stage v w
      → Point start stage v (sleep env ms w).1
  unfolding follow next Option.bind sleep
  sleep_step ms w p = record { at = rw p.at; holds = p.holds }
