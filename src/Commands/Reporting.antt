-- ===== src/Commands/Reporting.antt =====
-- What the status of scripts/dev-data.mjs says about the programs that it ran.
use cartyx_infrastructure.Base.{
  ℕ, zero, suc, Text, List, [], ◌∷◌, All, Option, none, some, ◌≡◌, ◌≢◌, refl, ap, arith,
}
use cartyx_infrastructure.Script.{
  Env, Log, Stop, throw, exit, diverged, Outcome, ok, stop, resolved, called, after_call, and_then,
  for_each,
}
use cartyx_infrastructure.Script.Post.{
  Post, returned, stopped, call-Post, weaken-Post, and_then-Post,
}
use cartyx_infrastructure.Script.Discipline.{Did, latest, earlier, Keeps}
use cartyx_infrastructure.Commands.{
  Result, Program, Answer, Settings, State, spawn, raise, exit_with, programs_of, action_of,
  run_program, run_all, dispatch, run,
}

-- `process.exit(result.status ?? 1)`
abbrev pub code_of : Option ℕ → ℕ
code_of none = 1
code_of (some n) = n

abbrev passed : Result
passed = record { error = none; status = some 0 }

-- Each program was run and ended with status 0.
abbrev pub AllPassed : List Program → Log Answer → Type 0
AllPassed programs log = All (λ p. Did (spawn p) passed log) programs

-- The latest call is a program that ran and failed, with this status.
abbrev pub HasFailed : ℕ → Log Answer → Type 0
HasFailed n log =
    (p : Program) × (status : Option ℕ) × (before : Log Answer) × (log
      ≡ called (spawn p) (resolved (record { error = none; status = status })) ∷ before)
    × (n ≡ code_of status)
    × (n ≢ 0)

-- The action is known and all its programs have passed.
abbrev pub IsServed : Option (List Program) → Log Answer → Type 0
IsServed chosen log = (programs : List Program) × (chosen ≡ some programs) × AllPassed programs log

-- What each end of a run says.
abbrev pub IsReported : Option (List Program) → Outcome (Unit {0}) × State → Type 0
IsReported chosen (ok _, w) = IsServed chosen w.log
IsReported chosen (stop (throw e), w) = Unit
IsReported chosen (stop (exit n), w) = HasFailed n w.log
IsReported chosen (stop diverged, w) = ⊥

-- How a script can stop.
abbrev pub Stops : Stop → State → Type 0
Stops (throw e) w = Unit
Stops (exit n) w = HasFailed n w.log
Stops diverged w = ⊥

-- The two tests of a result.
judge-Post :
    (p : Program) (error : Option Text) (status : Option ℕ) (before : Log Answer) (w : State)
    → w.log ≡ called (spawn p) (resolved (record { error = error; status = status })) ∷ before
    → Post
        (λ _ w'. (w' ≡ w) × (error ≡ none) × (status ≡ some 0))
        Stops
        (and_then (raise error w) (λ _. exit_with status))
unfolding and_then
judge-Post p (some e) status before w h = stopped tt
judge-Post p none none before w h = stopped (p, none, before, h, refl, omega arith)
judge-Post p none (some zero) before w h = returned (refl, refl, refl)
judge-Post p none (some (suc n)) before w h =
    stopped (p, some (suc n), before, h, refl, omega arith)

module _ (env : Env Answer) where
  run_program-Post :
      (p : Program) (w : State)
      → Post (λ _ w'. Did (spawn p) passed w'.log × Keeps w.log w'.log) Stops (run_program env p w)
  unfolding run_program after_call
  run_program-Post p w =
      and_then-Post {Q = λ result w'. w'.log ≡ called (spawn p) (resolved result) ∷ w.log}
        (call-Post env (spawn p) w (λ result e. ap (λ r. called (spawn p) r ∷ w.log) e) (λ m e. tt))
        λ result w1 h.
          weaken-Post (judge-Post p result.error result.status w.log w1 h)
            (λ _ w2 (same, calm, good).
              (rw (same, h, calm, good) latest, (λ q a d. rw (same, h) (earlier d))))
            (λ _ _ x. x)

  programs-Post :
      (programs : List Program) (w : State)
      → Post
          (λ _ w'. AllPassed programs w'.log × Keeps w.log w'.log)
          Stops
          (for_each programs (run_program env) w)
  unfolding for_each
  programs-Post [] w = returned (tt, λ _ _ d. d)
  programs-Post (p ∷ programs) w = and_then-Post (run_program-Post p w) λ _ w1 (first, k1).
      weaken-Post (programs-Post programs w1)
        (λ _ w2 (rest, k2). ((k2 _ _ first, rest), λ q a d. k2 q a (k1 q a d))) (λ _ _ x. x)

  run_all-Post :
      (chosen : Option (List Program)) (w : State)
      → Post (λ _ w'. IsServed chosen w'.log) Stops (run_all env chosen w)
  unfolding run_all
  run_all-Post none w = stopped tt
  run_all-Post (some programs) w =
      weaken-Post (programs-Post programs w) (λ _ _ (all, _). (programs, refl, all)) (λ _ _ x. x)

  -- A run that ends without an error knew its action, and all programs of the action ended with
  -- status 0. A run that exits does so with the status of a program that failed, its latest call, or
  -- with 1 if this program had none; and this is not 0. Any other run has thrown.
  pub exit_status-IsReported :
      (settings : Settings) (now : ℕ)
      → IsReported (programs_of settings (action_of settings)) (run env settings now)
  unfolding dispatch
  exit_status-IsReported settings now = reported (run_all-Post _ _)
    where
      reported :
          {chosen : Option (List Program)} {r : Outcome (Unit {0}) × State}
          → Post (λ _ w'. IsServed chosen w'.log) Stops r
          → IsReported chosen r
      reported (returned p) = p
      reported (stopped {h = throw e} p) = tt
      reported (stopped {h = exit n} p) = p
      reported (stopped {h = diverged} p) = p
