-- ===== src/Script/Run.antt =====
-- The state of a run, and the environment that answers it.
use mathlib.Core.Bool.{◌||◌}
use cartyx_infrastructure.Base.{ℕ, ◌+◌, List, ◌∷◌, Bool}
use cartyx_infrastructure.Script.Monad.{ok, Settled, outcome_of, Script}

-- An answer, the milliseconds that it took, and whether SIGTERM or SIGINT came in the meantime.
pub record Reply (A : Type 0) : Type 0 where
  pub result : Settled A
  pub elapsed : ℕ
  pub signalled : Bool

module _ {Q : Type 0} (A : Q → Type 0) where
  -- What a run has done: the calls with their answers, and the waits with their length.
  pub data Event : Type 0 where
    called : (q : Q) → Settled (A q) → Event
    slept : ℕ → Event

  -- The latest event stands first.
  abbrev pub Log : Type 0
  Log = List Event

  -- Everything outside the script. An answer can depend on all that went before, so that a theorem
  -- for every environment covers every behaviour of it. A wait lasts at least as long as was asked.
  pub record Env : Type 0 where
    pub answer : (q : Q) → Log → Reply (A q)
    pub oversleep : Log → Reply (Unit {0})

-- `vars` are the script's own mutable variables, `cancelled` is set by the signal handlers.
pub record World {Q : Type 0} (A : Q → Type 0) (V : Type 0) : Type 0 where
  pub log : Log A
  pub time : ℕ
  pub cancelled : Bool
  pub vars : V

module _ {Q : Type 0} {A : Q → Type 0} {V : Type 0} (env : Env A) where
  -- The world after a call.
  unfoldable pub after_call : (q : Q) → World A V → World A V
  after_call q w =
      let r = env.answer q w.log in
      record w {
        log = called q r.result ∷ w.log;
        time = w.time + r.elapsed;
        cancelled = w.cancelled || r.signalled;
      }

  -- `await call(q)`
  unfoldable pub call : (q : Q) → Script (World A V) (A q)
  unfolding after_call
  call q w = (outcome_of (env.answer q w.log).result, after_call q w)

  -- `await new Promise(resolve => setTimeout(resolve, ms))`
  unfoldable pub sleep : ℕ → Script (World A V) (Unit {0})
  sleep ms w =
      let r = env.oversleep w.log in
      (
        ok tt,
        record w {
          log = slept ms ∷ w.log;
          time = w.time + ms + r.elapsed;
          cancelled = w.cancelled || r.signalled;
        },
      )
