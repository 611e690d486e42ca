-- ===== src/Script/Blocks.antt =====
-- Rules for a `finally`, for the exact log after a call, and for logs that obey a weaker rule.
use cartyx_infrastructure.Base.{[], ◌∷◌, ◌++◌, ◌≡◌, ap, Text}
use cartyx_infrastructure.Script.Monad.{
  throw, exit, diverged, finishing, resolved, rejected, Outcome, Script, and_then, gets, Stop,
}
use cartyx_infrastructure.Script.Run.{Env, World, Log, called, slept, call, after_call}
use cartyx_infrastructure.Script.Post.{Post, returned, stopped, call-Post, and_then-Post}
use cartyx_infrastructure.Script.Discipline.{IsThrow, Did, latest, earlier, Obeys, Kept}

module _ {A S : Type 0} {Q Q' : A → S → Type 0} {E E' : S → Type 0} where
  -- The cleanup runs after a body that cannot exit, whether it returned or threw.
  pub finally-Post :
      {r : Outcome A × S} {cleanup : Script S (Unit {0})}
      → Post Q (λ h s. IsThrow h × E s) r
      → ((a : A) (s : S) → Q a s → Post (λ _ s'. Q' a s') (λ h s'. IsThrow h × E' s') (cleanup s))
      → ((s : S) → E s → Post (λ _ s'. E' s') (λ h s'. IsThrow h × E' s') (cleanup s))
      → Post Q' (λ h s. IsThrow h × E' s) (finishing r cleanup)
  unfolding finishing
  finally-Post (returned p) f g = and_then-Post (f _ _ p) (λ _ _ q. returned q)
  finally-Post (stopped {h = throw e} p) f g = and_then-Post (g _ p.1) (λ _ _ q. stopped (tt, q))
  finally-Post (stopped {h = exit n} p) f g = absurd p.0
  finally-Post (stopped {h = diverged} p) f g = absurd p.0

-- A value read from the state, and what follows it.
pub gets-Post :
    {S B C : Type 0} {R : B → S → Type 0} {E : Stop → S → Type 0} (g : S → C) (s : S)
    (f : C → Script S B)
    → Post R E (f (g s) s)
    → Post R E (and_then (gets g s) f)
unfolding and_then
gets-Post g s f p = p

module _ {Q : Type 0} {A : Q → Type 0} where
  pub Obeys-weaken :
      {P P' : (q : Q) → Log A → Type 0}
      → ((q : Q) (log : Log A) → P q log → P' q log)
      → (log : Log A) → Obeys P log
      → Obeys P' log
  Obeys-weaken f [] o = tt
  Obeys-weaken f (called q r ∷ log) (p, o) = (f q log p, Obeys-weaken f log o)
  Obeys-weaken f (slept ms ∷ log) o = Obeys-weaken f log o

module _ {Q : Type 0} {A : Q → Type 0} {V : Type 0} (env : Env A)
    (P : (q : Q) → Log A → Type 0) where
  -- A call that is allowed, and the exact log that it leaves.
  pub exact-call :
      {B : Type 0} {R : B → World A V → Type 0} (q : Q) (w : World A V)
      {f : A q → Script (World A V) B}
      → P q w.log
      → Obeys P w.log
      → ((a : A q) (w' : World A V)
          → w'.log ≡ called q (resolved a) ∷ w.log
          → Obeys P w'.log
          → Post R (Kept env P) (f a w'))
      → Post R (Kept env P) (and_then (call env q w) f)
  unfolding after_call
  exact-call {R = R} q w {f = f} p o k =
      and_then-Post {Q = λ a w'. Post R (Kept env P) (f a w')}
        (call-Post env q w (λ a e. k a _ (ap (λ r. called q r ∷ w.log) e) (p, o))
          (λ e _. (tt, (p, o))))
        (λ _ _ done. done)

module _ {Q : Type 0} {A : Q → Type 0} where
  -- What was answered was asked where it was allowed.
  pub Did-Obeys :
      (P : (q : Q) → Log A → Type 0) {q : Q} {a : A q} {log : Log A}
      → Did q a log
      → Obeys P log
      → (before : Log A) × P q before
  Did-Obeys P (latest {log = log}) (p, o) = (log, p)
  Did-Obeys P (earlier {e = called q r} d) (p, o) = Did-Obeys P d o
  Did-Obeys P (earlier {e = slept ms} d) o = Did-Obeys P d o

  -- A rejected call has not resolved.
  pub rejection-Did :
      (q q' : Q) {a : A q} (m : Text) (log : Log A)
      → Did q a (called q' (rejected m) ∷ log)
      → Did q a log
  rejection-Did q q' m log (earlier d) = d

  pub append-Did :
      {q : Q} {a : A q} (later : Log A) {log : Log A} → Did q a log → Did q a (later ++ log)
  append-Did [] d = d
  append-Did (e ∷ later) d = earlier (append-Did later d)
