-- ===== src/Script/Post.antt =====
-- Postconditions of a run, one for its result and one for the ways of stopping, and their rules.
use cartyx_infrastructure.Base.{ℕ, Text, Bool, true, false, ◌≡◌, refl}
use cartyx_infrastructure.Script.Monad.{
  Stop, throw, exit, diverged, Outcome, ok, stop, Script, and_then, catching, when, Settled,
  resolved, rejected, outcome_of,
}
use cartyx_infrastructure.Script.Run.{Env, World, call, after_call}

pub data Post {A S : Type 0} (Q : A → S → Type 0) (E : Stop → S → Type 0)
    : Outcome A × S → Type 0 where
  returned : {a : A} {s : S} → Q a s → Post Q E (ok a, s)
  stopped : {h : Stop} {s : S} → E h s → Post Q E (stop h, s)

-- The script did not end by `process.exit`.
abbrev pub NoExit : Stop → Type 0
NoExit (throw e) = Unit
NoExit (exit n) = ⊥
NoExit diverged = Unit

module _ {A S : Type 0} {Q Q' : A → S → Type 0} {E E' : Stop → S → Type 0} where
  pub weaken-Post :
      {r : Outcome A × S}
      → Post Q E r
      → ((a : A) (s : S) → Q a s → Q' a s)
      → ((h : Stop) (s : S) → E h s → E' h s)
      → Post Q' E' r
  weaken-Post (returned p) f g = returned (f _ _ p)
  weaken-Post (stopped p) f g = stopped (g _ _ p)

module _ {A B S : Type 0} {Q : A → S → Type 0} {Q' : B → S → Type 0} {E : Stop → S → Type 0} where
  -- The first statement's result meets what the rest needs.
  pub and_then-Post :
      {r : Outcome A × S} {f : A → Script S B}
      → Post Q E r
      → ((a : A) (s : S) → Q a s → Post Q' E (f a s))
      → Post Q' E (and_then r f)
  unfolding and_then
  and_then-Post (returned p) g = g _ _ p
  and_then-Post (stopped p) g = stopped p

module _ {A S : Type 0} {Q : A → S → Type 0} {E E' : Stop → S → Type 0} where
  pub catching-Post :
      {r : Outcome A × S} {handler : Text → Script S A}
      → Post Q E r
      → ((e : Text) (s : S) → E (throw e) s → Post Q E' (handler e s))
      → ((n : ℕ) (s : S) → E (exit n) s → E' (exit n) s)
      → ((s : S) → E diverged s → E' diverged s)
      → Post Q E' (catching r handler)
  unfolding catching
  catching-Post (returned p) f g d = returned p
  catching-Post (stopped {h = throw e} p) f g d = f e _ p
  catching-Post (stopped {h = exit n} p) f g d = stopped (g n _ p)
  catching-Post (stopped {h = diverged} p) f g d = stopped (d _ p)

module _ {S : Type 0} {Q : Unit {0} → S → Type 0} {E : Stop → S → Type 0} where
  pub when-Post :
      (b : Bool) (m : Script S (Unit {0})) {s : S}
      → (b ≡ true → Post Q E (m s))
      → (b ≡ false → Q tt s)
      → Post Q E (when b m s)
  unfolding when
  when-Post true m yes_post no_post = yes_post refl
  when-Post false m yes_post no_post = returned (no_post refl)

-- A call ends in the answer, or in the error of a rejection, after the event is logged.
pub call-Post :
    {Q : Type 0} {A : Q → Type 0} {V : Type 0} (env : Env A) (q : Q) (w : World A V)
    {R : A q → World A V → Type 0} {E : Stop → World A V → Type 0}
    → ((a : A q) → (env.answer q w.log).result ≡ resolved a → R a (after_call env q w))
    → ((e : Text) → (env.answer q w.log).result ≡ rejected e → E (throw e) (after_call env q w))
    → Post R E (call env q w)
unfolding call
call-Post {A = A} env q w {R} {E} f g = go (env.answer q w.log).result refl
  where
    go :
        (r : Settled (A q))
        → (env.answer q w.log).result ≡ r
        → Post R E (outcome_of r, after_call env q w)
    go (resolved a) e = returned (f a e)
    go (rejected m) e = stopped (g m e)
