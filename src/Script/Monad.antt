-- ===== src/Script/Monad.antt =====
-- Statements as state-passing functions with JavaScript's ways of leaving a block.
use cartyx_infrastructure.Base.{ℕ, Text, List, [], ◌∷◌, Bool, true, false}

-- `process.exit` leaves at once, with no `catch` and no `finally`. `diverged` marks a loop that ran
-- out of the rounds that the model gives it; it is no outcome of the program.
pub data Stop : Type 0 where
  throw : Text → Stop
  exit : ℕ → Stop
  diverged : Stop

pub data Outcome (A : Type 0) : Type 0 where
  ok : A → Outcome A
  stop : Stop → Outcome A

abbrev pub Script : Type 0 → Type 0 → Type 0
Script S A = S → Outcome A × S

module _ {S : Type 0} {A : Type 0} where
  abbrev pub pure : A → Script S A
  pure a s = (ok a, s)

  abbrev pub fail : Text → Script S A
  fail message s = (stop (throw message), s)

  -- `process.exit(n)`
  abbrev pub quit : ℕ → Script S A
  quit n s = (stop (exit n), s)

  abbrev pub gets : (S → A) → Script S A
  gets f s = (ok (f s), s)

-- What follows a statement.
abbrev pub modify : {S : Type 0} → (S → S) → Script S (Unit {0})
modify f s = (ok tt, f s)

-- A loop that ran out of rounds.
abbrev pub give_up : {S A : Type 0} → Script S A
give_up s = (stop diverged, s)

-- What follows a statement that ended so.
unfoldable pub and_then : {S A B : Type 0} → Outcome A × S → (A → Script S B) → Outcome B × S
and_then (ok a, s) f = f a s
and_then (stop h, s) f = (stop h, s)

infixl 5 ◌>>=◌ ◌>>◌
abbrev pub ◌>>=◌ : {S A B : Type 0} → Script S A → (A → Script S B) → Script S B
◌>>=◌ m f s = and_then (m s) f

abbrev pub ◌>>◌ : {S A B : Type 0} → Script S A → Script S B → Script S B
m >> k = m >>= λ _. k

-- `if (b) throw new Error(message)`
abbrev pub throw_if : {S : Type 0} → Bool → Text → Script S (Unit {0})
throw_if true message = fail message
throw_if false message = pure tt

-- `if (b) await m`
unfoldable pub when : {S : Type 0} → Bool → Script S (Unit {0}) → Script S (Unit {0})
when true m = m
when false m = pure tt

unfoldable pub catching : {S A : Type 0} → Outcome A × S → (Text → Script S A) → Outcome A × S
catching (ok a, s) handler = (ok a, s)
catching (stop (throw e), s) handler = handler e s
catching (stop (exit n), s) handler = (stop (exit n), s)
catching (stop diverged, s) handler = (stop diverged, s)

-- `try { m } catch (e) { handler(e) }`
abbrev pub try_catch : {S A : Type 0} → Script S A → (Text → Script S A) → Script S A
try_catch m handler s = catching (m s) handler

unfoldable pub finishing : {S A : Type 0} → Outcome A × S → Script S (Unit {0}) → Outcome A × S
finishing (ok a, s) cleanup = and_then (cleanup s) (λ _ t. (ok a, t))
finishing (stop (throw e), s) cleanup = and_then (cleanup s) (λ _ t. (stop (throw e), t))
finishing (stop (exit n), s) cleanup = (stop (exit n), s)
finishing (stop diverged, s) cleanup = (stop diverged, s)

-- `try { m } finally { cleanup }`
abbrev pub try_finally : {S A : Type 0} → Script S A → Script S (Unit {0}) → Script S A
try_finally m cleanup s = finishing (m s) cleanup

-- A loop `for (const x of xs) body(x)`.
unfoldable pub for_each : {S A : Type 0} → List A → (A → Script S (Unit {0})) → Script S (Unit {0})
for_each [] body = pure tt
for_each (x ∷ xs) body = body x >> for_each xs body

-- How a promise settles.
pub data Settled (A : Type 0) : Type 0 where
  resolved : A → Settled A
  rejected : Text → Settled A

abbrev pub outcome_of : {A : Type 0} → Settled A → Outcome A
outcome_of (resolved a) = ok a
outcome_of (rejected e) = stop (throw e)

-- The value of a settled promise.
abbrev pub settled : {S A : Type 0} → Settled A → Script S A
settled r s = (outcome_of r, s)

unfoldable pub settling : {S A : Type 0} → Outcome A × S → Outcome (Settled A) × S
settling (ok a, s) = (ok (resolved a), s)
settling (stop (throw e), s) = (ok (rejected e), s)
settling (stop (exit n), s) = (stop (exit n), s)
settling (stop diverged, s) = (stop diverged, s)

-- A promise of `Promise.all`, which runs to its end even if another is rejected.
abbrev pub attempt : {S A : Type 0} → Script S A → Script S (Settled A)
attempt m s = settling (m s)
