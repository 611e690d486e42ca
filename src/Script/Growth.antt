-- ===== src/Script/Growth.antt =====
-- Scripts that lose nothing of what was answered, however they end: the rules for each statement.
use cartyx_infrastructure.Base.{Text, Bool, true, false}
use cartyx_infrastructure.Script.Monad.{
  throw, exit, diverged, Stop, Outcome, Script, and_then, gets, attempt, attempt, settling, settled,
  Settled, resolved, rejected, throw_if,
}
use cartyx_infrastructure.Script.Run.{Env, World, Log, call, after_call}
use cartyx_infrastructure.Script.Post.{Post, returned, stopped, call-Post, and_then-Post}
use cartyx_infrastructure.Script.Discipline.{earlier, Keeps}

-- Both of two postconditions.
pub both-Post :
    {B S : Type 0} {R R' : B → S → Type 0} {E E' : Stop → S → Type 0} {r : Outcome B × S}
    → Post R E r
    → Post R' E' r
    → Post (λ b s. R b s × R' b s) (λ h s. E h s × E' h s) r
both-Post (returned p) (returned p') = returned (p, p')
both-Post (stopped p) (stopped p') = stopped (p, p')

module _ {Q : Type 0} {A : Q → Type 0} {V : Type 0} where
  -- Whatever the end, this log's answers are still there.
  abbrev pub Grown : {B : Type 0} → Log A → Outcome B × World A V → Type 0
  Grown log = Post (λ _ w. Keeps log w.log) (λ _ w. Keeps log w.log)

  pub call-Grown :
      (env : Env A) (q : Q) {log : Log A} (w : World A V)
      → Keeps log w.log
      → Grown log (call env q w)
  unfolding after_call
  call-Grown env q w k =
      call-Post env q w (λ _ _ q' a d. earlier (k q' a d)) (λ _ _ q' a d. earlier (k q' a d))

  pub throw_if-Grown :
      (b : Bool) (message : Text) {log : Log A} (w : World A V)
      → Keeps log w.log
      → Grown log (throw_if b message w)
  throw_if-Grown true message w k = stopped k
  throw_if-Grown false message w k = returned k

  settling-Grown :
      {B : Type 0} {log : Log A} {r : Outcome B × World A V} → Grown log r → Grown log (settling r)
  unfolding settling
  settling-Grown (returned k) = returned k
  settling-Grown (stopped {h = throw e} k) = returned k
  settling-Grown (stopped {h = exit n} k) = stopped k
  settling-Grown (stopped {h = diverged} k) = stopped k

  module _ {B : Type 0} {log : Log A} where
    -- A call, and what follows it.
    pub after-call-Grown :
        (env : Env A) (q : Q) (w : World A V) {f : A q → Script (World A V) B}
        → Keeps log w.log
        → ((a : A q) (w' : World A V) → Keeps log w'.log → Grown log (f a w'))
        → Grown log (and_then (call env q w) f)
    after-call-Grown env q w k g = and_then-Post (call-Grown env q w k) g

    -- A guard, and what follows it.
    pub after-throw_if-Grown :
        (b : Bool) (message : Text) (w : World A V) (f : Unit {0} → Script (World A V) B)
        → Keeps log w.log
        → Grown log (f tt w)
        → Grown log (and_then (throw_if b message w) f)
    unfolding and_then
    after-throw_if-Grown true message w f k g = stopped k
    after-throw_if-Grown false message w f k g = g

    -- A settled promise, and what follows it.
    pub after-settled-Grown :
        {C : Type 0} (r : Settled C) (w : World A V) (f : C → Script (World A V) B)
        → Keeps log w.log
        → ((c : C) → Grown log (f c w))
        → Grown log (and_then (settled r w) f)
    unfolding and_then
    after-settled-Grown (resolved c) w f k g = g c
    after-settled-Grown (rejected e) w f k g = stopped k

    -- A promise of `Promise.all`, and what follows it.
    pub after-attempt-Grown :
        {C : Type 0} (m : Script (World A V) C) (w : World A V)
        (f : Settled C → Script (World A V) B)
        → Grown log (m w)
        → ((r : Settled C) (w' : World A V) → Keeps log w'.log → Grown log (f r w'))
        → Grown log (and_then (attempt m w) f)
    after-attempt-Grown m w f g h = and_then-Post (settling-Grown g) h

    -- A value read from the state, and what follows it.
    pub after-gets-Grown :
        {C : Type 0} (g : World A V → C) (w : World A V) (f : C → Script (World A V) B)
        → Grown log (f (g w) w)
        → Grown log (and_then (gets g w) f)
    unfolding and_then
    after-gets-Grown g w f p = p
