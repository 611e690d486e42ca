-- ===== src/Script/Discipline.antt =====
-- Scripts that make each call only where it is allowed, by what was answered before it: the rules
-- that follow a script statement by statement.
use cartyx_infrastructure.Base.{
  ◌∙◌, List, All, ◌++◌, Text, [], ◌∷◌, ◌++◌, Bool, true, false, ◌≡◌, refl,
}
use cartyx_infrastructure.Script.Monad.{
  throw, exit, diverged, attempt, settling, outcome_of, gets, Settled, rejected, settled, for_each,
  Outcome, Stop, Script, and_then, throw_if, resolved,
}
use cartyx_infrastructure.Script.Run.{Env, World, Log, Event, called, slept, call, after_call}
use cartyx_infrastructure.Script.Post.{
  Post, returned, stopped, call-Post, weaken-Post, and_then-Post,
}

-- Not by `process.exit`, and not for want of rounds.
abbrev pub IsThrow : Stop → Type 0
IsThrow (throw e) = Unit
IsThrow (exit n) = ⊥
IsThrow diverged = ⊥

module _ {Q : Type 0} {A : Q → Type 0} where
  -- The call was made, and resolved to this.
  pub data Did (q : Q) (a : A q) : Log A → Type 0 where
    latest : {log : Log A} → Did q a (called q (resolved a) ∷ log)
    earlier : {e : Event A} {log : Log A} → Did q a log → Did q a (e ∷ log)

  -- Each call of a log is allowed by what stands before it.
  abbrev pub Obeys : ((q : Q) → Log A → Type 0) → Log A → Type 0
  Obeys P [] = Unit
  Obeys P (called q r ∷ log) = P q log × Obeys P log
  Obeys P (slept ms ∷ log) = Obeys P log

  -- Nothing that was answered is lost.
  abbrev pub Keeps : Log A → Log A → Type 0
  Keeps log log' = (q : Q) (a : A q) → Did q a log → Did q a log'

module _ {Q : Type 0} {A : Q → Type 0} {V : Type 0} (env : Env A)
    (P : (q : Q) → Log A → Type 0) where
  -- A script that stops has thrown an error, and has obeyed.
  abbrev pub Kept : Stop → World A V → Type 0
  Kept h w = IsThrow h × Obeys P w.log

  -- What a call that is allowed leaves, if it resolves.
  abbrev pub Left : (q : Q) → World A V → A q → World A V → Type 0
  Left q w a w' = Did q a w'.log × Keeps w.log w'.log × Obeys P w'.log × (w'.vars ≡ w.vars)

  pub just-call :
      (q : Q) (w : World A V) → P q w.log → Obeys P w.log → Post (Left q w) Kept (call env q w)
  unfolding after_call
  just-call q w p o =
      call-Post env q w (λ a e. (rw e latest, (λ q' a' d. earlier d), (p, o), refl))
        (λ e _. (tt, (p, o)))

  -- A guard that nothing follows.
  pub just-throw_if :
      {T : Unit {0} → World A V → Type 0} (b : Bool) (message : Text) (w : World A V)
      → Obeys P w.log
      → (b ≡ false → T tt w)
      → Post T Kept (throw_if b message w)
  just-throw_if true message w o k = stopped (tt, o)
  just-throw_if false message w o k = returned (k refl)

  module _ {B : Type 0} {R : B → World A V → Type 0} where
    -- A call that is allowed, and what follows it.
    pub after-call :
        (q : Q) (w : World A V) {f : A q → Script (World A V) B}
        → P q w.log
        → Obeys P w.log
        → ((a : A q) (w' : World A V) → Left q w a w' → Post R Kept (f a w'))
        → Post R Kept (and_then (call env q w) f)
    after-call q w p o k = and_then-Post (just-call q w p o) k

    -- A guard, and what follows it.
    pub after-throw_if :
        (b : Bool) (message : Text) (w : World A V) (f : Unit {0} → Script (World A V) B)
        → Obeys P w.log
        → (b ≡ false → Post R Kept (f tt w))
        → Post R Kept (and_then (throw_if b message w) f)
    after-throw_if true message w f o k =
        and_then-Post {Q = λ _ w'. Post R Kept (f tt w')} (stopped (tt, o)) (λ a w' p. p)
    after-throw_if false message w f o k =
        and_then-Post {Q = λ _ w'. Post R Kept (f tt w')} (returned (k refl)) (λ a w' p. p)

    -- A promise of `Promise.all`, and what follows it.
    pub after-attempt :
        (q : Q) (w : World A V) (f : Settled (A q) → Script (World A V) B)
        → P q w.log
        → Obeys P w.log
        → ((r : Settled (A q)) (w' : World A V)
            → ((a : A q) → r ≡ resolved a → Did q a w'.log)
            → Keeps w.log w'.log
            → Obeys P w'.log
            → Post R Kept (f r w'))
        → Post R Kept (and_then (attempt (call env q) w) f)
    unfolding call after_call settling and_then
    after-attempt q w f p o k = go (env.answer q w.log).result refl
      where
        go :
            (r : Settled (A q))
            → (env.answer q w.log).result ≡ r
            → Post R Kept (and_then (settling (outcome_of r, after_call env q w)) f)
        go (resolved a) e =
            k (resolved a) _ (λ a' same. rw (e ∙ same) latest) (λ q' a' d. earlier d) (p, o)
        go (rejected m) e = k (rejected m) _ (λ a' same. cc same) (λ q' a' d. earlier d) (p, o)

    -- A value read from the state, and what follows it.
    pub after-gets :
        {C : Type 0} (g : World A V → C) (w : World A V) (f : C → Script (World A V) B)
        → Post R Kept (f (g w) w)
        → Post R Kept (and_then (gets g w) f)
    unfolding and_then
    after-gets g w f p = p

    -- The value of a settled promise, and what follows it.
    pub after-settled :
        {C : Type 0} (r : Settled C) (w : World A V) (f : C → Script (World A V) B)
        → Obeys P w.log
        → ((c : C) → r ≡ resolved c → Post R Kept (f c w))
        → Post R Kept (and_then (settled r w) f)
    after-settled (resolved c) w f o k =
        and_then-Post {Q = λ c' w'. Post R Kept (f c' w')} (returned (k c refl)) (λ _ _ p. p)
    after-settled (rejected e) w f o k =
        and_then-Post {Q = λ c' w'. Post R Kept (f c' w')} (stopped (tt, o)) (λ _ _ p. p)

  -- What a part of a script leaves: nothing is lost, and something more is known.
  abbrev pub Adds : {B : Type 0} → (B → Log A → Type 0) → World A V → B → World A V → Type 0
  Adds F w b w' = Obeys P w'.log × Keeps w.log w'.log × F b w'.log

  -- A loop over a list, whose body can rely on all that was known before the loop.
  pub for_each-Post :
      {B : Type 0} (F : B → Log A → Type 0)
      → ((b : B) (log log' : Log A) → Keeps log log' → F b log → F b log')
      → (body : B → Script (World A V) (Unit {0})) (start : World A V)
      → ((b : B) (w : World A V)
          → Keeps start.log w.log
          → Obeys P w.log
          → Post (Adds (λ _. F b) w) Kept (body b w))
      → (bs : List B) (w : World A V) → Keeps start.log w.log
      → Obeys P w.log
      → Post (Adds (λ _ log. All (λ b. F b log) bs) w) Kept (for_each bs body w)
  unfolding for_each
  for_each-Post F mono body start each [] w k o = returned (o, (λ _ _ d. d), tt)
  for_each-Post F mono body start each (b ∷ bs) w k o =
      and_then-Post (each b w k o) λ _ w1 (o1, k1, f).
        weaken-Post (for_each-Post F mono body start each bs w1 (λ q a d. k1 q a (k q a d)) o1)
          (λ _ w2 (o2, k2, fs). (o2, (λ q a d. k2 q a (k1 q a d)), (mono b _ _ k2 f, fs)))
          (λ _ _ bad. bad)

-- Without a rule every log obeys.
pub Obeys-free : {Q : Type 0} {A : Q → Type 0} (log : Log A) → Obeys {A = A} (λ _ _. Unit {0}) log
Obeys-free [] = tt
Obeys-free (called q r ∷ log) = (tt, Obeys-free log)
Obeys-free (slept ms ∷ log) = Obeys-free log

module _ {Q : Type 0} {A : Q → Type 0} (P : (q : Q) → Log A → Type 0) where
  -- A call of a log that obeys is allowed where it is made.
  pub Obeys-append :
      (later : Log A) (q : Q) (r : Settled (A q)) (log : Log A)
      → Obeys P (later ++ (called q r ∷ log))
      → P q log
  Obeys-append [] q r log (p, o) = p
  Obeys-append (called q1 r1 ∷ later) q r log (p, o) = Obeys-append later q r log o
  Obeys-append (slept ms ∷ later) q r log o = Obeys-append later q r log o

  -- Both ends of a run have obeyed.
  pub Post-Obeys :
      {V B : Type 0} {R : B → World A V → Type 0} {r : Outcome B × World A V}
      → Post (λ b w. Obeys P w.log × R b w) (λ h w. IsThrow h × Obeys P w.log) r
      → Obeys P r.1.log
  Post-Obeys (returned p) = p.0
  Post-Obeys (stopped p) = p.1
