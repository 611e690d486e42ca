-- ===== src/Kubernetes/Tidy.antt =====
-- What deploy/data/kubernetes.mjs makes for a while, and how it takes it away again.
use cartyx_infrastructure.Base.{Bool, true, false, refl, Text, ◌∷◌, ◌++◌, ◌≡◌, ◌⊎◌, inl, ap}
use cartyx_infrastructure.Script.{
  Env, Log, Script, and_then, throw_if, throw, Stop, Settled, called, resolved, rejected, call,
  after_call,
}
use cartyx_infrastructure.Script.Post.{Post, stopped, call-Post, weaken-Post, and_then-Post}
use cartyx_infrastructure.Script.Discipline.{
  IsThrow, Left, just-call, Did, latest, earlier, Keeps, Obeys,
}
use cartyx_infrastructure.Script.Blocks.{Obeys-weaken, Did-Obeys, rejection-Did}
use cartyx_infrastructure.Kubernetes.Requests.{
  Pod, Request, Answer, Settings, State, create_job, delete_job, make_scratch, remove_scratch,
}
use cartyx_infrastructure.Kubernetes.Trust.{Allowed, Plain, MakesNothing, here}

-- Nothing was made that is to be removed again.
abbrev pub MadeNothing : Log Answer → Type 0
MadeNothing log =
    ((n name : Text) (pod : Pod) → Did (create_job n name pod) tt log → ⊥)
    × ((path : Text) → Did make_scratch path log → ⊥)

module _ (settings : Settings) where
  -- None of these calls makes anything.
  abbrev pub Barren : Log Answer → Type 0
  Barren log = Obeys (λ q _. MakesNothing settings q) log

  -- After the one call that makes something, the latest call is the one that removes it.
  abbrev pub IsRemoved : (opened : Request) → Answer opened → Request → Log Answer → Type 0
  IsRemoved opened a close log =
      (r : Settled (Answer close)) × (middle : Log Answer) × (before : Log Answer) × (log
        ≡ called close r ∷ (middle ++ (called opened (resolved a) ∷ before)))
      × Barren middle
      × Barren before

  -- The log of a whole run.
  abbrev pub IsTidy : Log Answer → Type 0
  IsTidy log =
      MadeNothing log
      ⊎ ((name : Text) × (pod : Pod) × IsRemoved (create_job (here settings) name pod) tt
            (delete_job (here settings) name) log)
      ⊎ ((path : Text) × IsRemoved make_scratch path (remove_scratch path) log)

  pub Plain-MadeNothing : {log : Log Answer} → Obeys (Plain settings) log → MadeNothing log
  Plain-MadeNothing o = (
    (λ n name pod d. (Did-Obeys (Plain settings) d o).1.1),
    (λ path d. (Did-Obeys (Plain settings) d o).1.1),
  )

  pub Plain-Barren : (log : Log Answer) → Obeys (Plain settings) log → Barren log
  Plain-Barren = Obeys-weaken {P = Plain settings} (λ _ _ p. p.1)

  pub Plain-Allowed : (log : Log Answer) → Obeys (Plain settings) log → Obeys (Allowed settings) log
  Plain-Allowed = Obeys-weaken {P = Plain settings} (λ _ _ p. p.0)

  module _ (env : Env Answer) where
    -- A run that stops.
    abbrev pub Fails : Stop → State → Type 0
    Fails h w = IsThrow h × (Obeys (Allowed settings) w.log × IsTidy w.log)

    -- A script that stops before it makes anything.
    pub Plain-Fails : (h : Stop) (w : State) → IsThrow h × Obeys (Plain settings) w.log → Fails h w
    Plain-Fails h w (thrown, o) = (thrown, (Plain-Allowed w.log o, inl (Plain-MadeNothing o)))

    module _ {B : Type 0} {R : B → State → Type 0} where
      -- A call that makes nothing, and what follows it.
      pub after-early_call :
          (q : Request) (w : State) {f : Answer q → Script State B}
          → Plain settings q w.log
          → Obeys (Plain settings) w.log
          → ((a : Answer q) (w' : State)
              → Left env (Plain settings) q w a w'
              → Post R Fails (f a w'))
          → Post R Fails (and_then (call env q w) f)
      after-early_call q w p o k =
          and_then-Post
            (weaken-Post (just-call env (Plain settings) q w p o) (λ _ _ left. left) Plain-Fails) k

      -- A guard before anything is made, and what follows it.
      pub after-early_throw_if :
          (b : Bool) (message : Text) (w : State) (f : Unit {0} → Script State B)
          → Obeys (Plain settings) w.log
          → (b ≡ false → Post R Fails (f tt w))
          → Post R Fails (and_then (throw_if b message w) f)
      unfolding and_then
      after-early_throw_if true message w f o k = stopped (Plain-Fails (throw message) w (tt, o))
      after-early_throw_if false message w f o k = k refl

    -- What was asked for in vain was not made.
    pub rejection-Fails :
        (q : Request) (m : Text) (w : State)
        → Allowed settings q w.log
        → Obeys (Plain settings) w.log
        → Obeys (Allowed settings) (called q (rejected m) ∷ w.log)
          × IsTidy (called q (rejected m) ∷ w.log)
    rejection-Fails q m w p o =
        let (jobs, scratches) = Plain-MadeNothing o in
        (
          (p, Plain-Allowed w.log o),
          inl (
            (λ n name pod d. jobs n name pod (rejection-Did (create_job n name pod) q m w.log d)),
            (λ path d. scratches path (rejection-Did make_scratch q m w.log d)),
          ),
        )

    -- Some calls after a log, none of which makes anything.
    abbrev pub After : Log Answer → State → Type 0
    After base w =
        ((middle : Log Answer) × (w.log ≡ middle ++ base) × Barren middle)
        × Obeys (Allowed settings) w.log

    pub call-After :
        (base : Log Answer) (q : Request) (w : State)
        → MakesNothing settings q
        → Allowed settings q w.log
        → After base w
        → Post
            (λ a w'. After base w' × Did q a w'.log × Keeps w.log w'.log)
            (λ h w'. IsThrow h × After base w')
            (call env q w)
    unfolding after_call
    call-After base q w barren p ((middle, e, b), o) =
        call-Post env q w (λ a e'. (further, rw e' latest, (λ _ _ d. earlier d)))
          (λ m _. (tt, further))
      where
        further : After base (after_call env q w)
        further = (
          (
            called q (env.answer q w.log).result ∷ middle,
            ap (λ l. called q (env.answer q w.log).result ∷ l) e,
            (barren, b),
          ),
          (p, o),
        )

    -- The call that removes what was made.
    pub removal-Post :
        (opened : Request) (a : Answer opened) (close : Request) (before : Log Answer) (w : State)
        → Allowed settings close w.log
        → Barren before
        → After (called opened (resolved a) ∷ before) w
        → Post
            (λ a' w'.
              Did close a' w'.log
              × Keeps w.log w'.log
              × Obeys (Allowed settings) w'.log
              × IsRemoved opened a close w'.log)
            (λ h w'.
              IsThrow h × (Obeys (Allowed settings) w'.log × IsRemoved opened a close w'.log))
            (call env close w)
    unfolding after_call
    removal-Post opened a close before w p bb ((middle, e, b), o) =
        call-Post env close w (λ a' e'. (rw e' latest, (λ _ _ d. earlier d), (p, o), removed))
          (λ m _. (tt, ((p, o), removed)))
      where
        removed : IsRemoved opened a close (after_call env close w).log
        removed = (
          (env.answer close w.log).result,
          middle,
          before,
          ap (λ l. called close (env.answer close w.log).result ∷ l) e,
          b,
          bb,
        )
