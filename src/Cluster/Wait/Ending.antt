-- ===== src/Cluster/Wait/Ending.antt =====
-- The loop of `until` ends: the rounds that the model gives it are enough.
use cartyx_infrastructure.Base.{
  ℕ, zero, suc, ◌+◌, ◌*◌, ◌/◌, ◌≤◌, ◌<◌, Text, Bool, true, false, ◌≡◌, refl, inl, inr, arith, ltb,
  ltb→lt, Bool-cases,
}
use cartyx_infrastructure.Script.{Outcome, ok, Script, World, Env, sleep, and_then}
use cartyx_infrastructure.Script.Post.{Post, returned, stopped, and_then-Post}
use cartyx_infrastructure.Script.Discipline.{IsThrow}
use cartyx_infrastructure.Cluster.Wait.{after_check, until_loop, until}

module _ {Q : Type 0} {A : Q → Type 0} {V : Type 0} (env : Env A)
    (check : Script (World A V) Bool) where
  -- The last thing before this world was a check that said yes.
  abbrev pub IsPassed : World A V → Type 0
  IsPassed w' = (w : World A V) × (check w ≡ (ok true, w'))

  -- A check that ends, and does not turn the clock back.
  abbrev pub IsSteady : Type 0
  IsSteady = (w : World A V) → Post (λ _ w'. w.time ≤ w'.time) (λ h _. IsThrow h) (check w)

  module _ (steady : IsSteady) where
    -- The check with what it did.
    checked :
        (w : World A V)
        → Post
            (λ done w'. (w.time ≤ w'.time) × (check w ≡ (ok done, w')))
            (λ h _. IsThrow h)
            (check w)
    checked w = go (check w) refl (steady w)
      where
        go :
            (r : Outcome Bool × World A V)
            → check w ≡ r
            → Post (λ _ w'. w.time ≤ w'.time) (λ h _. IsThrow h) r
            → Post (λ done w'. (w.time ≤ w'.time) × (check w ≡ (ok done, w'))) (λ h _. IsThrow h) r
        go _ e (returned p) = returned (p, e)
        go _ e (stopped p) = stopped p

    -- What follows a check, if the rounds that are left are enough after the wait.
    after_check-Ends :
        (loop : Script (World A V) (Unit {0})) (label : Text) (deadline : ℕ) (w : World A V)
        → ((w'' : World A V)
            → w.time + 3000 ≤ w''.time
            → w''.time < deadline
            → Post (λ _. IsPassed) (λ h _. IsThrow h) (loop w''))
        → (done : Bool) (w' : World A V) → (w.time ≤ w'.time) × (check w ≡ (ok done, w'))
        → Post (λ _. IsPassed) (λ h _. IsThrow h) (after_check env loop label deadline done w')
    unfolding after_check and_then sleep
    after_check-Ends loop label deadline w rec true w' (later, e) = returned (w, e)
    after_check-Ends loop label deadline w rec false w' (later, e) =
        let w'' : World A V = (sleep env 3000 w').1 in
        let slept : w.time + 3000 ≤ w''.time = omega (arith, later) in
        elim (Bool-cases (ltb w''.time deadline)) [
          | inl early ↦ rw early (rec w'' slept (ltb→lt w''.time deadline early))
          | inr over ↦ rw over (stopped tt)
        ]

    loop-Ends :
        (rounds : ℕ) (label : Text) (deadline : ℕ) (w : World A V)
        → deadline ≤ w.time + 3000 * rounds
        → zero < rounds
        → Post (λ _. IsPassed) (λ h _. IsThrow h) (until_loop env rounds check label deadline w)
    unfolding until_loop
    loop-Ends zero label deadline w enough some_left = ground arith
    loop-Ends (suc rounds) label deadline w enough some_left = and_then-Post (checked w) (
        after_check-Ends (until_loop env rounds check label deadline) label deadline w
          (λ w'' slept before.
            loop-Ends rounds label deadline w'' (omega (arith, enough, slept))
              (omega (arith, enough, slept, before))))

    -- For a check that ends and does not turn the clock back, `until` ends: it returns right after a
    -- check that said yes, or throws, and the rounds that it is given are enough.
    pub until-Ends :
        (label : Text) (seconds : ℕ) (w : World A V)
        → Post (λ _. IsPassed) (λ h _. IsThrow h) (until env check label seconds w)
    unfolding until
    until-Ends label seconds w =
        loop-Ends (suc (seconds * 1000 / 3000)) label (w.time + seconds * 1000) w (omega arith)
          (omega arith)
