-- ===== src/Cluster/Wait/Rules.antt =====
-- The rule for `until`: an invariant that each round keeps, and what a passed check shows.
use cartyx_infrastructure.Base.{
  ℕ, zero, suc, ◌+◌, ◌*◌, ◌/◌, Text, Bool, true, false, inl, inr, ltb, Bool-cases, if◌then◌else◌,
}
use cartyx_infrastructure.Script.{Stop, Script, World, Env, sleep, and_then}
use cartyx_infrastructure.Script.Post.{Post, NoExit, returned, stopped, and_then-Post}
use cartyx_infrastructure.Cluster.Wait.{after_check, until_loop, until}

module _ {Q : Type 0} {A : Q → Type 0} {V : Type 0} (env : Env A) (check : Script (World A V) Bool)
    (J K : World A V → Type 0) (E : Stop → World A V → Type 0)
    (poll : (w : World A V) → J w → Post (λ done w'. if done then K w' else J w') E (check w))
    (rest : (w : World A V) → J w → J (sleep env 3000 w).1)
    (late : (h : Stop) (w : World A V) → NoExit h → J w → E h w) where
  after_check-Post :
      (again : Script (World A V) (Unit {0})) (label : Text) (deadline : ℕ)
      → ((w : World A V) → J w → Post (λ _. K) E (again w))
      → (done : Bool) (w : World A V) → (if done then K w else J w)
      → Post (λ _. K) E (after_check env again label deadline done w)
  unfolding after_check and_then sleep
  after_check-Post again label deadline rec true w k = returned k
  after_check-Post again label deadline rec false w j =
      let w' : World A V = (sleep env 3000 w).1 in
      elim (Bool-cases (ltb w'.time deadline)) [
        | inl early ↦ rw early (rec w' (rest w j))
        | inr over ↦ rw over (stopped (late _ w' tt (rest w j)))
      ]

  until_loop-Post :
      (rounds : ℕ) (label : Text) (deadline : ℕ) (w : World A V)
      → J w
      → Post (λ _. K) E (until_loop env rounds check label deadline w)
  unfolding until_loop
  until_loop-Post zero label deadline w j = stopped (late _ _ tt j)
  until_loop-Post (suc rounds) label deadline w j =
      and_then-Post (poll w j)
        (after_check-Post _ label deadline (until_loop-Post rounds label deadline))

  pub until-Post :
      (label : Text) (seconds : ℕ) (w : World A V)
      → J w
      → Post (λ _. K) E (until env check label seconds w)
  unfolding until
  until-Post label seconds w j =
      until_loop-Post (suc (seconds * 1000 / 3000)) label (w.time + seconds * 1000) w j
