-- ===== src/Cluster/Wait.antt =====
-- `until` of deploy/data/cluster-api.mjs.
pub mod Rules
pub mod Ending
use cartyx_infrastructure.Base.{
  ℕ, zero, suc, ◌+◌, ◌*◌, ◌/◌, ◌++◌, Text, text, Bool, true, false, ltb, if◌then◌else◌,
}
use cartyx_infrastructure.Script.{Script, World, Env, give_up, pure, fail, gets, sleep, ◌>>=◌, ◌>>◌}

module _ {Q : Type 0} {A : Q → Type 0} {V : Type 0} (env : Env A) where
  -- What follows a check: `return`, or the wait and the test of the loop.
  unfoldable pub after_check :
      Script (World A V) (Unit {0}) → Text → ℕ → Bool → Script (World A V) (Unit {0})
  after_check again label deadline true = pure tt
  after_check again label deadline false = do
    sleep env 3000
    now ← gets (λ w. w.time)
    if ltb now deadline then again else fail (text "Timed out waiting for " ++ label)

  -- The rounds of the loop that are left come first.
  until_loop : ℕ → Script (World A V) Bool → Text → ℕ → Script (World A V) (Unit {0})
  unfolding after_check
  until_loop zero check label deadline = give_up
  until_loop (suc rounds) check label deadline =
      let again = until_loop rounds check label deadline in
      check >>= after_check again label deadline

  -- A round waits for three seconds, so that the loop has no more rounds than the count given here.
  unfoldable pub until : Script (World A V) Bool → Text → ℕ → Script (World A V) (Unit {0})
  unfolding until_loop
  until check label seconds w =
      until_loop (suc (seconds * 1000 / 3000)) check label (w.time + seconds * 1000) w
