-- ===== src/Cluster/Resume/Ending.antt =====
-- `resume` ends, whatever the cluster answers.
use cartyx_infrastructure.Base.{◌≤◌, text, ◌≡◌, refl, arith}
use cartyx_infrastructure.Script.{Outcome, ok, World, call, after_call}
use cartyx_infrastructure.Script.Post.{
  Post, returned, stopped, and_then-Post, call-Post, weaken-Post,
}
use cartyx_infrastructure.Script.Discipline.{IsThrow}
use cartyx_infrastructure.Cluster.Documents.{Original, janusgraph, cassandra}
use cartyx_infrastructure.Cluster.Request.{
  Request, Answer, Environment, get_graph, get_cassandra, scale, suspend_helm, suspend_flux,
}
use cartyx_infrastructure.Cluster.Wait.Ending.{IsSteady, IsPassed, until-Ends}
use cartyx_infrastructure.Cluster.Resume.{recovered, resume}

module _ {V : Type 0} (env : Environment) where
  timed_call :
      (q : Request) (w : World Answer V)
      → Post (λ _ w'. w.time ≤ w'.time) (λ h _. IsThrow h) (call env q w)
  unfolding after_call
  timed_call q w = call-Post env q w (λ a _. omega arith) (λ e _. tt)

  recovered-IsSteady : (original : Original) → IsSteady {V = V} env (recovered env original)
  unfolding recovered
  recovered-IsSteady original w =
      and_then-Post (timed_call get_cassandra w) λ c w1 t1.
        and_then-Post (timed_call get_graph w1) λ g w2 t2. returned (omega (arith, t1, t2))

  -- Both databases were seen recovered, and then both reconcilers were set, Helm before Flux.
  abbrev pub IsResumed : Original → World Answer V → Type 0
  IsResumed original w' =
      (seen : World Answer V) × IsPassed {V = V} env (recovered env original) seen
      × ((helm : World Answer V) × (call env (suspend_helm original.helm) seen ≡ (ok tt, helm))
          × (call env (suspend_flux original.flux) helm ≡ (ok tt, w')))

  sent :
      (q : Request) (w : World Answer V)
      → Post (λ a w'. call env q w ≡ (ok a, w')) (λ h _. IsThrow h) (call env q w)
  sent q w = go (call env q w) refl (timed_call q w)
    where
      go :
          (r : Outcome (Answer q) × World Answer V)
          → call env q w ≡ r
          → Post (λ _ w'. w.time ≤ w'.time) (λ h _. IsThrow h) r
          → Post (λ a w'. call env q w ≡ (ok a, w')) (λ h _. IsThrow h) r
      go _ e (returned p) = returned e
      go _ e (stopped p) = stopped p

  -- Whatever the cluster answers, `resume` ends. It throws, or it returns, and then the two calls that
  -- set Helm and Flux were made, in this order, right after both databases were seen recovered.
  pub resume-Ends :
      (original : Original) (w : World Answer V)
      → Post (λ _. IsResumed original) (λ h _. IsThrow h) (resume env original w)
  unfolding resume
  resume-Ends original w = and_then-Post (sent (scale cassandra original.cassandra) w) λ _ w1 _.
      and_then-Post (sent (scale janusgraph original.graph) w1) λ _ w2 _.
        and_then-Post
          (until-Ends env (recovered env original) (recovered-IsSteady original)
            (text "database recovery") 600 w2)
          λ _ w3 passed. and_then-Post (sent (suspend_helm original.helm) w3) λ _ w4 helm.
            weaken-Post (sent (suspend_flux original.flux) w4)
              (λ _ w5 flux. (w3, passed, (w4, helm, flux))) (λ _ _ bad. bad)
