-- ===== src/Network/Verdict.antt =====
-- The `try` and the `finally` of deploy/data/network-security.mjs: the Jobs and their results.
use cartyx_infrastructure.Base.{Text, List, [], ◌∷◌, All, ◌≡◌, ◌⊎◌, inl, inr, refl}
use cartyx_infrastructure.Script.{
  Env, Log, throw, Settled, resolved, rejected, settled, settling, finishing, exit, diverged,
  and_then, for_each, Outcome,
}
use cartyx_infrastructure.Script.Post.{Post, returned, stopped, weaken-Post, and_then-Post}
use cartyx_infrastructure.Script.Discipline.{IsThrow, Did, Keeps}
use cartyx_infrastructure.Script.Blocks.{finally-Post, gets-Post}
use cartyx_infrastructure.Network.{
  Case, Probe, Answer, State, create_job, wait_job, read_logs, delete_job, cases_of, checks_of,
  watch, watch_all, try_probes, delete_probes,
}
use cartyx_infrastructure.Network.Cleaning.{
  Tracks, IsClean, IsRefused, All-lookup, Same, Same-trans, other-call, IsStarted, starts-Post,
  delete_probes-Post,
}

-- The Job of a case was created with the labels and the checks of the case, has completed, and was
-- deleted.
abbrev pub IsPassed : Text → Case → Log Answer → Type 0
IsPassed target c log =
    (p : Probe) × (p.namespace ≡ c.namespace)
    × Did (create_job p c.labels (checks_of target c)) tt log
    × Did (wait_job p) tt log
    × Did (delete_job p) tt log

-- How a run can end.
abbrev pub Ended : Log Answer → Type 0
Ended log = IsClean log ⊎ IsRefused log

-- A run that ends without an error.
abbrev pub Verified : Text → Unit {0} → State → Type 0
Verified target _ w = IsClean w.log × All (λ c. IsPassed target c w.log) (cases_of target)

-- The Jobs whose promise resolved have completed.
abbrev Watched : List Probe → List (Settled (Unit {0})) → Log Answer → Type 0
Watched [] [] log = Unit
Watched (p ∷ ps) (r ∷ rs) log = (r ≡ resolved tt → Did (wait_job p) tt log) × Watched ps rs log
Watched _ _ log = ⊥

Watched-later :
    (ps : List Probe) (rs : List (Settled (Unit {0}))) (log log' : Log Answer)
    → Keeps log log'
    → Watched ps rs log
    → Watched ps rs log'
Watched-later [] [] log log' k w = tt
Watched-later (p ∷ ps) (r ∷ rs) log log' k (f, w) =
    (λ e. k _ _ (f e), Watched-later ps rs log log' k w)
Watched-later [] (r ∷ rs) log log' k w = absurd w
Watched-later (p ∷ ps) [] log log' k w = absurd w

Watched-All :
    (ps : List Probe) (rs : List (Settled (Unit {0}))) (log : Log Answer)
    → All (λ r. r ≡ resolved tt) rs
    → Watched ps rs log
    → All (λ p. Did (wait_job p) tt log) ps
Watched-All [] [] log a w = tt
Watched-All (p ∷ ps) (r ∷ rs) log (e, a) (f, w) = (f e, Watched-All ps rs log a w)
Watched-All [] (r ∷ rs) log a w = absurd w
Watched-All (p ∷ ps) [] log a w = absurd w

module _ (env : Env Answer) where
  watch-Post :
      (p : Probe) (w : State)
      → Tracks w
      → Post
          (λ _ w'. Same w w' × Did (wait_job p) tt w'.log)
          (λ h w'. IsThrow h × Same w w')
          (watch env p w)
  unfolding watch
  watch-Post p w t = and_then-Post (other-call env (wait_job p) w refl t) λ _ w1 (s1, waited).
      and_then-Post
        (weaken-Post (other-call env (read_logs p) w1 refl s1.0) (λ _ _ x. x)
          (λ _ w2 (thrown, s2). (thrown, Same-trans w w1 w2 s1 s2)))
        λ _ w2 (s2, _). returned (Same-trans w w1 w2 s1 s2, s2.2 _ _ waited)

  -- A promise that is watched settles.
  settled-Post :
      (p : Probe) (w : State) {r : Outcome (Unit {0}) × State}
      → Post (λ _ w'. Same w w' × Did (wait_job p) tt w'.log) (λ h w'. IsThrow h × Same w w') r
      → Post
          (λ s w'. Same w w' × (s ≡ resolved tt → Did (wait_job p) tt w'.log))
          (λ h w'. IsThrow h × Same w w')
          (settling r)
  unfolding settling
  settled-Post p w (returned (s, waited)) = returned (s, λ _. waited)
  settled-Post p w (stopped {h = throw m} (_, s)) = returned (s, λ e. cc e)
  settled-Post p w (stopped {h = exit n} (bad, _)) = absurd bad
  settled-Post p w (stopped {h = diverged} (bad, _)) = absurd bad

  watch_all-Post :
      (ps : List Probe) (w : State)
      → Tracks w
      → Post
          (λ rs w'. Same w w' × Watched ps rs w'.log)
          (λ h w'. IsThrow h × Same w w')
          (watch_all env ps w)
  unfolding watch_all
  watch_all-Post [] w t = returned ((t, refl, λ _ _ d. d), tt)
  watch_all-Post (p ∷ ps) w t =
      and_then-Post (settled-Post p w (watch-Post p w t)) λ r w1 (s1, first).
        and_then-Post
          (weaken-Post (watch_all-Post ps w1 s1.0) (λ _ _ x. x)
            (λ _ w2 (thrown, s2). (thrown, Same-trans w w1 w2 s1 s2)))
          λ rs w2 (s2, rest). returned (Same-trans w w1 w2 s1 s2, (λ e. s2.2 _ _ (first e), rest))

  -- The loop over the results.
  results-Post :
      (rs : List (Settled (Unit {0}))) (w : State)
      → Post
          (λ _ w'. (w' ≡ w) × All (λ r. r ≡ resolved tt) rs)
          (λ h w'. IsThrow h × (w' ≡ w))
          (for_each rs (λ r. settled r) w)
  unfolding for_each and_then
  results-Post [] w = returned (refl, tt)
  results-Post (resolved u ∷ rs) w =
      weaken-Post (results-Post rs w) (λ _ _ (e, a). (e, (refl, a))) (λ _ _ x. x)
  results-Post (rejected m ∷ rs) w = stopped (tt, refl)

  module _ (target : Text) where
    -- What holds after the `try`.
    abbrev Tried : Unit {0} → State → Type 0
    Tried _ w =
        Tracks w
        × All (λ c. IsStarted env target c w) (cases_of target)
        × All (λ p. Did (wait_job p) tt w.log) w.vars

    IsStarted-kept :
        (cases : List Case) (w w' : State)
        → Same w w'
        → All (λ c. IsStarted env target c w) cases
        → All (λ c. IsStarted env target c w') cases
    IsStarted-kept [] w w' s a = tt
    IsStarted-kept (c ∷ cases) w w' s ((p, there, created, m), a) =
        ((p, there, s.2 _ _ created, rw s.1 m), IsStarted-kept cases w w' s a)

    try_probes-Post :
        (w : State)
        → Tracks w
        → Post Tried (λ h w'. IsThrow h × Tracks w') (try_probes env target w)
    unfolding try_probes
    try_probes-Post w t =
        and_then-Post (starts-Post env target (cases_of target) w t) λ _ w1 (t1, _, started).
          gets-Post (λ u. u.vars) w1 _
            (and_then-Post
              (weaken-Post (watch_all-Post w1.vars w1 t1) (λ _ _ x. x)
                (λ _ _ (thrown, s2). (thrown, s2.0)))
              λ rs w2 (s2, watched).
                weaken-Post (results-Post rs w2)
                  (λ _ w3 (e, a). rw e (
                    s2.0,
                    IsStarted-kept (cases_of target) w1 w2 s2 started,
                    rw s2.1 (Watched-All w1.vars rs w2.log a watched),
                  ))
                  (λ _ w3 (thrown, e). (thrown, rw e s2.0)))

    passed :
        (cases : List Case) (w : State) (log : Log Answer)
        → IsClean log
        → Keeps w.log log
        → All (λ p. Did (wait_job p) tt w.log) w.vars
        → All (λ c. IsStarted env target c w) cases
        → All (λ c. IsPassed target c log) cases
    passed [] w log clean k waited a = tt
    passed (c ∷ cases) w log clean k waited ((p, there, created, m), a) = (
      (
        p,
        there,
        k _ _ created,
        k _ _ (All-lookup (λ p'. Did (wait_job p') tt w.log) m waited),
        clean _ _ _ (k _ _ created),
      ),
      passed cases w log clean k waited a,
    )

    pub both-Post :
        (w : State)
        → Tracks w
        → Post
            (Verified target)
            (λ h w'. IsThrow h × Ended w'.log)
            (finishing (try_probes env target w) (delete_probes env))
    both-Post w t =
        finally-Post {E = Tracks} (try_probes-Post w t)
          (λ _ w1 (t1, started, waited).
            weaken-Post (delete_probes-Post env w1 t1)
              (λ _ w2 (clean, k).
                (clean, passed (cases_of target) w1 w2.log clean k waited started))
              (λ _ _ (thrown, refused). (thrown, inr refused)))
          (λ w1 t1.
            weaken-Post (delete_probes-Post env w1 t1) (λ _ _ (clean, _). inl clean)
              (λ _ _ (thrown, refused). (thrown, inr refused)))
