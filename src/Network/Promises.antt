-- ===== src/Network/Promises.antt =====
-- What every run of deploy/data/network-security.mjs promises about its Jobs.
use cartyx_infrastructure.Base.{ℕ, [], Bool, true, false, ◌⊎◌, inl, Text}
use cartyx_infrastructure.Script.{Env, and_then, throw_if, Outcome, or_empty, Script}
use cartyx_infrastructure.Script.Post.{Post, returned, stopped}
use cartyx_infrastructure.Script.Discipline.{IsThrow}
use cartyx_infrastructure.Network.{Answer, Settings, State, verify_network, run}
use cartyx_infrastructure.Network.Cleaning.{Tracks, IsClean, IsRefused}
use cartyx_infrastructure.Network.Verdict.{Ended, Verified, both-Post}

abbrev initial : ℕ → State
initial now = record { log = []; time = now; cancelled = false; vars = [] }

initial-Tracks : (now : ℕ) → Tracks (initial now)
initial-Tracks now p labels checks d = elim d [ ]

initial-IsClean : (now : ℕ) → IsClean (initial now).log
initial-IsClean now p labels checks d = elim d [ ]

module _ (env : Env Answer) (settings : Settings) (now : ℕ) where
  guarded :
      (b : Bool) (message : Text) (f : Unit {0} → Script State (Unit {0}))
      → Post
          (Verified (or_empty settings.target))
          (λ h w. IsThrow h × Ended w.log)
          (f tt (initial now))
      → Post
          (Verified (or_empty settings.target))
          (λ h w. IsThrow h × Ended w.log)
          (and_then (throw_if b message (initial now)) f)
  unfolding and_then
  guarded true message f p = stopped (tt, inl (initial-IsClean now))
  guarded false message f p = p

  run-Post :
      Post
        (Verified (or_empty settings.target))
        (λ h w. IsThrow h × Ended w.log)
        (run env settings now)
  unfolding verify_network
  run-Post =
      guarded _ _ _ (both-Post env (or_empty settings.target) (initial now) (initial-Tracks now))

  -- However a run ends, each Job that it created was deleted, or its latest call is a deletion that
  -- failed.
  pub network_end-IsClean :
      IsClean (run env settings now).1.log ⊎ IsRefused (run env settings now).1.log
  network_end-IsClean = ended run-Post
    where
      ended :
          {r : Outcome (Unit {0}) × State}
          → Post (Verified (or_empty settings.target)) (λ h w. IsThrow h × Ended w.log) r
          → IsClean r.1.log ⊎ IsRefused r.1.log
      ended (returned p) = inl p.0
      ended (stopped p) = p.1
