-- ===== src/Backup/Conduct/Recovery.antt =====
-- `resume` leads from every stage that can be recovered to the return of the services, or leaves a
-- stage from which it can be started again.
use cartyx_infrastructure.Base.{
  ℕ, Text, text, Bool, true, false, ◌&&◌, ◌==◌, Option, none, some, ◌≡◌, refl, inl, inr, arith,
  if◌then◌else◌, Bool-cases,
}
use mathlib.Core.Option.{get_or}
use cartyx_infrastructure.Script.{Stop, ok, Settled, resolved, rejected, call, pure, ◌>>=◌}
use cartyx_infrastructure.Script.Post.{NoExit, Post, returned, and_then-Post, weaken-Post}
use cartyx_infrastructure.Cluster.Documents.{Workload, janusgraph, cassandra}
use cartyx_infrastructure.Cluster.Request.{
  Request, Answer, Environment, get_graph, get_cassandra, scale, suspend_helm, suspend_flux,
}
use cartyx_infrastructure.Cluster.Wait.Rules.{until-Post}
use cartyx_infrastructure.Cluster.Resume.{recovered, resume}
use cartyx_infrastructure.Backup.Steps.{Vars, State, standard}
use cartyx_infrastructure.Backup.Protocol.{
  Stage, unsure, cassandra_up, both_up, cassandra_ready, all_ready, helm_on, back, step, restart,
  is_one,
}
use cartyx_infrastructure.Backup.Conduct.Points.{Threw-NoExit, Point, call-step, sleep_step}

-- Where a recovery was left: it can be started again.
abbrev pub Unfinished : Stage → Vars → Stop → State → Type 0
Unfinished start v h w =
    (stage : Stage) × Point start stage v w × (restart stage ≡ some false) × NoExit h

-- The first call of a recovery.
restart-step :
    (stage : Stage) {a : Bool} (r : Settled (Unit {0}))
    → restart stage ≡ some a
    → step stage (scale cassandra 1) r
      ≡ some (elim r [ resolved _ ↦ cassandra_up a | rejected _ ↦ unsure ])
unfolding step
restart-step stage (resolved u) again = ground arith
restart-step stage (rejected e) again = ground arith

-- `(count ?? 0) === 1`
ready_lem : (count : Option ℕ) → (get_or count 0 == 1) ≡ is_one count
ready_lem none = refl
ready_lem (some n) = refl

-- After a look at one database.
abbrev looked : Workload → Stage → Stage → Stage
looked db up still = if is_one db.ready then up else still

module _ (env : Environment) {start : Stage} {v : Vars} where
  -- A call whose rejection leaves a stage that can be recovered.
  pub undo_step :
      (q : Request) {stage : Stage} (good : Answer q → Stage) (bad : Stage) (w : State)
      → Point start stage v w
      → ((a : Answer q) → step stage q (resolved a) ≡ some (good a))
      → ((e : Text) → step stage q (rejected e) ≡ some bad)
      → restart bad ≡ some false
      → Post (λ a. Point start (good a) v) (Unfinished start v) (call env q w)
  undo_step q good bad w p ok_step bad_step again =
      weaken-Post (call-step env q good bad w p ok_step bad_step) (λ a w' p'. p')
        (λ h w' p'. (bad, p'.1, again, Threw-NoExit h p'.0))

module _ (env : Environment) (start : Stage) (v : Vars) (a : Bool) where
  abbrev Recovered : Bool → State → Type 0
  Recovered done w = if done then Point start (all_ready a) v w else Point start (both_up a) v w

  checked :
      (ready : Bool) (w : State)
      → Point start (if ready then all_ready a else both_up a) v w
      → Post Recovered (Unfinished start v) (ok ready, w)
  checked true w p = returned p
  checked false w p = returned p

  recovered-Post :
      (w : State)
      → Point start (both_up a) v w
      → Post Recovered (Unfinished start v) (recovered env standard w)
  unfolding recovered step
  recovered-Post w p =
      and_then-Post
        (undo_step env get_cassandra (λ c. looked c (cassandra_ready a) (both_up a)) (both_up a) w p
          (λ c. refl) (λ e. refl) refl)
        look_at_graph
    where
      look_at_graph :
          (c : Workload) (w' : State)
          → Point start (looked c (cassandra_ready a) (both_up a)) v w'
          → Post Recovered (Unfinished start v) (
              (call env get_graph >>= λ g.
              pure ((get_or c.ready 0 == 1) && (get_or g.ready 0 == 1)))
                w')
      look_at_graph c w' p' = elim (Bool-cases (is_one c.ready)) [
        | inl up ↦
            and_then-Post
              (undo_step env get_graph (λ g. looked g (all_ready a) (both_up a)) (both_up a) w'
                (rw up at p') (λ g. refl) (λ e. refl) refl)
              (λ g w'' p''.
                rw (ready_lem c.ready, ready_lem g.ready, up) (checked (is_one g.ready) w'' p''))
        | inr down ↦
            and_then-Post
              (undo_step env get_graph (λ g. both_up a) (both_up a) w' (rw down at p') (λ g. refl)
                (λ e. refl) refl)
              (λ g w'' p''. rw (ready_lem c.ready, down) (checked false w'' p''))
      ]

  pub resume-Post :
      {stage : Stage} (w : State)
      → Point start stage v w
      → restart stage ≡ some a
      → Post (λ _. Point start (back a) v) (Unfinished start v) (resume env standard w)
  unfolding resume step
  resume-Post {stage} w p again =
      and_then-Post
        (undo_step env (scale cassandra 1) (λ _. cassandra_up a) unsure w p
          (λ u. restart-step stage (resolved u) again) (λ e. restart-step stage (rejected e) again)
          refl)
        λ _ w₁ p₁.
          and_then-Post
            (undo_step env (scale janusgraph 1) (λ _. both_up a) unsure w₁ p₁ (λ _. refl)
              (λ e. refl) refl)
            λ _ w₂ p₂.
              and_then-Post
                (until-Post env (recovered env standard) (Point start (both_up a) v)
                  (Point start (all_ready a) v) (Unfinished start v) recovered-Post
                  (λ w p. sleep_step env 3000 w p) (λ h w n p. (both_up a, p, refl, n))
                  (text "database recovery") 600 w₂ p₂)
                λ _ w₃ p₃.
                  and_then-Post
                    (undo_step env (suspend_helm false) (λ _. helm_on a) unsure w₃ p₃ (λ _. refl)
                      (λ e. refl) refl)
                    λ _ w₄ p₄.
                      undo_step env (suspend_flux false) (λ _. back a) unsure w₄ p₄ (λ _. refl)
                        (λ e. refl) refl
