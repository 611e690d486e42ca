-- ===== src/Backup/Conduct/Databases.antt =====
-- The databases are stopped in the protocol's order, each seen to be gone before the next step.
use cartyx_infrastructure.Base.{List, [], ◌∷◌, true, false, some, ◌≡◌, refl, if◌then◌else◌}
use cartyx_infrastructure.Script.{Settled, resolved, rejected, pure}
use cartyx_infrastructure.Script.Post.{Post, returned, and_then-Post}
use cartyx_infrastructure.Cluster.Documents.{Pod, Component, janusgraph, cassandra}
use cartyx_infrastructure.Cluster.Request.{
  Environment, get_helm, get_graph, get_cassandra, get_pods, scale,
}
use cartyx_infrastructure.Backup.Steps.{State, read_sources, no_pods, stop_databases}
use cartyx_infrastructure.Backup.Protocol.{
  Stage, idle, paused, graph_stopped, graph_gone, stopped as cassandra_stopped, quiet, unsure, step,
}
use cartyx_infrastructure.Backup.Conduct.Points.{Point, Halted, Sound, disturbed}
use cartyx_infrastructure.Backup.Conduct.Rules.{
  safe_call, attempt-call, settled-Post, checkpoint-Post, until_step,
}
use cartyx_infrastructure.Backup.Conduct.Stopping.{open_vars}

abbrev undone : Sound open_vars paused
undone = disturbed false refl refl refl refl

module _ (env : Environment) where
  pub read_sources-Post :
      {w : State}
      → Point idle paused open_vars w
      → Post (λ _. Point idle paused open_vars) (Halted idle) (read_sources env w)
  unfolding read_sources step
  read_sources-Post p = and_then-Post (attempt-call env get_graph p (λ r. refl)) λ g _ p.
      and_then-Post (attempt-call env get_cassandra p (λ r. refl)) λ c _ p.
        and_then-Post (attempt-call env get_helm p (λ r. refl)) λ h _ p.
          and_then-Post (settled-Post env g p undone) λ _ _ p.
            and_then-Post (settled-Post env c p undone)
              λ _ _ p. and_then-Post (settled-Post env h p undone) λ _ _ p. returned p

  -- The stage after a list of pods.
  abbrev seen_pods : Stage → Stage → List Pod → Stage
  seen_pods gone still [] = gone
  seen_pods gone still (pod ∷ more) = still

  no_pods-Post :
      (component : Component) (still gone : Stage)
      → ((r : Settled (List Pod))
          → step still (get_pods component) r
            ≡ some (elim r [ resolved pods ↦ seen_pods gone still pods | rejected e ↦ still ]))
      → Sound open_vars still
      → (w : State) → Point idle still open_vars w
      → Post
          (λ done w'. if done then Point idle gone open_vars w' else Point idle still open_vars w')
          (Halted idle)
          (no_pods env component w)
  unfolding no_pods
  no_pods-Post component still gone h s w p =
      and_then-Post
        (safe_call env (get_pods component) (seen_pods gone still) still p
          (λ pods. h (resolved pods)) (λ e. h (rejected e)) s)
        look
    where
      look :
          (pods : List Pod) (w' : State)
          → Point idle (seen_pods gone still pods) open_vars w'
          → Post
              (λ done w''.
                if done then Point idle gone open_vars w'' else Point idle still open_vars w'')
              (Halted idle)
              (pure (elim pods [ [] ↦ true | pod ∷ more ↦ false ]) w')
      look [] w' p' = returned p'
      look (pod ∷ more) w' p' = returned p'

  graph_pods :
      (r : Settled (List Pod))
      → step graph_stopped (get_pods janusgraph) r
        ≡ some (elim r [
          | resolved pods ↦ seen_pods graph_gone graph_stopped pods
          | rejected e ↦ graph_stopped
        ])
  unfolding step
  graph_pods (resolved []) = refl
  graph_pods (resolved (x ∷ xs)) = refl
  graph_pods (rejected e) = refl

  cassandra_pods :
      (r : Settled (List Pod))
      → step cassandra_stopped (get_pods cassandra) r
        ≡ some (elim r [
          | resolved pods ↦ seen_pods quiet cassandra_stopped pods
          | rejected e ↦ cassandra_stopped
        ])
  unfolding step
  cassandra_pods (resolved []) = refl
  cassandra_pods (resolved (x ∷ xs)) = refl
  cassandra_pods (rejected e) = refl

  pub stop_databases-Post :
      {w : State}
      → Point idle paused open_vars w
      → Post (λ _. Point idle quiet open_vars) (Halted idle) (stop_databases env w)
  unfolding stop_databases step
  stop_databases-Post p = and_then-Post (checkpoint-Post env p undone) λ _ _ p.
      and_then-Post
        (safe_call env (scale janusgraph 0) (λ _. graph_stopped) unsure p (λ _. refl) (λ e. refl)
          (disturbed false refl refl refl refl))
        λ _ _ p.
          and_then-Post
            (until_step env _ graph_gone _ 600 p (disturbed false refl refl refl refl) (
              no_pods-Post janusgraph graph_stopped graph_gone graph_pods
                (disturbed false refl refl refl refl)))
            λ _ _ p.
              and_then-Post (checkpoint-Post env p (disturbed false refl refl refl refl)) λ _ _ p.
                and_then-Post
                  (safe_call env (scale cassandra 0) (λ _. cassandra_stopped) unsure p (λ _. refl)
                    (λ e. refl) (disturbed false refl refl refl refl))
                  λ _ _ p.
                    and_then-Post
                      (until_step env _ quiet _ 600 p (disturbed false refl refl refl refl) (
                        no_pods-Post cassandra cassandra_stopped quiet cassandra_pods
                          (disturbed false refl refl refl refl)))
                      λ _ _ p. checkpoint-Post env p (disturbed false refl refl refl refl)
