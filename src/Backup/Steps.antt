-- ===== src/Backup/Steps.antt =====
-- The steps of deploy/data/backup-cluster.mjs up to the return of the databases.
use cartyx_infrastructure.Base.{
  ℕ, Text, text, [], ◌∷◌, Bool, true, false, not, ◌&&◌, ◌||◌, ◌==◌, Option, none, some, text_eq,
  some_of,
}
use cartyx_infrastructure.Script.{
  Script, World, call, pure, gets, modify, attempt, settled, throw_if, ◌>>=◌, ◌>>◌,
}
use cartyx_infrastructure.Cluster.Clock.{micro_time, to_iso_string}
use cartyx_infrastructure.Cluster.Documents.{
  Original, Lease, acquire, Condition, Release, Workload, Component, janusgraph, cassandra,
  StatusPatch,
}
use cartyx_infrastructure.Cluster.Request.{
  Answer, Environment, get_helm, get_flux, get_graph, get_cassandra, get_pods, patch_lease,
  patch_status, suspend_helm, suspend_flux, scale,
}
use cartyx_infrastructure.Cluster.Wait.{until}

-- `let original, locked = false, needsRecovery = false` and `process.exitCode`.
pub record Vars : Type 0 where
  pub original : Option Original
  pub locked : Bool
  pub needs_recovery : Bool
  pub exit_code : ℕ

abbrev pub State : Type 0
State = World Answer Vars

-- The constants above the `try`.
pub record Context : Type 0 where
  pub namespace : Text
  pub owner : Text
  pub prefix : Text
  pub id : Text
  pub key : Text

abbrev pub phase_only : Text → StatusPatch
phase_only phase = record {
  phase = phase;
  error = none;
  last_attempt = none;
  owner = none;
  last_success = none;
  key = none;
  sha256 = none;
  bytes = none;
}

abbrev pub set_vars : (Vars → Vars) → Script State (Unit {0})
set_vars f = modify (λ w. record w { vars = f w.vars })

-- `if (cancelled) throw ...`
unfoldable pub checkpoint : Script State (Unit {0})
checkpoint = do
  cancelled ← gets (λ w. w.cancelled)
  throw_if cancelled (text "Backup interrupted; restoring services")

-- `lease.spec?.holderIdentity` is truthy.
abbrev pub is_held : Lease → Bool
is_held lease = elim lease.holder [ none ↦ false | some [] ↦ false | some (c ∷ s) ↦ true ]

-- `conditions?.some(c => c.type === kind && c.status === 'True')`
unfoldable pub has_condition : Text → Release → Bool
has_condition kind r =
    some_of (λ (c : Condition). text_eq c.kind kind && text_eq c.status (text "True")) r.conditions

abbrev pub reconciling : Release → Bool
reconciling = has_condition (text "Reconciling")

-- `count !== 1`, where a missing count is `undefined`.
abbrev pub not_one : Option ℕ → Bool
not_one count = elim count [ none ↦ true | some n ↦ not (n == 1) ]

abbrev pub standard : Original
standard = record { graph = 1; cassandra = 1; helm = false; flux = false }

module _ (env : Environment) where
  -- The guards on the state of the release and of the databases.
  unfoldable pub preflight : Script State (Unit {0})
  unfolding has_condition
  preflight = do
    g ← attempt (call env get_graph)
    c ← attempt (call env get_cassandra)
    h ← attempt (call env get_helm)
    f ← attempt (call env get_flux)
    graph ← settled g
    db ← settled c
    helm ← settled h
    flux ← settled f
    throw_if (not (graph.replicas == 1) || not (db.replicas == 1) || helm.suspend || flux.suspend)
        (text "Expected active Flux release and one replica of each database")
    throw_if (reconciling helm) (text "Helm release is reconciling; retry after rollout")
    throw_if (not (has_condition (text "Ready") helm) || not_one graph.ready || not_one db.ready)
        (text "Source databases must be Ready before a scheduled backup")

  -- From the acquisition of the lease to the mark that a recovery is needed.
  unfoldable pub take_lease : Context → Text → Script State (Unit {0})
  take_lease ctx version = do
    set_vars (λ v. record v { original = some standard })
    now ← gets (λ w. w.time)
    call env (patch_lease (acquire version standard ctx.owner (micro_time now) 3600))
    set_vars (λ v. record v { locked = true })
    attempted ← gets (λ w. w.time)
    call env (
        patch_status (record (phase_only (text "preparing")) {
          last_attempt = some (to_iso_string attempted);
          owner = some ctx.owner;
        }))
    set_vars (λ v. record v { needs_recovery = true })

  unfoldable pub idle : Script State Release → Script State Bool
  idle get = do r ← get; pure (not (reconciling r))

  -- Both reconcilers are suspended, and each is waited for.
  unfoldable pub suspend_reconcilers : Script State (Unit {0})
  unfolding idle
  suspend_reconcilers = do
    call env (suspend_flux true)
    until env (idle (call env get_flux)) (text "Flux Kustomization idle") 120
    call env (suspend_helm true)
    until env (idle (call env get_helm)) (text "Helm idle") 120

  -- What the manifest is made from, read once both reconcilers are idle.
  unfoldable pub read_sources : Script State (Workload × Workload × Release)
  read_sources = do
    g ← attempt (call env get_graph)
    c ← attempt (call env get_cassandra)
    h ← attempt (call env get_helm)
    graph ← settled g
    db ← settled c
    helm ← settled h
    pure (graph, db, helm)

  unfoldable pub no_pods : Component → Script State Bool
  no_pods component = do
    pods ← call env (get_pods component)
    pure (elim pods [ [] ↦ true | pod ∷ more ↦ false ])

  -- JanusGraph goes down before Cassandra.
  unfoldable pub stop_databases : Script State (Unit {0})
  unfolding checkpoint no_pods
  stop_databases = do
    checkpoint
    call env (scale janusgraph 0)
    until env (no_pods janusgraph) (text "JanusGraph shutdown") 600
    checkpoint
    call env (scale cassandra 0)
    until env (no_pods cassandra) (text "Cassandra shutdown") 600
    checkpoint
