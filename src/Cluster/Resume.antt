-- ===== src/Cluster/Resume.antt =====
-- `resume` of deploy/data/cluster-api.mjs: the databases first, then the reconcilers.
pub mod Ending
use mathlib.Core.Option.{get_or}
use cartyx_infrastructure.Base.{text, Bool, ◌&&◌, ◌==◌}
use cartyx_infrastructure.Script.{Script, World, call, pure, ◌>>=◌, ◌>>◌}
use cartyx_infrastructure.Cluster.Documents.{Original, janusgraph, cassandra}
use cartyx_infrastructure.Cluster.Request.{
  Answer, Environment, get_graph, get_cassandra, scale, suspend_helm, suspend_flux,
}
use cartyx_infrastructure.Cluster.Wait.{until}

module _ {V : Type 0} (env : Environment) where
  -- Both databases have as many ready replicas as before.
  unfoldable pub recovered : Original → Script (World Answer V) Bool
  recovered original = do
    c ← call env get_cassandra
    g ← call env get_graph
    pure ((get_or c.ready 0 == original.cassandra) && (get_or g.ready 0 == original.graph))

  unfoldable pub resume : Original → Script (World Answer V) (Unit {0})
  unfolding recovered
  resume original = do
    call env (scale cassandra original.cassandra)
    call env (scale janusgraph original.graph)
    until env (recovered original) (text "database recovery") 600
    call env (suspend_helm original.helm)
    call env (suspend_flux original.flux)
