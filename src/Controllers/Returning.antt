-- ===== src/Controllers/Returning.antt =====
-- Every `Reconcile` that defers `helpers.Recover` returns an outcome.
use azk.Api.{Error, NamespacedName}
use azk.World.{Env, Log}
use azk.World.Ends.{NeverFails, DidReturn, AlwaysReturns, unfailing_rules}
use azk.Azure.{get_custom_data}
use azk.Controllers.Outcome.{failing}
use azk.Controllers.NodeSets
use azk.Controllers.ControlPlanes
use azk.Controllers.Clusters
use azk.Controllers.NodePools
use azk.Controllers.NodePools.Reconcile.{reconcile_returned}

failing-NeverFails : (e : Error) → NeverFails (failing e)
failing-NeverFails e = record { at = λ log. tt }

module _ (env : Env) (request : NamespacedName) where
  node_set : AlwaysReturns (NodeSets.reconcile env request)
  unfolding NodeSets.reconcile
  node_set = search (unfailing_rules, failing-NeverFails) depth 40 fits 5000

  control_plane : AlwaysReturns (ControlPlanes.reconcile env request)
  unfolding ControlPlanes.reconcile ControlPlanes.get_master_custom_data get_custom_data
  control_plane = search (unfailing_rules, failing-NeverFails) depth 40 fits 5000

  cluster : AlwaysReturns (Clusters.reconcile env request)
  unfolding Clusters.reconcile
  cluster = search (unfailing_rules, failing-NeverFails) depth 40 fits 5000

-- Whatever the systems around it answer, a reconcile of a node set, a control plane, a cluster or a
-- node pool ends by returning an outcome, and an error is part of the outcome. That of a node pool
-- does not panic; a panic of the others is recovered.
pub reconcile-DidReturn :
    (env : Env) (request : NamespacedName) (log : Log)
    → DidReturn (NodeSets.reconcile env request log).0
      × DidReturn (ControlPlanes.reconcile env request log).0
      × DidReturn (Clusters.reconcile env request log).0
      × DidReturn (NodePools.reconcile env request log).0
reconcile-DidReturn env request log = (
  (node_set env request).at log,
  (control_plane env request).at log,
  (cluster env request).at log,
  reconcile_returned env request log,
)
