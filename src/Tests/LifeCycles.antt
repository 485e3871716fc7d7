-- ===== src/Tests/LifeCycles.antt =====
-- The theorems on life cycles at concrete inputs.
use azk.Base.{true, []}
use azk.Changes.Phases.{Concluded}
use azk.Api.{NamespacedName}
use azk.Controllers.NodeSets
use azk.Controllers.NodeSets.LifeCycle.{idle, Move, NodeSetEnd}
use azk.Controllers.NodeSets.LifeCycle.Progress.{Expected, provision-Expected}
use azk.Controllers.NodeSets.LifeCycle.Walk.{reconcile_object-NodeSetEnd}
use azk.Controllers.NodePools
use azk.Controllers.NodePools.LifeCycle.{NodePoolEnd}
use azk.Controllers.NodePools.LifeCycle.Walk.{reconcile-NodePoolEnd}
use azk.Controllers.ControlPlanes
use azk.Controllers.ControlPlanes.LifeCycle.{ControlPlaneEnd}
use azk.Controllers.ControlPlanes.LifeCycle.Walk.{reconcile_object-ControlPlaneEnd}
use azk.Controllers.Clusters
use azk.Controllers.Clusters.LifeCycle.{ClusterEnd}
use azk.Controllers.Clusters.LifeCycle.Walk.{reconcile_object-ClusterEnd}
use azk.Tests.Fixtures.{env, cluster, control_plane, node_set}

abbrev request : NamespacedName
request = record { namespace = "default"; name = "cluster" }

reconcile_object-NodeSetEnd_example :
    NodeSetEnd
      (node_set "agents")
      cluster
      []
      (NodeSets.reconcile_object env (node_set "agents") cluster [])
reconcile_object-NodeSetEnd_example = reconcile_object-NodeSetEnd env (node_set "agents") cluster []

-- The control plane is upgraded from 1.13.5 to 1.14.1.
reconcile_object-ControlPlaneEnd_example :
    ControlPlaneEnd [] (ControlPlanes.reconcile_object env control_plane [])
reconcile_object-ControlPlaneEnd_example = reconcile_object-ControlPlaneEnd env control_plane []

reconcile_object-ClusterEnd_example :
    ClusterEnd cluster [] (Clusters.reconcile_object env request cluster [])
reconcile_object-ClusterEnd_example = reconcile_object-ClusterEnd env request cluster []

reconcile-NodePoolEnd_example : NodePoolEnd [] (NodePools.reconcile env request [])
reconcile-NodePoolEnd_example = reconcile-NodePoolEnd env request []

-- One machine is asked for, and one is there.
provision-Expected_example :
    Concluded
      (Move true "group")
      idle
      []
      (Expected
        (NodeSets.update_node_set_nodes env
          (node_set "agents")
          (NodeSets.cloud_configuration cluster)
          []).0)
      (NodeSets.provision env (node_set "agents") cluster [])
provision-Expected_example = provision-Expected env (node_set "agents") cluster []
