-- ===== src/Tests/Planes.antt =====
-- The theorems on control planes and clusters, and on all reconciles, at concrete inputs.
use azk.Base.{false, [], ◌∷◌, ◌≡◌, ◌⊎◌, refl}
use azk.Api.{NamespacedName}
use azk.World.{returned}
use azk.World.Post.{Post}
use azk.World.Ends.{DidReturn}
use azk.Helpers.{contains_finalizer}
use azk.Controllers.Outcome.{finished, requeued}
use azk.Controllers.NodeSets
use azk.Controllers.ControlPlanes
use azk.Controllers.ControlPlanes.Upgrade.{AllSeen, upgrade_vmss_outcome}
use azk.Controllers.ControlPlanes.Settling.{SettleOutcome, settle_upgraded_outcome}
use azk.Controllers.Clusters
use azk.Controllers.NodePools
use azk.Controllers.Clusters.Deletion.{EndsClusterReleased, freed, finalize-EndsClusterReleased}
use azk.Controllers.Returning.{reconcile-DidReturn}
use azk.Tests.Fixtures.{env, cluster, control_plane, machine}

upgrade_vmss_outcome_example :
    Post
      (λ done after. AllSeen env "1.14.1" (machine "master0" ∷ []) after)
      (ControlPlanes.upgrade_vmss env control_plane cluster [])
upgrade_vmss_outcome_example = upgrade_vmss_outcome env control_plane cluster []

settle_upgraded_outcome_example :
    SettleOutcome env control_plane cluster (ControlPlanes.settle env control_plane cluster [])
settle_upgraded_outcome_example = settle_upgraded_outcome env control_plane cluster [] refl

finalize-EndsClusterReleased_example :
    let (exit, after) = Clusters.finalize env cluster [] in
    ((exit ≡ returned finished) ⊎ (exit ≡ returned requeued))
    × EndsClusterReleased cluster after
    × (contains_finalizer (freed cluster).meta.finalizers Clusters.cluster_finalizer_name ≡ false)
unfolding contains_finalizer
finalize-EndsClusterReleased_example = finalize-EndsClusterReleased env cluster [] refl

abbrev request : NamespacedName
request = record { namespace = "default"; name = "cluster" }

reconcile-DidReturn_example :
    DidReturn (NodeSets.reconcile env request []).0
    × DidReturn (ControlPlanes.reconcile env request []).0
    × DidReturn (Clusters.reconcile env request []).0
    × DidReturn (NodePools.reconcile env request []).0
reconcile-DidReturn_example = reconcile-DidReturn env request []
