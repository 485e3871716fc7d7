-- ===== src/Controllers/Clusters/LifeCycle.antt =====
-- The order of the changes that a reconcile of a cluster asks for.
pub mod Walk
use azk.Base.{String, Bool, true, false, Option, none, some, ◌≡◌, refl}
use azk.Api.{Error, NamespacedName, Cluster, is_valid, is_zero}
use azk.World.{
  Env, Log, Call, Exit, AzureClient, azure, kube, manager_client, group_delete, update_cluster,
  update_cluster_status, lift,
}
use azk.Helpers.{contains_finalizer, contains_finalizer-removed, contains_finalizer-append}
use azk.Azure.Steps.{delete_group-Moves}
use azk.Changes.{changes, ChangesNothing-lift}
use azk.Changes.Phases
use azk.Changes.Phases.{Concludes, Concluded}
use azk.Controllers.Outcome.{Outcome, finished, requeued}
use azk.Controllers.Clusters.{
  cluster_finalizer_name, succeeded, register, release, finalize, complete, reconcile_object,
}

pub data Phase : Type 0 where
  -- nothing was asked for; the finalizer was added; success was reported; the deletion of the
  -- resource group was asked for; the finalizer was removed
  idle registered completed deleted released : Phase

abbrev pub is_registered : Cluster → Bool
is_registered instance = contains_finalizer instance.meta.finalizers cluster_finalizer_name

-- The changes that a phase allows, for a cluster in this resource group that is live, or else is being
-- deleted.
pub data Move (live : Bool) (group : String) : Phase → Call → Phase → Type 0 where
  register_it :
      live ≡ true
      → (instance : Cluster) → is_registered instance ≡ true
      → Move live group idle (kube manager_client (update_cluster instance)) registered
  report :
      live ≡ true
      → (instance : Cluster) → instance.status.provisioning_state ≡ "Succeeded"
      → Move live group idle (kube manager_client (update_cluster_status instance)) completed
  delete :
      live ≡ false
      → (client : AzureClient) → Move live group idle (azure client (group_delete group)) deleted
  release_kept :
      live ≡ false
      → (instance : Cluster) → is_registered instance ≡ false
      → Move live group idle (kube manager_client (update_cluster instance)) released
  release_deleted :
      live ≡ false
      → (instance : Cluster) → is_registered instance ≡ false
      → Move live group deleted (kube manager_client (update_cluster instance)) released

-- How an outcome fits. An error is that of the update of a live cluster, which was the step asked for,
-- and there is none for a cluster that is being deleted. Without an error, a live cluster is looked at again after it was given the finalizer, and
-- is done at the report. One that is being deleted is done when there was nothing to do or when the
-- finalizer was to be removed, which may be tried again.
abbrev FitsPhase : Bool → Option Error → Bool → Phase → Type 0
FitsPhase true (some e) requeue registered = Unit
FitsPhase true (some e) requeue completed = Unit
FitsPhase true none true registered = Unit
FitsPhase true none false completed = Unit
FitsPhase false none false idle = Unit
FitsPhase false none requeue released = Unit
FitsPhase _ _ _ _ = ⊥

abbrev pub Fits : Bool → Outcome → Phase → Type 0
Fits live o p = FitsPhase live o.error o.requeue p

-- How a reconcile of the cluster ends, after these changes.
abbrev pub ClusterEnd : Cluster → Log → Exit Outcome × Log → Type 0
ClusterEnd instance before =
    let live = is_zero instance.meta.deletion_timestamp in
    Concluded (Move live instance.spec.cloud.group_name) idle before (Fits live)
