-- ===== src/Controllers/Clusters/Deletion.antt =====
-- What a reconcile of a cluster that is being deleted does.
use azk.Base.{true, false, [], ◌∷◌, ◌≡◌, ◌≢◌, ◌⊎◌, arith, eq_iff}
use azk.Api.{Cluster, CloudConfiguration}
use azk.World.{Env, Log, returned, panicked, kube, manager_client, update_cluster}
use azk.Helpers.{contains_finalizer, remove_finalizer, contains_finalizer-remove_finalizer}
use azk.Azure.{delete_resource_group}
use azk.Controllers.Outcome.{finished, requeued}
use azk.Controllers.Clusters.{cluster_finalizer_name, with_finalizers, release, finalize}

delete_resource_group_no_panic :
    (env : Env) (cloud : CloudConfiguration) (log : Log)
    → (delete_resource_group env cloud log).0 ≢ panicked
unfolding delete_resource_group
delete_resource_group_no_panic env cloud log = ground arith

abbrev pub freed : Cluster → Cluster
freed instance =
    with_finalizers instance (remove_finalizer instance.meta.finalizers cluster_finalizer_name)

-- The last call updated the cluster to one without the finalizer.
abbrev pub EndsClusterReleased : Cluster → Log → Type 0
EndsClusterReleased instance [] = ⊥
EndsClusterReleased instance (c ∷ rest) = c ≡ kube manager_client (update_cluster (freed instance))

release-EndsClusterReleased :
    (env : Env) (instance : Cluster) (log : Log)
    → let (exit, after) = release env instance log in
      ((exit ≡ returned finished) ⊎ (exit ≡ returned requeued)) × EndsClusterReleased instance after
unfolding release
release-EndsClusterReleased env instance log = ground arith

-- A cluster that is being deleted and carries the finalizer is always released: whether the deletion
-- of its resource group succeeded, failed or was skipped, the last call updates the object to one
-- without the finalizer, and the outcome carries no error.
pub finalize-EndsClusterReleased :
    (env : Env) (instance : Cluster) (log : Log)
    → contains_finalizer instance.meta.finalizers cluster_finalizer_name ≡ true
    → let (exit, after) = finalize env instance log in
      ((exit ≡ returned finished) ⊎ (exit ≡ returned requeued))
      × EndsClusterReleased instance after
      × (contains_finalizer (freed instance).meta.finalizers cluster_finalizer_name ≡ false)
unfolding finalize
finalize-EndsClusterReleased env instance log present = ground (
  arith,
  delete_resource_group_no_panic env instance.spec.cloud log,
  release-EndsClusterReleased env instance (delete_resource_group env instance.spec.cloud log).1,
  release-EndsClusterReleased env instance log,
  contains_finalizer-remove_finalizer instance.meta.finalizers cluster_finalizer_name
      cluster_finalizer_name,
  eq_iff cluster_finalizer_name cluster_finalizer_name,
)
