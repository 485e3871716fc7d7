-- ===== src/Controllers/Clusters.antt =====
-- `ClusterReconciler` (controllers/cluster_controller.go).
pub mod Deletion
pub mod LifeCycle
use azk.Base.{String, List, [], ◌∷◌, ◌++◌, ◌<>◌, if◌then◌else◌}
use azk.Api.{NamespacedName, Cluster, is_valid, is_zero}
use azk.World.{
  Env, Act, pure, lift, recover, ask, on_error, ◌>>=◌, ◌>>◌, kube, manager_client, get_cluster,
  update_cluster, update_cluster_status, record_event,
}
use azk.Helpers.{contains_finalizer, remove_finalizer}
use azk.Azure.{delete_resource_group}
use azk.Controllers.Outcome.{Outcome, finished, requeued, with_error, failing}

abbrev pub cluster_finalizer_name : String
cluster_finalizer_name = "cluster.finalizers.engine.azk.io"

abbrev pub with_finalizers : Cluster → List String → Cluster
with_finalizers instance names = record instance {
  meta = record instance.meta { finalizers = names };
}

abbrev pub succeeded : Cluster → Cluster
succeeded instance = record instance { status = record { provisioning_state = "Succeeded" } }

module _ (env : Env) where
  -- `CleanupInfrastructure` (bootstrap/infrastructure.go) deletes the resource group.
  abbrev pub cleanup_infrastructure : Cluster → Act (Unit {0})
  cleanup_infrastructure instance = delete_resource_group env instance.spec.cloud

  unfoldable pub register : Cluster → Act Outcome
  register instance =
      let named =
        with_finalizers instance (instance.meta.finalizers ++ cluster_finalizer_name ∷ []) in
      on_error (ask env (kube manager_client (update_cluster named)) >>= lift)
        (λ e. pure (with_error requeued e)) λ _. pure requeued

  unfoldable pub release : Cluster → Act Outcome
  release instance =
      let freed =
        with_finalizers instance
          (remove_finalizer instance.meta.finalizers cluster_finalizer_name) in
      on_error (ask env (kube manager_client (update_cluster freed)) >>= lift) (λ e. pure requeued)
        λ _. pure finished

  -- The error of `CleanupInfrastructure` is not looked at.
  unfoldable pub finalize : Cluster → Act Outcome
  unfolding release
  finalize instance =
      let cleaning =
        on_error (cleanup_infrastructure instance) (λ e. release instance)
          (λ _. release instance) in
      if contains_finalizer instance.meta.finalizers cluster_finalizer_name
      then (if is_valid instance.spec.cloud then cleaning else release instance)
      else pure finished

  unfoldable pub complete : NamespacedName → Cluster → Act Outcome
  complete request instance =
      on_error (ask env (kube manager_client (update_cluster_status (succeeded instance))) >>= lift)
        failing
        λ updated. do
          ask env (
              record_event updated.meta "Normal" "Created"
                ("Completed Cluster Setup " <> request.namespace <> "/" <> request.name))
          pure finished

  unfoldable pub reconcile_object : NamespacedName → Cluster → Act Outcome
  unfolding register finalize complete
  reconcile_object request instance =
      if is_zero instance.meta.deletion_timestamp
      then (if contains_finalizer instance.meta.finalizers cluster_finalizer_name
          then complete request instance
          else register instance)
      else finalize instance

  unfoldable pub reconcile : NamespacedName → Act Outcome
  unfolding reconcile_object
  reconcile request = recover finished (
      on_error (ask env (kube manager_client (get_cluster request)) >>= lift)
        (λ e. if env.is_not_found e then pure finished else failing e)
        λ instance. reconcile_object request instance)
