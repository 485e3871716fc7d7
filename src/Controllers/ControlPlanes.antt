-- ===== src/Controllers/ControlPlanes.antt =====
-- `ControlPlaneReconciler` (controllers/controlplane_controller.go).
mod Machines
pub mod Upgrade
pub mod Settling
pub mod LifeCycle
pub mod Endpoints
unfoldable pub use Machines.*
use azk.Base.{
  ℕ, String, Bool, true, false, not, List, [], ◌∷◌, ◌<>◌, ◌==◌, ◌&&◌, pos, if◌then◌else◌,
}
use azk.Api.{NamespacedName, VmStatus, ControlPlane, Cluster, wrapped}
use azk.World.{
  Env, Act, pure, fail, lift, index, recover, ask, on_error, ◌>>=◌, ◌>>◌, kube, manager_client,
  get_control_plane, update_control_plane_status, azure, AzureClient, vms_list, vms_run_command,
  vms_reimage, wait_for_completion, future_result, record_event,
}
use azk.Std.{base64}
use azk.Helpers.{
  cordon_drain_and_delete_node, wait_for_nodes_ready, wait_for_node_version_ready, is_node_updated,
}
use azk.Azure.{get_vmss_vms_client, usable, create_vmss, get_custom_data}
use azk.Bootstrap.{create_new_bootstrap_token}
use azk.Controllers.Outcome.{Outcome, finished, requeued_after, with_error, failing, get_cluster}
use azk.Controllers.NodeSets.{vm_statuses}
use azk.Controllers.Scripts.{get_master_startup_script, get_upgrade_script}
use azk.Controllers.ControlPlanes.Machines.{
  master_vmss_name, with_state, etcd_endpoints, master_files, provider_prefix, load_balancer_ids,
  nat_pool_ids, needs_upgrade, settled, update_vmss_status, finish_upgrade, upgrade_node,
  upgrade_nodes, upgrade_vmss, reimage, reimage_node, reimage_nodes, upgrade_vmss_with_reimage,
  get_master_custom_data, upgrade_if_needed,
}

module _ (env : Env) where
  -- The scale set is there: upgrade if needed, wait for the nodes, and report success.
  unfoldable pub settle : ControlPlane → Cluster → Act Outcome
  settle instance cluster = on_error (upgrade_if_needed env instance cluster) failing λ _.
      on_error (wait_for_nodes_ready env manager_client master_vmss_name (pos 3))
        (λ e. pure (with_error (requeued_after 30) e))
        λ _.
          on_error
            (ask env (kube manager_client (update_control_plane_status (settled instance)))
              >>= lift)
            failing
            λ updated. do
              ask env (record_event updated.meta "Normal" "Created" "Control Plane")
              pure finished

  unfoldable pub provision : ControlPlane → Cluster → Act Outcome
  unfolding settle
  provision instance cluster =
      on_error
        (ask env
            (kube manager_client (update_control_plane_status (with_state instance "Updating")))
          >>= lift)
        failing
        λ updated.
          on_error (create_new_bootstrap_token env) (λ e. pure (with_error (requeued_after 30) e))
            λ bootstrap_token. do
              custom_data ← get_master_custom_data env updated cluster bootstrap_token
              let prefix = provider_prefix cluster
              let vm_sku_type =
                  if updated.spec.vm_sku_type == ""
                  then "Standard_DS2_v2"
                  else updated.spec.vm_sku_type
              on_error
                  (create_vmss env cluster.spec.cloud master_vmss_name
                    (prefix <> "/Microsoft.Network/virtualNetworks/azk-vnet/subnets/master-subnet")
                    (load_balancer_ids prefix) (nat_pool_ids prefix) custom_data vm_sku_type
                    (pos 3))
                  failing λ _. settle updated cluster

  -- The second look at the versions, after the machines were listed.
  unfoldable pub reconcile_listed : ControlPlane → Cluster → Act Outcome
  unfolding provision
  reconcile_listed instance cluster =
      if instance.status.provisioning_state == "Succeeded"
        && instance.spec.kubernetes_version == instance.status.kubernetes_version
      then pure finished
      else provision instance cluster

  unfoldable pub reconcile_object : ControlPlane → Act Outcome
  unfolding reconcile_listed
  reconcile_object instance =
      if instance.spec.kubernetes_version == instance.status.kubernetes_version
      then pure finished
      else on_error (get_cluster env instance.meta.namespace)
          (λ e. pure (with_error (requeued_after 10) e))
          λ cluster.
            if cluster.status.provisioning_state == "Succeeded"
            then on_error (update_vmss_status env instance cluster) failing
                (λ listed. reconcile_listed listed cluster)
            else pure (requeued_after 10)

  unfoldable pub reconcile : NamespacedName → Act Outcome
  unfolding reconcile_object
  reconcile request = recover finished (
      on_error (ask env (kube manager_client (get_control_plane request)) >>= lift)
        (λ e. if env.is_not_found e then pure finished else failing e) reconcile_object)
