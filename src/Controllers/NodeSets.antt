-- ===== src/Controllers/NodeSets.antt =====
-- `NodeSetReconciler` (controllers/nodeset_controller.go).
mod Machines
pub mod Deletion
pub mod Scaling
pub mod Settling
pub mod LifeCycle
unfoldable pub use Machines.*
use azk.Base.{
  ℕ, suc, String, true, false, List, [], ◌∷◌, ◌++◌, ◌<>◌, ◌==◌, ℤ, pos, length, int_eq, ltb_ℤ,
  int32, if◌then◌else◌,
}
use azk.Api.{NamespacedName, VmStatus, NodeSet, Cluster, CloudConfiguration, is_valid, is_zero}
use azk.World.{
  Env, Act, pure, lift, deref, index, recover, ask, on_error, ◌>>=◌, ◌>>◌, kube, manager_client,
  get_node_set, update_node_set, update_node_set_status, azure, vms_list, vms_delete, Vm,
  record_event,
}
use azk.Std.{base64, decimal}
use azk.Helpers.{
  contains_finalizer, remove_finalizer, cordon_drain_and_delete_node, wait_for_nodes_ready,
}
use azk.Azure.{
  get_vmss_vms_client, usable, create_vmss, scale_vmss, delete_vmss,
  get_custom_data as azure_custom_data,
}
use azk.Bootstrap.{create_new_bootstrap_token}
use azk.Controllers.Outcome.{
  Outcome, finished, requeued, requeued_after, with_error, failing, get_cluster,
}
use azk.Controllers.Scripts.{get_node_set_startup_script}
use azk.Controllers.NodeSets.Machines.{
  node_sets_finalizer_name, agent_vmss, with_state, with_nodes, with_finalizers, vm_statuses,
  cloud_configuration, agent_subnet_id, settled, update_node_set_nodes, get_custom_data, drain_all,
  delete_node_set, remove_surplus, scale_node_set,
}

module _ (env : Env) where
  -- The object is not being deleted and lacks the finalizer.
  unfoldable pub register : NodeSet → Act Outcome
  register instance =
      let named =
        with_finalizers instance (instance.meta.finalizers ++ node_sets_finalizer_name ∷ []) in
      on_error (ask env (kube manager_client (update_node_set named)) >>= lift)
        (λ e. pure (with_error requeued e)) λ _. pure requeued

  -- The finalizer is removed and the object updated; an error of the update is dropped.
  unfoldable pub release : NodeSet → Act Outcome
  release instance =
      let freed =
        with_finalizers instance
          (remove_finalizer instance.meta.finalizers node_sets_finalizer_name) in
      on_error (ask env (kube manager_client (update_node_set freed)) >>= lift) (λ e. pure requeued)
        λ _. pure finished

  -- The object is being deleted: an error of `deleteNodeSet` is dropped.
  unfoldable pub finalize : NodeSet → Cluster → Act Outcome
  unfolding release
  finalize instance cluster =
      let deleting =
        on_error (delete_node_set env instance (cloud_configuration cluster))
          (λ e. release instance) (λ _. release instance) in
      if contains_finalizer instance.meta.finalizers node_sets_finalizer_name
      then (if is_valid (cloud_configuration cluster) then deleting else release instance)
      else pure finished

  -- The scale set could not be listed: it is created.
  unfoldable pub create : NodeSet → Cluster → String → Act Outcome
  create instance cluster vm_sku_type =
      on_error
        (ask env (kube manager_client (update_node_set_status (with_state instance "Updating")))
          >>= lift)
        failing
        λ updated.
          on_error (get_custom_data env updated cluster)
            (λ e. pure (with_error (requeued_after 30) e))
            λ custom_data. do
              replicas ← deref updated.spec.replicas
              on_error
                  (create_vmss env (cloud_configuration cluster) (agent_vmss updated)
                    (agent_subnet_id cluster) [] [] custom_data vm_sku_type replicas)
                  failing
                  λ _. do
                    ask env (record_event updated.meta "Normal" "Created" (agent_vmss updated))
                    pure requeued

  -- The number of virtual machines differs from the one asked for.
  unfoldable pub scale : NodeSet → Cluster → Act Outcome
  scale instance cluster =
      on_error
        (ask env (kube manager_client (update_node_set_status (with_state instance "Scaling")))
          >>= lift)
        failing
        λ updated. on_error (scale_node_set env updated cluster) failing λ _. do
          replicas ← deref updated.spec.replicas
          ask env (
              record_event updated.meta "Normal" "Scaled"
                (decimal (pos (length updated.status.node_status)) <> " to " <> decimal replicas))
          pure requeued

  -- The number fits: wait for the nodes, and report success.
  unfoldable pub settle : NodeSet → Cluster → ℤ → Act Outcome
  settle instance cluster replicas =
      on_error (wait_for_nodes_ready env manager_client instance.meta.name replicas)
        (λ e. pure (with_error (requeued_after 30) e))
        λ _.
          on_error
            (ask env (kube manager_client (update_node_set_status (settled instance cluster)))
              >>= lift)
            failing λ _. pure finished

  unfoldable pub provision : NodeSet → Cluster → Act Outcome
  unfolding create scale settle
  provision instance cluster =
      let vm_sku_type =
        if instance.spec.vm_sku_type == "" then "Standard_DS2_v2" else instance.spec.vm_sku_type in
      on_error (update_node_set_nodes env instance (cloud_configuration cluster))
        (λ e. create instance cluster vm_sku_type)
        λ seen. do
          replicas ← deref seen.spec.replicas
          if int_eq replicas (pos (length seen.status.node_status))
              then settle seen cluster replicas
              else scale seen cluster

  -- A live object is registered first, and provisioned in a later round.
  unfoldable pub reconcile_object : NodeSet → Cluster → Act Outcome
  unfolding finalize register provision
  reconcile_object instance cluster =
      if is_zero instance.meta.deletion_timestamp
      then (if contains_finalizer instance.meta.finalizers node_sets_finalizer_name
          then provision instance cluster
          else register instance)
      else finalize instance cluster

  unfoldable pub reconcile : NamespacedName → Act Outcome
  unfolding reconcile_object
  reconcile request = recover finished (
      on_error (ask env (kube manager_client (get_node_set request)) >>= lift)
        (λ e. if env.is_not_found e then pure finished else failing e)
        λ instance. on_error (get_cluster env instance.meta.namespace) failing λ cluster.
          if cluster.status.provisioning_state == "Succeeded"
          then reconcile_object instance cluster
          else pure (requeued_after 10))
