-- ===== src/Controllers/NodeSets/Machines.antt =====
-- The methods of `NodeSetReconciler` on machines (controllers/nodeset_controller.go): what is in the
-- scale set, its custom data, its deletion and its scaling.
use azk.Base.{ℕ, suc, String, true, false, List, [], ◌∷◌, ◌++◌, ◌<>◌, ℤ, pos, length, ltb_ℤ, int32}
use azk.Api.{VmStatus, NodeSet, Cluster, CloudConfiguration}
use azk.World.{
  Env, Act, pure, lift, deref, index, ask, on_error, ◌>>=◌, ◌>>◌, azure, vms_list, vms_delete, Vm,
}
use azk.Std.{base64}
use azk.Helpers.{cordon_drain_and_delete_node}
use azk.Azure.{
  get_vmss_vms_client, usable, scale_vmss, delete_vmss, get_custom_data as azure_custom_data,
}
use azk.Bootstrap.{create_new_bootstrap_token}
use azk.Controllers.Scripts.{get_node_set_startup_script}

abbrev pub node_sets_finalizer_name : String
node_sets_finalizer_name = "nodesets.finalizers.engine.azk.io"

abbrev pub agent_vmss : NodeSet → String
agent_vmss instance = instance.meta.name <> "-agentvmss"

abbrev pub with_state : NodeSet → String → NodeSet
with_state instance state = record instance {
  status = record instance.status { provisioning_state = state };
}

abbrev pub with_nodes : NodeSet → List VmStatus → NodeSet
with_nodes instance nodes = record instance {
  status = record instance.status { node_status = nodes };
}

abbrev pub with_finalizers : NodeSet → List String → NodeSet
with_finalizers instance names = record instance {
  meta = record instance.meta { finalizers = names };
}

-- The loop over the virtual machines listed; a nil name or id panics.
unfoldable pub vm_statuses : List Vm → List VmStatus → Act (List VmStatus)
vm_statuses [] statuses = pure statuses
vm_statuses (vm ∷ vms) statuses = do
  computer_name ← deref vm.computer_name
  instance_id ← deref vm.instance_id
  vm_statuses vms
      (statuses ++ record { vm_computer_name = computer_name; vm_instance_id = instance_id } ∷ [])

-- The account that the reconciler works with: that of the cluster, in the public cloud.
abbrev pub cloud_configuration : Cluster → CloudConfiguration
cloud_configuration cluster = record cluster.spec.cloud {
  cloud_name = "AzurePublicCloud";
  user_agent = "azk";
}

abbrev pub agent_subnet_id : Cluster → String
agent_subnet_id cluster =
    "/subscriptions/" <> cluster.spec.cloud.subscription_id <> "/resourceGroups/"
    <> cluster.spec.cloud.group_name
    <> "/providers/Microsoft.Network/virtualNetworks/azk-vnet/subnets/agent-subnet"

abbrev pub settled : NodeSet → Cluster → NodeSet
settled instance cluster = record instance {
  status = record instance.status {
    kubernetes_version = instance.spec.kubernetes_version;
    provisioning_state = "Succeeded";
    kubeconfig = cluster.spec.customer_kubeconfig;
    replicas = int32 (length instance.status.node_status);
  };
}

module _ (env : Env) where
  -- On an error the caller's instance is unchanged.
  unfoldable pub update_node_set_nodes : NodeSet → CloudConfiguration → Act NodeSet
  unfolding vm_statuses
  update_node_set_nodes instance cloud = do
    client ← usable (get_vmss_vms_client env cloud)
    vms ← (ask env (azure client (vms_list cloud.group_name (agent_vmss instance))) >>= lift)
    nodes ← vm_statuses vms []
    pure (with_nodes instance nodes)

  unfoldable pub get_custom_data : NodeSet → Cluster → Act String
  get_custom_data instance cluster = do
    bootstrap_token ← create_new_bootstrap_token env
    discovery_hash ← index cluster.spec.discovery_hashes 0
    let startup_script =
        get_node_set_startup_script instance.spec.kubernetes_version cluster.spec.internal_dns_name
          bootstrap_token discovery_hash
    text ←
        azure_custom_data env
          (("/etc/kubernetes/azure.json", cluster.spec.azure_cloud_provider_config) ∷ [])
          (("/etc/kubernetes/init-azure-bootstrap.sh", startup_script) ∷ [])
    pure (base64 text)

  -- The loop of `deleteNodeSet`: an error is only logged.
  unfoldable pub drain_all : String → List VmStatus → Act (Unit {0})
  drain_all kubeconfig [] = pure tt
  drain_all kubeconfig (vm ∷ vms) =
      on_error (cordon_drain_and_delete_node env kubeconfig vm.vm_computer_name)
        (λ e. drain_all kubeconfig vms) λ _. drain_all kubeconfig vms

  unfoldable pub delete_node_set : NodeSet → CloudConfiguration → Act (Unit {0})
  unfolding drain_all
  delete_node_set instance cloud = do
    drain_all instance.status.kubeconfig instance.status.node_status
    delete_vmss env cloud (agent_vmss instance)

  -- The loop of `scaleNodeSet`: the first nodes are kept until `expectedCount` are.
  unfoldable pub remove_surplus : NodeSet → Cluster → ℤ → List VmStatus → ℕ → Act (Unit {0})
  remove_surplus instance cluster expected_count [] cur_count = pure tt
  remove_surplus instance cluster expected_count (node ∷ nodes) cur_count =
      elim (ltb_ℤ (pos cur_count) expected_count) [
        | true ↦ remove_surplus instance cluster expected_count nodes (suc cur_count)
        | false ↦
            cordon_drain_and_delete_node env instance.status.kubeconfig node.vm_computer_name
            >>= λ _. usable (get_vmss_vms_client env cluster.spec.cloud) >>= λ client.
                ask env (
                  azure client (
                    vms_delete cluster.spec.cloud.group_name (agent_vmss instance)
                      node.vm_instance_id))
                >>= lift
                >>= λ _. remove_surplus instance cluster expected_count nodes cur_count
      ]

  unfoldable pub scale_node_set : NodeSet → Cluster → Act (Unit {0})
  unfolding remove_surplus
  scale_node_set instance cluster = do
    expected_count ← deref instance.spec.replicas
    remove_surplus instance cluster expected_count instance.status.node_status 0
    custom_data ← get_custom_data instance cluster
    scale_vmss env cluster.spec.cloud (agent_vmss instance) custom_data expected_count
