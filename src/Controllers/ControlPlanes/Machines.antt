-- ===== src/Controllers/ControlPlanes/Machines.antt =====
-- The methods of `ControlPlaneReconciler` on machines (controllers/controlplane_controller.go): what is
-- in the scale set, its two upgrades and its custom data.
use azk.Base.{ℕ, String, Bool, true, false, not, List, [], ◌∷◌, ◌<>◌, ◌==◌, ◌&&◌, if◌then◌else◌}
use azk.Api.{VmStatus, ControlPlane, Cluster, wrapped}
use azk.World.{
  Env, Act, pure, fail, lift, index, ask, on_error, ◌>>=◌, ◌>>◌, manager_client, azure, AzureClient,
  vms_list, vms_run_command, vms_reimage, wait_for_completion, future_result,
}
use azk.Std.{base64}
use azk.Helpers.{cordon_drain_and_delete_node, wait_for_node_version_ready, is_node_updated}
use azk.Azure.{get_vmss_vms_client, usable, get_custom_data}
use azk.Controllers.NodeSets.{vm_statuses}
use azk.Controllers.Scripts.{get_master_startup_script, get_upgrade_script}

abbrev pub master_vmss_name : String
master_vmss_name = "azk-master-vmss"

abbrev pub with_state : ControlPlane → String → ControlPlane
with_state instance state = record instance {
  status = record instance.status { provisioning_state = state };
}

-- The loop over the nodes that joins their etcd addresses.
unfoldable pub etcd_endpoints : List VmStatus → String → String
etcd_endpoints [] text = text
etcd_endpoints (node ∷ nodes) text = etcd_endpoints nodes (
    if text == ""
    then "https://" <> node.vm_computer_name <> ":2379"
    else text <> ",https://" <> node.vm_computer_name <> ":2379")

abbrev pub master_files : Cluster → List (String × String)
master_files cluster =
    ("/etc/kubernetes/pki/ca.crt", cluster.spec.ca_certificate)
    ∷ ("/etc/kubernetes/pki/ca.key", cluster.spec.ca_certificate_key)
    ∷ ("/etc/kubernetes/pki/sa.key", cluster.spec.service_account_key)
    ∷ ("/etc/kubernetes/pki/sa.pub", cluster.spec.service_account_pub)
    ∷ ("/etc/kubernetes/pki/front-proxy-ca.crt", cluster.spec.front_proxy_ca_certificate)
    ∷ ("/etc/kubernetes/pki/front-proxy-ca.key", cluster.spec.front_proxy_ca_certificate_key)
    ∷ ("/etc/kubernetes/pki/etcd/ca.crt", cluster.spec.etcd_ca_certificate)
    ∷ ("/etc/kubernetes/pki/etcd/ca.key", cluster.spec.etcd_ca_certificate_key)
    ∷ ("/etc/kubernetes/azure.json", cluster.spec.azure_cloud_provider_config)
    ∷ []

abbrev pub provider_prefix : Cluster → String
provider_prefix cluster =
    "/subscriptions/" <> cluster.spec.cloud.subscription_id <> "/resourceGroups/"
    <> cluster.spec.cloud.group_name <> "/providers"

abbrev pub load_balancer_ids : String → List String
load_balancer_ids prefix =
    (prefix <> "/Microsoft.Network/loadBalancers/azk-lb/backendAddressPools/master-backEndPool")
    ∷ (prefix
        <> "/Microsoft.Network/loadBalancers/azk-internal-lb/backendAddressPools/master-internal-backEndPool")
    ∷ []

abbrev pub nat_pool_ids : String → List String
nat_pool_ids prefix =
    (prefix <> "/Microsoft.Network/loadBalancers/azk-lb/inboundNatPools/natSSHPool") ∷ []

abbrev pub needs_upgrade : ControlPlane → Bool
needs_upgrade instance =
    not (instance.status.kubernetes_version == "")
    && not (instance.status.kubernetes_version == instance.spec.kubernetes_version)

abbrev pub settled : ControlPlane → ControlPlane
settled instance = record instance {
  status = record instance.status {
    kubernetes_version = instance.spec.kubernetes_version;
    provisioning_state = "Succeeded";
  };
}

module _ (env : Env) where
  -- On an error the caller's instance is unchanged.
  unfoldable pub update_vmss_status : ControlPlane → Cluster → Act ControlPlane
  update_vmss_status instance cluster = do
    client ← usable (get_vmss_vms_client env cluster.spec.cloud)
    vms ←
        (ask env (azure client (vms_list cluster.spec.cloud.group_name master_vmss_name)) >>= lift)
    nodes ← vm_statuses vms []
    pure (record instance { status = record instance.status { node_status = nodes } })

  -- Waits for an operation on one machine and then for the machine's version.
  unfoldable pub finish_upgrade : AzureClient → String → String → ℕ → Act (Unit {0})
  finish_upgrade client vm_name version future = do
    waited ← ask env (azure client (wait_for_completion future))
    on_error (lift waited) (λ e. fail (wrapped "cannot get the vmss update future response" e))
        λ _. do
          ask env (azure client (future_result future)) >>= lift
          wait_for_node_version_ready env manager_client vm_name version

  unfoldable pub upgrade_node : AzureClient → String → String → VmStatus → Act (Unit {0})
  upgrade_node client group version node = do
    future ←
        (ask env (
            azure client (
              vms_run_command group master_vmss_name node.vm_instance_id
                (get_upgrade_script version)))
          >>= lift)
    finish_upgrade client node.vm_computer_name version future

  -- The loop of `upgradeVMSS`: a machine at the version is passed over.
  unfoldable pub upgrade_nodes : AzureClient → String → String → List VmStatus → Act (Unit {0})
  unfolding upgrade_node
  upgrade_nodes client group version [] = pure tt
  upgrade_nodes client group version (node ∷ nodes) = do
    is_updated ← is_node_updated env manager_client node.vm_computer_name version
    elim is_updated [
      | true ↦ upgrade_nodes client group version nodes
      | false ↦
          upgrade_node client group version node >>= λ _. upgrade_nodes client group version nodes
    ]

  unfoldable pub upgrade_vmss : ControlPlane → Cluster → Act (Unit {0})
  unfolding upgrade_nodes
  upgrade_vmss instance cluster = do
    client ← usable (get_vmss_vms_client env cluster.spec.cloud)
    upgrade_nodes client cluster.spec.cloud.group_name instance.spec.kubernetes_version
        instance.status.node_status

  -- One machine of `upgradeVMSSWithReimage`; an error of the drain is only logged.
  unfoldable pub reimage : AzureClient → Cluster → String → VmStatus → Act (Unit {0})
  reimage client cluster version node = do
    future ←
        (ask env (
            azure client
              (vms_reimage cluster.spec.cloud.group_name master_vmss_name node.vm_instance_id))
          >>= lift)
    finish_upgrade client node.vm_computer_name version future

  unfoldable pub reimage_node : AzureClient → Cluster → String → VmStatus → Act (Unit {0})
  unfolding reimage
  reimage_node client cluster version node =
      on_error
        (cordon_drain_and_delete_node env cluster.spec.customer_kubeconfig node.vm_computer_name)
        (λ e. reimage client cluster version node) λ _. reimage client cluster version node

  unfoldable pub reimage_nodes : AzureClient → Cluster → String → List VmStatus → Act (Unit {0})
  unfolding reimage_node
  reimage_nodes client cluster version [] = pure tt
  reimage_nodes client cluster version (node ∷ nodes) = do
    is_updated ← is_node_updated env manager_client node.vm_computer_name version
    elim is_updated [
      | true ↦ reimage_nodes client cluster version nodes
      | false ↦ reimage_node client cluster version node >>= λ _.
          reimage_nodes client cluster version nodes
    ]

  unfoldable pub upgrade_vmss_with_reimage : ControlPlane → Cluster → Act (Unit {0})
  unfolding reimage_nodes
  upgrade_vmss_with_reimage instance cluster = do
    client ← usable (get_vmss_vms_client env cluster.spec.cloud)
    reimage_nodes client cluster instance.spec.kubernetes_version instance.status.node_status

  unfoldable pub get_master_custom_data : ControlPlane → Cluster → String → Act String
  get_master_custom_data instance cluster bootstrap_token = do
    discovery_hash ← index cluster.spec.discovery_hashes 0
    let startup_script =
        get_master_startup_script instance.spec.kubernetes_version cluster.spec.public_ip_address
          cluster.spec.internal_dns_name bootstrap_token discovery_hash
          (etcd_endpoints instance.status.node_status "")
    text ←
        get_custom_data env (master_files cluster)
          (("/etc/kubernetes/init-azure-bootstrap.sh", startup_script) ∷ [])
    pure (base64 text)

  abbrev pub upgrade_if_needed : ControlPlane → Cluster → Act (Unit {0})
  upgrade_if_needed instance cluster =
      if needs_upgrade instance then upgrade_vmss instance cluster else pure tt
