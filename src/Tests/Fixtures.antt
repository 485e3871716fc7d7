-- ===== src/Tests/Fixtures.antt =====
-- An environment that answers every call with success, except that the drain's answer is a parameter,
-- about the objects of `Tests/Fixtures/Objects.antt`.
mod Objects
pub use Objects.*
use azk.Base.{String, ◌<>◌, Option, none, some, List, [], ◌∷◌, pos, true, false}
use azk.Api.{
  Error, ok, err, message, ObjectMeta, VmStatus, NodeSetSpec, NodeSet, NodePool, ControlPlane,
  CloudConfiguration, Cluster,
}
use azk.World.{
  Env, Call, Answer, KubeRequest, KubeReply, AzureRequest, AzureReply, Node, ResourceSku, kube,
  azure, get_cluster, list_clusters, update_cluster, update_cluster_status, get_control_plane,
  create_control_plane, update_control_plane, update_control_plane_status, get_node_pool,
  create_node_pool, update_node_pool, delete_node_pool, update_node_pool_status, get_node_set,
  list_node_sets, create_node_set, update_node_set, update_node_set_status, delete_node_set,
  get_node, list_nodes, vmss_create_or_update, vmss_get, vmss_update, vmss_delete, vms_list,
  vms_delete, vms_run_command, vms_reimage, list_skus, group_create_or_update, group_delete,
  wait_for_completion, future_result, load_kubeconfig, kubectl_drain, kubernetes_client_set,
  delete_node, record_event, sleep, range_map, rand_intn, rsa_generate_key, ssh_new_public_key,
  generate_bootstrap_token, get_config, new_client_set, parse_token, create_new_tokens, http_get,
  getenv, build_config, client_new, kubectl_apply, read_dir, read_asset, mkdir_all, write_file,
  remove_all, network, PublicIpAddress, LoadBalancer, Subnet, NetworkRequest, NetworkReply,
  public_ip_get, public_ip_create_or_update, public_ip_result, load_balancer_get,
  load_balancer_create_or_update, load_balancer_result, subnet_get, security_group_create_or_update,
  security_group_delete, security_group_result, route_table_create_or_update, route_table_delete,
  route_table_result, vnet_create_or_update, vnet_result, interface_create_or_update,
  interface_result, read_file, remove_file, create_pki_assets, create_service_account_keys,
  create_kubeconfig_file, load_cluster_from_file, certs_from_file, print, prompt, select,
  list_locations, list_vm_sizes, entered, create_cluster, create_namespace, list_events, http_error,
  write_body, time_since, getwd, route_get, listen_and_serve, new_manager, setup_with_manager,
  start_manager, client_config, temp_dir, new_discovery_client, new_rest_mapper,
}

abbrev kube_answer : (r : KubeRequest) → KubeReply r
kube_answer (get_cluster _) = ok cluster
kube_answer (list_clusters _) = ok (cluster ∷ [])
kube_answer (update_cluster c) = ok c
kube_answer (update_cluster_status c) = ok c
kube_answer (get_control_plane _) = ok control_plane
kube_answer (create_control_plane c) = ok c
kube_answer (update_control_plane c) = ok c
kube_answer (update_control_plane_status c) = ok c
kube_answer (get_node_pool _) = ok node_pool
kube_answer (create_node_pool p) = ok p
kube_answer (update_node_pool p) = ok p
kube_answer (delete_node_pool _) = ok tt
kube_answer (update_node_pool_status p) = ok p
kube_answer (get_node_set n) = ok (node_set n.name)
kube_answer (list_node_sets _) = ok (node_set "current" ∷ node_set "old" ∷ [])
kube_answer (create_node_set s) = ok s
kube_answer (update_node_set s) = ok s
kube_answer (update_node_set_status s) = ok s
kube_answer (delete_node_set _) = ok tt
kube_answer (get_node name) = ok (node_with "True" name)
kube_answer list_nodes = ok nodes
kube_answer (create_cluster c) = ok c
kube_answer (create_namespace _) = ok tt
kube_answer list_events = ok (event "Created" ∷ [])

abbrev network_answer : (r : NetworkRequest) → NetworkReply r
network_answer (public_ip_get _ _) = ok public_ip
network_answer (public_ip_create_or_update _ _ _) = ok 11
network_answer (public_ip_result _) = ok public_ip
network_answer (load_balancer_get _ _) = ok load_balancer
network_answer (load_balancer_create_or_update _ _ _) = ok 12
network_answer (load_balancer_result _) = ok load_balancer
network_answer (subnet_get _ _ _) = ok subnet
network_answer (security_group_create_or_update _ _ _) = ok 13
network_answer (security_group_delete _ _) = ok 14
network_answer (security_group_result _) = ok (record { location = "westus2"; security_rules = [] })
network_answer (route_table_create_or_update _ _ _) = ok 15
network_answer (route_table_delete _ _) = ok 16
network_answer (route_table_result _) = ok (record { location = "westus2" })
network_answer (vnet_create_or_update _ _ _) = ok 17
network_answer (vnet_result _) =
    ok (record { location = "westus2"; address_prefixes = []; subnets = [] })
network_answer (interface_create_or_update _ _ _) = ok 18
network_answer (interface_result _) = ok (record {
  location = "westus2";
  configuration_name = "pipConfig";
  subnet_id = none;
  private_ip_allocation_method = "Static";
  private_ip_address = "10.0.0.5";
  load_balancer_backend_address_pools = [];
  load_balancer_inbound_nat_rules = [];
})

abbrev azure_answer : (r : AzureRequest) → AzureReply r
azure_answer (vmss_create_or_update _ _ _) = ok 1
azure_answer (vmss_get _ _) = ok (some (pos 2))
azure_answer (vmss_update _ _ _ _) = ok 2
azure_answer (vmss_delete _ _) = ok 3
azure_answer (vms_list _ _) =
    ok (record { computer_name = some "agent0"; instance_id = some "0" } ∷ [])
azure_answer (vms_delete _ _ _) = ok 4
azure_answer (vms_run_command _ _ _ _) = ok 5
azure_answer (vms_reimage _ _ _) = ok 6
azure_answer list_skus = ok (sku "Standard_DS1_v2" ∷ sku "Standard_DS2_v2" ∷ [])
azure_answer (group_create_or_update _ _) = ok tt
azure_answer (group_delete _) = ok 7
azure_answer (wait_for_completion _) = ok tt
azure_answer (future_result _) = ok tt
azure_answer (network r) = network_answer r

abbrev call_answer : Option Error × Option String → (c : Call) → Answer c
call_answer drained (kube _ r) = kube_answer r
call_answer drained (azure _ r) = azure_answer r
call_answer drained (load_kubeconfig _) = ok tt
call_answer drained (kubectl_drain _ _) = drained
call_answer drained (kubernetes_client_set _) = ok tt
call_answer drained (delete_node _ _) = ok tt
call_answer drained (record_event _ _ _ _) = tt
call_answer drained (sleep _) = tt
call_answer drained (range_map files) = files
call_answer drained (rand_intn _) = 3
call_answer drained (rsa_generate_key _) = ok 1
call_answer drained (ssh_new_public_key _) = ok 2
call_answer drained generate_bootstrap_token = ok "abcdef.0123456789abcdef"
call_answer drained get_config = ok "config"
call_answer drained new_client_set = ok tt
call_answer drained (parse_token _) = ok 3
call_answer drained (create_new_tokens _) = ok tt
call_answer drained (http_get _) = ok (ok "v1.14.1\n")
call_answer drained (getenv _) = "/root/.kube/config"
call_answer drained (build_config _) = ok "kubeconfig"
call_answer drained (client_new _) = ok tt
call_answer drained (kubectl_apply _ _) = drained
call_answer drained (read_dir _ _) = ok (ok (("crd.yaml", false) ∷ ("old", true) ∷ []))
call_answer drained (read_asset _ _) = ok (ok "kind: Deployment")
call_answer drained (mkdir_all _) = ok tt
call_answer drained (write_file _ _) = ok tt
call_answer drained (remove_all _) = ok tt
call_answer drained (read_file path) = ok path
call_answer drained (remove_file _) = ok tt
call_answer drained (create_pki_assets _) = ok tt
call_answer drained (create_service_account_keys _) = ok tt
call_answer drained (create_kubeconfig_file _ _ _) = ok tt
call_answer drained (load_cluster_from_file _) =
    ok (some (record { certificate_authority_data = some "PEM"; certificate_authority = "" }))
call_answer drained (certs_from_file _) = ok (1 ∷ [])
call_answer drained (print _) = tt
call_answer drained (prompt _ _ _) = entered "3000000000"
call_answer drained (select _ _) = entered "westus2"
call_answer drained (list_locations _ _) = ok (some (some "westus2" ∷ []))
call_answer drained (list_vm_sizes _ _ _) = ok (some (some "Standard_DS2_v2" ∷ []))
call_answer drained (http_error _ _) = tt
call_answer drained (write_body _) = tt
call_answer drained (time_since _) = "3s"
call_answer drained getwd = "/azk"
call_answer drained (route_get _ _ _) = tt
call_answer drained (listen_and_serve _) = err (message "address already in use")
call_answer drained (new_manager _ _) = ok tt
call_answer drained (setup_with_manager _ _) = ok tt
call_answer drained start_manager = ok tt
call_answer drained (client_config _) = ok (record { config = 1; timeout = 0 })
call_answer drained temp_dir = "/tmp"
call_answer drained (new_discovery_client _ _ _ _) = ok 2
call_answer drained (new_rest_mapper _) = 3

abbrev pub env_with : Option Error × Option String → Env
env_with drained = record {
  answer = λ log c. call_answer drained c;
  is_not_found = λ e. false;
  environment_from_name = λ name. ok ("directory", "manager");
  new_oauth_config = λ directory tenant. ok 1;
  new_service_principal_token = λ config client secret resource. ok 2;
  marshal_authorized_key = λ key. "ssh-rsa";
  set_controller_reference = λ owner controlled. ok controlled;
  parse_certs_pem = λ text. ok (1 ∷ 2 ∷ []);
  pin_hash = λ certificate. "sha256:00";
  parse_version = λ version. ok ("1", "14");
  error_text = λ e. "";
  marshal_spec = λ spec. ok "json";
  marshal_cluster = λ c. ok "yaml";
  marshal_control_plane = λ plane. ok "yaml";
  marshal_node_pool = λ pool. ok "yaml";
  runs_first = λ log. true;
  semver_make = λ text. ok 1;
  semver_gte = λ a b. true;
  semver_lte = λ a b. true;
  marshal_cluster_items = λ items. ok "json";
  marshal_event_items = λ items. ok "json";
  join_path = λ a b. a <> "/" <> b;
}

abbrev pub env : Env
env = env_with (none, none)

-- The same world, in which Azure makes no resource group.
abbrev pub refuse_groups : (c : Call) → Answer c
refuse_groups (azure _ (group_create_or_update _ _)) = err (message "quota")
refuse_groups c = call_answer (none, none) c
