-- ===== src/World/Requests.antt =====
-- What the program asks of the systems around it: one constructor for each call that it makes to
-- the Kubernetes API, to Azure, to kubectl and to Go's run time, and the type of its answer.
use azk.Base.{ℕ, String, Bool, Option, List, ℤ}
use azk.World.Network.{NetworkRequest, NetworkReply}
use azk.World.Web.{RestConfig, Event, Handler, Kind}
use azk.World.Objects.{
  Node, VirtualMachineScaleSet, Vm, ResourceSku, BootstrapToken, PromptAnswer, KubeadmConfig,
  KubeconfigCluster, AzureClient, KubeClient,
}
use azk.Api.{Error, Result, NamespacedName, NodeSet, NodePool, ControlPlane, Cluster, ObjectMeta}

pub data KubeRequest : Type 0 where
  get_cluster : NamespacedName → KubeRequest
  list_clusters : String → KubeRequest
  update_cluster : Cluster → KubeRequest
  update_cluster_status : Cluster → KubeRequest
  get_control_plane : NamespacedName → KubeRequest
  create_control_plane : ControlPlane → KubeRequest
  update_control_plane : ControlPlane → KubeRequest
  update_control_plane_status : ControlPlane → KubeRequest
  get_node_pool : NamespacedName → KubeRequest
  create_node_pool : NodePool → KubeRequest
  update_node_pool : NodePool → KubeRequest
  delete_node_pool : NodePool → KubeRequest
  update_node_pool_status : NodePool → KubeRequest
  get_node_set : NamespacedName → KubeRequest
  list_node_sets : String → KubeRequest
  create_node_set : NodeSet → KubeRequest
  update_node_set : NodeSet → KubeRequest
  update_node_set_status : NodeSet → KubeRequest
  delete_node_set : NodeSet → KubeRequest
  get_node : String → KubeRequest
  list_nodes : KubeRequest
  create_cluster : Cluster → KubeRequest
  create_namespace : String → KubeRequest
  list_events : KubeRequest

-- A write answers the object as the server returns it, which the caller's copy is set to.
abbrev pub KubeReply : KubeRequest → Type 0
KubeReply (get_cluster _) = Result Cluster
KubeReply (list_clusters _) = Result (List Cluster)
KubeReply (update_cluster _) = Result Cluster
KubeReply (update_cluster_status _) = Result Cluster
KubeReply (get_control_plane _) = Result ControlPlane
KubeReply (create_control_plane _) = Result ControlPlane
KubeReply (update_control_plane _) = Result ControlPlane
KubeReply (update_control_plane_status _) = Result ControlPlane
KubeReply (get_node_pool _) = Result NodePool
KubeReply (create_node_pool _) = Result NodePool
KubeReply (update_node_pool _) = Result NodePool
KubeReply (delete_node_pool _) = Result (Unit {0})
KubeReply (update_node_pool_status _) = Result NodePool
KubeReply (get_node_set _) = Result NodeSet
KubeReply (list_node_sets _) = Result (List NodeSet)
KubeReply (create_node_set _) = Result NodeSet
KubeReply (update_node_set _) = Result NodeSet
KubeReply (update_node_set_status _) = Result NodeSet
KubeReply (delete_node_set _) = Result (Unit {0})
KubeReply (get_node _) = Result Node
KubeReply list_nodes = Result (List Node)
KubeReply (create_cluster _) = Result Cluster
KubeReply (create_namespace _) = Result (Unit {0})
KubeReply list_events = Result (List Event)

-- A running operation of Azure, known by a handle.
abbrev pub Future : Type 0
Future = ℕ

pub data AzureRequest : Type 0 where
  vmss_create_or_update : String → String → VirtualMachineScaleSet → AzureRequest
  vmss_get : String → String → AzureRequest
  vmss_update : String → String → ℤ → String → AzureRequest
  vmss_delete : String → String → AzureRequest
  vms_list : String → String → AzureRequest
  vms_delete : String → String → String → AzureRequest
  vms_run_command : String → String → String → String → AzureRequest
  vms_reimage : String → String → String → AzureRequest
  list_skus : AzureRequest
  group_create_or_update : String → String → AzureRequest
  group_delete : String → AzureRequest
  wait_for_completion : Future → AzureRequest
  future_result : Future → AzureRequest
  network : NetworkRequest → AzureRequest

-- `list_skus` answers what the iterator of `ListComplete` yields; its `Next` does not fail.
-- `vmss_get` answers the scale set's capacity, a pointer that may be nil.
abbrev pub AzureReply : AzureRequest → Type 0
AzureReply (vmss_create_or_update _ _ _) = Result Future
AzureReply (vmss_get _ _) = Result (Option ℤ)
AzureReply (vmss_update _ _ _ _) = Result Future
AzureReply (vmss_delete _ _) = Result Future
AzureReply (vms_list _ _) = Result (List Vm)
AzureReply (vms_delete _ _ _) = Result Future
AzureReply (vms_run_command _ _ _ _) = Result Future
AzureReply (vms_reimage _ _ _) = Result Future
AzureReply list_skus = Result (List ResourceSku)
AzureReply (group_create_or_update _ _) = Result (Unit {0})
AzureReply (group_delete _) = Result Future
AzureReply (wait_for_completion _) = Result (Unit {0})
AzureReply (future_result _) = Result (Unit {0})
AzureReply (network r) = NetworkReply r

-- `kubectl_drain` answers the error of `Execute` and the message of a fatal exit, if any. The handler
-- of fatal exits is shared by the whole process, so with several drains at a time the message may
-- be that of another one, or have gone to another one: the answer may be any.
-- `parse_token` answers a handle of the parsed token. `build_config` answers a handle of the
-- configuration that `client_new` makes a client from. `read_dir` and `read_asset` name the file
-- system of assets first, and answer the error of `Open`, then that of reading; a directory's entries
-- say whether they are directories. `prompt` has the validation of its text, and whether the text is
-- masked; the two listings name the authorizer. `print` is a line for the user, without the time it names.
-- `load_cluster_from_file` is `LoadFromFile` and then `GetClusterFromKubeConfig`; certificates are
-- known by handles. `http_error` and `write_body` answer a request of the web; `time_since` is
-- `time.Now().Sub`, printed; `getwd` drops the error of `os.Getwd`. `route_get` names the paths that the
-- router is mounted under, outermost first. A discovery client and a mapper are known by handles, and
-- the former has the minutes that it keeps what it found. `setup_with_manager` has the most reconciles at a time.
pub data Call : Type 0 where
  kube : KubeClient → KubeRequest → Call
  azure : AzureClient → AzureRequest → Call
  load_kubeconfig : String → Call
  kubectl_drain : String → List String → Call
  kubernetes_client_set : String → Call
  delete_node : String → String → Call
  record_event : ObjectMeta → String → String → String → Call
  sleep : ℕ → Call
  range_map : List (String × String) → Call
  rand_intn : ℕ → Call
  rsa_generate_key : ℕ → Call
  ssh_new_public_key : ℕ → Call
  generate_bootstrap_token : Call
  get_config : Call
  new_client_set : Call
  parse_token : String → Call
  create_new_tokens : List BootstrapToken → Call
  http_get : String → Call
  getenv : String → Call
  build_config : String → Call
  client_new : String → Call
  kubectl_apply : String → String → Call
  read_dir : String → String → Call
  read_asset : String → String → Call
  mkdir_all : String → Call
  write_file : String → String → Call
  remove_all : String → Call
  read_file : String → Call
  remove_file : String → Call
  create_pki_assets : KubeadmConfig → Call
  create_service_account_keys : String → Call
  create_kubeconfig_file : String → String → KubeadmConfig → Call
  load_cluster_from_file : String → Call
  certs_from_file : String → Call
  print : String → Call
  prompt : String → (String → Option Error) → Bool → Call
  select : String → List String → Call
  list_locations : ℕ → String → Call
  list_vm_sizes : ℕ → String → String → Call
  http_error : String → ℕ → Call
  write_body : String → Call
  time_since : ℕ → Call
  getwd : Call
  route_get : List String → String → Handler → Call
  listen_and_serve : String → Call
  new_manager : String → Bool → Call
  setup_with_manager : Kind → ℕ → Call
  start_manager : Call
  client_config : String → Call
  temp_dir : Call
  new_discovery_client : RestConfig → String → String → ℕ → Call
  new_rest_mapper : ℕ → Call

abbrev pub Answer : Call → Type 0
Answer (kube _ r) = KubeReply r
Answer (azure _ r) = AzureReply r
Answer (load_kubeconfig _) = Result (Unit {0})
Answer (kubectl_drain _ _) = Option Error × Option String
Answer (kubernetes_client_set _) = Result (Unit {0})
Answer (delete_node _ _) = Result (Unit {0})
Answer (record_event _ _ _ _) = Unit
Answer (sleep _) = Unit
Answer (range_map _) = List (String × String)
Answer (rand_intn _) = ℕ
Answer (rsa_generate_key _) = Result ℕ
Answer (ssh_new_public_key _) = Result ℕ
Answer generate_bootstrap_token = Result String
Answer get_config = Result String
Answer new_client_set = Result (Unit {0})
Answer (parse_token _) = Result ℕ
Answer (create_new_tokens _) = Result (Unit {0})
Answer (http_get _) = Result (Result String)
Answer (getenv _) = String
Answer (build_config _) = Result String
Answer (client_new _) = Result (Unit {0})
Answer (kubectl_apply _ _) = Option Error × Option String
Answer (read_dir _ _) = Result (Result (List (String × Bool)))
Answer (read_asset _ _) = Result (Result String)
Answer (mkdir_all _) = Result (Unit {0})
Answer (write_file _ _) = Result (Unit {0})
Answer (remove_all _) = Result (Unit {0})
Answer (read_file _) = Result String
Answer (remove_file _) = Result (Unit {0})
Answer (create_pki_assets _) = Result (Unit {0})
Answer (create_service_account_keys _) = Result (Unit {0})
Answer (create_kubeconfig_file _ _ _) = Result (Unit {0})
Answer (load_cluster_from_file _) = Result (Option KubeconfigCluster)
Answer (certs_from_file _) = Result (List ℕ)
Answer (print _) = Unit
Answer (prompt _ _ _) = PromptAnswer
Answer (select _ _) = PromptAnswer
Answer (list_locations _ _) = Result (Option (List (Option String)))
Answer (list_vm_sizes _ _ _) = Result (Option (List (Option String)))
Answer (http_error _ _) = Unit
Answer (write_body _) = Unit
Answer (time_since _) = String
Answer getwd = String
Answer (route_get _ _ _) = Unit
Answer (listen_and_serve _) = Result (Unit {0})
Answer (new_manager _ _) = Result (Unit {0})
Answer (setup_with_manager _ _) = Result (Unit {0})
Answer start_manager = Result (Unit {0})
Answer (client_config _) = Result RestConfig
Answer temp_dir = String
Answer (new_discovery_client _ _ _ _) = Result ℕ
Answer (new_rest_mapper _) = ℕ
