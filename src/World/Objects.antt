-- ===== src/World/Objects.antt =====
-- The objects that the program's calls name or answer: Kubernetes nodes, Azure clients, scale sets,
-- machines and sizes, bootstrap tokens, kubeadm's configuration and the answers of prompts.
use azk.Base.{ℕ, String, Bool, Option, List, ℤ}
use azk.Api.{Error}

-- The client that a Kubernetes call goes through: the manager's, or one made from a kubeconfig.
pub data KubeClient : Type 0 where
  manager_client : KubeClient
  client_of : String → KubeClient

-- A condition of a node, with its type and its status (`True`, `False` or `Unknown`).
pub record NodeCondition : Type 0 where
  pub kind : String
  pub status : String

pub record Node : Type 0 where
  pub name : String
  pub conditions : List NodeCondition
  pub kubelet_version : String

-- The Azure services that the program has a client for.
pub data AzureService : Type 0 where
  vmss_service vmss_vms_service vmss_extensions_service skus_service groups_service : AzureService
  load_balancers_service interfaces_service subnets_service vnets_service : AzureService
  peerings_service security_groups_service public_ips_service route_tables_service : AzureService
  resources_service disks_service deployments_service : AzureService

-- An Azure service client: the service, the subscription, the authorizer if one was made, the user agent.
pub record AzureClient : Type 0 where
  pub service : AzureService
  pub subscription_id : String
  pub authorizer : Option ℕ
  pub user_agent : String

-- The description of a scale set that `CreateVMSS` fills in; constants are kept as texts.
pub record VirtualMachineScaleSet : Type 0 where
  pub location : String
  pub sku_name : String
  pub sku_capacity : ℤ
  pub overprovision : Bool
  pub upgrade_mode : String
  pub enable_automatic_os_upgrade : Bool
  pub computer_name_prefix : String
  pub admin_username : String
  pub admin_password : String
  pub custom_data : String
  pub ssh_key_path : String
  pub ssh_key_data : String
  pub image_offer : String
  pub image_publisher : String
  pub image_sku : String
  pub image_version : String
  pub os_disk_create_option : String
  pub os_disk_size_gb : ℕ
  pub os_type : String
  pub storage_account_type : String
  pub network_name : String
  pub network_primary : Bool
  pub enable_ip_forwarding : Bool
  pub ip_configuration_name : String
  pub subnet_id : String
  pub backend_address_pools : List String
  pub inbound_nat_pools : List String
  pub zones : Option (List String)
  pub zone_balance : Option Bool

-- A virtual machine of a scale set as `List` returns it; nil pointers are `none`.
pub record Vm : Type 0 where
  pub computer_name : Option String
  pub instance_id : Option String

pub record LocationInfo : Type 0 where
  pub location : Option String
  pub zones : Option (List String)

pub record ResourceSku : Type 0 where
  pub name : Option String
  pub location_info : Option (List LocationInfo)

-- `kubeadmapi.BootstrapToken`; the time to live is in hours.
pub record BootstrapToken : Type 0 where
  pub token : ℕ
  pub ttl_hours : ℕ
  pub groups : List String
  pub usages : List String

-- How a prompt or a selection ends: with a text, with an interrupt, or with another error.
pub data PromptAnswer : Type 0 where
  entered : String → PromptAnswer
  interrupted : PromptAnswer
  prompt_failed : Error → PromptAnswer

-- The fields of kubeadm's `InitConfiguration` that the program sets; the others have their defaults.
pub record KubeadmConfig : Type 0 where
  pub certificates_dir : String
  pub advertise_address : String
  pub bind_port : ℕ
  pub control_plane_endpoint : String
  pub cert_sans : List String
  pub node_registration_name : String

-- The default cluster of a kubeconfig, with the certificates of its authority or their file.
pub record KubeconfigCluster : Type 0 where
  pub certificate_authority_data : Option String
  pub certificate_authority : String
