-- ===== src/World/Network.antt =====
-- What the program asks of Azure's network services (azure/ip.go, loadbalancer.go,
-- securitygroups.go, routetables.go, vnet.go, subnet.go and nic.go) and what they answer. The
-- constants of Azure's library are kept as texts.
use azk.Base.{ℕ, String, Bool, true, false, Option, List}
use azk.Api.{Result}

pub record PublicIpProperties : Type 0 where
  pub version : String
  pub allocation_method : String
  pub domain_name_label : Option String
  pub fqdn : Option String
  pub ip_address : Option String

pub record PublicIpAddress : Type 0 where
  pub sku : String
  pub name : Option String
  pub location : Option String
  pub properties : Option PublicIpProperties

pub record SecurityRule : Type 0 where
  pub name : String
  pub protocol : String
  pub source_address_prefix : String
  pub source_port_range : String
  pub destination_address_prefix : String
  pub destination_port_range : String
  pub access : String
  pub direction : String
  pub priority : ℕ

pub record SecurityGroup : Type 0 where
  pub location : String
  pub security_rules : List SecurityRule

pub record RouteTable : Type 0 where
  pub location : String

pub record Subnet : Type 0 where
  pub id : Option String
  pub name : Option String
  pub address_prefix : Option String
  pub network_security_group : Option SecurityGroup
  pub route_table : Option RouteTable

pub record VirtualNetwork : Type 0 where
  pub location : String
  pub address_prefixes : List String
  pub subnets : List Subnet

pub record FrontendIpConfiguration : Type 0 where
  pub name : String
  pub private_ip_allocation_method : String
  pub public_ip_address : Option PublicIpAddress
  pub subnet : Option Subnet
  pub private_ip_address : Option String

pub record BackendAddressPool : Type 0 where
  pub id : Option String
  pub name : Option String

pub record Probe : Type 0 where
  pub name : String
  pub protocol : String
  pub port : ℕ
  pub request_path : String
  pub interval_in_seconds : ℕ
  pub number_of_probes : ℕ

pub record LoadBalancingRule : Type 0 where
  pub name : String
  pub protocol : String
  pub frontend_port : ℕ
  pub backend_port : ℕ
  pub idle_timeout_in_minutes : ℕ
  pub enable_floating_ip : Bool
  pub load_distribution : String
  pub frontend_ip_configuration : String
  pub backend_address_pool : String
  pub probe : String
  pub enable_tcp_reset : Bool

pub record InboundNatPool : Type 0 where
  pub name : String
  pub frontend_ip_configuration : String
  pub protocol : String
  pub frontend_port_range_start : ℕ
  pub frontend_port_range_end : ℕ
  pub backend_port : ℕ
  pub enable_floating_ip : Bool
  pub idle_timeout_in_minutes : ℕ
  pub enable_tcp_reset : Bool

-- The identifiers of the inbound rules are all that the program reads of them.
pub record LoadBalancerProperties : Type 0 where
  pub frontend_ip_configurations : List FrontendIpConfiguration
  pub backend_address_pools : Option (List BackendAddressPool)
  pub probes : List Probe
  pub load_balancing_rules : List LoadBalancingRule
  pub inbound_nat_pools : Option (List InboundNatPool)
  pub inbound_nat_rules : Option (List (Option String))

pub record LoadBalancer : Type 0 where
  pub sku : String
  pub location : String
  pub properties : Option LoadBalancerProperties

-- An interface has one configuration of an address.
pub record NetworkInterface : Type 0 where
  pub location : String
  pub configuration_name : String
  pub subnet_id : Option String
  pub private_ip_allocation_method : String
  pub private_ip_address : String
  pub load_balancer_backend_address_pools : List (Option String)
  pub load_balancer_inbound_nat_rules : List (Option String)

-- Each request names the resource group first. A deletion or a creation answers the handle of the
-- running operation, and the `…_result` requests ask for the object that such an operation made.
pub data NetworkRequest : Type 0 where
  public_ip_get : String → String → NetworkRequest
  public_ip_create_or_update : String → String → PublicIpAddress → NetworkRequest
  public_ip_result : ℕ → NetworkRequest
  load_balancer_get : String → String → NetworkRequest
  load_balancer_create_or_update : String → String → LoadBalancer → NetworkRequest
  load_balancer_result : ℕ → NetworkRequest
  subnet_get : String → String → String → NetworkRequest
  security_group_create_or_update : String → String → SecurityGroup → NetworkRequest
  security_group_delete : String → String → NetworkRequest
  security_group_result : ℕ → NetworkRequest
  route_table_create_or_update : String → String → RouteTable → NetworkRequest
  route_table_delete : String → String → NetworkRequest
  route_table_result : ℕ → NetworkRequest
  vnet_create_or_update : String → String → VirtualNetwork → NetworkRequest
  vnet_result : ℕ → NetworkRequest
  interface_create_or_update : String → String → NetworkInterface → NetworkRequest
  interface_result : ℕ → NetworkRequest

abbrev pub NetworkReply : NetworkRequest → Type 0
NetworkReply (public_ip_get _ _) = Result PublicIpAddress
NetworkReply (public_ip_create_or_update _ _ _) = Result ℕ
NetworkReply (public_ip_result _) = Result PublicIpAddress
NetworkReply (load_balancer_get _ _) = Result LoadBalancer
NetworkReply (load_balancer_create_or_update _ _ _) = Result ℕ
NetworkReply (load_balancer_result _) = Result LoadBalancer
NetworkReply (subnet_get _ _ _) = Result Subnet
NetworkReply (security_group_create_or_update _ _ _) = Result ℕ
NetworkReply (security_group_delete _ _) = Result ℕ
NetworkReply (security_group_result _) = Result SecurityGroup
NetworkReply (route_table_create_or_update _ _ _) = Result ℕ
NetworkReply (route_table_delete _ _) = Result ℕ
NetworkReply (route_table_result _) = Result RouteTable
NetworkReply (vnet_create_or_update _ _ _) = Result ℕ
NetworkReply (vnet_result _) = Result VirtualNetwork
NetworkReply (interface_create_or_update _ _ _) = Result ℕ
NetworkReply (interface_result _) = Result NetworkInterface

-- The requests that ask for a change.
abbrev pub network_change : NetworkRequest → Bool
network_change (public_ip_create_or_update _ _ _) = true
network_change (load_balancer_create_or_update _ _ _) = true
network_change (security_group_create_or_update _ _ _) = true
network_change (security_group_delete _ _) = true
network_change (route_table_create_or_update _ _ _) = true
network_change (route_table_delete _ _) = true
network_change (vnet_create_or_update _ _ _) = true
network_change (interface_create_or_update _ _ _) = true
network_change _ = false
