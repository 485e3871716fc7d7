-- ===== src/Azure/Network/Interfaces.antt =====
-- azure/nic.go: a network interface, behind the load balancers or not.
use azk.Base.{String, Option, List, [], ◌∷◌, ℤ, pos, negsuc}
use azk.Api.{Error, CloudConfiguration}
use azk.World.{
  Env, Act, panic, pure, lift, deref, index, ◌>>=◌, AzureClient, interfaces_service,
  NetworkInterface, LoadBalancer, interface_create_or_update, interface_result,
}
use azk.Azure.Clients.{new_client, usable}
use azk.Azure.Network.Running.{ask_network, completed}
use azk.Azure.Network.LoadBalancers.{get_load_balancer}
use azk.Azure.Network.VirtualNetworks.{get_subnet}

-- `(*lb.BackendAddressPools)[0].ID`
unfoldable pub first_pool : LoadBalancer → Act (Option String)
first_pool balancer = do
  properties ← deref balancer.properties
  pools ← deref properties.backend_address_pools
  pool ← index pools 0
  pure pool.id

-- `s[i]` for an `int`.
abbrev at_int : {A : Type 0} → List A → ℤ → Act A
at_int xs (pos i) = index xs i
at_int xs (negsuc i) = panic

-- `(*lb.InboundNatRules)[natRule].ID`
unfoldable pub nat_rule_id : LoadBalancer → ℤ → Act (Option String)
nat_rule_id balancer nat_rule = do
  properties ← deref balancer.properties
  rules ← deref properties.inbound_nat_rules
  at_int rules nat_rule

module _ (env : Env) (c : CloudConfiguration) where
  abbrev pub get_nic_client : AzureClient × Option Error
  get_nic_client = new_client env c interfaces_service

  abbrev pub new_interface :
      Option String → String → List (Option String) → List (Option String) → NetworkInterface
  new_interface subnet_id static_ip_address pools rules = record {
    location = c.group_location;
    configuration_name = "pipConfig";
    subnet_id = subnet_id;
    private_ip_allocation_method = "Static";
    private_ip_address = static_ip_address;
    load_balancer_backend_address_pools = pools;
    load_balancer_inbound_nat_rules = rules;
  }

  -- The calls that end both creations.
  unfoldable pub put_interface : AzureClient → String → NetworkInterface → Act NetworkInterface
  unfolding completed
  put_interface nic_client nic_name nic = do
    started ← ask_network env nic_client (interface_create_or_update c.group_name nic_name nic)
    completed env nic_client "cannot create nic" "cannot get nic create or update future response"
        started λ future. do got ← ask_network env nic_client (interface_result future); lift got

  unfoldable pub create_nic_with_load_balancer :
      String → String → String → String → String → String → ℤ → Act NetworkInterface
  create_nic_with_load_balancer lb_name internal_lb_name vnet_name subnet_name static_ip_address
        nic_name nat_rule =
      do
        subnet ← get_subnet env c vnet_name subnet_name
        balancer ← get_load_balancer env c lb_name
        internal_balancer ← get_load_balancer env c internal_lb_name
        nic_client ← usable get_nic_client
        pool ← first_pool balancer
        internal_pool ← first_pool internal_balancer
        rule ← nat_rule_id balancer nat_rule
        put_interface nic_client nic_name
            (new_interface subnet.id static_ip_address (pool ∷ internal_pool ∷ []) (rule ∷ []))

  unfoldable pub create_nic : String → String → String → String → Act NetworkInterface
  create_nic vnet_name subnet_name static_ip_address nic_name = do
    subnet ← get_subnet env c vnet_name subnet_name
    nic_client ← usable get_nic_client
    put_interface nic_client nic_name (new_interface subnet.id static_ip_address [] [])
