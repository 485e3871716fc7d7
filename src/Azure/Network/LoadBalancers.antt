-- ===== src/Azure/Network/LoadBalancers.antt =====
-- azure/loadbalancer.go: the public load balancer and the internal one.
use azk.Base.{String, ◌<>◌, true, false, Option, none, some, List, [], ◌∷◌}
use azk.Api.{Error, CloudConfiguration}
use azk.World.{
  Env, Act, pure, lift, ◌>>=◌, AzureClient, load_balancers_service, LoadBalancer, InboundNatPool,
  FrontendIpConfiguration, LoadBalancingRule, Probe, load_balancer_get,
  load_balancer_create_or_update, load_balancer_result, PublicIpAddress, Subnet, subnet_get,
}
use azk.Azure.Clients.{new_client, usable}
use azk.Azure.Network.Running.{ask_network, completed}
use azk.Azure.Network.Ips.{create_public_ip}
use azk.Azure.Network.VirtualNetworks.{get_subnets_client}

abbrev pub probe_name : String
probe_name = "httpsProbe"

abbrev pub https_probe : Probe
https_probe = record {
  name = probe_name;
  protocol = "Https";
  port = 6443;
  request_path = "/healthz";
  interval_in_seconds = 5;
  number_of_probes = 2;
}

module _ (env : Env) (c : CloudConfiguration) where
  abbrev pub get_lb_client : AzureClient × Option Error
  get_lb_client = new_client env c load_balancers_service

  unfoldable pub get_load_balancer : String → Act LoadBalancer
  get_load_balancer lb_name = do
    lb_client ← usable get_lb_client
    got ← ask_network env lb_client (load_balancer_get c.group_name lb_name)
    lift got

  -- `"/%s/%s/…"` of `idPrefix`, which starts with a slash itself.
  abbrev pub load_balancer_id : String → String
  load_balancer_id lb_name =
      "//subscriptions/" <> c.subscription_id <> "/resourceGroups/" <> c.group_name
      <> "/providers/Microsoft.Network/loadBalancers/" <> lb_name

  abbrev pub https_rule : String → String → String → LoadBalancingRule
  https_rule lb_name front_end back_end = record {
    name = "LBRuleHTTPS";
    protocol = "Tcp";
    frontend_port = 6443;
    backend_port = 6443;
    idle_timeout_in_minutes = 4;
    enable_floating_ip = false;
    load_distribution = "Default";
    frontend_ip_configuration =
        load_balancer_id lb_name <> "/frontendIPConfigurations/" <> front_end;
    backend_address_pool = load_balancer_id lb_name <> "/backendAddressPools/" <> back_end;
    probe = load_balancer_id lb_name <> "/probes/" <> probe_name;
    enable_tcp_reset = true;
  }

  abbrev pub ssh_nat_pool : String → String → InboundNatPool
  ssh_nat_pool lb_name front_end = record {
    name = "natSSHPool";
    frontend_ip_configuration =
        load_balancer_id lb_name <> "/frontendIPConfigurations/" <> front_end;
    protocol = "Tcp";
    frontend_port_range_start = 2200;
    frontend_port_range_end = 2210;
    backend_port = 22;
    enable_floating_ip = false;
    idle_timeout_in_minutes = 4;
    enable_tcp_reset = true;
  }

  -- The parts that the two descriptions share.
  abbrev pub new_load_balancer :
      String → FrontendIpConfiguration → String → Option (List InboundNatPool) → LoadBalancer
  new_load_balancer lb_name front_end back_end nat_pools = record {
    sku = "Standard";
    location = c.group_location;
    properties = some (record {
      frontend_ip_configurations = front_end ∷ [];
      backend_address_pools = some (record { id = none; name = some back_end } ∷ []);
      probes = https_probe ∷ [];
      load_balancing_rules = https_rule lb_name front_end.name back_end ∷ [];
      inbound_nat_pools = nat_pools;
      inbound_nat_rules = none;
    });
  }

  abbrev pub public_front_end : PublicIpAddress → FrontendIpConfiguration
  public_front_end pip = record {
    name = "master-lbFrontEnd";
    private_ip_allocation_method = "Dynamic";
    public_ip_address = some pip;
    subnet = none;
    private_ip_address = none;
  }

  abbrev pub internal_front_end : Subnet → FrontendIpConfiguration
  internal_front_end subnet = record {
    name = "master-internal-lbFrontEnd";
    private_ip_allocation_method = "Static";
    public_ip_address = none;
    subnet = some subnet;
    private_ip_address = some "10.0.0.100";
  }

  -- The calls that end both creations.
  unfoldable pub put_load_balancer : String → LoadBalancer → Act (Unit {0})
  unfolding completed
  put_load_balancer lb_name balancer = do
    lb_client ← usable get_lb_client
    started ←
        ask_network env lb_client (load_balancer_create_or_update c.group_name lb_name balancer)
    completed env lb_client "cannot create load balancer"
        "cannot get load balancer create or update future response" started
        λ future. do
          got ← ask_network env lb_client (load_balancer_result future)
          _ ← lift got
          pure tt

  unfoldable pub create_load_balancer : String → String → Act (Unit {0})
  create_load_balancer lb_name pip_name = do
    pip ← create_public_ip env c pip_name
    put_load_balancer lb_name (
        new_load_balancer lb_name (public_front_end pip) "master-backEndPool"
          (some (ssh_nat_pool lb_name "master-lbFrontEnd" ∷ [])))

  unfoldable pub create_internal_load_balancer : String → String → String → Act (Unit {0})
  create_internal_load_balancer vnet_name subnet_name lb_name = do
    subnet_client ← usable (get_subnets_client env c)
    got ← ask_network env subnet_client (subnet_get c.group_name vnet_name subnet_name)
    subnet ← lift got
    put_load_balancer lb_name
        (new_load_balancer lb_name (internal_front_end subnet) "master-internal-backEndPool" none)
