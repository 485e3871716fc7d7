-- ===== src/Azure/Network/VirtualNetworks.antt =====
-- azure/vnet.go and azure/subnet.go: the virtual network with its two subnets.
use azk.Base.{String, Option, none, some, [], ◌∷◌}
use azk.Api.{Error, CloudConfiguration}
use azk.World.{
  Env, Act, pure, lift, ◌>>=◌, AzureClient, vnets_service, peerings_service, subnets_service,
  SecurityGroup, RouteTable, Subnet, VirtualNetwork, vnet_create_or_update, vnet_result, subnet_get,
}
use azk.Azure.Clients.{new_client, usable}
use azk.Azure.Network.Running.{ask_network, completed}
use azk.Azure.Network.SecurityGroups.{
  create_network_security_group, create_default_network_security_group, create_route_tables,
}

module _ (env : Env) (c : CloudConfiguration) where
  abbrev pub get_vnet_peerings_client : AzureClient × Option Error
  get_vnet_peerings_client = new_client env c peerings_service

  abbrev pub get_vnet_client : AzureClient × Option Error
  get_vnet_client = new_client env c vnets_service

  abbrev pub get_subnets_client : AzureClient × Option Error
  get_subnets_client = new_client env c subnets_service

  unfoldable pub get_subnet : String → String → Act Subnet
  get_subnet vnet_name subnet_name = do
    subnets_client ← usable get_subnets_client
    got ← ask_network env subnets_client (subnet_get c.group_name vnet_name subnet_name)
    lift got

  -- The network that `CreateVirtualNetworkAndSubnets` describes.
  abbrev pub new_virtual_network : SecurityGroup → SecurityGroup → RouteTable → VirtualNetwork
  new_virtual_network master_group agent_group route_table = record {
    location = c.group_location;
    address_prefixes = "10.0.0.0/8" ∷ [];
    subnets =
        record {
          id = none;
          name = some "master-subnet";
          address_prefix = some "10.0.0.0/16";
          network_security_group = some master_group;
          route_table = none;
        }
        ∷ record {
          id = none;
          name = some "agent-subnet";
          address_prefix = some "10.1.0.0/16";
          network_security_group = some agent_group;
          route_table = some route_table;
        }
        ∷ [];
  }

  unfoldable pub create_virtual_network_and_subnets : String → Act (Unit {0})
  unfolding completed
  create_virtual_network_and_subnets vnet_name = do
    vnet_client ← usable get_vnet_client
    group ← create_default_network_security_group env c "azk-nsg"
    master_group ← create_network_security_group env c "azk-master-nsg"
    route_table ← create_route_tables env c "azk-routetable"
    started ← ask_network env vnet_client (
        vnet_create_or_update c.group_name vnet_name
          (new_virtual_network master_group group route_table))
    completed env vnet_client "cannot create virtual network"
        "cannot get the vnet create or update future response" started
        λ future. do got ← ask_network env vnet_client (vnet_result future); _ ← lift got; pure tt
