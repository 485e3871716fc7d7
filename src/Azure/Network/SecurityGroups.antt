-- ===== src/Azure/Network/SecurityGroups.antt =====
-- azure/securitygroups.go and azure/routetables.go: the security groups and the route table.
use azk.Base.{ℕ, String, Option, List, [], ◌∷◌}
use azk.Api.{Error, CloudConfiguration}
use azk.World.{
  Env, Act, pure, lift, ◌>>=◌, AzureClient, security_groups_service, route_tables_service,
  SecurityRule, SecurityGroup, RouteTable, security_group_create_or_update, security_group_delete,
  security_group_result, route_table_create_or_update, route_table_delete, route_table_result,
}
use azk.Azure.Clients.{new_client, usable}
use azk.Azure.Network.Running.{ask_network, completed}

-- A rule that lets TCP from anywhere in to a port.
abbrev pub inbound_rule : String → String → ℕ → SecurityRule
inbound_rule name port priority = record {
  name = name;
  protocol = "Tcp";
  source_address_prefix = "*";
  source_port_range = "*";
  destination_address_prefix = "*";
  destination_port_range = port;
  access = "Allow";
  direction = "Inbound";
  priority = priority;
}

abbrev pub master_rules : List SecurityRule
master_rules = inbound_rule "allow_ssh" "22" 100 ∷ inbound_rule "allow_6443" "6443" 101 ∷ []

module _ (env : Env) (c : CloudConfiguration) where
  abbrev pub get_nsg_client : AzureClient × Option Error
  get_nsg_client = new_client env c security_groups_service

  -- The part that the two creations share; they differ in the rules.
  unfoldable pub create_security_group : String → List SecurityRule → Act SecurityGroup
  unfolding completed
  create_security_group nsg_name rules = do
    nsg_client ← usable get_nsg_client
    started ← ask_network env nsg_client (
        security_group_create_or_update c.group_name nsg_name
          (record { location = c.group_location; security_rules = rules }))
    completed env nsg_client "cannot create nsg" "cannot get nsg create or update future response"
        started
        λ future. do got ← ask_network env nsg_client (security_group_result future); lift got

  abbrev pub create_network_security_group : String → Act SecurityGroup
  create_network_security_group nsg_name = create_security_group nsg_name master_rules

  abbrev pub create_default_network_security_group : String → Act SecurityGroup
  create_default_network_security_group nsg_name = create_security_group nsg_name []

  unfoldable pub delete_network_security_group : String → Act (Unit {0})
  unfolding completed
  delete_network_security_group nsg_name = do
    nsg_client ← usable get_nsg_client
    started ← ask_network env nsg_client (security_group_delete c.group_name nsg_name)
    completed env nsg_client "cannot create nsg" "cannot get nsg create or update future response"
        started
        λ future. do
          got ← ask_network env nsg_client (security_group_result future)
          _ ← lift got
          pure tt

  abbrev pub get_route_tables_client : AzureClient × Option Error
  get_route_tables_client = new_client env c route_tables_service

  unfoldable pub create_route_tables : String → Act RouteTable
  unfolding completed
  create_route_tables route_table_name = do
    route_tables_client ← usable get_route_tables_client
    started ← ask_network env route_tables_client (
        route_table_create_or_update c.group_name route_table_name
          (record { location = c.group_location }))
    completed env route_tables_client "cannot create routetable"
        "cannot get route table create or update future response" started
        λ future. do got ← ask_network env route_tables_client (route_table_result future); lift got

  unfoldable pub delete_route_tables : String → Act (Unit {0})
  unfolding completed
  delete_route_tables route_table_name = do
    route_tables_client ← usable get_route_tables_client
    started ← ask_network env route_tables_client (route_table_delete c.group_name route_table_name)
    completed env route_tables_client "cannot create route table"
        "cannot get route table create or update future response" started
        λ future. do
          got ← ask_network env route_tables_client (route_table_result future)
          _ ← lift got
          pure tt
