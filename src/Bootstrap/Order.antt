-- ===== src/Bootstrap/Order.antt =====
-- The order in which `CreateBaseInfrastructure` (bootstrap/infrastructure.go) creates its resources.
use azk.Base.{String, Option, some, List, [], ◌∷◌}
use azk.Api.{CloudConfiguration, Spec}
use azk.World.{Env, SecurityRule, LoadBalancer, Log}
use azk.Azure.{
  create_or_update_resource_group, create_security_group, create_route_tables,
  create_virtual_network_and_subnets, put_load_balancer, create_internal_load_balancer,
  create_public_ip, create_load_balancer, get_public_ip,
}
use azk.Changes.Plan.{
  Resource, resource_group, security_group, route_table, virtual_network, load_balancer, public_ip,
  Follows, Follows-bind, Follows-completed, Outcome, created, plan_rules, Follows-after_one,
}
use azk.Bootstrap.Names.{
  azk_load_balancer_name, azk_internal_load_balancer_name, base_public_ip_name, public_dns_name_of,
}
use azk.Bootstrap.BaseInfrastructure.{create_base_infrastructure}

module _ (env : Env) (c : CloudConfiguration) where
  Follows-group : Follows (resource_group c.group_name ∷ []) (create_or_update_resource_group env c)
  unfolding create_or_update_resource_group
  Follows-group = search plan_rules

  Follows-security_group :
      (nsg_name : String) (rules : List SecurityRule)
      → Follows (security_group nsg_name ∷ []) (create_security_group env c nsg_name rules)
  unfolding create_security_group
  Follows-security_group nsg_name rules = search (plan_rules, Follows-completed)

  Follows-route_tables :
      (name : String) → Follows (route_table name ∷ []) (create_route_tables env c name)
  unfolding create_route_tables
  Follows-route_tables name = search (plan_rules, Follows-completed)

  abbrev network_plan : String → List Resource
  network_plan vnet_name =
      security_group "azk-nsg"
      ∷ security_group "azk-master-nsg"
      ∷ route_table "azk-routetable"
      ∷ virtual_network vnet_name
      ∷ []

  Follows-virtual_network :
      (vnet_name : String)
      → Follows (network_plan vnet_name) (create_virtual_network_and_subnets env c vnet_name)
  unfolding create_virtual_network_and_subnets
  Follows-virtual_network vnet_name =
      search (plan_rules, Follows-completed, Follows-security_group, Follows-route_tables) depth 20

  Follows-put_load_balancer :
      (lb_name : String) (balancer : LoadBalancer)
      → Follows (load_balancer lb_name ∷ []) (put_load_balancer env c lb_name balancer)
  unfolding put_load_balancer
  Follows-put_load_balancer lb_name balancer = search (plan_rules, Follows-completed) depth 12

  abbrev asked_host : String → Option String
  asked_host ip_name = some (public_dns_name_of ip_name c.group_location)

  Follows-public_ip :
      (ip_name : String)
      → Follows (public_ip ip_name (asked_host ip_name) ∷ []) (create_public_ip env c ip_name)
  unfolding create_public_ip
  Follows-public_ip ip_name = search (plan_rules, Follows-completed)

  Follows-load_balancer :
      (lb_name pip_name : String)
      → Follows
          (public_ip pip_name (asked_host pip_name) ∷ load_balancer lb_name ∷ [])
          (create_load_balancer env c lb_name pip_name)
  unfolding create_load_balancer
  Follows-load_balancer lb_name pip_name =
      search (plan_rules, Follows-public_ip, Follows-put_load_balancer)

  Follows-internal_load_balancer :
      (vnet_name subnet_name lb_name : String)
      → Follows
          (load_balancer lb_name ∷ [])
          (create_internal_load_balancer env c vnet_name subnet_name lb_name)
  unfolding create_internal_load_balancer
  Follows-internal_load_balancer vnet_name subnet_name lb_name =
      search (plan_rules, Follows-put_load_balancer)

  Follows-get_public_ip : (ip_name : String) → Follows [] (get_public_ip env c ip_name)
  unfolding get_public_ip
  Follows-get_public_ip ip_name = search plan_rules

-- The resources that the base infrastructure of a spec is made of, in the order of their creation, with
-- this full name for the public address.
abbrev pub base_plan_for : String → Spec → List Resource
base_plan_for host_name spec =
    resource_group spec.cloud.group_name
    ∷ security_group "azk-nsg"
    ∷ security_group "azk-master-nsg"
    ∷ route_table "azk-routetable"
    ∷ virtual_network "azk-vnet"
    ∷ load_balancer azk_internal_load_balancer_name
    ∷ public_ip (base_public_ip_name spec.dns_prefix spec.cluster_name) (some host_name)
    ∷ load_balancer azk_load_balancer_name
    ∷ []

-- The full name of the public address is made of its own name and the location.
abbrev pub base_host_name : Spec → String
base_host_name spec =
    public_dns_name_of (base_public_ip_name spec.dns_prefix spec.cluster_name)
      spec.cloud.group_location

abbrev pub base_plan : Spec → List Resource
base_plan spec = base_plan_for (base_host_name spec) spec

module _ (env : Env) (spec : Spec) where
  Follows-base : Follows (base_plan spec) (create_base_infrastructure env spec)
  unfolding create_base_infrastructure
  Follows-base =
      Follows-after_one _ _
        (λ _.
          Follows-bind (network_plan env spec.cloud "azk-vnet") _ _
            (λ _.
              Follows-after_one _ _
                (λ _.
                  Follows-bind
                    (public_ip (base_public_ip_name spec.dns_prefix spec.cluster_name)
                        (some (base_host_name spec))
                      ∷ load_balancer azk_load_balancer_name
                      ∷ [])
                    _ _ (λ _. search (plan_rules, Follows-get_public_ip)) _
                    (Follows-load_balancer env spec.cloud _ _))
                _ _ (Follows-internal_load_balancer env spec.cloud _ _ _))
            _ (Follows-virtual_network env spec.cloud _))
        _ _ (Follows-group env spec.cloud)

  -- The base infrastructure asks for exactly the resources of its plan, each once and in the plan's
  -- order: for all of them when it returns, and otherwise for those of a first part of the plan.
  pub create_base_infrastructure-Outcome :
      (log : Log) → Outcome (base_plan spec) (created log) (create_base_infrastructure env spec log)
  create_base_infrastructure-Outcome log = Follows-base.at log
