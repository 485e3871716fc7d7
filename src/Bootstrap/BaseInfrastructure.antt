-- ===== src/Bootstrap/BaseInfrastructure.antt =====
-- `CreateBaseInfrastructure` (bootstrap/infrastructure.go) and `Bootstrap` (bootstrap/bootstrap.go).
-- The spec that they set the public address in is the value they return.
use azk.Api.{Spec}
use azk.World.{Env, Act, pure, deref, ◌>>=◌}
use azk.Azure.{
  create_or_update_resource_group, create_virtual_network_and_subnets,
  create_internal_load_balancer, create_load_balancer, get_public_ip,
}
use azk.Bootstrap.Names.{
  azk_load_balancer_name, azk_internal_load_balancer_name, base_public_ip_name,
}
use azk.Bootstrap.Infrastructure.{create_infrastructure}

module _ (env : Env) where
  unfoldable pub create_base_infrastructure : Spec → Act Spec
  create_base_infrastructure spec = do
    _ ← create_or_update_resource_group env spec.cloud
    _ ← create_virtual_network_and_subnets env spec.cloud "azk-vnet"
    _ ←
        create_internal_load_balancer env spec.cloud "azk-vnet" "master-subnet"
          azk_internal_load_balancer_name
    let public_ip_name = base_public_ip_name spec.dns_prefix spec.cluster_name
    _ ← create_load_balancer env spec.cloud azk_load_balancer_name public_ip_name
    pip ← get_public_ip env spec.cloud public_ip_name
    properties ← deref pip.properties
    address ← deref properties.ip_address
    pure (record spec { public_ip_address = address })

  unfoldable pub bootstrap : Spec → Act Spec
  unfolding create_base_infrastructure
  bootstrap spec = do
    established ← create_base_infrastructure spec
    _ ← create_infrastructure env established
    pure established
