-- ===== src/Bootstrap/Infrastructure.antt =====
-- `CreateInfrastructure` (bootstrap/infrastructure.go): the first machine of the control plane.
use azk.Base.{String, List, [], ◌∷◌, ◌<>◌, pos, if◌then◌else◌}
use azk.Api.{Spec}
use azk.World.{Env, Act, fail, on_error}
use azk.Std.{base64}
use azk.Azure.{resource_not_found, get_vmss, create_vmss, get_custom_data}
use azk.Bootstrap.Scripts.{get_bootstrap_startup_script}
use azk.World.{◌>>=◌}

abbrev pub bootstrap_vmss_name : String
bootstrap_vmss_name = "azk-master-vmss"

abbrev pub bootstrap_files : Spec → List (String × String)
bootstrap_files spec =
    ("/etc/kubernetes/pki/ca.crt", spec.ca_certificate)
    ∷ ("/etc/kubernetes/pki/ca.key", spec.ca_certificate_key)
    ∷ ("/etc/kubernetes/pki/sa.key", spec.service_account_key)
    ∷ ("/etc/kubernetes/pki/sa.pub", spec.service_account_pub)
    ∷ ("/etc/kubernetes/pki/front-proxy-ca.crt", spec.front_proxy_ca_certificate)
    ∷ ("/etc/kubernetes/pki/front-proxy-ca.key", spec.front_proxy_ca_certificate_key)
    ∷ ("/etc/kubernetes/pki/etcd/ca.crt", spec.etcd_ca_certificate)
    ∷ ("/etc/kubernetes/pki/etcd/ca.key", spec.etcd_ca_certificate_key)
    ∷ ("/etc/kubernetes/azure.json", spec.azure_cloud_provider_config)
    ∷ []

abbrev pub network_prefix : Spec → String
network_prefix spec =
    "/subscriptions/" <> spec.cloud.subscription_id <> "/resourceGroups/" <> spec.cloud.group_name
    <> "/providers"

module _ (env : Env) (spec : Spec) where
  -- The scale set may be there or not. The size that is computed for an empty one is not used.
  unfoldable pub create_bootstrap_vmss : Act (Unit {0})
  create_bootstrap_vmss = do
    let startup_script =
        get_bootstrap_startup_script spec.bootstrap_kubernetes_version spec.public_dns_name
          spec.internal_dns_name
    text ←
        get_custom_data env (bootstrap_files spec)
          (("/etc/kubernetes/init-azure-bootstrap.sh", startup_script) ∷ [])
    let prefix = network_prefix spec
    create_vmss env spec.cloud bootstrap_vmss_name
        (prefix <> "/Microsoft.Network/virtualNetworks/azk-vnet/subnets/master-subnet")
        ((prefix
            <> "/Microsoft.Network/loadBalancers/azk-lb/backendAddressPools/master-backEndPool")
          ∷ (prefix
              <> "/Microsoft.Network/loadBalancers/azk-internal-lb/backendAddressPools/master-internal-backEndPool")
          ∷ [])
        ((prefix <> "/Microsoft.Network/loadBalancers/azk-lb/inboundNatPools/natSSHPool") ∷ [])
        (base64 text) spec.bootstrap_vm_sku_type (pos 1)

  unfoldable pub create_infrastructure : Act (Unit {0})
  unfolding create_bootstrap_vmss
  create_infrastructure =
      on_error (get_vmss env spec.cloud bootstrap_vmss_name)
        (λ e. if resource_not_found e then create_bootstrap_vmss else fail e)
        (λ found. create_bootstrap_vmss)
