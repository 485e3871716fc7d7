-- ===== src/Api/ClusterSpec.antt =====
-- `azhelpers.CloudConfiguration` (azure/helpers.go) and `bootstrap.Spec` (bootstrap/spec.go).
use azk.Base.{String, Bool, List, not, ◌==◌, ◌&&◌}

pub record CloudConfiguration : Type 0 where
  pub cloud_name : String
  pub subscription_id : String
  pub client_id : String
  pub client_secret : String
  pub tenant_id : String
  pub group_name : String
  pub group_location : String
  pub user_agent : String

-- `CloudConfiguration.IsValid`: an account and its credentials are there; the group is not asked.
unfoldable pub is_valid : CloudConfiguration → Bool
is_valid c =
    not (c.cloud_name == "")
    && not (c.subscription_id == "")
    && not (c.client_id == "")
    && not (c.client_secret == "")
    && not (c.tenant_id == "")

pub record Spec : Type 0 where
  pub cloud : CloudConfiguration
  pub dns_prefix : String
  pub cluster_name : String
  pub ca_certificate : String
  pub ca_certificate_key : String
  pub service_account_key : String
  pub service_account_pub : String
  pub front_proxy_ca_certificate : String
  pub front_proxy_ca_certificate_key : String
  pub etcd_ca_certificate : String
  pub etcd_ca_certificate_key : String
  pub admin_kubeconfig : String
  pub customer_kubeconfig : String
  pub discovery_hashes : List String
  pub public_dns_name : String
  pub public_ip_address : String
  pub internal_dns_name : String
  pub azure_cloud_provider_config : String
  pub bootstrap_vm_sku_type : String
  pub bootstrap_kubernetes_version : String
