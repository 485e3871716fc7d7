-- ===== src/Cmd/Flags.antt =====
-- The flags of the commands (`init` of cmd/cluster, cmd/controlplane and cmd/nodepool), and the
-- options that they are bound to. The texts of the help are left out.
use azk.Base.{String, ℤ, pos, Bool, false, List, [], ◌∷◌}
use azk.Cmd.Clusters.{CreateOptions, DeleteOptions}
use azk.Cmd.ControlPlanes.{CreateControlPlaneOptions, UpgradeControlPlaneOptions}
use azk.Cmd.NodePools.{
  CreateNodePoolOptions, DeleteNodePoolOptions, ScaleNodePoolOptions, UpgradeNodePoolOptions,
}

-- `Flags().StringVarP(p, name, shorthand, value, ..)`, the like for an int32 and for a Boolean, and
-- `MarkFlagRequired(name)`.
pub data Registration : Type 0 where
  text_flag : String → String → String → Registration
  int32_flag : String → String → ℤ → Registration
  bool_flag : String → String → Bool → Registration
  required : String → Registration

-- What the library left in the variable of each flag, by the name of the flag.
pub record Values : Type 0 where
  pub text : String → String
  pub number : String → ℤ
  pub switch : String → Bool

abbrev needed : String → String → List Registration → List Registration
needed name shorthand rest = text_flag name shorthand "" ∷ required name ∷ rest

-- The two flags that every command but the addons starts with.
abbrev located : List Registration → List Registration
located rest = needed "subscriptionid" "s" (needed "resourcegroup" "r" rest)

unfoldable pub create_cluster_flags : List Registration
create_cluster_flags = needed "subscriptionid" "s" (
    needed "clientid" "i" (
      needed "clientsecret" "e" (
        needed "tenantid" "t" (
          needed "resourcegroup" "r" (
            needed "location" "l" (
              text_flag "dnsprefix" "d" "dnsprefix"
              ∷ text_flag "kubernetesversion" "k" "stable"
              ∷ text_flag "nodepoolname" "n" "nodepool1"
              ∷ int32_flag "nodepoolcount" "c" (pos 1)
              ∷ bool_flag "isdev" "m" false
              ∷ text_flag "vmskutype" "u" "Standard_DS2_v2"
              ∷ text_flag "kubeconfigout" "o" "kubeconfig"
              ∷ []))))))

abbrev pub create_cluster_options : Values → CreateOptions
create_cluster_options v = record {
  subscription_id = v.text "subscriptionid";
  client_id = v.text "clientid";
  client_secret = v.text "clientsecret";
  tenant_id = v.text "tenantid";
  resource_group = v.text "resourcegroup";
  resource_location = v.text "location";
  dns_prefix = v.text "dnsprefix";
  kubernetes_version = v.text "kubernetesversion";
  node_pool_name = v.text "nodepoolname";
  node_pool_count = v.number "nodepoolcount";
  kubeconfig_output = v.text "kubeconfigout";
  vm_sku_type = v.text "vmskutype";
  is_development = v.switch "isdev";
}

unfoldable pub delete_cluster_flags : List Registration
delete_cluster_flags = located []

abbrev pub delete_cluster_options : Values → DeleteOptions
delete_cluster_options v = record {
  subscription_id = v.text "subscriptionid";
  resource_group = v.text "resourcegroup";
}

unfoldable pub create_control_plane_flags : List Registration
create_control_plane_flags = located (text_flag "kubernetesversion" "k" "stable" ∷ [])

abbrev pub create_control_plane_options : Values → CreateControlPlaneOptions
create_control_plane_options v = record {
  subscription_id = v.text "subscriptionid";
  resource_group = v.text "resourcegroup";
  master_kubernetes_version = v.text "kubernetesversion";
}

unfoldable pub upgrade_control_plane_flags : List Registration
upgrade_control_plane_flags = located (text_flag "kubernetesversion" "k" "stable" ∷ [])

abbrev pub upgrade_control_plane_options : Values → UpgradeControlPlaneOptions
upgrade_control_plane_options v = record {
  subscription_id = v.text "subscriptionid";
  resource_group = v.text "resourcegroup";
  master_kubernetes_version = v.text "kubernetesversion";
}

unfoldable pub create_node_pool_flags : List Registration
create_node_pool_flags = located (
    needed "name" "n"
      (int32_flag "count" "c" (pos 1) ∷ text_flag "kubernetesversion" "k" "stable" ∷ []))

abbrev pub create_node_pool_options : Values → CreateNodePoolOptions
create_node_pool_options v = record {
  subscription_id = v.text "subscriptionid";
  name = v.text "name";
  resource_group = v.text "resourcegroup";
  count = v.number "count";
  agent_kubernetes_version = v.text "kubernetesversion";
}

unfoldable pub delete_node_pool_flags : List Registration
delete_node_pool_flags = located (needed "name" "n" [])

abbrev pub delete_node_pool_options : Values → DeleteNodePoolOptions
delete_node_pool_options v = record {
  subscription_id = v.text "subscriptionid";
  resource_group = v.text "resourcegroup";
  name = v.text "name";
}

unfoldable pub scale_node_pool_flags : List Registration
scale_node_pool_flags =
    located (needed "name" "n" (int32_flag "count" "c" (pos 1) ∷ required "count" ∷ []))

abbrev pub scale_node_pool_options : Values → ScaleNodePoolOptions
scale_node_pool_options v = record {
  subscription_id = v.text "subscriptionid";
  resource_group = v.text "resourcegroup";
  name = v.text "name";
  count = v.number "count";
}

unfoldable pub upgrade_node_pool_flags : List Registration
upgrade_node_pool_flags = located (
    needed "name" "n"
      (text_flag "kubernetesversion" "k" "stable" ∷ required "kubernetesversion" ∷ []))

abbrev pub upgrade_node_pool_options : Values → UpgradeNodePoolOptions
upgrade_node_pool_options v = record {
  subscription_id = v.text "subscriptionid";
  resource_group = v.text "resourcegroup";
  name = v.text "name";
  agent_kubernetes_version = v.text "kubernetesversion";
}
