-- ===== src/Cmd/ControlPlanes.antt =====
-- cmd/controlplane/controlplane.go: the commands that create and upgrade the control plane.
use azk.Base.{String, ◌<>◌, ◌==◌, Bool, ◌&&◌, [], if◌then◌else◌}
use azk.Api.{Result, ObjectMeta, NamespacedName, ControlPlane}
use azk.World.{
  Env, Act, fail, lift, ask, on_error, ◌>>=◌, KubeClient, KubeRequest, kube, print, get_cluster,
  get_control_plane, update_control_plane,
}
use azk.Helpers.{get_kubernetes_version}
use azk.Bootstrap.{cluster_name_of}
use azk.Cmd.Polling.{kube_client, poll_until}
use azk.Cmd.NodePools.{named, report_done}

pub record CreateControlPlaneOptions : Type 0 where
  pub subscription_id : String
  pub resource_group : String
  pub master_kubernetes_version : String

pub record UpgradeControlPlaneOptions : Type 0 where
  pub subscription_id : String
  pub resource_group : String
  pub master_kubernetes_version : String

abbrev pub new_control_plane : ObjectMeta → String → String → ControlPlane
new_control_plane meta kubernetes_version vm_sku_type = record {
  meta = meta;
  spec = record { kubernetes_version = kubernetes_version; vm_sku_type = vm_sku_type };
  status = record { kubernetes_version = ""; provisioning_state = ""; node_status = [] };
}

-- `&ControlPlane{}`
abbrev pub empty_control_plane : ControlPlane
empty_control_plane = new_control_plane (named "" "") "" ""

abbrev pub is_plane_provisioned : ControlPlane → Bool
is_plane_provisioned plane = plane.status.provisioning_state == "Succeeded"

abbrev pub is_plane_upgraded : String → ControlPlane → Bool
is_plane_upgraded version plane =
    is_plane_provisioned plane && plane.status.kubernetes_version == version

module _ (env : Env) where
  abbrev pub fetch_control_plane : KubeClient → NamespacedName → Act (Result ControlPlane)
  fetch_control_plane client name = ask env (kube client (get_control_plane name))

  -- As for a node pool, the `err` that is returned after a timeout is nil.
  unfoldable pub report_plane_created : String → ControlPlane → Act (Unit {0})
  report_plane_created version plane =
      if is_plane_provisioned plane
      then ask env
          (print ("✓ Successfully Created ControlPlane with Kubernetes Version " <> version))
      else ask env (print "✗ Failed to Create Control Plane timedout")

  unfoldable pub create_control_plane : CreateControlPlaneOptions → Act (Unit {0})
  unfolding report_plane_created
  create_control_plane o = do
    version ← get_kubernetes_version env o.master_kubernetes_version
    client ← kube_client env
    let cluster_name = cluster_name_of o.subscription_id o.resource_group
    let key : NamespacedName = record { namespace = cluster_name; name = cluster_name }
    _ ← (ask env (kube client (get_cluster key)) >>= lift)
    let plane = new_control_plane (named cluster_name cluster_name) version ""
    on_error (ask env (kube client (KubeRequest.create_control_plane plane)) >>= lift)
        (λ e. do
          _ ← ask env (print ("✗ Failed to Create ControlPlane " <> env.error_text e))
          fail e)
        λ _. do
          looked ←
              poll_until env (fetch_control_plane client key) is_plane_provisioned 30
                empty_control_plane
          report_plane_created version looked.1

  unfoldable pub upgrade_control_plane : UpgradeControlPlaneOptions → Act (Unit {0})
  upgrade_control_plane o = do
    client ← kube_client env
    let cluster_name = cluster_name_of o.subscription_id o.resource_group
    let key : NamespacedName = record { namespace = cluster_name; name = cluster_name }
    plane ← (fetch_control_plane client key >>= lift)
    let upgraded : ControlPlane = record plane {
      spec = record plane.spec { kubernetes_version = o.master_kubernetes_version };
    }
    _ ← (ask env (kube client (update_control_plane upgraded)) >>= lift)
    looked ←
        poll_until env (fetch_control_plane client key)
          (is_plane_upgraded o.master_kubernetes_version) 30 empty_control_plane
    report_done env ("✓ Successfully Upgraded Control Plane " <> cluster_name)
        ("✗ Failed to Upgrade Control Plane " <> cluster_name <> ", timedout") looked.0
