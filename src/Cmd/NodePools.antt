-- ===== src/Cmd/NodePools.antt =====
-- cmd/nodepool/nodepool.go: the commands that create, delete, scale and upgrade a node pool.
use azk.Base.{String, ◌<>◌, ◌==◌, Bool, ◌&&◌, Option, none, some, [], ℤ, pos, int_eq, if◌then◌else◌}
use azk.Api.{Result, ObjectMeta, NamespacedName, NodeSetStatus, NodePool}
use azk.World.{
  Env, Act, fail, lift, ask, on_error, ◌>>=◌, KubeClient, KubeRequest, kube, print, get_node_pool,
  update_node_pool,
}
use azk.Helpers.{get_kubernetes_version}
use azk.Bootstrap.{cluster_name_of}
use azk.Cmd.Polling.{kube_client, poll_until}

pub record CreateNodePoolOptions : Type 0 where
  pub subscription_id : String
  pub name : String
  pub resource_group : String
  pub count : ℤ
  pub agent_kubernetes_version : String

pub record DeleteNodePoolOptions : Type 0 where
  pub subscription_id : String
  pub resource_group : String
  pub name : String

pub record ScaleNodePoolOptions : Type 0 where
  pub subscription_id : String
  pub resource_group : String
  pub name : String
  pub count : ℤ

pub record UpgradeNodePoolOptions : Type 0 where
  pub subscription_id : String
  pub resource_group : String
  pub name : String
  pub agent_kubernetes_version : String

-- The metadata that a command writes: a name and a namespace.
abbrev pub named : String → String → ObjectMeta
named name namespace = record {
  name = name;
  namespace = namespace;
  finalizers = [];
  deletion_timestamp = none;
  owner_references = [];
}

-- The status of a new object: every field has Go's zero value.
abbrev pub empty_node_set_status : NodeSetStatus
empty_node_set_status = record {
  replicas = pos 0;
  kubernetes_version = "";
  provisioning_state = "";
  kubeconfig = "";
  node_status = [];
}

abbrev pub new_node_pool : ObjectMeta → String → Option ℤ → String → NodePool
new_node_pool meta kubernetes_version replicas vm_sku_type = record {
  meta = meta;
  spec = record {
    kubernetes_version = kubernetes_version;
    replicas = replicas;
    vm_sku_type = vm_sku_type;
  };
  status = record {
    node_set_name = "";
    vm_replicas = pos 0;
    node_set_status = empty_node_set_status;
  };
}

-- `&NodePool{}`
abbrev pub empty_node_pool : NodePool
empty_node_pool = new_node_pool (named "" "") "" none ""

-- What the three loops wait for.
abbrev pub is_provisioned : NodePool → Bool
is_provisioned pool = pool.status.node_set_status.provisioning_state == "Succeeded"

abbrev pub is_scaled : ℤ → NodePool → Bool
is_scaled count pool = is_provisioned pool && int_eq pool.status.vm_replicas count

abbrev pub is_upgraded : String → NodePool → Bool
is_upgraded version pool =
    is_provisioned pool && pool.status.node_set_status.kubernetes_version == version

module _ (env : Env) where
  abbrev pub fetch_node_pool : KubeClient → NamespacedName → Act (Result NodePool)
  fetch_node_pool client name = ask env (kube client (get_node_pool name))

  -- After the loop a pool that is not there yet is reported by the line alone: the `err` that is
  -- returned is the outer one, which is nil.
  unfoldable pub report_created : String → String → NodePool → Act (Unit {0})
  report_created name version pool =
      if is_provisioned pool
      then ask env (
          print
            ("✓ Successfully Created NodePool " <> name <> " with Kubernetes Version " <> version))
      else ask env (print "✗ Failed to Create NodePool <nil>")

  unfoldable pub create_node_pool : CreateNodePoolOptions → Act (Unit {0})
  unfolding report_created
  create_node_pool o = do
    version ← get_kubernetes_version env o.agent_kubernetes_version
    client ← kube_client env
    let cluster_name = cluster_name_of o.subscription_id o.resource_group
    let pool = new_node_pool (named o.name cluster_name) version (some o.count) ""
    let key : NamespacedName = record { namespace = cluster_name; name = o.name }
    on_error (ask env (kube client (KubeRequest.create_node_pool pool)) >>= lift)
        (λ e. do _ ← ask env (print ("✗ Failed to Create Nodepool " <> env.error_text e)); fail e)
        λ _. do
          looked ← poll_until env (fetch_node_pool client key) is_provisioned 20 empty_node_pool
          report_created o.name version looked.1

  unfoldable pub delete_node_pool : DeleteNodePoolOptions → Act (Unit {0})
  delete_node_pool o = do
    client ← kube_client env
    let cluster_name = cluster_name_of o.subscription_id o.resource_group
    let key : NamespacedName = record { namespace = cluster_name; name = o.name }
    pool ← (fetch_node_pool client key >>= lift)
    _ ← (ask env (kube client (KubeRequest.delete_node_pool pool)) >>= lift)
    ask env (print ("✓ Successfully Deleted Nodepool " <> o.name))

  -- The line that ends a scaling or an upgrade; a timeout is no error.
  unfoldable pub report_done : String → String → Bool → Act (Unit {0})
  report_done done failed reached = ask env (print (if reached then done else failed))

  unfoldable pub scale_node_pool : ScaleNodePoolOptions → Act (Unit {0})
  unfolding report_done
  scale_node_pool o = do
    client ← kube_client env
    let cluster_name = cluster_name_of o.subscription_id o.resource_group
    let key : NamespacedName = record { namespace = cluster_name; name = o.name }
    pool ← (fetch_node_pool client key >>= lift)
    let scaled : NodePool = record pool { spec = record pool.spec { replicas = some o.count } }
    _ ← (ask env (kube client (update_node_pool scaled)) >>= lift)
    looked ← poll_until env (fetch_node_pool client key) (is_scaled o.count) 20 empty_node_pool
    report_done ("✓ Successfully Scaled Nodepool " <> o.name)
        ("✗ Failed to Scale Nodepool " <> o.name <> ", timedout") looked.0

  unfoldable pub upgrade_node_pool : UpgradeNodePoolOptions → Act (Unit {0})
  unfolding report_done
  upgrade_node_pool o = do
    client ← kube_client env
    let cluster_name = cluster_name_of o.subscription_id o.resource_group
    let key : NamespacedName = record { namespace = cluster_name; name = o.name }
    pool ← (fetch_node_pool client key >>= lift)
    let upgraded : NodePool = record pool {
      spec = record pool.spec { kubernetes_version = o.agent_kubernetes_version };
    }
    _ ← (ask env (kube client (update_node_pool upgraded)) >>= lift)
    looked ←
        poll_until env (fetch_node_pool client key) (is_upgraded o.agent_kubernetes_version) 30
          empty_node_pool
    report_done ("✓ Successfully Upgraded Nodepool " <> o.name)
        ("✗ Failed to Upgrade Nodepool " <> o.name <> ", timedout") looked.0
