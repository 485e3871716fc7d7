-- ===== src/Cmd/Clusters.antt =====
-- cmd/cluster/cluster.go: the commands that create and delete a cluster. The two goroutines of the
-- creation stand in `Cmd/Clusters/Workers.antt`,
-- the steps before them in `Cmd/Clusters/Setup.antt`.
mod Setup
mod Workers
pub mod Stopping
pub mod Timeouts
pub mod Cleanup
pub mod Deleting
unfoldable pub use Setup.*
unfoldable pub use Workers.*
use azk.Base.{
  ℕ, zero, suc, String, ◌<>◌, ◌==◌, Bool, true, false, Option, none, some, List, [], ◌∷◌,
  contains_text, ℤ, pos, if◌then◌else◌,
}
use azk.Api.{
  Error, Result, ok, err, CloudConfiguration, Spec, Cluster, NamespacedName, ControlPlane, NodePool,
}
use azk.World.{
  Env, Act, pure, fail, panic, lift, ask, on_error, ◌>>=◌, KubeClient, client_of, KubeRequest, kube,
  print, get_cluster, create_cluster, create_namespace, getenv, mkdir_all, write_file,
  load_kubeconfig, client_new, sleep,
}
use azk.Helpers.{get_kubernetes_version, wait_for_nodes_ready}
use azk.Azure.{delete_resource_group}
use azk.Bootstrap.{cluster_name_of, create_spec, bootstrap}
use azk.Cmd.Polling.{kube_client}
use azk.Cmd.NodePools.{named, new_node_pool, empty_node_pool, is_provisioned, fetch_node_pool}
use azk.Cmd.ControlPlanes.{
  new_control_plane, empty_control_plane, is_plane_provisioned, fetch_control_plane,
}
use azk.Cmd.Apply.{kubectl_apply_folder}
use azk.Cmd.Clusters.Setup.{
  bootstrap_or_clean_up, stabilise, kubectl_apply_resources, create_namespace_unless_there,
  ensure_cluster,
}
use azk.Cmd.Clusters.Workers.{Job, Worker, writing, run_both, worker_error}

pub record CreateOptions : Type 0 where
  pub subscription_id : String
  pub client_id : String
  pub client_secret : String
  pub tenant_id : String
  pub resource_group : String
  pub resource_location : String
  pub dns_prefix : String
  pub kubernetes_version : String
  pub node_pool_name : String
  pub node_pool_count : ℤ
  pub kubeconfig_output : String
  pub vm_sku_type : String
  pub is_development : Bool

pub record DeleteOptions : Type 0 where
  pub subscription_id : String
  pub resource_group : String

abbrev pub options_cloud : CreateOptions → CloudConfiguration
options_cloud o = record {
  cloud_name = "AzurePublicCloud";
  subscription_id = o.subscription_id;
  client_id = o.client_id;
  client_secret = o.client_secret;
  tenant_id = o.tenant_id;
  group_name = o.resource_group;
  group_location = o.resource_location;
  user_agent = "azk";
}

module _ (env : Env) where
  abbrev pub plane_job :
      KubeClient → String → String → Result String → ControlPlane → Job ControlPlane
  plane_job client name file marshalled plane = record {
    create = ask env (kube client (KubeRequest.create_control_plane plane));
    fetch = fetch_control_plane env client (record { namespace = name; name = name });
    reached = is_plane_provisioned;
    empty = empty_control_plane;
    rounds = 30;
    marshalled = marshalled;
    spec_file = file;
  }

  abbrev pub pool_job :
      KubeClient → String → String → Result String → String → NodePool → Job NodePool
  pool_job client namespace file marshalled name pool = record {
    create = ask env (kube client (KubeRequest.create_node_pool pool));
    fetch = fetch_node_pool env client (record { namespace = namespace; name = name });
    reached = is_provisioned;
    empty = empty_node_pool;
    rounds = 20;
    marshalled = marshalled;
    spec_file = file;
  }

  -- The end of `RunCreate`: `cpError` goes before `npError`.
  abbrev pub report_both : String → Option Error → Option Error → Act (Unit {0})
  report_both name (some e) _ = ask env (print "✗ Failed to Create Control Plane") >>= λ _. fail e
  report_both name none (some e) = ask env (print "✗ Failed to Create Node Pool") >>= λ _. fail e
  report_both name none none = ask env (print ("✓ Successfully Created Cluster " <> name))

  -- Both goroutines and the wait for them; 106 steps are the sum of what each has at most.
  unfoldable pub create_plane_and_pool :
      KubeClient → String → String → CreateOptions → Act (Unit {0})
  create_plane_and_pool client dir name o = do
    let plane = new_control_plane (named name name) o.kubernetes_version o.vm_sku_type
    let pool =
        new_node_pool (named o.node_pool_name name) o.kubernetes_version (some o.node_pool_count)
          o.vm_sku_type
    workers ←
        run_both env
          (plane_job client name (dir <> "/controlplanespec.yml") (env.marshal_control_plane plane)
            plane)
          (pool_job client name (dir <> "/nodepoolspec.yml") (env.marshal_node_pool pool)
            o.node_pool_name pool)
          106 writing writing
    report_both name (worker_error workers.0) (worker_error workers.1)

  -- After the wait: a `client.New` that fails leaves a nil client, whose `Create` panics.
  unfoldable pub set_up_cluster : String → String → Spec → CreateOptions → Act (Unit {0})
  unfolding create_plane_and_pool
  set_up_cluster dir name spec o = do
    let kubeconfig = spec.customer_kubeconfig
    _ ← (ask env (load_kubeconfig kubeconfig) >>= lift)
    _ ← stabilise env kubeconfig 100 none
    _ ← ask env (print "✓ Done")
    _ ← kubectl_apply_resources env kubeconfig o.is_development
    _ ← on_error (ask env (client_new kubeconfig) >>= lift) (λ e. panic) pure
    _ ← create_namespace_unless_there env (client_of kubeconfig) name
    _ ← ensure_cluster env (client_of kubeconfig) dir name spec
    create_plane_and_pool (client_of kubeconfig) dir name o

  abbrev pub write_kubeconfig : String → String → String → Act (Unit {0})
  write_kubeconfig output name kubeconfig =
      if output == ""
      then pure tt
      else ask env (write_file (output <> "-" <> name) kubeconfig) >>= (λ _. pure tt)

  unfoldable pub run_create : CreateOptions → Act (Unit {0})
  unfolding set_up_cluster
  run_create asked = do
    version ← get_kubernetes_version env asked.kubernetes_version
    let o = record asked { kubernetes_version = version }
    let name = cluster_name_of o.subscription_id o.resource_group
    home ← ask env (getenv "HOME")
    let dir = home <> "/.azk/" <> name
    _ ← (ask env (mkdir_all dir) >>= lift)
    created ← create_spec env (options_cloud o) o.dns_prefix "" version
    let spec = record created { bootstrap_vm_sku_type = o.vm_sku_type }
    text ← lift (env.marshal_spec spec)
    _ ← (ask env (write_file (dir <> "/bootstrapspec.json") text) >>= lift)
    established ← bootstrap_or_clean_up env spec
    _ ← write_kubeconfig o.kubeconfig_output name established.customer_kubeconfig
    set_up_cluster dir name established o

  unfoldable pub run_delete : DeleteOptions → Act (Unit {0})
  run_delete o = do
    client ← kube_client env
    let name = cluster_name_of o.subscription_id o.resource_group
    cluster ←
        (ask env (kube client (get_cluster (record { namespace = name; name = name }))) >>= lift)
    on_error (delete_resource_group env cluster.spec.cloud)
        (λ e. ask env (print ("✗ Failed to Delete Cluster " <> env.error_text e)) >>= λ _. fail e)
        (λ _. ask env (print ("✓ Successfully Deleted Cluster " <> name)))
