-- ===== src/Tests/Commands.antt =====
-- The theorems on the commands at concrete inputs.
use azk.Base.{false, [], ◌≡◌, refl, pos, arith}
use azk.Api.{Result, ok, message, NamespacedName, NodePool}
use azk.World.{Env, Log, Call, failed, azure, kube, client_of, get_node_pool, group_delete}
use azk.World.Ends.{DidReturn}
use azk.Azure.{get_groups_client}
use azk.Bootstrap.{bootstrap}
use azk.Cmd.{
  ScaleNodePoolOptions, CreateNodePoolOptions, CreateControlPlaneOptions, CreateOptions,
  scale_node_pool, create_node_pool, create_control_plane, empty_node_pool, is_provisioned,
  poll_until, fetch_node_pool, writing, run_both, plane_job, pool_job, create_plane_and_pool,
  bootstrap_or_clean_up,
}
use azk.Cmd.Polling.Seen.{PollOutcome, LeftEarly, poll_until_outcome, poll_until_live}
use azk.Cmd.Reports.{Ended}
use azk.Cmd.Outcomes.{
  ScaleReports, CreateReports, scale_node_pool_outcome, create_node_pool_outcome, pool_key,
}
use azk.Cmd.PlaneOutcomes.{PlaneCreateReports, create_control_plane_outcome}
use azk.Cmd.Clusters.Stopping.{BothStopped}
use azk.Cmd.Clusters.Timeouts.{create_plane_and_pool_stops, create_plane_and_pool_timeout}
use azk.Cmd.Clusters.Cleanup.{Asked, bootstrap_or_clean_up_failed}
use azk.Tests.Fixtures.{refuse_groups, env, cluster, node_pool, control_plane}

abbrev pool_name : NamespacedName
pool_name = pool_key "subscription" "group" "pool"

abbrev look : Call
look = kube (client_of "kubeconfig") (get_node_pool pool_name)

abbrev pool_answer : Log → Result NodePool
pool_answer log = env.answer log look

poll_until_outcome_example : PollOutcome env look pool_answer is_provisioned 20 [] (
    poll_until env
      (fetch_node_pool env (client_of "kubeconfig") pool_name)
      is_provisioned
      20
      empty_node_pool
      [])
poll_until_outcome_example =
    poll_until_outcome env look pool_answer is_provisioned 20 empty_node_pool [] refl

poll_until_live_example : LeftEarly env look pool_answer is_provisioned 3 [] (
    poll_until env
      (fetch_node_pool env (client_of "kubeconfig") pool_name)
      is_provisioned
      20
      empty_node_pool
      [])
poll_until_live_example =
    poll_until_live env look pool_answer is_provisioned 20 3 empty_node_pool node_pool []
      (omega arith) refl refl

abbrev scaling : ScaleNodePoolOptions
scaling = record {
  subscription_id = "subscription";
  resource_group = "group";
  name = "pool";
  count = pos 0;
}

scale_node_pool_outcome_example :
    Ended (ScaleReports env scaling) 0 (scale_node_pool env scaling [])
scale_node_pool_outcome_example = scale_node_pool_outcome env scaling []

abbrev creation : CreateNodePoolOptions
creation = record {
  subscription_id = "subscription";
  name = "pool";
  resource_group = "group";
  count = pos 2;
  agent_kubernetes_version = "stable";
}

create_node_pool_outcome_example :
    Ended (CreateReports env creation) 0 (create_node_pool env creation [])
create_node_pool_outcome_example = create_node_pool_outcome env creation []

abbrev plane_creation : CreateControlPlaneOptions
plane_creation = record {
  subscription_id = "subscription";
  resource_group = "group";
  master_kubernetes_version = "stable";
}

create_control_plane_outcome_example :
    Ended (PlaneCreateReports env plane_creation) 0 (create_control_plane env plane_creation [])
create_control_plane_outcome_example = create_control_plane_outcome env plane_creation []

create_plane_and_pool_stops_example : BothStopped (
    run_both env
      (plane_job env (client_of "kubeconfig") "name" "plane.yml" (ok "yaml") control_plane)
      (pool_job env (client_of "kubeconfig") "name" "pool.yml" (ok "yaml") "pool" node_pool)
      106
      writing
      writing
      [])
create_plane_and_pool_stops_example =
    create_plane_and_pool_stops env (client_of "kubeconfig") "name" "plane.yml" "pool.yml" "pool"
      (ok "yaml") (ok "yaml") control_plane node_pool []

abbrev options : CreateOptions
options = record {
  subscription_id = "subscription";
  client_id = "client";
  client_secret = "secret";
  tenant_id = "tenant";
  resource_group = "group";
  resource_location = "westus2";
  dns_prefix = "azk";
  kubernetes_version = "1.14.1";
  node_pool_name = "pool";
  node_pool_count = pos 2;
  kubeconfig_output = "";
  vm_sku_type = "Standard_DS2_v2";
  is_development = false;
}

create_plane_and_pool_timeout_example :
    DidReturn (create_plane_and_pool env (client_of "kubeconfig") "/root/.azk" "name" options []).0
create_plane_and_pool_timeout_example =
    create_plane_and_pool_timeout env (client_of "kubeconfig") "/root/.azk" "name" options "yaml"
      "yaml" [] refl refl (λ l. tt) (λ l. tt)

-- Azure cannot make the resource group.
abbrev no_group : Env
no_group = record env { answer = λ log c. refuse_groups c }

bootstrap_or_clean_up_failed_example :
    let (exit, after) = bootstrap_or_clean_up no_group cluster.spec [] in
    (exit ≡ failed (message "quota"))
    × Asked
        (azure
          (get_groups_client no_group cluster.spec.cloud).0
          (group_delete cluster.spec.cloud.group_name))
        after
unfolding bootstrap azk.Azure.new_client azk.Azure.get_authorizer_for_resource
    azk.Azure.create_or_update_resource_group
bootstrap_or_clean_up_failed_example =
    bootstrap_or_clean_up_failed no_group cluster.spec (message "quota") []
      (bootstrap no_group cluster.spec []).1 refl refl
