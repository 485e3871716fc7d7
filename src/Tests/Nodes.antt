-- ===== src/Tests/Nodes.antt =====
-- The theorems of Helpers at concrete inputs.
use azk.Base.{eq_iff, String, none, some, [], ◌∷◌, ◌≡◌, ◌≢◌, refl, map, arith, pos}
use azk.World.{returned, kube, manager_client, get_node}
use azk.Helpers.{
  found_nodes, wait_for_nodes_ready, wait_for_node_version_ready, cordon_drain_and_delete_node,
}
use azk.Helpers.Waiting.{
  with_statuses, found_nodes_statuses, WaitOutcome, wait_for_nodes_ready_outcome,
}
use azk.Helpers.VersionWait.{slept, wait_for_node_version_ready_match}
use azk.Helpers.Drain.{draining, cordon_drain_failure}
use azk.Tests.Fixtures.{env, env_with, nodes, node_with}

abbrev kubeconfig : String
kubeconfig = "kubeconfig"

-- Three nodes of which every one has the status False are counted.
found_nodes_statuses_example :
    found_nodes "azk-master-vmss" (map (with_statuses "False") nodes)
    ≡ found_nodes "azk-master-vmss" nodes
found_nodes_statuses_example = found_nodes_statuses "False" "azk-master-vmss" nodes

wait_for_nodes_ready_outcome_example :
    WaitOutcome env manager_client "azk-master-vmss"
      (pos 3)
      []
      (wait_for_nodes_ready env manager_client "azk-master-vmss" (pos 3) [])
wait_for_nodes_ready_outcome_example =
    wait_for_nodes_ready_outcome env manager_client "azk-master-vmss" (pos 3) []

wait_for_node_version_ready_match_example :
    wait_for_node_version_ready env manager_client "agent0" "1.14.1" []
    ≡ (returned tt, slept 0 (kube manager_client (get_node "agent0") ∷ []))
wait_for_node_version_ready_match_example =
    wait_for_node_version_ready_match env manager_client "agent0" "1.14.1" []
      (node_with "True" "agent0") refl refl

cordon_drain_failure_example :
    let env' = env_with (none, some "exit 1") in
    let (exit, after) = cordon_drain_and_delete_node env' "kubeconfig" "agent0" [] in
    (exit ≢ returned tt) × (after ≡ draining env' "kubeconfig" "agent0" [])
cordon_drain_failure_example =
    cordon_drain_failure (env_with (none, some "exit 1")) "kubeconfig" "agent0" []
      (λ e. ground (arith, eq_iff "kubeconfig" "")) refl (λ e. ground arith)
