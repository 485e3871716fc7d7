-- ===== src/Helpers/Drain.antt =====
-- What `CordonDrainAndDeleteNode` (helpers/cordonanddrain.go) does, by the calls in its log.
use azk.Base.{String, none, ◌∷◌, ◌≡◌, ◌≢◌, ◌⊎◌, arith, eq_iff}
use azk.Api.{ok}
use azk.World.{
  Env, Log, returned, panicked, load_kubeconfig, kubectl_drain, kubernetes_client_set, delete_node,
}
use azk.Helpers.Nodes.{drain_args, drain_and_delete_node, cordon_drain_and_delete_node}

module _ (env : Env) (kubeconfig vm_name : String) (log : Log) where
  abbrev pub loading : Log
  loading = load_kubeconfig kubeconfig ∷ log

  abbrev pub draining : Log
  draining = kubectl_drain kubeconfig (drain_args vm_name) ∷ loading

  -- The four calls of a full run.
  abbrev pub draining_and_deleting : Log
  draining_and_deleting =
      delete_node kubeconfig vm_name ∷ kubernetes_client_set kubeconfig ∷ draining

  -- The node was deleted after a drain without an error or a fatal exit.
  pub record IsDrainedAndDeleted (after : Log) : Type 0 where
    pub all_calls : after ≡ draining_and_deleting
    pub drained : env.answer loading (kubectl_drain kubeconfig (drain_args vm_name)) ≡ (none, none)
    pub deleted :
        env.answer (kubernetes_client_set kubeconfig ∷ draining) (delete_node kubeconfig vm_name)
        ≡ ok tt

  drain_and_delete_node_success :
      {after : Log}
      → drain_and_delete_node env kubeconfig vm_name log ≡ (returned tt, after)
      → IsDrainedAndDeleted after
  unfolding drain_and_delete_node
  drain_and_delete_node_success h = ground arith

  -- When it returns without an error, either the kubeconfig is empty and no call was made, or the
  -- drain succeeded, and after it the node was deleted.
  pub cordon_drain_success :
      {after : Log}
      → cordon_drain_and_delete_node env kubeconfig vm_name log ≡ (returned tt, after)
      → ((kubeconfig ≡ "") × (after ≡ log)) ⊎ IsDrainedAndDeleted after
  unfolding cordon_drain_and_delete_node
  cordon_drain_success h =
      ground (arith, eq_iff kubeconfig "", λ (a : Log). drain_and_delete_node_success {after = a})

  -- With a kubeconfig that loads, a drain that ends with an error or a fatal exit makes the
  -- procedure fail, and the node is not deleted: the drain is its last call.
  pub cordon_drain_failure :
      kubeconfig ≢ ""
      → env.answer log (load_kubeconfig kubeconfig) ≡ ok tt
      → env.answer loading (kubectl_drain kubeconfig (drain_args vm_name)) ≢ (none, none)
      → let (exit, after) = cordon_drain_and_delete_node env kubeconfig vm_name log in
        (exit ≢ returned tt) × (after ≡ draining)
  unfolding cordon_drain_and_delete_node
  cordon_drain_failure named loaded unclean = ground (arith, eq_iff kubeconfig "")

pub cordon_drain_no_panic :
    (env : Env) (kubeconfig vm_name : String) (log : Log)
    → (cordon_drain_and_delete_node env kubeconfig vm_name log).0 ≢ panicked
unfolding cordon_drain_and_delete_node
cordon_drain_no_panic env kubeconfig vm_name log = ground arith
