-- ===== src/Helpers/Nodes.antt =====
-- Cordon and drain (helpers/cordonanddrain.go), and waiting for nodes (helpers/helpers.go).
use azk.Base.{
  ℕ, zero, suc, String, Bool, true, false, Option, none, some, List, [], ◌∷◌, ◌<>◌, ◌==◌,
  contains_text, ◌&&◌, if◌then◌else◌, ℤ, pos, ltb_ℤ,
}
use azk.Api.{Error, message, wrapped, nodes_not_ready}
use azk.World.{
  Env, Act, pure, fail, lift, ask, on_error, ◌>>=◌, ◌>>◌, KubeClient, kube, get_node, list_nodes,
  Node, NodeCondition, load_kubeconfig, kubectl_drain, kubernetes_client_set, delete_node, sleep,
  client_new, client_of,
}

abbrev pub drain_args : String → List String
drain_args vm_name =
    vm_name ∷ "--force" ∷ "--ignore-daemonsets" ∷ "--grace-period" ∷ "60" ∷ "--delete-local-data"
    ∷ []

-- `drain.Execute()`: its error, or that of a fatal exit of kubectl.
abbrev drain_error : Option Error × Option String → Act (Unit {0})
drain_error (some e, _) = fail e
drain_error (none, some text) = fail (message ("error during drain: " <> text))
drain_error (none, none) = pure tt

module _ (env : Env) where
  unfoldable pub drain_and_delete_node : String → String → Act (Unit {0})
  drain_and_delete_node kubeconfig vm_name = do
    loaded ← ask env (load_kubeconfig kubeconfig)
    on_error (lift loaded) (λ e. fail (wrapped "error setting up kubeconfig" e))
        λ _. do
          drained ← ask env (kubectl_drain kubeconfig (drain_args vm_name))
          drain_error drained
          client_set ← ask env (kubernetes_client_set kubeconfig)
          on_error (lift client_set) (λ e. fail (wrapped "failed to get clientset" e))
              λ _. do deleted ← ask env (delete_node kubeconfig vm_name); lift deleted

  -- An empty kubeconfig skips the cordon and the deletion.
  unfoldable pub cordon_drain_and_delete_node : String → String → Act (Unit {0})
  unfolding drain_and_delete_node
  cordon_drain_and_delete_node kubeconfig vm_name =
      if kubeconfig == "" then pure tt else drain_and_delete_node kubeconfig vm_name

-- The inner loop of `WaitForNodesReady`: a condition of type Ready, whatever its status.
unfoldable pub has_ready_condition : List NodeCondition → Bool
has_ready_condition [] = false
has_ready_condition (c ∷ conditions) =
    if c.kind == "Ready" then true else has_ready_condition conditions

unfoldable pub count_found : String → List Node → ℕ → ℕ
count_found node_name [] found = found
count_found node_name (node ∷ nodes) found = count_found node_name nodes (
    if contains_text node.name node_name && has_ready_condition node.conditions
    then suc found
    else found)

unfoldable pub found_nodes : String → List Node → ℕ
unfolding count_found has_ready_condition
found_nodes node_name nodes = count_found node_name nodes 0

module _ (env : Env) (client : KubeClient) where
  -- The rounds that are left, and `localErr`. The recursive call waits in a case of `elim`.
  unfoldable pub poll_nodes_ready : ℕ → String → ℤ → Option Error → Act (Unit {0})
  poll_nodes_ready zero node_name node_count none = pure tt
  poll_nodes_ready zero node_name node_count (some local_err) = fail local_err
  poll_nodes_ready (suc rounds) node_name node_count local_err = do
    listed ← ask env (kube client list_nodes)
    nodes ← lift listed
    elim (ltb_ℤ (pos (found_nodes node_name nodes)) node_count) [
      | true ↦ ask env (sleep 3) >>= λ _.
          poll_nodes_ready rounds node_name node_count
            (some (nodes_not_ready (found_nodes node_name nodes) node_count))
      | false ↦ pure tt
    ]

  unfoldable pub wait_for_nodes_ready : String → ℤ → Act (Unit {0})
  unfolding poll_nodes_ready
  wait_for_nodes_ready node_name node_count = poll_nodes_ready 100 node_name node_count none

  -- `continue` in the loop over the conditions ends only that round of the inner loop.
  unfoldable pub note_conditions : String → List NodeCondition → Option Error → Act (Option Error)
  note_conditions node_name [] local_err = pure local_err
  note_conditions node_name (c ∷ conditions) local_err = elim (c.kind == "Ready") [
    | true ↦ note_conditions node_name conditions local_err
    | false ↦ ask env (sleep 3) >>= λ _.
        note_conditions node_name conditions
          (some (message ("Found node " <> node_name <> " not ready")))
  ]

  pub version_error : String → Node → String → Error
  version_error node_name node kubernetes_version = message (
      "Found node " <> node_name <> " with version " <> node.kubelet_version <> " expected "
      <> kubernetes_version)

  unfoldable pub poll_node_version : ℕ → String → String → Option Error → Act (Unit {0})
  unfolding note_conditions version_error
  poll_node_version zero node_name kubernetes_version none = pure tt
  poll_node_version zero node_name kubernetes_version (some local_err) = fail local_err
  poll_node_version (suc rounds) node_name kubernetes_version local_err = do
    got ← ask env (kube client (get_node node_name))
    node ← lift got
    noted ← note_conditions node_name node.conditions local_err
    elim (node.kubelet_version == "v" <> kubernetes_version) [
      | true ↦ pure tt
      | false ↦ ask env (sleep 3) >>= λ _.
          poll_node_version rounds node_name kubernetes_version
            (some (version_error node_name node kubernetes_version))
    ]

  unfoldable pub wait_for_node_version_ready : String → String → Act (Unit {0})
  unfolding poll_node_version
  wait_for_node_version_ready node_name kubernetes_version =
      poll_node_version 100 node_name kubernetes_version none

  unfoldable pub is_node_updated : String → String → Act Bool
  is_node_updated node_name kubernetes_version = do
    got ← ask env (kube client (get_node node_name))
    node ← lift got
    pure (node.kubelet_version == "v" <> kubernetes_version)

-- `GetKubeClient`: both errors of reading the kubeconfig are those of `load_kubeconfig`.
unfoldable pub get_kube_client : Env → String → Act KubeClient
get_kube_client env kubeconfig = do
  _ ← (ask env (load_kubeconfig kubeconfig) >>= lift)
  _ ← (ask env (client_new kubeconfig) >>= lift)
  pure (client_of kubeconfig)
