-- ===== src/Controllers/NodePools.antt =====
-- `NodePoolReconciler` (controllers/nodepool_controller.go).
pub mod Collection
pub mod LifeCycle
pub mod Reconcile
use azk.Base.{
  String, Bool, none, some, List, [], ◌∷◌, ◌<>◌, ◌==◌, true, false, pos, length, int_eq, int32,
  if◌then◌else◌,
}
use azk.Api.{NamespacedName, NodeSet, NodeSetStatus, NodePool, spec_eq}
use azk.World.{
  Env, Act, pure, lift, ask, on_error, ◌>>=◌, kube, manager_client, get_node_pool,
  update_node_pool_status, get_node_set, create_node_set, update_node_set, list_node_sets,
  delete_node_set,
}
use azk.Std.{hex, fnv64a}
use azk.Controllers.Outcome.{Outcome, finished, requeued, failing}

-- The name changes with the version, so that an upgrade makes a new node set.
unfoldable pub node_set_name : NodePool → String
node_set_name pool =
    pool.meta.name <> "-" <> hex (fnv64a (pool.meta.name <> "/" <> pool.spec.kubernetes_version))

abbrev no_status : NodeSetStatus
no_status = record {
  replicas = pos 0;
  kubernetes_version = "";
  provisioning_state = "";
  kubeconfig = "";
  node_status = [];
}

abbrev pub node_set_of : NodePool → NodeSet
node_set_of pool = record {
  meta = record {
    name = node_set_name pool;
    namespace = pool.meta.namespace;
    finalizers = [];
    deletion_timestamp = none;
    owner_references = [];
  };
  spec = pool.spec;
  status = no_status;
}

-- `instance.Spec.Replicas != nil && int32(len(NodeStatus)) == *instance.Spec.Replicas`
abbrev pub is_complete : NodePool → NodeSet → Bool
is_complete pool found = elim pool.spec.replicas [
  | none ↦ false
  | some replicas ↦ int_eq (int32 (length found.status.node_status)) replicas
]

abbrev pub observed : NodePool → NodeSet → NodePool
observed pool found = record pool {
  status = record {
    node_set_name = node_set_name pool;
    vm_replicas = int32 (length found.status.node_status);
    node_set_status = record pool.status.node_set_status {
      replicas = found.status.replicas;
      kubernetes_version = found.status.kubernetes_version;
      provisioning_state = found.status.provisioning_state;
    };
  };
}

module _ (env : Env) where
  -- The loop of `performGarbageCollection`.
  unfoldable pub delete_others : String → List NodeSet → Act (Unit {0})
  delete_others name [] = pure tt
  delete_others name (node_set ∷ node_sets) = elim (node_set.meta.name == name) [
    | true ↦ delete_others name node_sets
    | false ↦ ask env (kube manager_client (delete_node_set node_set)) >>= lift >>= λ _.
        delete_others name node_sets
  ]

  unfoldable pub perform_garbage_collection : String → String → Act (Unit {0})
  unfolding delete_others
  perform_garbage_collection namespace name = do
    node_sets ← (ask env (kube manager_client (list_node_sets namespace)) >>= lift)
    delete_others name node_sets

  -- The node set is there: garbage is collected if it is complete, and its status is copied.
  unfoldable pub report : NodePool → NodeSet → Act Outcome
  report pool found =
      let update =
        on_error
          (ask env (kube manager_client (update_node_pool_status (observed pool found))) >>= lift)
          failing (λ _. pure finished) in
      if is_complete pool found
      then on_error (perform_garbage_collection pool.meta.namespace (node_set_name pool)) failing
          (λ _. update)
      else update

  -- The node set is there: its spec is updated if it is another one.
  unfoldable pub propagate : NodePool → NodeSet → NodeSet → Act Outcome
  unfolding report
  propagate pool wanted found =
      if spec_eq wanted.spec found.spec
      then report pool found
      else on_error
          (ask env (kube manager_client (update_node_set (record found { spec = wanted.spec })))
            >>= lift)
          failing (report pool)

  unfoldable pub create : NodeSet → Act Outcome
  create wanted =
      on_error (ask env (kube manager_client (create_node_set wanted)) >>= lift) failing
        λ _. pure requeued

  unfoldable pub reconcile : NamespacedName → Act Outcome
  unfolding propagate create
  reconcile request =
      on_error (ask env (kube manager_client (get_node_pool request)) >>= lift)
        (λ e. if env.is_not_found e then pure finished else failing e)
        λ pool.
          on_error (lift (env.set_controller_reference pool.meta (node_set_of pool).meta)) failing
            λ meta.
              let wanted = record (node_set_of pool) { meta = meta } in
              on_error
                (ask env (
                    kube manager_client
                      (get_node_set (record { namespace = meta.namespace; name = meta.name })))
                  >>= lift)
                (λ e. if env.is_not_found e then create wanted else failing e)
                λ found. propagate pool wanted found
