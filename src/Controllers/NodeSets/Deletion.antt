-- ===== src/Controllers/NodeSets/Deletion.antt =====
-- What a reconcile of a node set that is being deleted does.
use azk.Base.{String, true, false, List, [], ◌∷◌, ◌≡◌, ◌≢◌, ◌⊎◌, arith, eq_iff}
use azk.Api.{VmStatus, NodeSet, Cluster, CloudConfiguration}
use azk.World.{Env, Log, returned, panicked, kube, manager_client, update_node_set}
use azk.Helpers.{
  contains_finalizer, remove_finalizer, contains_finalizer-remove_finalizer,
  cordon_drain_and_delete_node,
}
use azk.Helpers.Drain.{cordon_drain_no_panic}
use azk.Azure.{delete_vmss}
use azk.Controllers.Outcome.{finished, requeued}
use azk.Controllers.NodeSets.{
  node_sets_finalizer_name, with_finalizers, cloud_configuration, drain_all, delete_node_set,
  agent_vmss, release, finalize,
}

delete_vmss_no_panic :
    (env : Env) (cloud : CloudConfiguration) (name : String) (log : Log)
    → (delete_vmss env cloud name log).0 ≢ panicked
unfolding delete_vmss
delete_vmss_no_panic env cloud name log = ground arith

drain_all_no_panic :
    (env : Env) (kubeconfig : String) (vms : List VmStatus) (log : Log)
    → (drain_all env kubeconfig vms log).0 ≢ panicked
unfolding drain_all
drain_all_no_panic env kubeconfig [] log = ground arith
drain_all_no_panic env kubeconfig (vm ∷ vms) log =
    let drained = cordon_drain_and_delete_node env kubeconfig vm.vm_computer_name log in
    ground (
      arith,
      cordon_drain_no_panic env kubeconfig vm.vm_computer_name log,
      drain_all_no_panic env kubeconfig vms drained.1,
    )

delete_node_set_no_panic :
    (env : Env) (instance : NodeSet) (cloud : CloudConfiguration) (log : Log)
    → (delete_node_set env instance cloud log).0 ≢ panicked
unfolding delete_node_set
delete_node_set_no_panic env instance cloud log =
    let kubeconfig = instance.status.kubeconfig in
    let vms = instance.status.node_status in
    ground (
      arith,
      drain_all_no_panic env kubeconfig vms log,
      delete_vmss_no_panic env cloud (agent_vmss instance) (drain_all env kubeconfig vms log).1,
    )

abbrev pub freed : NodeSet → NodeSet
freed instance =
    with_finalizers instance (remove_finalizer instance.meta.finalizers node_sets_finalizer_name)

-- The last call updated the object to one without the finalizer.
abbrev pub EndsReleased : NodeSet → Log → Type 0
EndsReleased instance [] = ⊥
EndsReleased instance (c ∷ rest) = c ≡ kube manager_client (update_node_set (freed instance))

release-EndsReleased :
    (env : Env) (instance : NodeSet) (log : Log)
    → let (exit, after) = release env instance log in
      ((exit ≡ returned finished) ⊎ (exit ≡ returned requeued)) × EndsReleased instance after
unfolding release
release-EndsReleased env instance log = ground arith

-- A node set that is being deleted and carries the finalizer is always released: whether draining
-- its machines and deleting its scale set succeeded or failed, the last call updates the object
-- to one without the finalizer, and the outcome carries no error.
pub finalize-EndsReleased :
    (env : Env) (instance : NodeSet) (cluster : Cluster) (log : Log)
    → contains_finalizer instance.meta.finalizers node_sets_finalizer_name ≡ true
    → let (exit, after) = finalize env instance cluster log in
      ((exit ≡ returned finished) ⊎ (exit ≡ returned requeued))
      × EndsReleased instance after
      × (contains_finalizer (freed instance).meta.finalizers node_sets_finalizer_name ≡ false)
unfolding finalize
finalize-EndsReleased env instance cluster log present =
    let cloud = cloud_configuration cluster in
    ground (
      arith,
      delete_node_set_no_panic env instance cloud log,
      release-EndsReleased env instance (delete_node_set env instance cloud log).1,
      release-EndsReleased env instance log,
      contains_finalizer-remove_finalizer instance.meta.finalizers node_sets_finalizer_name
          node_sets_finalizer_name,
      eq_iff node_sets_finalizer_name node_sets_finalizer_name,
    )
