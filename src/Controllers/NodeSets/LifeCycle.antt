-- ===== src/Controllers/NodeSets/LifeCycle.antt =====
-- The order of the changes that a reconcile of a node set asks for.
pub mod Growing
pub mod Deleting
pub mod Walk
pub mod Progress
use azk.Base.{
  ℕ, zero, suc, String, Bool, true, false, Option, none, some, List, [], ◌∷◌, ◌≡◌, refl, ◌==◌, pos,
  ℤ, ltb_ℤ, if◌then◌else◌, length, int_eq,
}
use azk.Api.{Error, VmStatus, NodeSet, Cluster, CloudConfiguration, is_valid, is_zero}
use azk.World.{
  Env, Log, Call, Exit, AzureClient, VirtualMachineScaleSet, azure, kube, manager_client,
  vmss_create_or_update, vmss_update, vmss_delete, vms_delete, update_node_set, kubectl_drain,
  delete_node, update_node_set_status, lift, ask, ◌>>=◌, deref, pure, record_event,
}
use azk.World.Ends.{NeverFails, NeverFails-deref}
use azk.Helpers.{
  contains_finalizer, contains_finalizer-removed, contains_finalizer-append,
  cordon_drain_and_delete_node,
}
use azk.Azure.{delete_vmss}
use azk.Azure.Steps.{create_vmss-Moves, scale_vmss-MayMove, delete_vmss-Moves}
use azk.Changes.{
  changes, ChangesNothing, ChangesNothing-bind, ChangesNothing-on_error, ChangesNothing-lift,
  ChangesNothing-deref, ChangesNothing-pure, ChangesNothing-usable, quiet_rules,
}
use azk.Changes.Phases
use azk.Changes.Phases.{Moves, MayMove, Concludes, Concluded}
use azk.Changes.Waits.{wait_for_nodes-ChangesNothing}
use azk.Controllers.Quiet.{vm_statuses-ChangesNothing}
use azk.Controllers.Outcome.{Outcome, finished, requeued, with_error, failing}
use azk.Controllers.NodeSets.{
  node_sets_finalizer_name, agent_vmss, settled, with_state, with_finalizers, cloud_configuration,
  drain_all, delete_node_set, remove_surplus, scale_node_set, update_node_set_nodes,
  get_custom_data, register, release, finalize, create, scale, settle, provision, reconcile_object,
}
use azk.Controllers.NodeSets.Scaling.{ChangesNothing-node_set_custom_data}

pub data Phase : Type 0 where
  -- nothing was asked for; the finalizer was added
  idle registered : Phase
  -- the status says `Updating`; the scale set was asked for
  updating built : Phase
  -- the status says `Scaling`; the new capacity was asked for; success was reported
  scaling resized reported : Phase
  -- nothing was asked for but changes of nodes, when the object is being deleted and carries the
  -- finalizer; the deletion of the scale set was asked for; the finalizer was removed
  draining deleted released : Phase

abbrev pub is_registered : NodeSet → Bool
is_registered instance = contains_finalizer instance.meta.finalizers node_sets_finalizer_name

-- The changes that a phase allows, in the resource group of one cluster, for a node set that is live,
-- or else is being deleted.
pub data Move (live : Bool) (group : String) : Phase → Call → Phase → Type 0 where
  register_it :
      live ≡ true
      → (instance : NodeSet) → is_registered instance ≡ true
      → Move live group idle (kube manager_client (update_node_set instance)) registered
  begin :
      live ≡ true
      → (instance : NodeSet) → instance.status.provisioning_state ≡ "Updating"
      → Move live group idle (kube manager_client (update_node_set_status instance)) updating
  build :
      live ≡ true
      → (client : AzureClient) (name : String) (vmss : VirtualMachineScaleSet)
      → Move live group updating (azure client (vmss_create_or_update group name vmss)) built
  rescale :
      live ≡ true
      → (instance : NodeSet) → instance.status.provisioning_state ≡ "Scaling"
      → Move live group idle (kube manager_client (update_node_set_status instance)) scaling
  remove :
      live ≡ true
      → (client : AzureClient) (name id : String)
      → Move live group scaling (azure client (vms_delete group name id)) scaling
  drain :
      live ≡ true
      → (kubeconfig : String) (args : List String)
      → Move live group scaling (kubectl_drain kubeconfig args) scaling
  remove_node :
      live ≡ true
      → (kubeconfig name : String) → Move live group scaling (delete_node kubeconfig name) scaling
  resize :
      live ≡ true
      → (client : AzureClient) (name custom_data : String) (count : ℤ)
      → Move live group scaling (azure client (vmss_update group name count custom_data)) resized
  report :
      live ≡ true
      → (instance : NodeSet) → instance.status.provisioning_state ≡ "Succeeded"
      → instance.status.kubernetes_version ≡ instance.spec.kubernetes_version
      → Move live group idle (kube manager_client (update_node_set_status instance)) reported
  drain_last :
      live ≡ false
      → (kubeconfig : String) (args : List String)
      → Move live group draining (kubectl_drain kubeconfig args) draining
  remove_last_node :
      live ≡ false
      → (kubeconfig name : String) → Move live group draining (delete_node kubeconfig name) draining
  delete :
      live ≡ false
      → (client : AzureClient) (name : String)
      → Move live group draining (azure client (vmss_delete group name)) deleted
  release_kept :
      live ≡ false
      → (instance : NodeSet) → is_registered instance ≡ false
      → Move live group draining (kube manager_client (update_node_set instance)) released
  release_deleted :
      live ≡ false
      → (instance : NodeSet) → is_registered instance ≡ false
      → Move live group deleted (kube manager_client (update_node_set instance)) released

-- How an outcome fits. An error may stop the walk of a live node set in any phase, and there is none for
-- one that is being deleted. Without an error, a live node set is looked at again after each step of its creation and
-- of its scaling, and is done at the report. One that is being deleted is done when there was nothing
-- to do or when the finalizer was to be removed, which may be tried again.
abbrev FitsPhase : Bool → Option Error → Bool → Phase → Type 0
FitsPhase true (some e) requeue p = Unit
FitsPhase true none true registered = Unit
FitsPhase true none true built = Unit
FitsPhase true none true scaling = Unit
FitsPhase true none true resized = Unit
FitsPhase true none false reported = Unit
FitsPhase false none false idle = Unit
FitsPhase false none requeue released = Unit
FitsPhase _ _ _ _ = ⊥

abbrev pub Fits : Bool → Outcome → Phase → Type 0
Fits live o p = FitsPhase live o.error o.requeue p

-- The phase that a reconcile starts in.
abbrev pub start_phase : Bool → Bool → Phase
start_phase true held = idle
start_phase false true = draining
start_phase false false = idle

-- How a reconcile of the node set ends, after these changes.
abbrev pub NodeSetEnd : NodeSet → Cluster → Log → Exit Outcome × Log → Type 0
NodeSetEnd instance cluster before =
    let live = is_zero instance.meta.deletion_timestamp in
    Concluded (Move live cluster.spec.cloud.group_name) (start_phase live (is_registered instance))
      before (Fits live)
