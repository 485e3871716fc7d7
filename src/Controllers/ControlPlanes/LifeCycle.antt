-- ===== src/Controllers/ControlPlanes/LifeCycle.antt =====
-- The order of the changes that a reconcile of a control plane asks for.
pub mod Walk
use azk.Base.{
  ℕ, String, Bool, true, false, Option, none, some, List, [], ◌∷◌, ◌≡◌, refl, ◌==◌, pos, ◌&&◌,
}
use azk.Api.{Error, VmStatus, ControlPlane, Cluster}
use azk.World.{
  Env, Log, Call, Exit, AzureClient, VirtualMachineScaleSet, azure, kube, manager_client,
  vmss_create_or_update, vms_run_command, update_control_plane_status, lift, ask, ◌>>=◌,
}
use azk.World.Ends.{NeverFails, unfailing_rules}
use azk.Azure.{get_custom_data}
use azk.Azure.Steps.{create_vmss-Moves}
use azk.Controllers.Quiet.{get_cluster-ChangesNothing, vm_statuses-ChangesNothing}
use azk.Changes.{
  changes, ChangesNothing, ChangesNothing-on_error, ChangesNothing-fail, ChangesNothing-lift,
  quiet_rules,
}
use azk.Changes.Phases
use azk.Changes.Phases.{At, Somewhere, Moves, Concludes, Concluded}
use azk.Changes.Calls.{ChangesNothing-bootstrap_token, ChangesNothing-custom_data}
use azk.Changes.Waits.{
  wait_for_nodes-ChangesNothing, wait_for_version-ChangesNothing, is_node_updated-ChangesNothing,
}
use azk.Controllers.Outcome.{Outcome, finished, requeued_after, failing}
use azk.Controllers.Scripts.{get_upgrade_script}
use azk.Controllers.ControlPlanes.{
  master_vmss_name, settled, with_state, upgrade_node, upgrade_nodes, finish_upgrade, upgrade_vmss,
  upgrade_if_needed, needs_upgrade, update_vmss_status, get_master_custom_data, settle, provision,
  reconcile_listed, reconcile_object,
}

pub data Phase : Type 0 where
  -- nothing was asked for; the status says `Updating`; the scale set was asked for; success was
  -- reported
  idle updating built reported : Phase

-- The changes that a phase allows.
pub data Move : Phase → Call → Phase → Type 0 where
  begin :
      (instance : ControlPlane)
      → instance.status.provisioning_state ≡ "Updating"
      → Move idle (kube manager_client (update_control_plane_status instance)) updating
  build :
      (client : AzureClient) (group : String) (vmss : VirtualMachineScaleSet)
      → vmss.sku_capacity ≡ pos 3
      → Move updating (azure client (vmss_create_or_update group master_vmss_name vmss)) built
  upgrade :
      (client : AzureClient) (group id version : String)
      → Move built
          (azure client (vms_run_command group master_vmss_name id (get_upgrade_script version)))
          built
  report :
      (instance : ControlPlane)
      → instance.status.provisioning_state ≡ "Succeeded"
      → instance.status.kubernetes_version ≡ instance.spec.kubernetes_version
      → Move built (kube manager_client (update_control_plane_status instance)) reported

-- An outcome without an error: the reconcile is done in the first or the last phase, and asked for
-- again only in the first.
abbrev FitsPhase : Option Error → Bool → Phase → Type 0
FitsPhase (some e) requeue p = Unit
FitsPhase none true idle = Unit
FitsPhase none false idle = Unit
FitsPhase none false reported = Unit
FitsPhase none _ _ = ⊥

abbrev pub Fits : Outcome → Phase → Type 0
Fits o p = FitsPhase o.error o.requeue p

-- How a reconcile of a control plane ends, after these changes.
abbrev pub ControlPlaneEnd : Log → Exit Outcome × Log → Type 0
ControlPlaneEnd before = Concluded Move idle before Fits
