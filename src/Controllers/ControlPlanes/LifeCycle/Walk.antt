-- ===== src/Controllers/ControlPlanes/LifeCycle/Walk.antt =====
-- The walk of a control plane through its life cycle.
use azk.Base.{ℕ, String, List, [], ◌∷◌, refl, ◌==◌, pos, ◌&&◌}
use azk.Api.{Error, VmStatus, ControlPlane, Cluster}
use azk.World.{
  Env, Log, AzureClient, kube, manager_client, update_control_plane_status, lift, ask, ◌>>=◌,
}
use azk.World.Ends.{NeverFails, unfailing_rules}
use azk.Azure.{get_custom_data}
use azk.Azure.Steps.{create_vmss-Moves}
use azk.Controllers.Quiet.{get_cluster-ChangesNothing, vm_statuses-ChangesNothing}
use azk.Changes.{
  changes, ChangesNothing, ChangesNothing-on_error, ChangesNothing-fail, ChangesNothing-lift,
  quiet_rules,
}
use azk.Changes.Phases
use azk.Changes.Phases.{At, Somewhere, Moves, Concludes, Concluded}
use azk.Changes.Calls.{ChangesNothing-bootstrap_token, ChangesNothing-custom_data}
use azk.Changes.Waits.{
  wait_for_nodes-ChangesNothing, wait_for_version-ChangesNothing, is_node_updated-ChangesNothing,
}
use azk.Controllers.Outcome.{finished, requeued_after, failing}
use azk.Controllers.ControlPlanes.{
  master_vmss_name, settled, with_state, upgrade_node, upgrade_nodes, finish_upgrade, upgrade_vmss,
  upgrade_if_needed, needs_upgrade, update_vmss_status, get_master_custom_data, settle, provision,
  reconcile_listed, reconcile_object,
}
use azk.Controllers.ControlPlanes.LifeCycle.{
  Phase, idle, updating, built, reported, Move, begin, build, upgrade, report, Fits,
  ControlPlaneEnd,
}

module _ (env : Env) (before : Log) where
  module _ (client : AzureClient) (group version : String) where
    finish_quiet :
        (name : String) (future : ℕ)
        → ChangesNothing (finish_upgrade env client name version future)
    unfolding finish_upgrade
    finish_quiet name future =
        search
          (
            quiet_rules, ChangesNothing-on_error, ChangesNothing-fail,
            wait_for_version-ChangesNothing,
          )
          depth 20

    node-Moves :
        (node : VmStatus)
        → Moves Move idle before built built (upgrade_node env client group version node)
    unfolding upgrade_node
    node-Moves node =
        Phases.Moves-before_quiet Move idle before _ built built
          (λ future. finish_quiet node.vm_computer_name future) _
          (Phases.Moves-before_quiet Move idle before _ built built ChangesNothing-lift _ (
            Phases.Moves-ask Move idle before env _ built built refl
              (upgrade client group node.vm_instance_id version)))

    nodes-Moves :
        (nodes : List VmStatus)
        → Moves Move idle before built built (upgrade_nodes env client group version nodes)
    unfolding upgrade_nodes
    nodes-Moves [] = search (Phases.Moves-quiet, quiet_rules)
    nodes-Moves (node ∷ nodes) =
        let rest = nodes-Moves nodes in
        Phases.Moves-after_quiet Move idle before _ built built
          (λ is_updated. Phases.Moves-elim Move idle before built built is_updated _ _ rest (
            Phases.Moves-after_loop Move idle before _ built built (λ done. rest) _
              (node-Moves node)))
          _ (is_node_updated-ChangesNothing env manager_client node.vm_computer_name version)

  module _ (instance : ControlPlane) (cluster : Cluster) where
    upgrade_vmss-Moves : Moves Move idle before built built (upgrade_vmss env instance cluster)
    unfolding upgrade_vmss
    upgrade_vmss-Moves = search (Phases.Moves-after_quiet, nodes-Moves, quiet_rules)

    upgrade_if_needed-Moves :
        Moves Move idle before built built (upgrade_if_needed env instance cluster)
    upgrade_if_needed-Moves =
        Phases.Moves-if Move idle before built built (needs_upgrade instance) _ _ upgrade_vmss-Moves
          (search (Phases.Moves-quiet, quiet_rules))

  failing-Concludes : (e : Error) (p : Phase) → Concludes Move idle before Fits p (failing e)
  failing-Concludes e p = Phases.Concludes-pure Move idle before Fits p _ tt

  written :
      (instance : ControlPlane) (p q : Phase)
      → Move p (kube manager_client (update_control_plane_status instance)) q
      → Moves Move idle before p q
          (ask env (kube manager_client (update_control_plane_status instance)) >>= lift)
  written instance p q move =
      Phases.Moves-before_quiet Move idle before _ p q ChangesNothing-lift _
        (Phases.Moves-ask Move idle before env _ p q refl move)

  settle-Concludes :
      (instance : ControlPlane) (cluster : Cluster)
      → Concludes Move idle before Fits built (settle env instance cluster)
  unfolding settle
  settle-Concludes instance cluster =
      Phases.Concludes-moves Move idle before Fits _ _ built built
        (λ upgraded.
          Phases.Concludes-quiet Move idle before Fits _ _ built
            (λ ready.
              Phases.Concludes-moves Move idle before Fits _ _ built reported
                (λ updated.
                  Phases.Concludes-recorded Move idle before Fits env reported _ _ _ _ finished tt)
                failing-Concludes _
                (written (settled instance) built reported (report _ refl refl)))
            (λ e. Phases.Concludes-pure Move idle before Fits built _ tt) _
            (wait_for_nodes-ChangesNothing env manager_client master_vmss_name (pos 3)))
        failing-Concludes _ (upgrade_if_needed-Moves instance cluster)

  module _ (cluster : Cluster) where
    custom_data-ChangesNothing :
        (instance : ControlPlane) (token : String)
        → ChangesNothing (get_master_custom_data env instance cluster token)
    unfolding get_master_custom_data
    custom_data-ChangesNothing instance token = search (quiet_rules, ChangesNothing-custom_data)

    custom_data-NeverFails :
        (instance : ControlPlane) (token : String)
        → NeverFails (get_master_custom_data env instance cluster token)
    unfolding get_master_custom_data get_custom_data
    custom_data-NeverFails instance token = search unfailing_rules depth 20

    provision-Concludes :
        (instance : ControlPlane)
        → Concludes Move idle before Fits idle (provision env instance cluster)
    unfolding provision
    provision-Concludes instance =
        Phases.Concludes-moves Move idle before Fits _ _ idle updating
          (λ updated.
            Phases.Concludes-quiet Move idle before Fits _ _ updating
              (λ token.
                Phases.Concludes-after Move idle before Fits _ updating
                  (λ custom_data.
                    Phases.Concludes-moves Move idle before Fits _ _ updating built
                      (λ done. settle-Concludes updated cluster) failing-Concludes _
                      (create_vmss-Moves Move idle before env cluster.spec.cloud _ _ (pos 3)
                        updating built (λ client vmss sized. build client _ vmss sized) _ _ _ _))
                  _ (custom_data-ChangesNothing updated token)
                  (custom_data-NeverFails updated token))
              (λ e. Phases.Concludes-pure Move idle before Fits updating _ tt) _
              (ChangesNothing-bootstrap_token env))
          failing-Concludes _
          (written (with_state instance "Updating") idle updating (begin _ refl))

    listed-Concludes :
        (instance : ControlPlane)
        → Concludes Move idle before Fits idle (reconcile_listed env instance cluster)
    unfolding reconcile_listed
    listed-Concludes instance =
        Phases.Concludes-if Move idle before Fits idle
          (instance.status.provisioning_state == "Succeeded"
            && instance.spec.kubernetes_version == instance.status.kubernetes_version)
          _ _ (Phases.Concludes-pure Move idle before Fits idle finished tt)
          (provision-Concludes instance)

    update_status-ChangesNothing :
        (instance : ControlPlane) → ChangesNothing (update_vmss_status env instance cluster)
    unfolding update_vmss_status
    update_status-ChangesNothing instance = search (quiet_rules, vm_statuses-ChangesNothing)

  object-Concludes :
      (instance : ControlPlane)
      → Concludes Move idle before Fits idle (reconcile_object env instance)
  unfolding reconcile_object
  object-Concludes instance =
      Phases.Concludes-if Move idle before Fits idle
        (instance.spec.kubernetes_version == instance.status.kubernetes_version) _ _
        (Phases.Concludes-pure Move idle before Fits idle finished tt)
        (Phases.Concludes-quiet Move idle before Fits _ _ idle
          (λ cluster.
            Phases.Concludes-if Move idle before Fits idle
              (cluster.status.provisioning_state == "Succeeded") _ _
              (Phases.Concludes-quiet Move idle before Fits _ _ idle
                (λ listed. listed-Concludes cluster listed) (λ e. failing-Concludes e idle) _
                (update_status-ChangesNothing cluster instance))
              (Phases.Concludes-pure Move idle before Fits idle (requeued_after 10) tt))
          (λ e. Phases.Concludes-pure Move idle before Fits idle _ tt) _
          (get_cluster-ChangesNothing env instance.meta.namespace))

-- The changes that a reconcile of a control plane asks for are a walk through its life cycle: the
-- status is set to `Updating`, then a scale set of three machines is asked for, then machines are
-- upgraded, and then success is reported, at the version of the spec. A walk that stops early ends
-- in an error or a panic: when an outcome without an error is returned, either no change was asked
-- for or success was reported, and the reconcile is asked for again only if none was. No error is
-- returned outside the outcome.
pub reconcile_object-ControlPlaneEnd :
    (env : Env) (instance : ControlPlane) (log : Log)
    → ControlPlaneEnd (changes log) (reconcile_object env instance log)
reconcile_object-ControlPlaneEnd env instance log =
    (object-Concludes env (changes log) instance).at log Phases.here
