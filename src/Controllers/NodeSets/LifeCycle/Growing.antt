-- ===== src/Controllers/NodeSets/LifeCycle/Growing.antt =====
-- The walk of a live node set through its life cycle.
use azk.Base.{ℕ, suc, String, true, List, [], ◌∷◌, refl, pos, ℤ, ltb_ℤ, length, int_eq}
use azk.Api.{Error, VmStatus, NodeSet, Cluster, CloudConfiguration}
use azk.World.{Env, Log, Call, manager_client, lift, ask, ◌>>=◌, deref, pure, record_event}
use azk.World.Ends.{NeverFails-deref}
use azk.Helpers.{contains_finalizer-append}
use azk.Azure.Steps.{create_vmss-Moves, scale_vmss-MayMove}
use azk.Changes.{
  ChangesNothing, ChangesNothing-lift, ChangesNothing-deref, ChangesNothing-pure,
  ChangesNothing-usable, quiet_rules,
}
use azk.Changes.Phases
use azk.Changes.Phases.{Moves, MayMove, Concludes, Concluded}
use azk.Changes.Drains.{cordon_drain-Moves}
use azk.Changes.Waits.{wait_for_nodes-ChangesNothing}
use azk.Controllers.Quiet.{vm_statuses-ChangesNothing}
use azk.Controllers.Outcome.{Outcome, finished, requeued, requeued_after, with_error, failing}
use azk.Controllers.NodeSets.{
  node_sets_finalizer_name, agent_vmss, settled, with_state, cloud_configuration, remove_surplus,
  scale_node_set, update_node_set_nodes, register, create, scale, settle, provision,
}
use azk.Controllers.NodeSets.Scaling.{ChangesNothing-node_set_custom_data}
use azk.Controllers.NodeSets.LifeCycle.{
  Phase, idle, registered, updating, built, scaling, resized, reported, Move, register_it, begin,
  drain, remove_node, build, rescale, remove, resize, report, Fits,
}

module _ (env : Env) (before : Log) (cluster : Cluster) where
  abbrev Step : Phase → Call → Phase → Type 0
  Step = Move true cluster.spec.cloud.group_name

  module _ (instance : NodeSet) where
    surplus-Moves :
        (count : ℤ) (nodes : List VmStatus) (cur : ℕ)
        → Moves Step idle before scaling scaling
            (remove_surplus env instance cluster count nodes cur)
    unfolding remove_surplus
    surplus-Moves count [] cur =
        Phases.Moves-quiet Step idle before scaling _ (ChangesNothing-pure tt)
    surplus-Moves count (node ∷ nodes) cur =
        let kept = surplus-Moves count nodes (suc cur) in
        let removed = surplus-Moves count nodes cur in
        Phases.Moves-elim Step idle before scaling scaling (ltb_ℤ (pos cur) count) _ _ kept (
          Phases.Moves-after_loop Step idle before _ scaling scaling
            (λ drained.
              Phases.Moves-after_quiet Step idle before _ scaling scaling
                (λ client.
                  Phases.Moves-after_loop Step idle before _ scaling scaling (λ done. removed) _
                    (Phases.Moves-before_quiet Step idle before _ scaling scaling
                      ChangesNothing-lift _
                      (Phases.Moves-ask Step idle before env _ scaling scaling refl
                        (remove refl client _ node.vm_instance_id))))
                _ (ChangesNothing-usable _))
            _
            (cordon_drain-Moves Step idle before env instance.status.kubeconfig
              node.vm_computer_name scaling (drain refl _ _) (remove_node refl _ _)))

    scale_node_set-MayMove :
        MayMove Step idle before scaling resized (scale_node_set env instance cluster)
    unfolding scale_node_set
    scale_node_set-MayMove =
        Phases.MayMove-after_quiet Step idle before _ scaling resized
          (λ count.
            Phases.MayMove-after_loop Step idle before _ scaling resized
              (λ removed.
                Phases.MayMove-after_quiet Step idle before _ scaling resized
                  (λ custom_data.
                    scale_vmss-MayMove Step idle before env cluster.spec.cloud (agent_vmss instance)
                      custom_data count scaling resized (λ client. resize refl client _ _ _))
                  _ (ChangesNothing-node_set_custom_data env instance cluster))
              _ (surplus-Moves count instance.status.node_status 0))
          _ (ChangesNothing-deref instance.spec.replicas)

    pub update_nodes-ChangesNothing :
        (cloud : CloudConfiguration) → ChangesNothing (update_node_set_nodes env instance cloud)
    unfolding update_node_set_nodes
    update_nodes-ChangesNothing cloud = search (quiet_rules, vm_statuses-ChangesNothing)

  -- What an outcome has to fit to, when those with an error fit to every phase.
  module _ (F : Outcome → Phase → Type 0)
      (erring : (o : Outcome) (e : Error) (p : Phase) → F (with_error o e) p) where
    failing-Concludes : (e : Error) (p : Phase) → Concludes Step idle before F p (failing e)
    failing-Concludes e p = Phases.Concludes-pure Step idle before F p _ (erring finished e p)

    module _ (instance : NodeSet) where
      pub register-Concludes :
          F requeued registered → Concludes Step idle before F idle (register env instance)
      unfolding register
      register-Concludes done =
          Phases.Concludes-asked Step idle before F _ _ registered
            (λ updated. Phases.Concludes-pure Step idle before F registered requeued done)
            (λ e.
              Phases.Concludes-pure Step idle before F registered _ (erring requeued e registered))
            env _ idle lift refl
            (register_it refl _
              (contains_finalizer-append instance.meta.finalizers node_sets_finalizer_name))
            ChangesNothing-lift

      pub create-Concludes :
          (sku : String)
          → F requeued built
          → Concludes Step idle before F idle (create env instance cluster sku)
      unfolding create
      create-Concludes sku made =
          Phases.Concludes-moves Step idle before F _ _ idle updating
            (λ updated.
              Phases.Concludes-quiet Step idle before F _ _ updating
                (λ custom_data.
                  Phases.Concludes-after Step idle before F _ updating
                    (λ replicas.
                      Phases.Concludes-moves Step idle before F _ _ updating built
                        (λ done.
                          Phases.Concludes-recorded Step idle before F env built _ _ _ _ requeued
                            made)
                        failing-Concludes _
                        (create_vmss-Moves Step idle before env (cloud_configuration cluster) _ _
                          replicas updating built (λ client vmss sized. build refl client _ vmss) _
                          _ _ _))
                    _ (ChangesNothing-deref updated.spec.replicas)
                    (NeverFails-deref updated.spec.replicas))
                (λ e.
                  Phases.Concludes-pure Step idle before F updating _
                    (erring (requeued_after 30) e updating))
                _ (ChangesNothing-node_set_custom_data env updated cluster))
            failing-Concludes _
            (Phases.Moves-before_quiet Step idle before _ idle updating ChangesNothing-lift _ (
              Phases.Moves-ask Step idle before env _ idle updating refl
                (begin refl (with_state instance "Updating") refl)))

      scaled-Concludes :
          (p : Phase)
          → F requeued p
          → (text : ℤ → String)
          → Concludes Step idle before F p (
              deref instance.spec.replicas >>= λ replicas.
              ask env (record_event instance.meta "Normal" "Scaled" (text replicas)) >>= λ _.
              pure requeued)
      scaled-Concludes p fits text =
          Phases.Concludes-after Step idle before F _ p
            (λ replicas. Phases.Concludes-recorded Step idle before F env p _ _ _ _ requeued fits) _
            (ChangesNothing-deref instance.spec.replicas) (NeverFails-deref instance.spec.replicas)

    pub scale-Concludes :
        (instance : NodeSet)
        → F requeued scaling
        → F requeued resized
        → Concludes Step idle before F idle (scale env instance cluster)
    unfolding scale
    scale-Concludes instance kept resized_fits =
        Phases.Concludes-moves Step idle before F _ _ idle scaling
          (λ updated.
            Phases.Concludes-MayMove Step idle before F _ _ scaling resized
              (λ done. scaled-Concludes updated scaling kept _)
              (λ done. scaled-Concludes updated resized resized_fits _)
              (λ e. failing-Concludes e scaling) (λ e. failing-Concludes e resized) _
              (scale_node_set-MayMove updated))
          failing-Concludes _
          (Phases.Moves-before_quiet Step idle before _ idle scaling ChangesNothing-lift _ (
            Phases.Moves-ask Step idle before env _ idle scaling refl
              (rescale refl (with_state instance "Scaling") refl)))

    module _ (instance : NodeSet) where
      pub settle-Concludes :
          (replicas : ℤ)
          → F finished reported
          → Concludes Step idle before F idle (settle env instance cluster replicas)
      unfolding settle
      settle-Concludes replicas told =
          Phases.Concludes-quiet Step idle before F _ _ idle
            (λ ready.
              Phases.Concludes-asked Step idle before F _ _ reported
                (λ updated. Phases.Concludes-pure Step idle before F reported finished told)
                (λ e. failing-Concludes e reported) env _ idle lift refl
                (report refl (settled instance cluster) refl refl) ChangesNothing-lift)
            (λ e.
              Phases.Concludes-pure Step idle before F idle _ (erring (requeued_after 30) e idle))
            _ (wait_for_nodes-ChangesNothing env manager_client instance.meta.name replicas)

  erring : (o : Outcome) (e : Error) (p : Phase) → Fits true (with_error o e) p
  erring o e p = tt

  pub live_register-Concludes :
      (instance : NodeSet) → Concludes Step idle before (Fits true) idle (register env instance)
  live_register-Concludes instance = register-Concludes (Fits true) erring instance tt

  pub provision-Concludes :
      (instance : NodeSet)
      → Concludes Step idle before (Fits true) idle (provision env instance cluster)
  unfolding provision
  provision-Concludes instance =
      Phases.Concludes-quiet Step idle before (Fits true) _ _ idle
        (λ seen.
          Phases.Concludes-after Step idle before (Fits true) _ idle
            (λ replicas.
              Phases.Concludes-if Step idle before (Fits true) idle
                (int_eq replicas (pos (length seen.status.node_status))) _ _
                (settle-Concludes (Fits true) erring seen replicas tt)
                (scale-Concludes (Fits true) erring seen tt tt))
            _ (ChangesNothing-deref seen.spec.replicas) (NeverFails-deref seen.spec.replicas))
        (λ e. create-Concludes (Fits true) erring instance _ tt) _
        (update_nodes-ChangesNothing instance (cloud_configuration cluster))
