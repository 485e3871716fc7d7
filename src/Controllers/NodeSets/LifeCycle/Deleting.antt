-- ===== src/Controllers/NodeSets/LifeCycle/Deleting.antt =====
-- The walk of a node set that is being deleted through its life cycle.
use azk.Base.{String, true, false, List, [], ◌∷◌, ◌≡◌, refl}
use azk.Api.{VmStatus, NodeSet, Cluster, is_valid}
use azk.World.{Env, Log, Call, kube, manager_client, update_node_set, lift}
use azk.Helpers.{contains_finalizer-removed}
use azk.Azure.Steps.{delete_vmss-Moves}
use azk.Changes.{ChangesNothing-lift, ChangesNothing-pure}
use azk.Changes.Phases
use azk.Changes.Phases.{Moves, MayMove, Concludes, Concluded}
use azk.Changes.Drains.{cordon_drain-Moves}
use azk.Controllers.Outcome.{finished, requeued}
use azk.Controllers.NodeSets.{
  node_sets_finalizer_name, cloud_configuration, drain_all, delete_node_set, release, finalize,
}
use azk.Controllers.NodeSets.LifeCycle.{
  Phase, idle, draining, drain_last, remove_last_node, deleted, released, is_registered, Move,
  delete, release_kept, release_deleted, Fits,
}

module _ (env : Env) (before : Log) (cluster : Cluster) where
  abbrev Step : Phase → Call → Phase → Type 0
  Step = Move false cluster.spec.cloud.group_name

  module _ (instance : NodeSet) where
    release-Concludes :
        (p : Phase)
        → ((freed : NodeSet)
            → is_registered freed ≡ false
            → Step p (kube manager_client (update_node_set freed)) released)
        → Concludes Step draining before (Fits false) p (release env instance)
    unfolding release
    release-Concludes p allowed =
        Phases.Concludes-asked Step draining before (Fits false) _ _ released
          (λ updated. Phases.Concludes-pure Step draining before (Fits false) released finished tt)
          (λ e. Phases.Concludes-pure Step draining before (Fits false) released requeued tt) env _
          p lift refl
          (allowed _ (contains_finalizer-removed instance.meta.finalizers node_sets_finalizer_name))
          ChangesNothing-lift

    drain_all-Moves :
        (kubeconfig : String) (vms : List VmStatus)
        → Moves Step draining before draining draining (drain_all env kubeconfig vms)
    unfolding drain_all
    drain_all-Moves kubeconfig [] =
        Phases.Moves-quiet Step draining before draining _ (ChangesNothing-pure tt)
    drain_all-Moves kubeconfig (vm ∷ vms) =
        let rest = drain_all-Moves kubeconfig vms in
        Phases.Moves-handled_loop Step draining before _ draining draining (λ _. rest) _ (λ e. rest)
          _
          (cordon_drain-Moves Step draining before env kubeconfig vm.vm_computer_name draining
            (drain_last refl _ _) (remove_last_node refl _ _))

    deletion-Moves :
        Moves Step draining before draining deleted
          (delete_node_set env instance (cloud_configuration cluster))
    unfolding delete_node_set
    deletion-Moves =
        Phases.Moves-after_loop Step draining before _ draining deleted
          (λ drained.
            delete_vmss-Moves Step draining before env (cloud_configuration cluster) _ draining
              deleted (λ client. delete refl client _))
          _ (drain_all-Moves _ _)

    pub finalize-Concludes :
        is_registered instance ≡ true
        → Concludes Step draining before (Fits false) draining (finalize env instance cluster)
    unfolding finalize
    finalize-Concludes held =
        let kept = release-Concludes draining (release_kept refl) in
        let after = release-Concludes deleted (release_deleted refl) in
        rw held (
          Phases.Concludes-if Step draining before (Fits false) draining
            (is_valid (cloud_configuration cluster)) _ _
            (Phases.Concludes-MayMove Step draining before (Fits false) _ _ draining deleted
              (λ _. kept) (λ _. after) (λ e. kept) (λ e. after) _
              (Phases.MayMove-moves Step draining before draining deleted _ deletion-Moves))
            kept)

    -- Without the finalizer there is nothing to do.
    pub ignored-Concludes :
        is_registered instance ≡ false
        → Concludes Step idle before (Fits false) idle (finalize env instance cluster)
    unfolding finalize
    ignored-Concludes free =
        rw free (Phases.Concludes-pure Step idle before (Fits false) idle finished tt)
