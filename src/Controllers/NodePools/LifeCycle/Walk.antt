-- ===== src/Controllers/NodePools/LifeCycle/Walk.antt =====
-- The walk of a node pool through its life cycle.
use azk.Base.{String, List, [], ◌∷◌, refl, ◌==◌, if◌then◌else◌}
use azk.Api.{Error, NamespacedName, NodeSet, NodePool, spec_eq}
use azk.World.{
  Env, Log, kube, manager_client, delete_node_set, update_node_pool_status, get_node_pool,
  get_node_set, list_node_sets, lift, ask, ◌>>=◌, Act, pure, on_error,
}
use azk.Changes.{
  changes, ChangesNothing-bind, ChangesNothing-lift, ChangesNothing-pure, ChangesNothing-ask,
}
use azk.Changes.Phases
use azk.Changes.Phases.{Moves, MayMove, Concludes, Concluded}
use azk.Controllers.Outcome.{Outcome, finished, requeued, failing}
use azk.Controllers.NodePools.{
  is_complete, observed, delete_others, perform_garbage_collection, report, propagate, create,
  reconcile, node_set_name, node_set_of,
}
use azk.Controllers.NodePools.LifeCycle.{
  Phase, idle, made, propagated, collecting, reported, Move, make, pass_on, collect_idle,
  collect_propagated, collect, tell_idle, tell_propagated, tell_collecting, Fits, NodePoolEnd,
}

module _ (env : Env) (before : Log) where
  failing-Concludes : (e : Error) (p : Phase) → Concludes Move idle before Fits p (failing e)
  failing-Concludes e p = Phases.Concludes-pure Move idle before Fits p _ tt

  deleted :
      (p : Phase) (node_set : NodeSet)
      → Move p (kube manager_client (delete_node_set node_set)) collecting
      → Moves Move idle before p collecting
          (ask env (kube manager_client (delete_node_set node_set)) >>= lift)
  deleted p node_set move =
      Phases.Moves-before_quiet Move idle before _ p collecting ChangesNothing-lift _
        (Phases.Moves-ask Move idle before env _ p collecting refl move)

  module _ (name : String) where
    collecting-Moves :
        (node_sets : List NodeSet)
        → Moves Move idle before collecting collecting (delete_others env name node_sets)
    unfolding delete_others
    collecting-Moves [] = Phases.Moves-quiet Move idle before collecting _ (ChangesNothing-pure tt)
    collecting-Moves (node_set ∷ node_sets) =
        let rest = collecting-Moves node_sets in
        Phases.Moves-elim Move idle before collecting collecting (node_set.meta.name == name) _ _
          rest
          (Phases.Moves-after_loop Move idle before _ collecting collecting (λ done. rest) _
            (deleted collecting node_set (collect node_set)))

    module _ (p : Phase)
        (allowed : (node_set : NodeSet)
          → Move p (kube manager_client (delete_node_set node_set)) collecting) where
      delete_others-MayMove :
          (node_sets : List NodeSet)
          → MayMove Move idle before p collecting (delete_others env name node_sets)
      unfolding delete_others
      delete_others-MayMove [] =
          Phases.MayMove-quiet Move idle before p collecting _ (ChangesNothing-pure tt)
      delete_others-MayMove (node_set ∷ node_sets) =
          Phases.MayMove-elim Move idle before p collecting (node_set.meta.name == name) _ _
            (delete_others-MayMove node_sets)
            (Phases.MayMove-moves Move idle before p collecting _ (
              Phases.Moves-before_loop Move idle before _ p collecting
                (λ done. collecting-Moves node_sets) _ (deleted p node_set (allowed node_set))))

      collection-MayMove :
          (namespace : String)
          → MayMove Move idle before p collecting (perform_garbage_collection env namespace name)
      unfolding perform_garbage_collection
      collection-MayMove namespace =
          Phases.MayMove-after_quiet Move idle before _ p collecting delete_others-MayMove _ (
            ChangesNothing-bind _ ChangesNothing-lift _
              (ChangesNothing-ask env (kube manager_client (list_node_sets namespace)) refl))

  module _ (pool : NodePool) (found : NodeSet) where
    told :
        (p : Phase)
        → Move p (kube manager_client (update_node_pool_status (observed pool found))) reported
        → Concludes Move idle before Fits p (
            on_error
              (ask env (kube manager_client (update_node_pool_status (observed pool found)))
                >>= lift)
              failing
              (λ _. pure finished))
    told p move =
        Phases.Concludes-asked Move idle before Fits _ _ reported
          (λ updated. Phases.Concludes-pure Move idle before Fits reported finished tt)
          (λ e. failing-Concludes e reported) env _ p lift refl move ChangesNothing-lift

    report-Concludes :
        (p : Phase)
        → ((node_set : NodeSet)
            → Move p (kube manager_client (delete_node_set node_set)) collecting)
        → Move p (kube manager_client (update_node_pool_status (observed pool found))) reported
        → Concludes Move idle before Fits p (report env pool found)
    unfolding report
    report-Concludes p allowed move =
        Phases.Concludes-if Move idle before Fits p (is_complete pool found) _ _
          (Phases.Concludes-MayMove Move idle before Fits _ _ p collecting (λ _. told p move)
            (λ _. told collecting (tell_collecting _)) (λ e. failing-Concludes e p)
            (λ e. failing-Concludes e collecting) _
            (collection-MayMove (node_set_name pool) p allowed pool.meta.namespace))
          (told p move)

  propagate-Concludes :
      (pool : NodePool) (wanted found : NodeSet)
      → Concludes Move idle before Fits idle (propagate env pool wanted found)
  unfolding propagate
  propagate-Concludes pool wanted found =
      Phases.Concludes-if Move idle before Fits idle (spec_eq wanted.spec found.spec) _ _
        (report-Concludes pool found idle collect_idle (tell_idle _))
        (Phases.Concludes-asked Move idle before Fits _ _ propagated
          (λ updated.
            report-Concludes pool updated propagated collect_propagated (tell_propagated _))
          (λ e. failing-Concludes e propagated) env _ idle lift refl (pass_on _)
          ChangesNothing-lift)

  create-Concludes : (wanted : NodeSet) → Concludes Move idle before Fits idle (create env wanted)
  unfolding create
  create-Concludes wanted =
      Phases.Concludes-asked Move idle before Fits _ _ made
        (λ updated. Phases.Concludes-pure Move idle before Fits made requeued tt)
        (λ e. failing-Concludes e made) env _ idle lift refl (make wanted) ChangesNothing-lift

  unless_missing :
      (e : Error) (m : Act Outcome)
      → Concludes Move idle before Fits idle m
      → Concludes Move idle before Fits idle (if env.is_not_found e then m else failing e)
  unless_missing e m k =
      Phases.Concludes-if Move idle before Fits idle (env.is_not_found e) _ _ k
        (failing-Concludes e idle)

  reconcile-Concludes :
      (request : NamespacedName) → Concludes Move idle before Fits idle (reconcile env request)
  unfolding reconcile
  reconcile-Concludes request =
      Phases.Concludes-quiet Move idle before Fits _ _ idle
        (λ pool.
          Phases.Concludes-quiet Move idle before Fits _ _ idle
            (λ meta.
              Phases.Concludes-quiet Move idle before Fits _ _ idle
                (λ found.
                  propagate-Concludes pool (record (node_set_of pool) { meta = meta }) found)
                (λ e. unless_missing e _ (create-Concludes _)) _
                (ChangesNothing-bind _ ChangesNothing-lift _ (
                  ChangesNothing-ask env
                    (kube manager_client
                      (get_node_set (record { namespace = meta.namespace; name = meta.name })))
                    refl)))
            (λ e. failing-Concludes e idle) _ (ChangesNothing-lift _))
        (λ e. unless_missing e _ (Phases.Concludes-pure Move idle before Fits idle finished tt)) _
        (ChangesNothing-bind _ ChangesNothing-lift _
          (ChangesNothing-ask env (kube manager_client (get_node_pool request)) refl))

-- The changes that a reconcile of a node pool asks for are a walk through its life cycle: either a node
-- set is asked for; or there is at most one update of a node set, then any number of deletions of
-- node sets, and then one update of the status of the pool. Any error is part of the outcome. An
-- outcome without one means that the walk was complete: the reconcile is asked for again exactly
-- when a node set was asked for, and else either nothing was or the status was set.
pub reconcile-NodePoolEnd :
    (env : Env) (request : NamespacedName) (log : Log)
    → NodePoolEnd (changes log) (reconcile env request log)
reconcile-NodePoolEnd env request log =
    (reconcile-Concludes env (changes log) request).at log Phases.here
