-- ===== src/Controllers/Clusters/LifeCycle/Walk.antt =====
-- The walk of a cluster through its life cycle.
use azk.Base.{Bool, true, false, ◌≡◌, refl}
use azk.Api.{NamespacedName, Cluster, is_valid, is_zero}
use azk.World.{Env, Log, Call, kube, manager_client, update_cluster, lift}
use azk.Helpers.{contains_finalizer-removed, contains_finalizer-append}
use azk.Azure.Steps.{delete_group-Moves}
use azk.Changes.{changes, ChangesNothing-lift}
use azk.Changes.Phases
use azk.Changes.Phases.{Concludes, Concluded}
use azk.Controllers.Outcome.{finished, requeued}
use azk.Controllers.Clusters.{
  cluster_finalizer_name, succeeded, register, release, finalize, complete, reconcile_object,
}
use azk.Controllers.Clusters.LifeCycle.{
  Phase, idle, registered, completed, deleted, released, is_registered, Move, register_it, report,
  delete, release_kept, release_deleted, Fits, ClusterEnd,
}

module _ (env : Env) (before : Log) (instance : Cluster) where
  abbrev Live : Phase → Call → Phase → Type 0
  Live = Move true instance.spec.cloud.group_name

  register-Concludes : Concludes Live idle before (Fits true) idle (register env instance)
  unfolding register
  register-Concludes =
      Phases.Concludes-asked Live idle before (Fits true) _ _ registered
        (λ updated. Phases.Concludes-pure Live idle before (Fits true) registered requeued tt)
        (λ e. Phases.Concludes-pure Live idle before (Fits true) registered _ tt) env _ idle lift
        refl
        (register_it refl _
          (contains_finalizer-append instance.meta.finalizers cluster_finalizer_name))
        ChangesNothing-lift

  complete-Concludes :
      (request : NamespacedName)
      → Concludes Live idle before (Fits true) idle (complete env request instance)
  unfolding complete
  complete-Concludes request =
      Phases.Concludes-asked Live idle before (Fits true) _ _ completed
        (λ updated.
          Phases.Concludes-recorded Live idle before (Fits true) env completed _ _ _ _ finished tt)
        (λ e. Phases.Concludes-pure Live idle before (Fits true) completed _ tt) env _ idle lift
        refl (report refl (succeeded instance) refl) ChangesNothing-lift

module _ (env : Env) (before : Log) (instance : Cluster) where
  abbrev Dying : Phase → Call → Phase → Type 0
  Dying = Move false instance.spec.cloud.group_name

  release-Concludes :
      (p : Phase)
      → ((freed : Cluster)
          → is_registered freed ≡ false
          → Dying p (kube manager_client (update_cluster freed)) released)
      → Concludes Dying idle before (Fits false) p (release env instance)
  unfolding release
  release-Concludes p allowed =
      Phases.Concludes-asked Dying idle before (Fits false) _ _ released
        (λ updated. Phases.Concludes-pure Dying idle before (Fits false) released finished tt)
        (λ e. Phases.Concludes-pure Dying idle before (Fits false) released requeued tt) env _ p
        lift refl
        (allowed _ (contains_finalizer-removed instance.meta.finalizers cluster_finalizer_name))
        ChangesNothing-lift

  finalize-Concludes : Concludes Dying idle before (Fits false) idle (finalize env instance)
  unfolding finalize
  finalize-Concludes =
      let kept = release-Concludes idle (release_kept refl) in
      let after = release-Concludes deleted (release_deleted refl) in
      Phases.Concludes-if Dying idle before (Fits false) idle (is_registered instance) _ _
        (Phases.Concludes-if Dying idle before (Fits false) idle (is_valid instance.spec.cloud) _ _
          (Phases.Concludes-MayMove Dying idle before (Fits false) _ _ idle deleted (λ _. kept)
            (λ _. after) (λ e. kept) (λ e. after) _
            (Phases.MayMove-moves Dying idle before idle deleted _ (
              delete_group-Moves Dying idle before env instance.spec.cloud idle deleted
                (delete refl))))
          kept)
        (Phases.Concludes-pure Dying idle before (Fits false) idle finished tt)

object-Concludes :
    (env : Env) (before : Log) (request : NamespacedName) (instance : Cluster) (live : Bool)
    → is_zero instance.meta.deletion_timestamp ≡ live
    → Concludes
        (Move live instance.spec.cloud.group_name)
        idle
        before
        (Fits live)
        idle
        (reconcile_object env request instance)
unfolding reconcile_object
object-Concludes env before request instance true h = rw h (
    Phases.Concludes-if (Move true instance.spec.cloud.group_name) idle before (Fits true) idle
      (is_registered instance) _ _ (complete-Concludes env before instance request)
      (register-Concludes env before instance))
object-Concludes env before request instance false h = rw h (finalize-Concludes env before instance)

-- The changes that a reconcile of a cluster asks for are a walk through its life cycle. A live
-- cluster is given the finalizer or is reported as set up, and its resource group is not deleted.
-- For one that is being deleted, at most the deletion of its resource group and then one update to
-- an object without the finalizer are asked for. Any error is part of the outcome, and is only that
-- of the finalizer or of the report of a live cluster, after the update was asked for; an outcome
-- for a cluster that is being deleted has none. Without an error, the reconcile of a live cluster
-- is asked for again unless success was reported, and the other one ends with the update, or has
-- asked for nothing. So only a panic stops a walk that has begun before its end.
pub reconcile_object-ClusterEnd :
    (env : Env) (request : NamespacedName) (instance : Cluster) (log : Log)
    → ClusterEnd instance (changes log) (reconcile_object env request instance log)
reconcile_object-ClusterEnd env request instance log =
    (object-Concludes env (changes log) request instance _ refl).at log Phases.here
