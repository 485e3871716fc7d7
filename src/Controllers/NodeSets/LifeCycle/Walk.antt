-- ===== src/Controllers/NodeSets/LifeCycle/Walk.antt =====
-- The walk of a node set through its life cycle.
use azk.Base.{Bool, true, false, ◌≡◌, refl}
use azk.Api.{NodeSet, Cluster, is_zero}
use azk.World.{Env, Log}
use azk.Changes.{changes}
use azk.Changes.Phases
use azk.Changes.Phases.{Moves, MayMove, Concludes, Concluded}
use azk.Controllers.NodeSets.{reconcile_object}
use azk.Controllers.NodeSets.LifeCycle.{idle, is_registered, Move, Fits, start_phase, NodeSetEnd}
use azk.Controllers.NodeSets.LifeCycle.Growing.{live_register-Concludes, provision-Concludes}
use azk.Controllers.NodeSets.LifeCycle.Deleting.{finalize-Concludes, ignored-Concludes}

object-Concludes :
    (env : Env) (before : Log) (instance : NodeSet) (cluster : Cluster) (live held : Bool)
    → is_zero instance.meta.deletion_timestamp ≡ live
    → is_registered instance ≡ held
    → Concludes
        (Move live cluster.spec.cloud.group_name)
        (start_phase live held)
        before
        (Fits live)
        (start_phase live held)
        (reconcile_object env instance cluster)
unfolding reconcile_object
object-Concludes env before instance cluster true held h k = rw h (
    Phases.Concludes-if (Move true cluster.spec.cloud.group_name) idle before (Fits true) idle
      (is_registered instance) _ _ (provision-Concludes env before cluster instance)
      (live_register-Concludes env before cluster instance))
object-Concludes env before instance cluster false true h k =
    rw h (finalize-Concludes env before cluster instance k)
object-Concludes env before instance cluster false false h k =
    rw h (ignored-Concludes env before cluster instance k)

-- In a cluster that is set up, the changes that a reconcile of a node set asks for are a walk through
-- its life cycle, in the cluster's resource group. A live node set is given the finalizer; or its
-- status is set to `Updating`, and then a scale set is asked for; or its status is set to
-- `Scaling`, then nodes are drained and deleted and machines are deleted, and then the capacity is set
-- at most once; or success is reported, at the version of its spec. For one that is being deleted and
-- carries the finalizer, nodes are drained and deleted, then the deletion of a scale set is asked for
-- at most once, and then one update to an object without the finalizer; without the finalizer nothing
-- is asked for. Bootstrap tokens are not counted. Any error is part of the outcome. An outcome without
-- one means that the walk was complete: the reconcile of a live node set is asked for again unless
-- success was reported, and the other one ends with the update, or has asked for nothing. An error or
-- a panic may stop the walk of a live node set anywhere, and only a panic that of the other one,
-- whose outcome has no error.
pub reconcile_object-NodeSetEnd :
    (env : Env) (instance : NodeSet) (cluster : Cluster) (log : Log)
    → NodeSetEnd instance cluster (changes log) (reconcile_object env instance cluster log)
reconcile_object-NodeSetEnd env instance cluster log =
    (object-Concludes env (changes log) instance cluster _ _ refl refl).at log Phases.here
