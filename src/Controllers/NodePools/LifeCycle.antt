-- ===== src/Controllers/NodePools/LifeCycle.antt =====
-- The order of the changes that a reconcile of a node pool asks for.
pub mod Walk
use azk.Base.{
  String, Bool, true, false, Option, none, some, List, [], ◌∷◌, refl, ◌==◌, if◌then◌else◌,
}
use azk.Api.{Error, NamespacedName, NodeSet, NodePool, spec_eq}
use azk.World.{
  Env, Log, Call, Exit, kube, manager_client, create_node_set, update_node_set, delete_node_set,
  update_node_pool_status, get_node_pool, get_node_set, list_node_sets, lift, ask, ◌>>=◌, Act, pure,
  on_error,
}
use azk.Changes.{
  changes, ChangesNothing-bind, ChangesNothing-lift, ChangesNothing-pure, ChangesNothing-ask,
}
use azk.Changes.Phases
use azk.Changes.Phases.{Moves, MayMove, Concludes, Concluded}
use azk.Controllers.Outcome.{Outcome, finished, requeued, failing}
use azk.Controllers.NodePools.{
  is_complete, observed, delete_others, perform_garbage_collection, report, propagate, create,
  reconcile, node_set_name, node_set_of,
}

pub data Phase : Type 0 where
  -- nothing was asked for; a node set was asked for
  idle made : Phase
  -- the node set was given another spec; a node set was deleted; the status of the pool was set
  propagated collecting reported : Phase

-- The changes that a phase allows.
pub data Move : Phase → Call → Phase → Type 0 where
  make : (node_set : NodeSet) → Move idle (kube manager_client (create_node_set node_set)) made
  pass_on :
      (node_set : NodeSet) → Move idle (kube manager_client (update_node_set node_set)) propagated
  collect_idle :
      (node_set : NodeSet) → Move idle (kube manager_client (delete_node_set node_set)) collecting
  collect_propagated :
      (node_set : NodeSet)
      → Move propagated (kube manager_client (delete_node_set node_set)) collecting
  collect :
      (node_set : NodeSet)
      → Move collecting (kube manager_client (delete_node_set node_set)) collecting
  tell_idle :
      (pool : NodePool) → Move idle (kube manager_client (update_node_pool_status pool)) reported
  tell_propagated :
      (pool : NodePool)
      → Move propagated (kube manager_client (update_node_pool_status pool)) reported
  tell_collecting :
      (pool : NodePool)
      → Move collecting (kube manager_client (update_node_pool_status pool)) reported

-- An outcome without an error: the reconcile is asked for again exactly when it made a node set, and
-- else it has found no pool or has set the pool's status.
abbrev FitsPhase : Option Error → Bool → Phase → Type 0
FitsPhase (some e) requeue p = Unit
FitsPhase none true made = Unit
FitsPhase none false idle = Unit
FitsPhase none false reported = Unit
FitsPhase none _ _ = ⊥

abbrev pub Fits : Outcome → Phase → Type 0
Fits o p = FitsPhase o.error o.requeue p

-- How a reconcile of a node pool ends, after these changes.
abbrev pub NodePoolEnd : Log → Exit Outcome × Log → Type 0
NodePoolEnd before = Concluded Move idle before Fits
