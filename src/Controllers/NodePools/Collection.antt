-- ===== src/Controllers/NodePools/Collection.antt =====
-- Which node sets the garbage collection of a node pool deletes.
use azk.Base.{String, List, [], ◌∷◌, ◌≡◌, refl, ◌⊎◌, inl, arith, ◌==◌, if◌then◌else◌}
use azk.Api.{ok, NodeSet}
use azk.World.{
  Env, Log, Call, Exit, returned, failed, panicked, kube, manager_client, delete_node_set,
  list_node_sets,
}
use azk.Controllers.NodePools.{delete_others, perform_garbage_collection}

abbrev pub deletion : NodeSet → Call
deletion node_set = kube manager_client (delete_node_set node_set)

-- The log after deleting each node set that has another name, in the order of the list.
abbrev pub others_deleted : String → List NodeSet → Log → Log
others_deleted name [] log = log
others_deleted name (node_set ∷ node_sets) log =
    others_deleted name node_sets
      (if node_set.meta.name == name then log else deletion node_set ∷ log)

-- The log after deleting some of the node sets that have another name, in order from the first.
abbrev pub DeletedSome : String → List NodeSet → Log → Log → Type 0
DeletedSome name [] log after = after ≡ log
DeletedSome name (node_set ∷ node_sets) log after =
    (after ≡ log)
    ⊎ DeletedSome name node_sets
        (if node_set.meta.name == name then log else deletion node_set ∷ log) after

abbrev pub Collected : String → List NodeSet → Log → Exit (Unit {0}) × Log → Type 0
Collected name node_sets log (returned _, after) = after ≡ others_deleted name node_sets log
Collected name node_sets log (failed _, after) = DeletedSome name node_sets log after
Collected name node_sets log (panicked, after) = ⊥

module _ (env : Env) where
  DeletedSome-start :
      (name : String) (node_sets : List NodeSet) (log : Log) → DeletedSome name node_sets log log
  DeletedSome-start name [] log = refl
  DeletedSome-start name (node_set ∷ node_sets) log = inl refl

  delete_others-Collected :
      (name : String) (node_sets : List NodeSet) (log : Log)
      → Collected name node_sets log (delete_others env name node_sets log)
  unfolding delete_others
  delete_others-Collected name [] log = refl
  delete_others-Collected name (node_set ∷ node_sets) log = ground (
    arith,
    delete_others-Collected name node_sets log,
    delete_others-Collected name node_sets (deletion node_set ∷ log),
    DeletedSome-start name node_sets (deletion node_set ∷ log),
  )

  -- When the listing of the namespace answers, the collection deletes every node set of the list
  -- with another name than the one given, whichever node pool made it, and no other, in the order of
  -- the list. On an error it has asked to delete only a first part of these. It does not panic.
  pub perform_garbage_collection_outcome :
      (namespace name : String) (log : Log) (node_sets : List NodeSet)
      → env.answer log (kube manager_client (list_node_sets namespace)) ≡ ok node_sets
      → Collected name node_sets
          (kube manager_client (list_node_sets namespace) ∷ log)
          (perform_garbage_collection env namespace name log)
  unfolding perform_garbage_collection
  perform_garbage_collection_outcome namespace name log node_sets h = ground (
    arith,
    delete_others-Collected name node_sets (kube manager_client (list_node_sets namespace) ∷ log),
  )
