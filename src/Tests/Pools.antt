-- ===== src/Tests/Pools.antt =====
-- The theorems on node pools at concrete inputs.
use azk.Base.{[], ◌∷◌, ◌≡◌, refl, if◌then◌else◌}
use azk.Api.{spec_eq}
use azk.World.{kube, manager_client, list_node_sets}
use azk.Controllers.NodePools.{perform_garbage_collection, propagate, node_set_name}
use azk.Controllers.NodePools.Collection.{Collected, perform_garbage_collection_outcome}
use azk.Controllers.NodePools.Reconcile.{
  Spares, updates, spec_update, propagate-Spares, updates-propagate,
}
use azk.Tests.Fixtures.{env, node_set, node_pool}

perform_garbage_collection_outcome_example :
    Collected "current"
      (node_set "current" ∷ node_set "old" ∷ [])
      (kube manager_client (list_node_sets "default") ∷ [])
      (perform_garbage_collection env "default" "current" [])
perform_garbage_collection_outcome_example =
    perform_garbage_collection_outcome env "default" "current" []
      (node_set "current" ∷ node_set "old" ∷ []) refl

propagate-Spares_example :
    Spares (node_set_name node_pool) (propagate env node_pool (node_set "a") (node_set "b") []).1
propagate-Spares_example = propagate-Spares env node_pool (node_set "a") (node_set "b") [] tt

updates-propagate_example : updates (propagate env node_pool (node_set "a") (node_set "b") []).1 ≡ (
    if spec_eq (node_set "a").spec (node_set "b").spec
    then []
    else spec_update env node_pool (node_set "a") (node_set "b") ∷ [])
updates-propagate_example = updates-propagate env node_pool (node_set "a") (node_set "b") []
