-- ===== src/Tests/Scaling.antt =====
-- The theorems on node sets and on the scale sets of Azure at concrete inputs.
use azk.Base.{false, [], ◌∷◌, ◌≡◌, ◌⊎◌, refl, pos}
use azk.Api.{library, err}
use azk.World.{Env, returned, failed, azure, vmss_delete}
use azk.Changes.{changes}
use azk.Std.{equal_fold}
use azk.Helpers.{contains_finalizer}
use azk.Azure.{
  get_vmss, scale_vmss, delete_vmss, get_authorizer_for_resource, create_vmss, scan_all_skus,
  sku_zones,
}
use azk.Azure.Authorizer.{bare_client, delete_vmss_unauthorized}
use azk.Bootstrap.{bootstrap_vmss_name, create_infrastructure}
use azk.Bootstrap.FirstMachine.{create_infrastructure_outcome}
use azk.Azure.Zones.{scan_all_skus_first}
use azk.Azure.Creation.{CreateOutcome, create_vmss_outcome}
use azk.Controllers.Outcome.{finished, requeued}
use azk.Controllers.NodeSets.{scale_node_set, settle, finalize, node_sets_finalizer_name}
use azk.Controllers.NodeSets.Scaling.{ScaleOutcome, scale_node_set_outcome}
use azk.Controllers.NodeSets.Settling.{SettleOutcome, settle_outcome}
use azk.Controllers.NodeSets.Deletion.{EndsReleased, freed, finalize-EndsReleased}
use azk.Tests.Fixtures.{env, cloud, cluster, machine, node_set, sku}

-- Of two machines one is asked for: the second one is surplus.
scale_node_set_outcome_example :
    ScaleOutcome env
      (node_set "agents")
      cluster
      (pos 1)
      (machine "agent1" ∷ [])
      []
      (scale_node_set env (node_set "agents") cluster [])
scale_node_set_outcome_example =
    scale_node_set_outcome env (node_set "agents") cluster (pos 1) [] refl

settle_outcome_example :
    SettleOutcome env
      (node_set "azk-master")
      cluster
      (pos 2)
      (settle env (node_set "azk-master") cluster (pos 2) [])
settle_outcome_example = settle_outcome env (node_set "azk-master") cluster (pos 2) []

finalize-EndsReleased_example :
    let (exit, after) = finalize env (node_set "agents") cluster [] in
    ((exit ≡ returned finished) ⊎ (exit ≡ returned requeued))
    × EndsReleased (node_set "agents") after
    × (contains_finalizer (freed (node_set "agents")).meta.finalizers node_sets_finalizer_name
        ≡ false)
unfolding contains_finalizer
finalize-EndsReleased_example = finalize-EndsReleased env (node_set "agents") cluster [] refl

create_vmss_outcome_example :
    CreateOutcome env cloud "agents-agentvmss" "Standard_DS2_v2"
      (pos 2)
      []
      (create_vmss env cloud "agents-agentvmss" "subnet" [] [] "data" "Standard_DS2_v2" (pos 2) [])
create_vmss_outcome_example =
    create_vmss_outcome env cloud "agents-agentvmss" "Standard_DS2_v2" (pos 2) "subnet" [] [] "data"
      []

-- The size asked for is the second of the list: no zone is found.
scan_all_skus_first_example :
    scan_all_skus "Standard_DS2_v2" "westus2"
      (sku "Standard_DS1_v2" ∷ sku "Standard_DS2_v2" ∷ [])
      []
    ≡ (returned [], [])
unfolding sku_zones equal_fold
scan_all_skus_first_example =
    scan_all_skus_first "Standard_DS2_v2" "westus2" (sku "Standard_DS1_v2")
      (sku "Standard_DS2_v2" ∷ []) []

abbrev no_cloud : Env
no_cloud = record env { environment_from_name = λ name. err (library 1) }

delete_vmss_unauthorized_example :
    (get_vmss no_cloud cloud "agents" [] ≡ (failed (library 1), []))
    × (scale_vmss no_cloud cloud "agents" "data" (pos 2) [] ≡ (failed (library 1), []))
    × (changes (delete_vmss no_cloud cloud "agents" []).1
        ≡ azure (bare_client no_cloud cloud) (vmss_delete "group" "agents") ∷ [])
unfolding get_authorizer_for_resource
delete_vmss_unauthorized_example =
    delete_vmss_unauthorized no_cloud cloud "agents" "data" (pos 2) [] (library 1) refl

-- The spec of the cluster names no size.
create_infrastructure_outcome_example :
    CreateOutcome env cloud bootstrap_vmss_name ""
      (pos 1)
      []
      (create_infrastructure env cluster.spec [])
create_infrastructure_outcome_example = create_infrastructure_outcome env cluster.spec []
