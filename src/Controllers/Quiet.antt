-- ===== src/Controllers/Quiet.antt =====
-- The lookups that the reconcilers share ask for no change.
use azk.Base.{String, List, [], ◌∷◌}
use azk.Api.{Cluster, VmStatus, message}
use azk.World.{Env, Vm}
use azk.Changes.{ChangesNothing, ChangesNothing-fail, ChangesNothing-pure, quiet_rules}
use azk.Controllers.Outcome.{get_cluster, only_cluster}
use azk.Controllers.NodeSets.{vm_statuses}

only_cluster-ChangesNothing : (clusters : List Cluster) → ChangesNothing (only_cluster clusters)
only_cluster-ChangesNothing [] = ChangesNothing-fail (message "no clusters defined")
only_cluster-ChangesNothing (cluster ∷ []) = ChangesNothing-pure cluster
only_cluster-ChangesNothing (_ ∷ _ ∷ _) = ChangesNothing-fail (message "multiple clusters defined")

pub get_cluster-ChangesNothing :
    (env : Env) (namespace : String) → ChangesNothing (get_cluster env namespace)
unfolding get_cluster
get_cluster-ChangesNothing env namespace = search (quiet_rules, only_cluster-ChangesNothing)

pub vm_statuses-ChangesNothing :
    (vms : List Vm) (statuses : List VmStatus) → ChangesNothing (vm_statuses vms statuses)
unfolding vm_statuses
vm_statuses-ChangesNothing [] statuses = search quiet_rules
vm_statuses-ChangesNothing (vm ∷ vms) statuses =
    let rest = vm_statuses-ChangesNothing vms in search (quiet_rules, rest)
