-- ===== src/Tests/Networks.antt =====
-- The theorems on the bootstrap at concrete inputs.
use azk.Base.{[], ◌∷◌, ◌≡◌, refl}
use azk.World.{returned, http_get}
use azk.World.Post.{Post}
use azk.Std.{is_space}
use azk.Azure.{get_groups_client}
use azk.Helpers.{get_kubernetes_version, release_url}
use azk.Helpers.Published.{get_kubernetes_version_channel}
use azk.Bootstrap.{create_base_infrastructure, update_spec, create_spec}
use azk.Bootstrap.Order.{base_plan, create_base_infrastructure-Outcome}
use azk.Bootstrap.Filling.{FilledFrom, update_spec-FilledFrom}
use azk.Bootstrap.HostNames.{Established, create_spec-Established}
use azk.Changes.Plan.{created, after_plan}
use azk.Tests.Fixtures.{env, cluster, cloud}

create_base_infrastructure-Outcome_example :
    created (create_base_infrastructure env cluster.spec []).1
    ≡ after_plan (base_plan cluster.spec) []
unfolding create_base_infrastructure azk.Azure.create_or_update_resource_group azk.Azure.new_client
    azk.Azure.get_authorizer_for_resource azk.Azure.create_virtual_network_and_subnets
    azk.Azure.create_security_group azk.Azure.create_route_tables
    azk.Azure.create_internal_load_balancer azk.Azure.put_load_balancer
    azk.Azure.create_load_balancer azk.Azure.create_public_ip azk.Azure.get_public_ip
create_base_infrastructure-Outcome_example = create_base_infrastructure-Outcome env cluster.spec []

update_spec-FilledFrom_example :
    Post (λ t after. FilledFrom cluster.spec t) (update_spec env cluster.spec [])
update_spec-FilledFrom_example = update_spec-FilledFrom env cluster.spec []

create_spec-Established_example :
    Post (λ s after. Established env cloud "azk" s) (create_spec env cloud "azk" "" "1.14.1" [])
create_spec-Established_example = create_spec-Established env cloud "azk" "" "1.14.1" []

get_kubernetes_version_channel_example :
    get_kubernetes_version env "stable" []
    ≡ (returned "1.14.1", http_get (release_url "stable") ∷ [])
unfolding is_space
get_kubernetes_version_channel_example =
    get_kubernetes_version_channel env "stable" "1.14.1" [] refl
      (refl, (refl, (refl, (refl, (refl, (refl, tt)))))) refl
