-- ===== src/Bootstrap/Names.antt =====
-- The names that the program computes for a cluster: its own (cmd/*/*.go and `CreateSpec`), that of
-- its public address (once in `CreateBaseInfrastructure` and once in `CreateSpec`) and its two host names.
use azk.Base.{String, ◌<>◌}
use azk.Std.{hex, fnv32a, fnv64a, to_lower}

abbrev pub azk_load_balancer_name : String
azk_load_balancer_name = "azk-lb"

abbrev pub azk_internal_load_balancer_name : String
azk_internal_load_balancer_name = "azk-internal-lb"

abbrev pub azk_public_ip_name : String
azk_public_ip_name = "azk-publicip"

-- `fmt.Sprintf("%x", h.Sum64())` of the subscription and the resource group.
unfoldable pub cluster_name_of : String → String → String
cluster_name_of subscription_id resource_group =
    hex (fnv64a (subscription_id <> "/" <> resource_group))

-- The name of the public address, as `CreateSpec` computes it for the host names.
unfoldable pub spec_public_ip_name : String → String → String
spec_public_ip_name dns_prefix cluster_name =
    let public_ip_name = hex (fnv32a (azk_public_ip_name <> "-" <> cluster_name)) in
    dns_prefix <> public_ip_name

-- The same name, as `CreateBaseInfrastructure` computes it for the address itself.
unfoldable pub base_public_ip_name : String → String → String
base_public_ip_name dns_prefix cluster_name =
    let public_ip_name = hex (fnv32a (azk_public_ip_name <> "-" <> cluster_name)) in
    dns_prefix <> public_ip_name

abbrev pub public_dns_name_of : String → String → String
public_dns_name_of public_ip_name group_location =
    to_lower public_ip_name <> "." <> to_lower group_location <> ".cloudapp.azure.com"

abbrev pub internal_dns_name_of : String → String
internal_dns_name_of public_ip_name = to_lower public_ip_name <> ".internal"
