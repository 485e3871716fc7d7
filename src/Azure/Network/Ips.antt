-- ===== src/Azure/Network/Ips.antt =====
-- azure/ip.go: the public address.
use azk.Base.{String, ◌<>◌, Option, none, some}
use azk.Api.{Error, CloudConfiguration}
use azk.World.{
  Env, Act, lift, ◌>>=◌, AzureClient, public_ips_service, PublicIpAddress, public_ip_get,
  public_ip_create_or_update, public_ip_result,
}
use azk.Std.{to_lower}
use azk.Azure.Clients.{new_client, usable}
use azk.Azure.Network.Running.{ask_network, completed}

module _ (env : Env) (c : CloudConfiguration) where
  abbrev pub get_ip_client : AzureClient × Option Error
  get_ip_client = new_client env c public_ips_service

  unfoldable pub get_public_ip : String → Act PublicIpAddress
  get_public_ip ip_name = do
    ip_client ← usable get_ip_client
    got ← ask_network env ip_client (public_ip_get c.group_name ip_name)
    lift got

  -- The description that `CreatePublicIP` fills in.
  abbrev pub new_public_ip : String → PublicIpAddress
  new_public_ip ip_name = record {
    sku = "Standard";
    name = some ip_name;
    location = some c.group_location;
    properties = some (record {
      version = "IPv4";
      allocation_method = "Static";
      domain_name_label = some (to_lower ip_name);
      fqdn = some (to_lower ip_name <> "." <> to_lower c.group_location <> ".cloudapp.azure.com");
      ip_address = none;
    });
  }

  unfoldable pub create_public_ip : String → Act PublicIpAddress
  unfolding completed
  create_public_ip ip_name = do
    ip_client ← usable get_ip_client
    started ←
        ask_network env ip_client
          (public_ip_create_or_update c.group_name ip_name (new_public_ip ip_name))
    completed env ip_client "cannot create public ip address"
        "cannot get public ip address create or update future response" started
        λ future. do got ← ask_network env ip_client (public_ip_result future); lift got
