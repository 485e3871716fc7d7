-- ===== src/Azure/Clients.antt =====
-- The authorizer and the service clients (azure/helpers.go and the `Get…Client` of azure/*.go). On
-- an error a client is returned too, with no authorizer.
use azk.Base.{ℕ, Bool, false, nat_eq, Option, none, some}
use azk.Api.{Error, Result, ok, err, detailed_error, CloudConfiguration}
use azk.World.{
  Env, Act, pure, fail, AzureClient, AzureService, vmss_service, vmss_vms_service,
  vmss_extensions_service, groups_service,
}

abbrev and_then : {A B : Type 0} → Result A → (A → Result B) → Result B
and_then (ok a) f = f a
and_then (err e) f = err e

-- `ResourceNotFound`
unfoldable pub resource_not_found : Error → Bool
resource_not_found (detailed_error code) = nat_eq code 404
resource_not_found _ = false

module _ (env : Env) (c : CloudConfiguration) where
  unfoldable pub get_authorizer_for_resource : Result ℕ
  get_authorizer_for_resource = and_then (env.environment_from_name c.cloud_name) λ environment.
      and_then (env.new_oauth_config environment.0 c.tenant_id) λ oauth_config.
        env.new_service_principal_token oauth_config c.client_id c.client_secret environment.1

  unfoldable pub new_client : AzureService → AzureClient × Option Error
  new_client service = elim get_authorizer_for_resource [
    | ok a ↦ (
      record {
        service = service;
        subscription_id = c.subscription_id;
        authorizer = some a;
        user_agent = c.user_agent;
      },
      none,
    )
    | err e ↦ (
      record {
        service = service;
        subscription_id = c.subscription_id;
        authorizer = none;
        user_agent = "";
      },
      some e,
    )
  ]

  abbrev pub get_vmss_client : AzureClient × Option Error
  get_vmss_client = new_client vmss_service

  abbrev pub get_vmss_vms_client : AzureClient × Option Error
  get_vmss_vms_client = new_client vmss_vms_service

  abbrev pub get_vmss_extensions_client : AzureClient × Option Error
  get_vmss_extensions_client = new_client vmss_extensions_service

  abbrev pub get_groups_client : AzureClient × Option Error
  get_groups_client = new_client groups_service

-- `if err != nil { return err }` after a `Get…Client`.
abbrev pub usable : AzureClient × Option Error → Act AzureClient
usable (client, none) = pure client
usable (client, some e) = fail e
