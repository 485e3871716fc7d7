-- ===== src/Azure/Authorizer.antt =====
-- What the scale set operations (azure/vmss.go) do without an authorizer.
use azk.Base.{String, ℤ, none, ◌∷◌, ◌≡◌, arith}
use azk.Api.{Error, err, CloudConfiguration}
use azk.World.{Env, Log, failed, azure, AzureClient, vmss_service, vmss_delete}
use azk.Changes.{changes}
use azk.Azure.{get_authorizer_for_resource, new_client, get_vmss, scale_vmss, delete_vmss}

module _ (env : Env) (c : CloudConfiguration) where
  -- The client that is made when there is no authorizer.
  abbrev pub bare_client : AzureClient
  bare_client = record {
    service = vmss_service;
    subscription_id = c.subscription_id;
    authorizer = none;
    user_agent = "";
  }

  -- When no authorizer can be made, reading and scaling a scale set fail with the error of that and
  -- make no call, but deleting one still asks Azure for the deletion, through a client without an
  -- authorizer.
  pub delete_vmss_unauthorized :
      (name custom_data : String) (count : ℤ) (log : Log) (e : Error)
      → get_authorizer_for_resource env c ≡ err e
      → (get_vmss env c name log ≡ (failed e, log))
        × (scale_vmss env c name custom_data count log ≡ (failed e, log))
        × (changes (delete_vmss env c name log).1
            ≡ azure bare_client (vmss_delete c.group_name name) ∷ changes log)
  unfolding get_vmss scale_vmss delete_vmss new_client
  delete_vmss_unauthorized name custom_data count log e h = ground arith
