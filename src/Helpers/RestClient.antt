-- ===== src/Helpers/RestClient.antt =====
-- `RestClientGetter` (helpers/restclientgetter.go); its configuration is known by a text.
use azk.Base.{ℕ, String}
use azk.World.{
  Env, Act, pure, lift, ask, ◌>>=◌, client_config, temp_dir, new_discovery_client, new_rest_mapper,
}
use azk.World.Web.{RestConfig}

pub record RestClientGetter : Type 0 where
  pub config : String

abbrev pub to_raw_kubeconfig_loader : RestClientGetter → String
to_raw_kubeconfig_loader r = r.config

module _ (env : Env) where
  unfoldable pub to_rest_config : RestClientGetter → Act RestConfig
  to_rest_config r = do
    config ← (ask env (client_config (to_raw_kubeconfig_loader r)) >>= lift)
    pure (record config { timeout = 5 })

  unfoldable pub to_discovery_client : RestClientGetter → Act ℕ
  unfolding to_rest_config
  to_discovery_client r = do
    config ← to_rest_config r
    directory ← ask env temp_dir
    made ← ask env (new_discovery_client config directory "" 10)
    lift made

  unfoldable pub to_rest_mapper : RestClientGetter → Act ℕ
  unfolding to_discovery_client
  to_rest_mapper r = do client ← to_discovery_client r; ask env (new_rest_mapper client)
