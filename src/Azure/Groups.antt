-- ===== src/Azure/Groups.antt =====
-- azure/groups.go
use azk.Api.{CloudConfiguration, wrapped}
use azk.World.{
  Env, Act, fail, lift, ask, on_error, ◌>>=◌, azure, group_create_or_update, group_delete,
  wait_for_completion, future_result,
}
use azk.Azure.Clients.{get_groups_client, usable}

module _ (env : Env) (c : CloudConfiguration) where
  unfoldable pub create_or_update_resource_group : Act (Unit {0})
  create_or_update_resource_group = do
    client ← usable (get_groups_client env c)
    created ← ask env (azure client (group_create_or_update c.group_name c.group_location))
    lift created

  unfoldable pub delete_resource_group : Act (Unit {0})
  delete_resource_group = do
    client ← usable (get_groups_client env c)
    started ← ask env (azure client (group_delete c.group_name))
    future ← lift started
    waited ← ask env (azure client (wait_for_completion future))
    on_error (lift waited) (λ e. fail (wrapped "cannot delete, future response" e))
        λ _. do done ← ask env (azure client (future_result future)); lift done
