-- ===== src/Azure/Steps.antt =====
-- The one change that creating, scaling and deleting a scale set or a resource group (azure/vmss.go,
-- azure/groups.go) asks for, as a step of any machine with phases.
use azk.Base.{String, List, ◌≡◌, refl, ℤ}
use azk.Api.{CloudConfiguration, Result, wrapped}
use azk.World.{
  Env, Log, Call, AzureClient, VirtualMachineScaleSet, azure, vmss_create_or_update, vmss_update,
  vmss_delete, group_delete, wait_for_completion, future_result, ask, lift, fail, on_error, ◌>>=◌,
  Future,
}
use azk.Changes.{
  ChangesNothing, ChangesNothing-on_error, ChangesNothing-fail, ChangesNothing-lift, quiet_rules,
}
use azk.Changes.Calls.{ChangesNothing-get_zones, ChangesNothing-random_hex}
use azk.Changes.Waits.{finish-ChangesNothing}
use azk.Changes.Phases.{
  Moves, MayMove, Moves-ask, Moves-after_quiet, Moves-before_quiet, MayMove-moves, MayMove-quiet,
  MayMove-after_quiet, MayMove-on_error, MayMove-if,
}
use azk.Azure.{create_vmss, scale_vmss, delete_vmss, delete_resource_group, finish}
use azk.Azure.Creation.{set_zones-sku_capacity}

module _ {Phase : Type 0} (Move : Phase → Call → Phase → Type 0) (start : Phase) (before : Log)
    (env : Env) (c : CloudConfiguration) where
  started_quiet :
      (client : AzureClient) (text wait_text : String) (started : Result Future)
      → ChangesNothing
          (on_error (lift started) (λ e. fail (wrapped text e)) (finish env c client wait_text))
  started_quiet client text wait_text started =
      ChangesNothing-on_error _ (λ future. finish-ChangesNothing env c client wait_text future) _
        (λ e. ChangesNothing-fail (wrapped text e)) _ (ChangesNothing-lift started)

  module _ (name vm_sku_type : String) (count : ℤ) (p q : Phase)
      (creates : (client : AzureClient) (vmss : VirtualMachineScaleSet)
        → vmss.sku_capacity ≡ count
        → Move p (azure client (vmss_create_or_update c.group_name name vmss)) q) where
    request-Moves :
        (client : AzureClient) (vmss : VirtualMachineScaleSet)
        → vmss.sku_capacity ≡ count
        → Moves Move start before p q (
            ask env (azure client (vmss_create_or_update c.group_name name vmss)) >>= λ started.
            on_error
              (lift started)
              (λ e. fail (wrapped "cannot create vmss" e))
              (finish env c client "cannot get the vmss create or update future response"))
    request-Moves client vmss sized =
        Moves-before_quiet Move start before _ p q (started_quiet client _ _) _
          (Moves-ask Move start before env _ p q refl (creates client vmss sized))

    pub create_vmss-Moves :
        (subnet_id : String) (load_balancer_ids nat_pool_ids : List String) (custom_data : String)
        → Moves Move start before p q (
            create_vmss env c name subnet_id load_balancer_ids nat_pool_ids custom_data vm_sku_type
              count)
    unfolding create_vmss
    create_vmss-Moves subnet_id load_balancer_ids nat_pool_ids custom_data =
        search
          (
            Moves-after_quiet, request-Moves, set_zones-sku_capacity, quiet_rules,
            ChangesNothing-get_zones, ChangesNothing-random_hex,
          )
          depth 20 fits 5000

  module _ (name custom_data : String) (count : ℤ) (p q : Phase)
      (resizes : (client : AzureClient)
        → Move p (azure client (vmss_update c.group_name name count custom_data)) q) where
    resize :
        (client : AzureClient)
        → Moves Move start before p q (
            ask env (azure client (vmss_update c.group_name name count custom_data)) >>= λ started.
            on_error
              (lift started)
              (λ e. fail (wrapped "cannot update vmss" e))
              (finish env c client "cannot get the vmss update future response"))
    resize client =
        Moves-before_quiet Move start before _ p q (started_quiet client _ _) _
          (Moves-ask Move start before env _ p q refl (resizes client))

    pub scale_vmss-MayMove : MayMove Move start before p q (scale_vmss env c name custom_data count)
    unfolding scale_vmss
    scale_vmss-MayMove =
        search
          (
            MayMove-after_quiet, MayMove-on_error, MayMove-if, MayMove-quiet, MayMove-moves, resize,
            ChangesNothing-fail, quiet_rules,
          )
          depth 20 fits 5000

  module _ (name : String) (p q : Phase)
      (deletes : (client : AzureClient)
        → Move p (azure client (vmss_delete c.group_name name)) q) where
    pub delete_vmss-Moves : Moves Move start before p q (delete_vmss env c name)
    unfolding delete_vmss
    delete_vmss-Moves =
        Moves-before_quiet Move start before _ p q (started_quiet _ _ _) _
          (Moves-ask Move start before env _ p q refl (deletes _))

  module _ (p q : Phase)
      (deletes : (client : AzureClient) → Move p (azure client (group_delete c.group_name)) q) where
    deleted_quiet :
        (client : AzureClient) (started : Result Future)
        → ChangesNothing (
            lift started >>= λ future.
            ask env (azure client (wait_for_completion future)) >>= λ waited.
            on_error
              (lift waited)
              (λ e. fail (wrapped "cannot delete, future response" e))
              λ _. ask env (azure client (future_result future)) >>= λ done. lift done)
    deleted_quiet client started =
        search (quiet_rules, ChangesNothing-on_error, ChangesNothing-fail) depth 20

    deletion-Moves :
        (client : AzureClient)
        → Moves Move start before p q (
            ask env (azure client (group_delete c.group_name)) >>= λ started.
            lift started >>= λ future.
            ask env (azure client (wait_for_completion future)) >>= λ waited.
            on_error
              (lift waited)
              (λ e. fail (wrapped "cannot delete, future response" e))
              λ _. ask env (azure client (future_result future)) >>= λ done. lift done)
    deletion-Moves client =
        Moves-before_quiet Move start before _ p q (deleted_quiet client) _
          (Moves-ask Move start before env _ p q refl (deletes client))

    pub delete_group-Moves : Moves Move start before p q (delete_resource_group env c)
    unfolding delete_resource_group
    delete_group-Moves = search (Moves-after_quiet, deletion-Moves, quiet_rules)
