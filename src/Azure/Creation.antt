-- ===== src/Azure/Creation.antt =====
-- What `CreateVMSS` (azure/vmss.go) asks Azure for.
use azk.Base.{String, List, [], ◌∷◌, ◌≡◌, refl, sym, ◌⊎◌, inl, arith, ℤ}
use azk.Api.{CloudConfiguration, wrapped}
use azk.World.{
  Env, Log, Act, Exit, AzureClient, VirtualMachineScaleSet, returned, failed, panicked, azure,
  vmss_create_or_update, ask, lift, fail, on_error, ◌>>=◌,
}
use azk.Changes.{changes, ChangesNothing, quiet_rules}
use azk.Changes.Calls.{ChangesNothing-get_zones, ChangesNothing-random_hex}
use azk.Azure.{create_vmss, finish, set_zones}

module _ (env : Env) (c : CloudConfiguration) (name vm_sku_type : String) (count : ℤ) where
  -- The newest change creates or updates the scale set with this size and capacity, and the others
  -- are these.
  abbrev pub Created : Log → Log → Type 0
  Created before (azure client (vmss_create_or_update group vmss vm) ∷ rest) =
      (group ≡ c.group_name)
      × (vmss ≡ name)
      × (vm.sku_name ≡ vm_sku_type)
      × (vm.sku_capacity ≡ count)
      × (rest ≡ before)
  Created before _ = ⊥

  abbrev pub CreateOutcome : Log → Exit (Unit {0}) × Log → Type 0
  CreateOutcome before (returned _, after) = Created before (changes after)
  CreateOutcome before (_, after) = (changes after ≡ before) ⊎ Created before (changes after)

  -- Whatever the answers are, the procedure ends in this way.
  pub record Creates (m : Act (Unit {0})) : Type 0 where
    pub at : (log : Log) → CreateOutcome (changes log) (m log)

  module _ {A : Type 0} (f : A → Act (Unit {0})) (rest : (a : A) → Creates (f a)) where
    quiet_end :
        (before : Log) (ended : Exit A × Log)
        → changes ended.1 ≡ before
        → CreateOutcome before (((λ (log : Log). ended) >>= f) ended.1)
    quiet_end before (returned a, log) h = rw (sym h) ((rest a).at log)
    quiet_end before (failed e, log) h = inl h
    quiet_end before (panicked, log) h = inl h

    -- A procedure that asks for no change comes first.
    pub after_quiet : (m : Act A) → ChangesNothing m → Creates (m >>= f)
    after_quiet m k = record { at = λ log. quiet_end (changes log) (m log) (k.at log) }

  abbrev request : AzureClient → VirtualMachineScaleSet → Act (Unit {0})
  request client vmss =
      ask env (azure client (vmss_create_or_update c.group_name name vmss)) >>= λ started.
      on_error (lift started) (λ e. fail (wrapped "cannot create vmss" e))
        (finish env c client "cannot get the vmss create or update future response")

  request-Creates :
      (client : AzureClient) (vmss : VirtualMachineScaleSet)
      → vmss.sku_name ≡ vm_sku_type
      → vmss.sku_capacity ≡ count
      → Creates (request client vmss)
  unfolding finish
  request-Creates client vmss named h = record { at = λ log. ground arith }

  set_zones-sku_name :
      (zones : List String) (vmss : VirtualMachineScaleSet)
      → (set_zones zones vmss).sku_name ≡ vmss.sku_name
  set_zones-sku_name [] vmss = refl
  set_zones-sku_name (_ ∷ _) vmss = refl

  pub set_zones-sku_capacity :
      (zones : List String) (vmss : VirtualMachineScaleSet)
      → (set_zones zones vmss).sku_capacity ≡ vmss.sku_capacity
  set_zones-sku_capacity [] vmss = refl
  set_zones-sku_capacity (_ ∷ _) vmss = refl

  -- Creating a scale set that succeeds asks for one change: to create or update the scale set of this
  -- name with the size and capacity given. On an error or a panic it asked for that or for nothing.
  pub create_vmss_outcome :
      (subnet_id : String) (load_balancer_ids nat_pool_ids : List String) (custom_data : String)
      (log : Log)
      → CreateOutcome (changes log) (
          create_vmss env c name subnet_id load_balancer_ids nat_pool_ids custom_data vm_sku_type
            count log)
  unfolding create_vmss
  create_vmss_outcome subnet_id load_balancer_ids nat_pool_ids custom_data log =
      let creates : Creates (
          create_vmss env c name subnet_id load_balancer_ids nat_pool_ids custom_data vm_sku_type
            count) =
        search
          (
            after_quiet, request-Creates, set_zones-sku_name, set_zones-sku_capacity, quiet_rules,
            ChangesNothing-get_zones, ChangesNothing-random_hex,
          )
          depth 20 fits 5000 in
      creates.at log
