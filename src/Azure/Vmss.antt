-- ===== src/Azure/Vmss.antt =====
-- The scale set operations of azure/vmss.go: zones, create or update, get, scale and delete.
use azk.Base.{String, true, false, Option, none, some, List, [], ◌∷◌, ℤ, int_eq, if◌then◌else◌}
use azk.Api.{CloudConfiguration, wrapped}
use azk.World.{
  Env, Act, pure, fail, lift, deref, ask, on_error, ◌>>=◌, AzureClient, azure, Future,
  VirtualMachineScaleSet, ResourceSku, LocationInfo, list_skus, skus_service, vmss_create_or_update,
  vmss_get, vmss_update, vmss_delete, wait_for_completion, future_result, rsa_generate_key,
  ssh_new_public_key,
}
use azk.Std.{equal_fold}
use azk.Azure.Clients.{new_client, get_vmss_client, usable}
use azk.Azure.CustomData.{generate_random_hex_string}

-- The inner loop of `getZones`: the zones of a matching location replace those found before.
unfoldable pub info_zones : String → LocationInfo → List String → Act (List String)
info_zones location info zones = do
  name ← deref info.location
  if equal_fold name location then deref info.zones else pure zones

unfoldable pub location_zones : String → List LocationInfo → List String → Act (List String)
unfolding info_zones
location_zones location [] zones = pure zones
location_zones location (info ∷ infos) zones = do
  found ← info_zones location info zones
  location_zones location infos found

-- One round of the outer loop for a stock keeping unit.
unfoldable pub sku_zones : String → String → ResourceSku → List String → Act (List String)
unfolding location_zones
sku_zones vm_sku location sku zones = do
  name ← deref sku.name
  if equal_fold name vm_sku
      then deref sku.location_info >>= (λ infos. location_zones location infos zones)
      else pure zones

-- The outer loop: `resSku` is set once, to the first value, and `Next` does not change it.
unfoldable pub scan_skus :
    String → String → ResourceSku → List ResourceSku → List String → Act (List String)
unfolding sku_zones
scan_skus vm_sku location first [] zones = pure zones
scan_skus vm_sku location first (_ ∷ rest) zones = do
  found ← sku_zones vm_sku location first zones
  scan_skus vm_sku location first rest found

abbrev pub scan_all_skus : String → String → List ResourceSku → Act (List String)
scan_all_skus vm_sku location [] = pure []
scan_all_skus vm_sku location (first ∷ rest) = scan_skus vm_sku location first (first ∷ rest) []

-- `zones != nil && len(zones) > 0` sets the zones and their balance.
abbrev pub set_zones : List String → VirtualMachineScaleSet → VirtualMachineScaleSet
set_zones [] vmss = vmss
set_zones (z ∷ zones) vmss = record vmss { zones = some (z ∷ zones); zone_balance = some true }

module _ (env : Env) (c : CloudConfiguration) where
  unfoldable pub get_zones : String → Act (List String)
  unfolding scan_skus
  get_zones vm_sku = do
    client ← usable (new_client env c skus_service)
    listed ← ask env (azure client list_skus)
    skus ← lift listed
    scan_all_skus vm_sku c.group_location skus

  -- Waits for the end of an operation and takes its result.
  unfoldable pub finish : AzureClient → String → Future → Act (Unit {0})
  finish client wait_text future = do
    waited ← ask env (azure client (wait_for_completion future))
    on_error (lift waited) (λ e. fail (wrapped wait_text e))
        λ _. do result ← ask env (azure client (future_result future)); lift result

  abbrev pub scale_set :
      String
      → String
      → List String
      → List String
      → String
      → String
      → ℤ
      → String
      → String
      → VirtualMachineScaleSet
  scale_set vmss_name subnet_id load_balancer_ids nat_pool_ids custom_data vm_sku_type count
        ssh_key_data password =
      record {
        location = c.group_location;
        sku_name = vm_sku_type;
        sku_capacity = count;
        overprovision = false;
        upgrade_mode = "Automatic";
        enable_automatic_os_upgrade = false;
        computer_name_prefix = vmss_name;
        admin_username = "azureuser";
        admin_password = password;
        custom_data = custom_data;
        ssh_key_path = "/home/azureuser/.ssh/authorized_keys";
        ssh_key_data = ssh_key_data;
        image_offer = "UbuntuServer";
        image_publisher = "Canonical";
        image_sku = "18.04-LTS";
        image_version = "latest";
        os_disk_create_option = "FromImage";
        os_disk_size_gb = 64;
        os_type = "Linux";
        storage_account_type = "Premium_LRS";
        network_name = vmss_name;
        network_primary = true;
        enable_ip_forwarding = true;
        ip_configuration_name = vmss_name;
        subnet_id = subnet_id;
        backend_address_pools = load_balancer_ids;
        inbound_nat_pools = nat_pool_ids;
        zones = none;
        zone_balance = none;
      }

  unfoldable pub create_vmss :
      String → String → List String → List String → String → String → ℤ → Act (Unit {0})
  create_vmss vmss_name subnet_id load_balancer_ids nat_pool_ids custom_data vm_sku_type count = do
    private_key ← (ask env (rsa_generate_key 2048) >>= lift)
    public_key ← (ask env (ssh_new_public_key private_key) >>= lift)
    let ssh_key_data = env.marshal_authorized_key public_key
    client ← usable (get_vmss_client env c)
    zones ← get_zones vm_sku_type
    password ← generate_random_hex_string env 32
    let vmss = set_zones zones (
        scale_set vmss_name subnet_id load_balancer_ids nat_pool_ids custom_data vm_sku_type count
          ssh_key_data password)
    started ← ask env (azure client (vmss_create_or_update c.group_name vmss_name vmss))
    on_error (lift started) (λ e. fail (wrapped "cannot create vmss" e))
        λ future. finish client "cannot get the vmss create or update future response" future

  -- The answer is the capacity of the scale set, which is all that the program reads of it.
  unfoldable pub get_vmss : String → Act (Option ℤ)
  get_vmss vmss_name = do
    client ← usable (get_vmss_client env c)
    got ← ask env (azure client (vmss_get c.group_name vmss_name))
    lift got

  unfoldable pub scale_vmss : String → String → ℤ → Act (Unit {0})
  unfolding finish
  scale_vmss vmss_name custom_data count = do
    client ← usable (get_vmss_client env c)
    got ← ask env (azure client (vmss_get c.group_name vmss_name))
    on_error (lift got) (λ e. fail (wrapped "cannot update vmss" e))
        λ vmss. do
          capacity ← deref vmss
          if int_eq capacity count then pure tt else do
            started ← ask env (azure client (vmss_update c.group_name vmss_name count custom_data))
            on_error (lift started) (λ e. fail (wrapped "cannot update vmss" e))
                λ future. finish client "cannot get the vmss update future response" future

  -- The error of `GetVMSSClient` is overwritten by that of `Delete`.
  unfoldable pub delete_vmss : String → Act (Unit {0})
  unfolding finish
  delete_vmss vmss_name = do
    let client = (get_vmss_client env c).0
    started ← ask env (azure client (vmss_delete c.group_name vmss_name))
    on_error (lift started) (λ e. fail (wrapped "cannot delete vmss" e))
        λ future. finish client "cannot get the vmss deallocate future response" future
