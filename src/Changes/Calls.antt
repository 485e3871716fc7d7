-- ===== src/Changes/Calls.antt =====
-- The changes that the procedures of helpers/, azure/ and bootstrap/ ask for.
use azk.Base.{ℕ, zero, suc, String, List, [], ◌∷◌, ◌≡◌, arith}
use azk.Api.{CloudConfiguration}
use azk.World.{Env, Log, ResourceSku, LocationInfo}
use azk.Helpers.{cordon_drain_and_delete_node}
use azk.Azure.{
  get_custom_data, info_zones, location_zones, sku_zones, scan_skus, scan_all_skus, get_zones,
  random_digits, generate_random_hex_string,
}
use azk.Bootstrap.{create_new_bootstrap_token}
use azk.Changes.{ChangesNothing, resource_changes, quiet_rules}

module _ (env : Env) where
  -- Of the resources other than nodes.
  pub resource_changes-cordon_drain :
      (kubeconfig vm_name : String) (log : Log)
      → resource_changes (cordon_drain_and_delete_node env kubeconfig vm_name log).1
        ≡ resource_changes log
  unfolding cordon_drain_and_delete_node
  resource_changes-cordon_drain kubeconfig vm_name log = ground arith

  pub ChangesNothing-bootstrap_token : ChangesNothing (create_new_bootstrap_token env)
  unfolding create_new_bootstrap_token
  ChangesNothing-bootstrap_token = record { at = λ log. ground arith }

  pub ChangesNothing-custom_data :
      (files scripts : List (String × String)) → ChangesNothing (get_custom_data env files scripts)
  unfolding get_custom_data
  ChangesNothing-custom_data files scripts = record { at = λ log. ground arith }

  pub ChangesNothing-random_digits :
      (n : ℕ) (text : String) → ChangesNothing (random_digits env n text)
  unfolding random_digits
  ChangesNothing-random_digits zero text = search quiet_rules
  ChangesNothing-random_digits (suc n) text =
      let later = λ (t : String). ChangesNothing-random_digits n t in search (quiet_rules, later)

  pub ChangesNothing-random_hex : (n : ℕ) → ChangesNothing (generate_random_hex_string env n)
  unfolding generate_random_hex_string
  ChangesNothing-random_hex n = search (quiet_rules, ChangesNothing-random_digits)

ChangesNothing-info_zones :
    (location : String) (info : LocationInfo) (zones : List String)
    → ChangesNothing (info_zones location info zones)
unfolding info_zones
ChangesNothing-info_zones location info zones = search quiet_rules

ChangesNothing-location_zones :
    (location : String) (infos : List LocationInfo) (zones : List String)
    → ChangesNothing (location_zones location infos zones)
unfolding location_zones
ChangesNothing-location_zones location [] zones = search quiet_rules
ChangesNothing-location_zones location (info ∷ infos) zones =
    let later = λ (z : List String). ChangesNothing-location_zones location infos z in
    search (quiet_rules, ChangesNothing-info_zones, later)

ChangesNothing-sku_zones :
    (vm_sku location : String) (sku : ResourceSku) (zones : List String)
    → ChangesNothing (sku_zones vm_sku location sku zones)
unfolding sku_zones
ChangesNothing-sku_zones vm_sku location sku zones =
    search (quiet_rules, ChangesNothing-location_zones)

ChangesNothing-scan_skus :
    (vm_sku location : String) (first : ResourceSku) (skus : List ResourceSku) (zones : List String)
    → ChangesNothing (scan_skus vm_sku location first skus zones)
unfolding scan_skus
ChangesNothing-scan_skus vm_sku location first [] zones = search quiet_rules
ChangesNothing-scan_skus vm_sku location first (_ ∷ rest) zones =
    let later = λ (z : List String). ChangesNothing-scan_skus vm_sku location first rest z in
    search (quiet_rules, ChangesNothing-sku_zones, later)

ChangesNothing-scan_all_skus :
    (vm_sku location : String) (skus : List ResourceSku)
    → ChangesNothing (scan_all_skus vm_sku location skus)
ChangesNothing-scan_all_skus vm_sku location [] = search quiet_rules
ChangesNothing-scan_all_skus vm_sku location (first ∷ rest) =
    ChangesNothing-scan_skus vm_sku location first (first ∷ rest) []

module _ (env : Env) (c : CloudConfiguration) where
  pub ChangesNothing-get_zones : (vm_sku : String) → ChangesNothing (get_zones env c vm_sku)
  unfolding get_zones
  ChangesNothing-get_zones vm_sku = search (quiet_rules, ChangesNothing-scan_all_skus)
