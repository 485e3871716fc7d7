-- ===== src/Cmd/Flow.antt =====
-- cmd/flow/flow.go: the interactive creation of a cluster. An interrupt ends the program with
-- `os.Exit`, which is told as a procedure that does not return.
pub mod Counts
use Prim.Native.Char.{code}
use azk.Base.{
  ℕ, zero, suc, ◌-◌, String, ◌<>◌, Bool, true, false, not, ◌&&◌, ◌||◌, Option, none, some, List, [],
  ◌∷◌, length, leb, ltb, nat_eq, ℤ, pos, int32, if◌then◌else◌,
}
use azk.Api.{Error, Result, ok, err, message}
use azk.World.{
  Env, Act, pure, fail, panic, lift, deref, ask, ◌>>=◌, PromptAnswer, entered, interrupted,
  prompt_failed, prompt, select, print, list_locations, list_vm_sizes,
}
use azk.Std.{bytes, sort_strings, parse_uint32}
use azk.Cmd.Clusters.{CreateOptions, run_create}

abbrev between : ℕ → ℕ → ℕ → Bool
between low high n = leb low n && leb n high

abbrev is_letter : ℕ → Bool
is_letter n = between b'a' b'z' n || between b'A' b'Z' n

abbrev is_alphanumeric : ℕ → Bool
is_alphanumeric n = is_letter n || between b'0' b'9' n

-- `[-\w\._\(\)]`
abbrev in_group_name : ℕ → Bool
in_group_name n =
    is_alphanumeric n
    || nat_eq n b'_'
    || nat_eq n b'-'
    || nat_eq n b'.'
    || nat_eq n b'('
    || nat_eq n b')'

unfoldable pub all_bytes : (ℕ → Bool) → List ℕ → Bool
all_bytes p [] = true
all_bytes p (b ∷ rest) = p b && all_bytes p rest

-- `^[-\w\._\(\)]+$`
abbrev matches_group_name : List ℕ → Bool
matches_group_name [] = false
matches_group_name (b ∷ rest) = all_bytes in_group_name (b ∷ rest)

-- `[-a-zA-Z0-9]{0,n}[a-zA-Z0-9]$`
unfoldable pub ends_dns_prefix : ℕ → List ℕ → Bool
ends_dns_prefix n [] = false
ends_dns_prefix n (b ∷ []) = is_alphanumeric b
ends_dns_prefix zero (b ∷ c ∷ rest) = false
ends_dns_prefix (suc n) (b ∷ c ∷ rest) =
    (is_alphanumeric b || nat_eq b b'-') && ends_dns_prefix n (c ∷ rest)

-- `^[a-zA-Z][-a-zA-Z0-9]{0,43}[a-zA-Z0-9]$`
abbrev matches_dns_prefix : List ℕ → Bool
matches_dns_prefix [] = false
matches_dns_prefix (b ∷ rest) = is_letter b && ends_dns_prefix 43 rest

abbrev checked : Bool → String → Option Error
checked valid text = if valid then none else some (message text)

unfoldable pub check_subscription : String → Option Error
check_subscription i = checked (not (ltb (length (bytes i)) 30)) "Invalid Subscription ID"

unfoldable pub check_group_name : String → Option Error
check_group_name i = checked (matches_group_name (bytes i)) "Invalid Resource Group Name"

unfoldable pub check_dns_prefix : String → Option Error
check_dns_prefix i = checked (matches_dns_prefix (bytes i)) "Invalid DNS Prefix"

unfoldable pub check_count : String → Option Error
check_count i = elim (parse_uint32 i) [ none ↦ some (message "Invalid number") | some n ↦ none ]

-- `int32(nodeCount)`, where a failed `ParseUint` answers 0, or the greatest number of 32 bits; the
-- text was accepted before.
unfoldable pub node_count : String → ℤ
node_count i = elim (parse_uint32 i) [ none ↦ pos 0 | some n ↦ int32 n ]

module _ (env : Env) where
  -- Both bounds are well formed, so the errors of `semver.Make` on them are not looked at.
  abbrev in_range : Result ℕ → Result ℕ → ℕ → Bool
  in_range (ok low) (ok high) version = env.semver_gte version low && env.semver_lte version high
  in_range _ _ version = false

  unfoldable pub check_version : String → Option Error
  check_version i = elim (env.semver_make i) [
    | ok version ↦
        checked (in_range (env.semver_make "1.15.3") (env.semver_make "1.16.1") version)
          ("invalid kubernetes input " <> i)
    | err e ↦ some (message ("invalid semver " <> i))
  ]

  abbrev answered : PromptAnswer → Act String
  answered (entered text) = pure text
  answered interrupted = panic
  answered (prompt_failed e) =
      ask env (print ("Prompt failed " <> env.error_text e)) >>= λ _. fail e

  abbrev pub get_input : String → (String → Option Error) → Act String
  get_input label validate = ask env (prompt label validate false) >>= answered

  abbrev pub get_secret : String → (String → Option Error) → Act String
  get_secret label validate = ask env (prompt label validate true) >>= answered

  -- The tenant is a constant of the code.
  unfoldable pub get_authorizer : String → String → Act ℕ
  get_authorizer client_id client_secret = do
    environment ← lift (env.environment_from_name "AzurePublicCloud")
    oauth_config ← lift (env.new_oauth_config environment.0 "72f988bf-86f1-41af-91ab-2d7cd011db47")
    lift (env.new_service_principal_token oauth_config client_id client_secret environment.1)

  unfoldable pub names_of : List (Option String) → Act (List String)
  names_of [] = pure []
  names_of (name ∷ rest) = do first ← deref name; later ← names_of rest; pure (first ∷ later)

  unfoldable pub get_locations : String → String → String → Act (List String)
  unfolding names_of
  get_locations subscription_id client_id client_secret = do
    a ← get_authorizer client_id client_secret
    res ← (ask env (list_locations a subscription_id) >>= lift)
    values ← deref res
    names_of values

  unfoldable pub get_vm_sizes : String → String → String → String → Act (List String)
  unfolding names_of
  get_vm_sizes subscription_id location client_id client_secret = do
    a ← get_authorizer client_id client_secret
    res ← (ask env (list_vm_sizes a subscription_id location) >>= lift)
    values ← deref res
    names_of values

  unfoldable pub select_region : String → String → String → Act String
  select_region subscription_id client_id client_secret = do
    locations ← get_locations subscription_id client_id client_secret
    ask env (select "Select Region" (sort_strings locations)) >>= answered

  unfoldable pub select_vm_size : String → String → String → String → Act String
  select_vm_size subscription_id location client_id client_secret = do
    vm_sizes ← get_vm_sizes subscription_id location client_id client_secret
    ask env (select "Select VM Size" (sort_strings vm_sizes)) >>= answered

  abbrev accept : String → Option Error
  accept i = none

  -- The answers of the user, as the options that `RunCreate` is called with.
  unfoldable pub flow_options : Act CreateOptions
  flow_options = do
    subscription_id ← get_secret "Subscription ID" check_subscription
    client_id ← get_secret "Service Principal ClientID" accept
    client_secret ← get_secret "Service Principal ClientSecret" accept
    tenant_id ← get_secret "Tenant ID" accept
    resource_group ← get_input "Resource Group Name" check_group_name
    dns_prefix ← get_input "DNS Prefix" check_dns_prefix
    region ← select_region subscription_id client_id client_secret
    vm_size ← select_vm_size subscription_id region client_id client_secret
    version ← get_input "Kubernetes Version" check_version
    count ← get_input "Node Pool Count" check_count
    pure (record {
      subscription_id = subscription_id;
      client_id = client_id;
      client_secret = client_secret;
      tenant_id = tenant_id;
      resource_group = resource_group;
      resource_location = region;
      dns_prefix = dns_prefix;
      kubernetes_version = version;
      node_pool_name = "nodepool1";
      node_pool_count = node_count count;
      kubeconfig_output = "kubeconfig";
      vm_sku_type = vm_size;
      is_development = false;
    })

  unfoldable pub run_flow : Act (Unit {0})
  unfolding flow_options
  run_flow = do options ← flow_options; run_create env options
