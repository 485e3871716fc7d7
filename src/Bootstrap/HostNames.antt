-- ===== src/Bootstrap/HostNames.antt =====
-- The host names that `CreateSpec` (bootstrap/spec.go) gives to a spec, and the public address that
-- `CreateBaseInfrastructure` (bootstrap/infrastructure.go) creates for it.
use azk.Base.{String, ◌<>◌, subst, if◌then◌else◌, true, false, Bool, ◌==◌, ◌≡◌, refl, sym}
use azk.Api.{CloudConfiguration, Spec, is_valid}
use azk.World.{
  Act, pure, finally, ask, remove_all, ◌>>=◌, Env, Log, Exit, returned, failed, panicked,
}
use azk.World.Post.{Post, Post-bind, Ensures, Ensures-bind}
use azk.Changes.Plan.{Outcome, created}
use azk.Bootstrap.Names.{
  cluster_name_of, spec_public_ip_name, base_public_ip_name, internal_dns_name_of,
}
use azk.Bootstrap.Specs.{
  update_spec, with_customer_kubeconfig, filled_spec, named_spec, create_spec, with_provider_config,
  tmp_dir_name, init_configuration, customer_kubeconfig_of,
}
use azk.Bootstrap.Certificates.{create_pki_sa_certificates, create_kubeconfigs}
use azk.Bootstrap.BaseInfrastructure.{create_base_infrastructure}
use azk.Bootstrap.Order.{base_host_name, base_plan_for, create_base_infrastructure-Outcome}
use azk.Bootstrap.Filling.{FilledFrom, update_spec-FilledFrom}

-- What `CreateSpec` sets from its arguments is in the spec that it returns.
abbrev pub NamedFor : CloudConfiguration → String → Spec → Type 0
NamedFor c dns_prefix s =
    (s.cloud ≡ c)
    × (s.dns_prefix ≡ dns_prefix)
    × (s.cluster_name ≡ cluster_name_of c.subscription_id c.group_name)

-- The host names of the spec are those of the address in the plan of its base infrastructure.
abbrev HostNamesMatch : Spec → Type 0
HostNamesMatch s =
    (base_host_name s ≡ s.public_dns_name)
    × (s.internal_dns_name ≡ internal_dns_name_of (base_public_ip_name s.dns_prefix s.cluster_name))

-- Whenever it is made, the base infrastructure of the spec follows the plan that has the public host
-- name of the spec as the full name of the public address.
abbrev pub HasHost : Env → Spec → Type 0
HasHost env s =
    (log : Log)
    → Outcome (base_plan_for s.public_dns_name s) (created log)
        (create_base_infrastructure env s log)

HasHost-base : (env : Env) (s : Spec) → base_host_name s ≡ s.public_dns_name → HasHost env s
HasHost-base env s h log =
    subst
      (λ host. Outcome (base_plan_for host s) (created log) (create_base_infrastructure env s log))
      h (create_base_infrastructure-Outcome env s log)

module _ (env : Env) (c : CloudConfiguration) (dns_prefix : String) where
  abbrev Matches : Spec → Type 0
  Matches s = NamedFor c dns_prefix s × HostNamesMatch s

  abbrev Matching : Spec → Log → Type 0
  Matching s after = Matches s

  with_customer_kubeconfig-Matches :
      (spec : Spec) (log : Log)
      → Matches spec
      → Post Matching (with_customer_kubeconfig env spec log)
  unfolding with_customer_kubeconfig
  with_customer_kubeconfig-Matches spec log h = whether (spec.customer_kubeconfig == "")
    where
      with_text : String → Act Spec
      with_text text = pure (record spec { customer_kubeconfig = text })

      whether :
          (b : Bool)
          → Post Matching
              ((if b then customer_kubeconfig_of env spec >>= with_text else pure spec) log)
      whether true =
          (Ensures-bind Matching with_text (λ text. record { at = λ l. h })
              (customer_kubeconfig_of env spec)).at
            log
      whether false = h

  updated-Matches :
      (spec : Spec) (log : Log)
      → Matches spec
      → Post Matching (
          (update_spec env spec >>= λ updated.
          with_customer_kubeconfig env (with_provider_config env c updated))
            log)
  updated-Matches spec log h =
      Post-bind (λ t after. FilledFrom spec t) Matching
        (λ updated. with_customer_kubeconfig env (with_provider_config env c updated))
        (update_spec env spec) log (update_spec-FilledFrom env spec log)
        λ updated after filled.
          with_customer_kubeconfig-Matches (with_provider_config env c updated) after
            (subst (λ u. Matches (with_provider_config env c u)) (sym filled.0) h)

  filled_spec-Ensures : (spec : Spec) → Matches spec → Ensures Matching (filled_spec env c spec)
  unfolding filled_spec
  filled_spec-Ensures spec h =
      Ensures-bind Matching _
        (λ u.
          Ensures-bind Matching _ (λ v. record { at = λ log. updated-Matches spec log h })
            (create_kubeconfigs env (init_configuration spec)
              (tmp_dir_name spec <> "/kubeconfigs")))
        (create_pki_sa_certificates env (init_configuration spec))

  cleaned :
      {B : Type 0} (cleanup : Act B) (ended : Exit Spec × Log)
      → Post Matching ended
      → Post Matching (finally cleanup (λ (log : Log). ended) ended.1)
  cleaned cleanup (returned s, log) h = h
  cleaned cleanup (failed e, log) h = h
  cleaned cleanup (panicked, log) h = h

  created_spec-Matches :
      (vm_sku_type kubernetes_version : String) (log : Log)
      → Post Matching (create_spec env c dns_prefix vm_sku_type kubernetes_version log)
  unfolding create_spec named_spec is_valid spec_public_ip_name base_public_ip_name
  created_spec-Matches vm_sku_type kubernetes_version log =
      let spec = named_spec c dns_prefix vm_sku_type kubernetes_version in
      cleaned (ask env (remove_all (tmp_dir_name spec))) (filled_spec env c spec log)
        ((filled_spec-Ensures spec ((refl, refl, refl), (refl, refl))).at log)

  -- What is shown of the spec that `CreateSpec` returns.
  abbrev pub Established : Spec → Type 0
  Established s =
      NamedFor c dns_prefix s
      × HasHost env s
      × (s.internal_dns_name
          ≡ internal_dns_name_of (base_public_ip_name s.dns_prefix s.cluster_name))

  established :
      (ended : Exit Spec × Log) → Post Matching ended → Post (λ s after. Established s) ended
  established (returned s, log) (named, (host, internal)) =
      (named, HasHost-base env s host, internal)
  established (failed e, log) h = tt
  established (panicked, log) h = tt

  -- The spec that `CreateSpec` returns is for the account, the prefix and the cluster name that were
  -- asked for, and its host names are those of the base infrastructure: whenever
  -- `CreateBaseInfrastructure` is run for that spec, the public address that it asks Azure for has the
  -- public host name of the spec as its full name, and the internal host name is made of the name of
  -- the same address.
  pub create_spec-Established :
      (vm_sku_type kubernetes_version : String) (log : Log)
      → Post
          (λ s after. Established s)
          (create_spec env c dns_prefix vm_sku_type kubernetes_version log)
  create_spec-Established vm_sku_type kubernetes_version log =
      established (create_spec env c dns_prefix vm_sku_type kubernetes_version log)
        (created_spec-Matches vm_sku_type kubernetes_version log)
