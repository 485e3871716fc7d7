-- ===== src/Bootstrap/FirstMachine.antt =====
-- What `CreateInfrastructure` (bootstrap/infrastructure.go) asks Azure for.
use azk.Base.{sym, Bool, false, true, ◌≡◌, inl, pos, if◌then◌else◌, refl, Option, ℤ}
use azk.Api.{Error, Spec}
use azk.World.{Env, Log, Exit, returned, failed, panicked, on_error, fail}
use azk.Changes.{changes, ChangesNothing, quiet_rules}
use azk.Changes.Calls.{ChangesNothing-custom_data}
use azk.Azure.{get_vmss, resource_not_found}
use azk.Azure.Creation.{CreateOutcome, Creates, after_quiet, create_vmss_outcome}
use azk.Bootstrap.Infrastructure.{bootstrap_vmss_name, create_bootstrap_vmss, create_infrastructure}

module _ (env : Env) (spec : Spec) where
  abbrev FirstOutcome : Log → Exit (Unit {0}) × Log → Type 0
  FirstOutcome = CreateOutcome env spec.cloud bootstrap_vmss_name spec.bootstrap_vm_sku_type (pos 1)

  create_bootstrap_vmss_outcome :
      Creates env spec.cloud bootstrap_vmss_name spec.bootstrap_vm_sku_type
        (pos 1)
        (create_bootstrap_vmss env spec)
  unfolding create_bootstrap_vmss
  create_bootstrap_vmss_outcome =
      after_quiet _ _ _ _ _ _
        (λ text. record {
          at = λ log.
              create_vmss_outcome env spec.cloud bootstrap_vmss_name spec.bootstrap_vm_sku_type
                (pos 1) _ _ _ _ log;
        })
        _ (ChangesNothing-custom_data env _ _)

  ChangesNothing-get_vmss : ChangesNothing (get_vmss env spec.cloud bootstrap_vmss_name)
  unfolding get_vmss
  ChangesNothing-get_vmss = search quiet_rules

  missing :
      (b : Bool) (e : Error) (log : Log)
      → FirstOutcome (changes log) ((if b then create_bootstrap_vmss env spec else fail e) log)
  missing true e log = create_bootstrap_vmss_outcome.at log
  missing false e log = inl refl

  looked :
      (before : Log) (ended : Exit (Option ℤ) × Log)
      → changes ended.1 ≡ before
      → FirstOutcome before (
          on_error
            (λ (log : Log). ended)
            (λ e. if resource_not_found e then create_bootstrap_vmss env spec else fail e)
            (λ found. create_bootstrap_vmss env spec)
            ended.1)
  looked before (returned found, log) h = rw (sym h) (create_bootstrap_vmss_outcome.at log)
  looked before (failed e, log) h = rw (sym h) (missing (resource_not_found e) e log)
  looked before (panicked, log) h = inl h

  -- Creating the first machine that succeeds asks for one change: a scale set of one machine, of the size
  -- of the spec even if that is empty. On an error or a panic it asked for that or for nothing.
  pub create_infrastructure_outcome :
      (log : Log) → FirstOutcome (changes log) (create_infrastructure env spec log)
  unfolding create_infrastructure
  create_infrastructure_outcome log =
      looked (changes log) (get_vmss env spec.cloud bootstrap_vmss_name log)
        (ChangesNothing-get_vmss.at log)
