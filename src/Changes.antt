-- ===== src/Changes.antt =====
-- The calls in a log that ask for a change of an object of the program's own kinds, of a namespace, a
-- scale set, a machine, a node of a cluster, a network resource or a resource group, and the
-- procedures that ask for none. Making a bootstrap token is not among these changes.
pub mod Calls
pub mod Phases
pub mod Waits
pub mod Drains
pub mod Plan
use azk.Base.{
  ℕ, Bool, true, false, Option, none, some, List, [], ◌∷◌, ◌≡◌, refl, ap, ◌∙◌, String,
  if◌then◌else◌, get_elem?,
}
use azk.Api.{Error, Result, ok, err}
use azk.World.{
  Env, Log, Call, Exit, returned, failed, panicked, Act, pure, fail, lift, deref, index, ask,
  on_error, ◌>>=◌, KubeRequest, AzureRequest, kube, azure, update_cluster, update_cluster_status,
  create_control_plane, update_control_plane, update_control_plane_status, create_node_pool,
  update_node_pool, delete_node_pool, update_node_pool_status, create_node_set, update_node_set,
  update_node_set_status, delete_node_set, vmss_create_or_update, vmss_update, vmss_delete,
  vms_delete, vms_run_command, vms_reimage, group_create_or_update, group_delete, get_cluster,
  list_skus, AzureClient, network, network_change, create_cluster, create_namespace, kubectl_drain,
  delete_node,
}
use azk.Azure.{usable}

abbrev kube_change : KubeRequest → Bool
kube_change (update_cluster _) = true
kube_change (update_cluster_status _) = true
kube_change (create_control_plane _) = true
kube_change (update_control_plane _) = true
kube_change (update_control_plane_status _) = true
kube_change (create_node_pool _) = true
kube_change (update_node_pool _) = true
kube_change (delete_node_pool _) = true
kube_change (update_node_pool_status _) = true
kube_change (create_node_set _) = true
kube_change (update_node_set _) = true
kube_change (update_node_set_status _) = true
kube_change (delete_node_set _) = true
kube_change (create_cluster _) = true
kube_change (create_namespace _) = true
kube_change _ = false

abbrev pub azure_change : AzureRequest → Bool
azure_change (vmss_create_or_update _ _ _) = true
azure_change (vmss_update _ _ _ _) = true
azure_change (vmss_delete _ _) = true
azure_change (vms_delete _ _ _) = true
azure_change (vms_run_command _ _ _ _) = true
azure_change (vms_reimage _ _ _) = true
azure_change (group_create_or_update _ _) = true
azure_change (group_delete _) = true
azure_change (network r) = network_change r
azure_change _ = false

abbrev pub is_change : Call → Bool
is_change (kube _ r) = kube_change r
is_change (azure _ r) = azure_change r
is_change (kubectl_drain _ _) = true
is_change (delete_node _ _) = true
is_change _ = false

-- The changes asked for so far, newest first.
abbrev pub changes : Log → Log
changes [] = []
changes (c ∷ log) = if is_change c then c ∷ changes log else changes log

abbrev without_drains : Log → Log
without_drains [] = []
without_drains (kubectl_drain _ _ ∷ log) = without_drains log
without_drains (delete_node _ _ ∷ log) = without_drains log
without_drains (c ∷ log) = c ∷ without_drains log

-- The changes asked for so far without those of nodes, newest first.
abbrev pub resource_changes : Log → Log
resource_changes log = without_drains (changes log)

-- Whatever the answers are, the procedure asks for no change.
pub record ChangesNothing {A : Type 0} (m : Act A) : Type 0 where
  pub at : (log : Log) → changes (m log).1 ≡ changes log

module _ {A B : Type 0} (f : A → Act B) (rest : (a : A) → ChangesNothing (f a)) where
  changes_after :
      (ended : Exit A × Log) → changes (((λ (log : Log). ended) >>= f) ended.1).1 ≡ changes ended.1
  changes_after (returned a, log) = (rest a).at log
  changes_after (failed e, log) = refl
  changes_after (panicked, log) = refl

  pub ChangesNothing-bind : (m : Act A) → ChangesNothing m → ChangesNothing (m >>= f)
  ChangesNothing-bind m h = record { at = λ log. changes_after (m log) ∙ h.at log }

  module _ (h : Error → Act B) (otherwise : (e : Error) → ChangesNothing (h e)) where
    changes_handled :
        (ended : Exit A × Log)
        → changes (on_error (λ (log : Log). ended) h f ended.1).1 ≡ changes ended.1
    changes_handled (returned a, log) = (rest a).at log
    changes_handled (failed e, log) = (otherwise e).at log
    changes_handled (panicked, log) = refl

    pub ChangesNothing-on_error : (m : Act A) → ChangesNothing m → ChangesNothing (on_error m h f)
    ChangesNothing-on_error m k = record { at = λ log. changes_handled (m log) ∙ k.at log }

module _ {A : Type 0} where
  pub ChangesNothing-pure : (a : A) → ChangesNothing (pure a)
  ChangesNothing-pure a = record { at = λ log. refl }

  pub ChangesNothing-fail : (e : Error) → ChangesNothing (fail {A = A} e)
  ChangesNothing-fail e = record { at = λ log. refl }

  pub ChangesNothing-lift : (r : Result A) → ChangesNothing (lift r)
  ChangesNothing-lift (ok a) = ChangesNothing-pure a
  ChangesNothing-lift (err e) = ChangesNothing-fail e

  pub ChangesNothing-deref : (o : Option A) → ChangesNothing (deref o)
  ChangesNothing-deref none = record { at = λ log. refl }
  ChangesNothing-deref (some a) = ChangesNothing-pure a

  pub ChangesNothing-index : (xs : List A) (i : ℕ) → ChangesNothing (index xs i)
  ChangesNothing-index xs i = ChangesNothing-deref (get_elem? xs i)

  pub ChangesNothing-if :
      (b : Bool) (m n : Act A)
      → ChangesNothing m
      → ChangesNothing n
      → ChangesNothing (if b then m else n)
  ChangesNothing-if true m n km kn = km
  ChangesNothing-if false m n km kn = kn

  pub ChangesNothing-elim :
      (b : Bool) (m n : Act A)
      → ChangesNothing m
      → ChangesNothing n
      → ChangesNothing (elim b [ true ↦ m | false ↦ n ])
  ChangesNothing-elim true m n km kn = km
  ChangesNothing-elim false m n km kn = kn

pub ChangesNothing-usable : (client : AzureClient × Option Error) → ChangesNothing (usable client)
ChangesNothing-usable (client, none) = ChangesNothing-pure client
ChangesNothing-usable (client, some e) = ChangesNothing-fail e

pub ChangesNothing-resources :
    {A : Type 0} (m : Act A) (log : Log)
    → ChangesNothing m
    → resource_changes (m log).1 ≡ resource_changes log
ChangesNothing-resources m log k = ap without_drains (k.at log)

-- A call that asks for no change.
pub ChangesNothing-ask : (env : Env) (c : Call) → is_change c ≡ false → ChangesNothing (ask env c)
ChangesNothing-ask env c quiet = record { at = λ log. rw quiet }

pub ruleset quiet_rules = (
  ChangesNothing-pure, ChangesNothing-lift, ChangesNothing-deref, ChangesNothing-index,
  ChangesNothing-usable, ChangesNothing-if, ChangesNothing-bind, ChangesNothing-ask, refl,
)
