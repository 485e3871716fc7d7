-- ===== src/Changes/Waits.antt =====
-- The waits of helpers/helpers.go and azure/vmss.go ask for no change.
use azk.Base.{
  ℕ, zero, suc, String, Option, none, some, List, [], ◌∷◌, ◌==◌, ◌<>◌, ℤ, pos, ltb_ℤ, refl,
}
use azk.Api.{Error, CloudConfiguration, message, nodes_not_ready}
use azk.World.{Env, AzureClient, KubeClient, kube, get_node, list_nodes, sleep, NodeCondition}
use azk.Helpers.{
  found_nodes, poll_nodes_ready, wait_for_nodes_ready, note_conditions, version_error,
  poll_node_version, wait_for_node_version_ready, is_node_updated,
}
use azk.Azure.{finish}
use azk.Changes.{
  ChangesNothing, ChangesNothing-bind, ChangesNothing-lift, ChangesNothing-pure, ChangesNothing-ask,
  ChangesNothing-elim, ChangesNothing-on_error, ChangesNothing-fail, quiet_rules,
}

module _ (env : Env) (client : KubeClient) where
  poll_nodes-ChangesNothing :
      (rounds : ℕ) (name : String) (count : ℤ) (e : Option Error)
      → ChangesNothing (poll_nodes_ready env client rounds name count e)
  unfolding poll_nodes_ready
  poll_nodes-ChangesNothing zero name count none = search quiet_rules
  poll_nodes-ChangesNothing zero name count (some e) = ChangesNothing-fail e
  poll_nodes-ChangesNothing (suc rounds) name count e =
      let rest = poll_nodes-ChangesNothing rounds name count in
      ChangesNothing-bind _
        (λ listed.
          ChangesNothing-bind _
            (λ nodes.
              ChangesNothing-elim (ltb_ℤ (pos (found_nodes name nodes)) count) _ _
                (ChangesNothing-bind _
                  (λ slept. rest (some (nodes_not_ready (found_nodes name nodes) count))) _
                  (ChangesNothing-ask env (sleep 3) refl))
                (ChangesNothing-pure tt))
            _ (ChangesNothing-lift listed))
        _ (ChangesNothing-ask env (kube client list_nodes) refl)

  pub wait_for_nodes-ChangesNothing :
      (name : String) (count : ℤ) → ChangesNothing (wait_for_nodes_ready env client name count)
  unfolding wait_for_nodes_ready
  wait_for_nodes-ChangesNothing name count = poll_nodes-ChangesNothing 100 name count none

  note_conditions-ChangesNothing :
      (name : String) (conditions : List NodeCondition) (e : Option Error)
      → ChangesNothing (note_conditions env client name conditions e)
  unfolding note_conditions
  note_conditions-ChangesNothing name [] e = ChangesNothing-pure e
  note_conditions-ChangesNothing name (c ∷ conditions) e =
      let rest = note_conditions-ChangesNothing name conditions in
      ChangesNothing-elim (c.kind == "Ready") _ _ (rest e) (
        ChangesNothing-bind _
          (λ slept. rest (some (message ("Found node " <> name <> " not ready")))) _
          (ChangesNothing-ask env (sleep 3) refl))

  poll_version-ChangesNothing :
      (rounds : ℕ) (name version : String) (e : Option Error)
      → ChangesNothing (poll_node_version env client rounds name version e)
  unfolding poll_node_version
  poll_version-ChangesNothing zero name version none = search quiet_rules
  poll_version-ChangesNothing zero name version (some e) = ChangesNothing-fail e
  poll_version-ChangesNothing (suc rounds) name version e =
      let rest = poll_version-ChangesNothing rounds name version in
      ChangesNothing-bind _
        (λ got.
          ChangesNothing-bind _
            (λ node.
              ChangesNothing-bind _
                (λ noted.
                  ChangesNothing-elim (node.kubelet_version == "v" <> version) _ _
                    (ChangesNothing-pure tt)
                    (ChangesNothing-bind _
                      (λ slept. rest (some (version_error env client name node version))) _
                      (ChangesNothing-ask env (sleep 3) refl)))
                _ (note_conditions-ChangesNothing name node.conditions e))
            _ (ChangesNothing-lift got))
        _ (ChangesNothing-ask env (kube client (get_node name)) refl)

  pub wait_for_version-ChangesNothing :
      (name version : String) → ChangesNothing (wait_for_node_version_ready env client name version)
  unfolding wait_for_node_version_ready
  wait_for_version-ChangesNothing name version = poll_version-ChangesNothing 100 name version none

  pub is_node_updated-ChangesNothing :
      (name version : String) → ChangesNothing (is_node_updated env client name version)
  unfolding is_node_updated
  is_node_updated-ChangesNothing name version = search quiet_rules

pub finish-ChangesNothing :
    (env : Env) (c : CloudConfiguration) (client : AzureClient) (text : String) (future : ℕ)
    → ChangesNothing (finish env c client text future)
unfolding finish
finish-ChangesNothing env c client text future =
    search (quiet_rules, ChangesNothing-on_error, ChangesNothing-fail)
