-- ===== src/Controllers/ControlPlanes/Upgrade.antt =====
-- What an upgrade of the control plane's machines has seen when it succeeds.
use azk.Base.{
  ℕ, zero, suc, String, Bool, true, false, Option, none, some, List, [], ◌∷◌, ◌≡◌, refl, ◌⊎◌, inl,
  arith, ◌<>◌, ◌==◌, eq_iff,
}
use azk.Api.{Error, Result, ok, err, VmStatus, ControlPlane, Cluster}
use azk.World.{
  Act, Env, Log, Call, Exit, returned, failed, panicked, kube, sleep, manager_client, get_node,
  AzureClient, Node, NodeCondition, ask, ◌>>=◌,
}
use azk.World.Keeps.{Keeps, Keeps-bind, Keeps-lift, Keeps-pure, Keeps-elim, keeps_rules}
use azk.World.Post.{
  Post, Post-bind, Post-kept, Ensures, Ensures-bind, Ensures-on_error, Ensures-fail,
}
use azk.Helpers.{
  version_error, is_node_updated, wait_for_node_version_ready, poll_node_version, note_conditions,
}
use azk.Helpers.VersionWait.{EndsAtVersion, ShowsVersion, wait_for_node_version_ready_success}
use azk.Azure.{usable, get_vmss_vms_client}
use azk.Controllers.ControlPlanes.{upgrade_nodes, upgrade_node, finish_upgrade, upgrade_vmss}

module _ (env : Env) (version : String) where
  -- Some call so far read the node of this name, and found its kubelet at the version.
  abbrev pub WasSeen : String → Log → Type 0
  WasSeen name [] = ⊥
  WasSeen name (kube client r ∷ rest) =
      ((kube client r ≡ kube manager_client (get_node name))
        × ShowsVersion env manager_client name version
            (env.answer rest (kube manager_client (get_node name))))
      ⊎ WasSeen name rest
  WasSeen name (_ ∷ rest) = WasSeen name rest

  -- Every machine of the list was seen at the version.
  abbrev pub AllSeen : List VmStatus → Log → Type 0
  AllSeen [] log = Unit
  AllSeen (node ∷ nodes) log = WasSeen node.vm_computer_name log × AllSeen nodes log

  EndsAtVersion-WasSeen :
      (name : String) (log : Log)
      → EndsAtVersion env manager_client name version log
      → WasSeen name log
  EndsAtVersion-WasSeen name [] h = h
  EndsAtVersion-WasSeen name (c ∷ rest) h = ground (arith, EndsAtVersion-WasSeen name rest)

  pub WasSeen-later :
      (name : String) (c : Call) (log : Log) → WasSeen name log → WasSeen name (c ∷ log)
  WasSeen-later name c log h = ground arith

  module _ (P : Log → Type 0) (later : (c : Call) (log : Log) → P log → P (c ∷ log)) where
    -- A call keeps what no later call changes.
    asked_later : (c : Call) → Keeps P (ask env c)
    asked_later c = record { at = later c }

    note_conditions-Keeps :
        (name : String) (conditions : List NodeCondition) (e : Option Error)
        → Keeps P (note_conditions env manager_client name conditions e)
    unfolding note_conditions
    note_conditions-Keeps name [] e = search keeps_rules
    note_conditions-Keeps name (c ∷ conditions) e =
        let rest = note_conditions-Keeps name conditions in
        Keeps-elim P (c.kind == "Ready") _ _ (rest e) (search (keeps_rules, asked_later, rest))

    poll_node_version-Keeps :
        (rounds : ℕ) (name : String) (e : Option Error)
        → Keeps P (poll_node_version env manager_client rounds name version e)
    unfolding poll_node_version
    poll_node_version-Keeps zero name none = search keeps_rules
    poll_node_version-Keeps zero name (some e) = search keeps_rules
    poll_node_version-Keeps (suc rounds) name e =
        let rest = poll_node_version-Keeps rounds name in
        Keeps-bind P _
          (λ got.
            Keeps-bind P _
              (λ node.
                Keeps-bind P _
                  (λ noted.
                    Keeps-elim P (node.kubelet_version == "v" <> version) _ _ (Keeps-pure P tt) (
                      Keeps-bind P _
                        (λ slept. rest (some (version_error env manager_client name node version)))
                        _ (asked_later (sleep 3))))
                  _ (note_conditions-Keeps name node.conditions e))
              _ (Keeps-lift P got))
          _ (asked_later (kube manager_client (get_node name)))

    wait-Keeps :
        (name : String) → Keeps P (wait_for_node_version_ready env manager_client name version)
    unfolding wait_for_node_version_ready
    wait-Keeps name = poll_node_version-Keeps 100 name none

    upgrade_node-Keeps :
        (client : AzureClient) (group : String) (node : VmStatus)
        → Keeps P (upgrade_node env client group version node)
    unfolding upgrade_node finish_upgrade
    upgrade_node-Keeps client group node = search (keeps_rules, asked_later, wait-Keeps) depth 12

    is_node_updated-Keeps :
        (name : String) → Keeps P (is_node_updated env manager_client name version)
    unfolding is_node_updated
    is_node_updated-Keeps name = search (keeps_rules, asked_later)

    upgrade_nodes-Keeps :
        (client : AzureClient) (group : String) (nodes : List VmStatus)
        → Keeps P (upgrade_nodes env client group version nodes)
    unfolding upgrade_nodes
    upgrade_nodes-Keeps client group [] = search keeps_rules
    upgrade_nodes-Keeps client group (node ∷ nodes) =
        let rest = upgrade_nodes-Keeps client group nodes in
        Keeps-bind P _
          (λ is_updated.
            Keeps-elim P is_updated _ _ rest
              (Keeps-bind P _ (λ done. rest) _ (upgrade_node-Keeps client group node)))
          _ (is_node_updated-Keeps node.vm_computer_name)

  -- When it answers that the machine is at the version, it has seen it.
  is_node_updated_answer :
      (name : String) (log : Log) (answer : Result Node)
      → env.answer log (kube manager_client (get_node name)) ≡ answer
      → Post
          (λ is_updated after. is_updated ≡ true → WasSeen name after)
          (is_node_updated env manager_client name version log)
  unfolding is_node_updated
  is_node_updated_answer name log (ok node) h =
      rw h (λ same. inl (refl, rw h ground (arith, eq_iff node.kubelet_version ("v" <> version))))
  is_node_updated_answer name log (err e) h = rw h tt

  wait_seen :
      (name : String) (log : Log)
      → Post
          (λ done after. WasSeen name after)
          (wait_for_node_version_ready env manager_client name version log)
  wait_seen name log = seen _ refl
    where
      seen :
          (ended : Exit (Unit {0}) × Log)
          → wait_for_node_version_ready env manager_client name version log ≡ ended
          → Post (λ done after. WasSeen name after) ended
      seen (returned done, after) h =
          EndsAtVersion-WasSeen name after
            (wait_for_node_version_ready_success env manager_client name version log h)
      seen (failed e, after) h = tt
      seen (panicked, after) h = tt

  wait-Ensures :
      (name : String)
      → Ensures
          (λ done after. WasSeen name after)
          (wait_for_node_version_ready env manager_client name version)
  wait-Ensures name = record { at = wait_seen name }

  upgrade_node-Ensures :
      (client : AzureClient) (group : String) (node : VmStatus)
      → Ensures
          (λ done after. WasSeen node.vm_computer_name after)
          (upgrade_node env client group version node)
  unfolding upgrade_node finish_upgrade
  upgrade_node-Ensures client group node =
      search (Ensures-bind, Ensures-on_error, Ensures-fail, wait-Ensures)

  -- One machine, from what the later machines ensure.
  module _ (client : AzureClient) (group : String) (node : VmStatus) (nodes : List VmStatus)
      (later : (l : Log)
        → Post
            (λ done after. AllSeen nodes after)
            (upgrade_nodes env client group version nodes l)) where
    abbrev Whole : Exit (Unit {0}) × Log → Type 0
    Whole = Post (λ done after. AllSeen (node ∷ nodes) after)

    rest_seen :
        (l : Log)
        → WasSeen node.vm_computer_name l
        → Whole (upgrade_nodes env client group version nodes l)
    rest_seen l seen =
        let name = node.vm_computer_name in
        Post-kept (WasSeen name) (λ done after. AllSeen nodes after)
          (upgrade_nodes env client group version nodes) l
          (upgrade_nodes-Keeps (WasSeen name) (WasSeen-later name) client group nodes) seen
          (later l)

    abbrev continued : Bool → Act (Unit {0})
    continued is_updated = elim is_updated [
      | true ↦ upgrade_nodes env client group version nodes
      | false ↦ upgrade_node env client group version node >>= λ _.
          upgrade_nodes env client group version nodes
    ]

    decided :
        (is_updated : Bool) (l : Log)
        → (is_updated ≡ true → WasSeen node.vm_computer_name l)
        → Whole (continued is_updated l)
    decided true l seen = rest_seen l (seen refl)
    decided false l seen =
        Post-bind (λ done after. WasSeen node.vm_computer_name after) _ _
          (upgrade_node env client group version node) l
          ((upgrade_node-Ensures client group node).at l) (λ done. rest_seen)

    upgrade_nodes_round :
        (log : Log) → Whole (upgrade_nodes env client group version (node ∷ nodes) log)
    unfolding upgrade_nodes
    upgrade_nodes_round log =
        Post-bind (λ is_updated after. is_updated ≡ true → WasSeen node.vm_computer_name after) _ _
          (is_node_updated env manager_client node.vm_computer_name version) log
          (is_node_updated_answer node.vm_computer_name log _ refl) decided

  upgrade_nodes_seen :
      (client : AzureClient) (group : String) (nodes : List VmStatus) (log : Log)
      → Post (λ done after. AllSeen nodes after) (upgrade_nodes env client group version nodes log)
  unfolding upgrade_nodes
  upgrade_nodes_seen client group [] log = tt
  upgrade_nodes_seen client group (node ∷ nodes) log =
      upgrade_nodes_round client group node nodes (upgrade_nodes_seen client group nodes) log

-- When the upgrade of the control plane succeeds, every machine of its status was read at the version
-- asked for, at some time during or before the upgrade.
pub upgrade_vmss_outcome :
    (env : Env) (instance : ControlPlane) (cluster : Cluster) (log : Log)
    → Post
        (λ done after.
          AllSeen env instance.spec.kubernetes_version instance.status.node_status after)
        (upgrade_vmss env instance cluster log)
unfolding upgrade_vmss
upgrade_vmss_outcome env instance cluster log =
    let version = instance.spec.kubernetes_version in
    let nodes = instance.status.node_status in
    let group = cluster.spec.cloud.group_name in
    (Ensures-bind (λ done after. AllSeen env version nodes after) _
        (λ client. record { at = upgrade_nodes_seen env version client group nodes })
        (usable (get_vmss_vms_client env cluster.spec.cloud))).at
      log
