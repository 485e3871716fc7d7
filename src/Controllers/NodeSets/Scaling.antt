-- ===== src/Controllers/NodeSets/Scaling.antt =====
-- Which machines `scaleNodeSet` deletes.
use azk.Base.{
  ℕ, suc, ◌-◌, String, true, false, some, List, [], ◌∷◌, ◌≡◌, refl, ◌⊎◌, inl, inr, arith, ℤ, pos,
  pos_part, ltb_ℤ, drop, drop-nil, Bool-cases,
}
use azk.Api.{VmStatus, NodeSet, Cluster}
use azk.World.{
  Env, Log, Call, Act, Exit, deref, returned, failed, panicked, pure, lift, ask, ◌>>=◌, azure,
  vms_delete, vmss_update,
}
use azk.Helpers.{cordon_drain_and_delete_node}
use azk.Helpers.Drain.{cordon_drain_no_panic}
use azk.Azure.{get_vmss_vms_client, usable, scale_vmss}
use azk.Changes.{
  resource_changes, ChangesNothing, ChangesNothing-resources, ChangesNothing-bind,
  ChangesNothing-index, ChangesNothing-pure,
}
use azk.Changes.Calls.{
  resource_changes-cordon_drain, ChangesNothing-custom_data, ChangesNothing-bootstrap_token,
}
use azk.Controllers.NodeSets.{agent_vmss, get_custom_data, remove_surplus, scale_node_set}

module _ (env : Env) (instance : NodeSet) (cluster : Cluster) where
  pub ChangesNothing-node_set_custom_data : ChangesNothing (get_custom_data env instance cluster)
  unfolding get_custom_data
  ChangesNothing-node_set_custom_data = search (
    ChangesNothing-bind, ChangesNothing-custom_data, ChangesNothing-index, ChangesNothing-pure,
    ChangesNothing-bootstrap_token,
  )

  abbrev pub deletion : VmStatus → Call
  deletion node =
      azure (get_vmss_vms_client env cluster.spec.cloud).0
        (vms_delete cluster.spec.cloud.group_name (agent_vmss instance) node.vm_instance_id)

  -- Drains and deletes each of the machines, up to the first error.
  remove_all : List VmStatus → Act (Unit {0})
  remove_all [] = pure tt
  remove_all (node ∷ nodes) =
      cordon_drain_and_delete_node env instance.status.kubeconfig node.vm_computer_name >>= λ _.
      usable (get_vmss_vms_client env cluster.spec.cloud) >>= λ client.
      ask env (
        azure client
          (vms_delete cluster.spec.cloud.group_name (agent_vmss instance) node.vm_instance_id))
      >>= lift
      >>= λ _. remove_all nodes

  remove_surplus_kept :
      (expected : ℤ) (cur : ℕ)
      → ltb_ℤ (pos cur) expected ≡ true
      → pos_part expected - cur ≡ suc (pos_part expected - suc cur)
  remove_surplus_kept expected cur h = ground arith

  remove_surplus_reached :
      (expected : ℤ) (cur : ℕ) → ltb_ℤ (pos cur) expected ≡ false → pos_part expected - cur ≡ 0
  remove_surplus_reached (pos n) cur h = ground arith
  remove_surplus_reached (ℤ.negsuc n) cur h = omega arith

  remove_surplus_lem :
      (expected : ℤ) (nodes : List VmStatus) (cur : ℕ)
      → remove_surplus env instance cluster expected nodes cur
        ≡ remove_all (drop (pos_part expected - cur) nodes)
  unfolding remove_surplus remove_all
  remove_surplus_lem expected [] cur = rw (drop-nil (pos_part expected - cur))
  remove_surplus_lem expected (node ∷ nodes) cur = elim (Bool-cases (ltb_ℤ (pos cur) expected)) [
    | inl below ↦
        rw (below, remove_surplus, remove_surplus_kept expected cur below)
          (remove_surplus_lem expected nodes (suc cur))
    | inr reached ↦
        rw (reached, remove_surplus, remove_surplus_reached expected cur reached)
          (simp (
            rw (remove_surplus_reached expected cur reached) at
              (remove_surplus_lem expected nodes cur)))
  ]

  -- The resource_changes after deleting each of the machines, in order.
  abbrev pub asked : List VmStatus → Log → Log
  asked [] before = before
  asked (node ∷ nodes) before = asked nodes (deletion node ∷ before)

  -- The resource_changes after deleting some of the machines, in order from the first.
  abbrev pub AskedSome : List VmStatus → Log → Log → Type 0
  AskedSome [] before after = after ≡ before
  AskedSome (node ∷ nodes) before after =
      (after ≡ before) ⊎ AskedSome nodes (deletion node ∷ before) after

  AskedSome-asked :
      (nodes : List VmStatus) (before : Log) → AskedSome nodes before (asked nodes before)
  AskedSome-asked [] before = refl
  AskedSome-asked (node ∷ nodes) before = inr (AskedSome-asked nodes (deletion node ∷ before))

  abbrev Removal : List VmStatus → Log → Exit (Unit {0}) × Log → Type 0
  Removal nodes before (returned _, after) = resource_changes after ≡ asked nodes before
  Removal nodes before (failed _, after) = AskedSome nodes before (resource_changes after)
  Removal nodes before (panicked, after) = ⊥

  AskedSome-refl : (nodes : List VmStatus) (before : Log) → AskedSome nodes before before
  AskedSome-refl [] before = refl
  AskedSome-refl (node ∷ nodes) before = inl refl

  remove_all-Removal :
      (nodes : List VmStatus) (log : Log)
      → Removal nodes (resource_changes log) (remove_all nodes log)
  unfolding remove_all
  remove_all-Removal [] log = refl
  remove_all-Removal (node ∷ nodes) log =
      let kubeconfig = instance.status.kubeconfig in
      let drained = cordon_drain_and_delete_node env kubeconfig node.vm_computer_name log in
      ground (
        arith,
        resource_changes-cordon_drain env kubeconfig node.vm_computer_name log,
        cordon_drain_no_panic env kubeconfig node.vm_computer_name log,
        AskedSome-refl nodes (deletion node ∷ resource_changes log),
        remove_all-Removal nodes (deletion node ∷ drained.1),
      )

  -- The newest change of a resource sets the capacity of the scale set to the count, and the others are these.
  abbrev pub ScaledTo : ℤ → Log → Log → Type 0
  ScaledTo count before (azure client (vmss_update group name capacity custom_data) ∷ rest) =
      (capacity ≡ count) × (name ≡ agent_vmss instance) × (rest ≡ before)
  ScaledTo count before _ = ⊥

  resource_changes-scale_vmss :
      (custom_data : String) (count : ℤ) (log : Log)
      → let after =
          (scale_vmss env cluster.spec.cloud (agent_vmss instance) custom_data count log).1 in
        (resource_changes after ≡ resource_changes log)
        ⊎ ScaledTo count (resource_changes log) (resource_changes after)
  unfolding scale_vmss
  resource_changes-scale_vmss custom_data count log = ground arith

  abbrev pub ScaleOutcome : ℤ → List VmStatus → Log → Exit (Unit {0}) × Log → Type 0
  ScaleOutcome count surplus log (returned _, after) =
      (resource_changes after ≡ asked surplus (resource_changes log))
      ⊎ ScaledTo count (asked surplus (resource_changes log)) (resource_changes after)
  ScaleOutcome count surplus log (_, after) =
      AskedSome surplus (resource_changes log) (resource_changes after)
      ⊎ ScaledTo count (asked surplus (resource_changes log)) (resource_changes after)

  remove_surplus-Removal :
      (expected : ℤ) (nodes : List VmStatus) (log : Log)
      → Removal
          (drop (pos_part expected) nodes)
          (resource_changes log)
          (remove_surplus env instance cluster expected nodes 0 log)
  remove_surplus-Removal expected nodes log =
      let whole : pos_part expected - 0 ≡ pos_part expected = omega arith in
      rw (remove_surplus_lem expected nodes 0, whole)
        (remove_all-Removal (drop (pos_part expected) nodes) log)

  -- The last steps, from the custom data made or not.
  scale_customised :
      (expected : ℤ) (surplus : List VmStatus) (log : Log) (made : Exit String × Log)
      → resource_changes made.1 ≡ asked surplus (resource_changes log)
      → ScaleOutcome expected surplus log (
          ((λ (l : Log). made) >>= λ text.
          scale_vmss env cluster.spec.cloud (agent_vmss instance) text expected)
            log)
  scale_customised expected surplus log (returned text, l) h = ground (
    arith,
    resource_changes-scale_vmss text expected l,
    AskedSome-asked surplus (resource_changes log),
  )
  scale_customised expected surplus log (failed e, l) h =
      ground (arith, AskedSome-asked surplus (resource_changes log))
  scale_customised expected surplus log (panicked, l) h =
      ground (arith, AskedSome-asked surplus (resource_changes log))

  -- With a count given, the machines deleted are those behind the first `count` of the list and no
  -- others, each asked for once and in order. On an error or a panic the deletions end early. The
  -- capacity is set at most once, to the count, and only after every surplus machine is deleted.
  pub scale_node_set_outcome :
      (expected : ℤ) (log : Log)
      → instance.spec.replicas ≡ some expected
      → ScaleOutcome expected
          (drop (pos_part expected) instance.status.node_status)
          log
          (scale_node_set env instance cluster log)
  unfolding scale_node_set
  scale_node_set_outcome expected log given =
      let nodes = instance.status.node_status in
      let surplus = drop (pos_part expected) nodes in
      let removed = remove_surplus env instance cluster expected nodes 0 log in
      let made = get_custom_data env instance cluster removed.1 in
      rw (given, deref)
        (ground (
          arith,
          remove_surplus-Removal expected nodes log,
          ChangesNothing-resources _ removed.1 ChangesNothing-node_set_custom_data,
          scale_customised expected surplus log made,
        ))
