-- ===== src/Controllers/ControlPlanes/Settling.antt =====
-- When an upgraded control plane is reported as provisioned.
use azk.Base.{
  ℕ, zero, suc, String, true, none, some, Option, List, [], ◌∷◌, ◌≡◌, refl, ◌≢◌, ◌⊎◌, arith, ℤ, pos,
  ltb_ℤ,
}
use azk.Api.{Error, VmStatus, ControlPlane, Cluster, nodes_not_ready}
use azk.World.{
  Env, Log, Call, Exit, returned, failed, panicked, kube, manager_client,
  update_control_plane_status, record_event, list_nodes, sleep, ask,
}
use azk.World.Keeps.{Keeps, Keeps-bind, Keeps-lift, Keeps-pure, Keeps-elim, keeps_rules}
use azk.World.Post.{Post}
use azk.Helpers.{found_nodes, poll_nodes_ready, wait_for_nodes_ready}
use azk.Helpers.Waiting.{EndsFound, WaitOutcome, wait_for_nodes_ready_outcome}
use azk.Controllers.Outcome.{Outcome, finished}
use azk.Controllers.ControlPlanes.{master_vmss_name, settled, settle, needs_upgrade, upgrade_vmss}
use azk.Controllers.ControlPlanes.Upgrade.{AllSeen, WasSeen-later, upgrade_vmss_outcome}

module _ (env : Env) where
  module _ (P : Log → Type 0) (later : (c : Call) (log : Log) → P log → P (c ∷ log)) where
    asked_later : (c : Call) → Keeps P (ask env c)
    asked_later c = record { at = later c }

    poll_nodes_ready-Keeps :
        (rounds : ℕ) (name : String) (count : ℤ) (e : Option Error)
        → Keeps P (poll_nodes_ready env manager_client rounds name count e)
    unfolding poll_nodes_ready
    poll_nodes_ready-Keeps zero name count none = search keeps_rules
    poll_nodes_ready-Keeps zero name count (some e) = search keeps_rules
    poll_nodes_ready-Keeps (suc rounds) name count e =
        let rest = poll_nodes_ready-Keeps rounds name count in
        Keeps-bind P _
          (λ listed.
            Keeps-bind P _
              (λ nodes.
                Keeps-elim P (ltb_ℤ (pos (found_nodes name nodes)) count) _ _
                  (Keeps-bind P _
                    (λ slept. rest (some (nodes_not_ready (found_nodes name nodes) count))) _
                    (asked_later (sleep 3)))
                  (Keeps-pure P tt))
              _ (Keeps-lift P listed))
          _ (asked_later (kube manager_client list_nodes))

  AllSeen-later :
      (version : String) (nodes : List VmStatus) (c : Call) (log : Log)
      → AllSeen env version nodes log
      → AllSeen env version nodes (c ∷ log)
  AllSeen-later version [] c log h = tt
  AllSeen-later version (node ∷ nodes) c log (h, hs) = (
    WasSeen-later env version node.vm_computer_name c log h,
    AllSeen-later version nodes c log hs,
  )

  module _ (instance : ControlPlane) (cluster : Cluster) where
    -- The last calls report success and record an event, right after a listing that showed three
    -- nodes with a condition of type Ready, and by then every machine was seen at the version asked for.
    abbrev pub ReportedUpgraded : Log → Type 0
    ReportedUpgraded (record_event meta kind reason text ∷ report ∷ waited) =
        (report ≡ kube manager_client (update_control_plane_status (settled instance)))
        × EndsFound env manager_client master_vmss_name (pos 3) waited
        × AllSeen env instance.spec.kubernetes_version instance.status.node_status waited
    ReportedUpgraded _ = ⊥

    abbrev pub SettleOutcome : Exit Outcome × Log → Type 0
    SettleOutcome (returned o, after) = ((o ≡ finished) × ReportedUpgraded after) ⊎ (o.error ≢ none)
    SettleOutcome (failed _, after) = ⊥
    SettleOutcome (panicked, after) = Unit

    settle_waited :
        (log : Log) (upgraded waited : Exit (Unit {0}) × Log)
        → needs_upgrade instance ≡ true
        → upgrade_vmss env instance cluster log ≡ upgraded
        → Post
            (λ done after.
              AllSeen env instance.spec.kubernetes_version instance.status.node_status after)
            upgraded
        → wait_for_nodes_ready env manager_client master_vmss_name (pos 3) upgraded.1 ≡ waited
        → WaitOutcome env manager_client master_vmss_name (pos 3) upgraded.1 waited
        → (AllSeen env instance.spec.kubernetes_version instance.status.node_status upgraded.1
            → AllSeen env instance.spec.kubernetes_version instance.status.node_status waited.1)
        → SettleOutcome (settle env instance cluster log)
    unfolding settle
    settle_waited log upgraded waited needed h seen h' ready kept = ground arith

    wait-AllSeen :
        Keeps
          (AllSeen env instance.spec.kubernetes_version instance.status.node_status)
          (wait_for_nodes_ready env manager_client master_vmss_name (pos 3))
    unfolding wait_for_nodes_ready
    wait-AllSeen =
        let version = instance.spec.kubernetes_version in
        let nodes = instance.status.node_status in
        poll_nodes_ready-Keeps (AllSeen env version nodes) (AllSeen-later version nodes) 100
          master_vmss_name (pos 3) none

    -- For a control plane that is at another version than the one asked for, `settle` returns without an
    -- error only right after it has reported success, and this report follows a listing that showed
    -- three nodes of the control plane with a condition of type Ready, whatever the status of that
    -- condition; by then every machine of the status was read at the version.
    pub settle_upgraded_outcome :
        (log : Log)
        → needs_upgrade instance ≡ true
        → SettleOutcome (settle env instance cluster log)
    settle_upgraded_outcome log needed =
        let upgraded = upgrade_vmss env instance cluster log in
        settle_waited log upgraded
          (wait_for_nodes_ready env manager_client master_vmss_name (pos 3) upgraded.1) needed refl
          (upgrade_vmss_outcome env instance cluster log) refl
          (wait_for_nodes_ready_outcome env manager_client master_vmss_name (pos 3) upgraded.1)
          (wait-AllSeen.at upgraded.1)
