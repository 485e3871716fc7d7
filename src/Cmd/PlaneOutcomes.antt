-- ===== src/Cmd/PlaneOutcomes.antt =====
-- What the commands of cmd/controlplane/controlplane.go have seen when they return, and that they have
-- not waited when they fail.
use azk.Base.{ℕ, suc, String, ◌<>◌, Bool, true, false, ◌≡◌, refl, ◌∷◌}
use azk.Api.{NamespacedName, ControlPlane}
use azk.World.{Env, Log, returned, Act, KubeClient, kube, get_control_plane, ◌>>=◌, print}
use azk.World.Keeps.{keeps_rules}
use azk.Bootstrap.{cluster_name_of}
use azk.Cmd.Polling.{poll_until}
use azk.Cmd.NodePools.{report_done}
use azk.Cmd.ControlPlanes.{
  CreateControlPlaneOptions, UpgradeControlPlaneOptions, fetch_control_plane, create_control_plane,
  upgrade_control_plane, is_plane_provisioned, is_plane_upgraded, report_plane_created,
  empty_control_plane,
}
use azk.Cmd.Reports.{
  sleeps, Reporting-weaken, Ended, Reporting, Reporting-bind, Reporting-on_error, Reporting-fail,
  Reports, Reporting-poll, Sleepless-version, Sleepless-client,
}

-- The control plane of a cluster has the cluster's name.
abbrev pub plane_key : String → String → NamespacedName
plane_key subscription_id resource_group = record {
  namespace = cluster_name_of subscription_id resource_group;
  name = cluster_name_of subscription_id resource_group;
}

-- The report of a command on a control plane: some client looked at the plane of that name.
abbrev pub PlaneReports :
    Env → NamespacedName → (ControlPlane → Bool) → String → String → Log → Type 0
PlaneReports env key reached done timeout after =
    (client : KubeClient) × Reports (kube client (get_control_plane key))
      (λ log. env.answer log (kube client (get_control_plane key))) reached done timeout env after

module _ (env : Env) (before : ℕ) (key : NamespacedName) (done timeout : String) where
  module _ (reached : ControlPlane → Bool) (not_yet : reached empty_control_plane ≡ false)
      (report : Bool × ControlPlane → Act (Unit {0}))
      (success : (plane : ControlPlane) (log : Log)
        → reached plane ≡ true
        → report (true, plane) log ≡ (returned tt, print done ∷ log))
      (failure : (plane : ControlPlane) (log : Log)
        → reached plane ≡ false
        → report (false, plane) log ≡ (returned tt, print timeout ∷ log)) where
    Reporting-plane :
        (client : KubeClient) (rounds : ℕ)
        → Reporting (PlaneReports env key reached done timeout) before (
            poll_until env
              (fetch_control_plane env client key)
              reached
              (suc rounds)
              empty_control_plane
            >>= report)
    Reporting-plane client rounds =
        let look = kube client (get_control_plane key) in
        let get = λ (log : Log). env.answer log (kube client (get_control_plane key)) in
        Reporting-weaken (Reports look get reached done timeout env)
          (PlaneReports env key reached done timeout) (λ log h. (client, h)) before _
          (Reporting-poll env look get reached done timeout report success failure before rounds
            empty_control_plane not_yet)

module _ (env : Env) where
  abbrev pub PlaneUpgradeReports : UpgradeControlPlaneOptions → Log → Type 0
  PlaneUpgradeReports o =
      PlaneReports env (plane_key o.subscription_id o.resource_group)
        (is_plane_upgraded o.master_kubernetes_version)
        ("✓ Successfully Upgraded Control Plane "
          <> cluster_name_of o.subscription_id o.resource_group)
        ("✗ Failed to Upgrade Control Plane "
          <> cluster_name_of o.subscription_id o.resource_group
          <> ", timedout")

  Reporting-plane_upgrade :
      (o : UpgradeControlPlaneOptions) (before : ℕ)
      → Reporting (PlaneUpgradeReports o) before (upgrade_control_plane env o)
  unfolding upgrade_control_plane report_done
  Reporting-plane_upgrade o before =
      let key = plane_key o.subscription_id o.resource_group in
      let done =
        "✓ Successfully Upgraded Control Plane "
        <> cluster_name_of o.subscription_id o.resource_group in
      let timeout =
        "✗ Failed to Upgrade Control Plane "
        <> cluster_name_of o.subscription_id o.resource_group
        <> ", timedout" in
      let waiting =
        Reporting-plane env before key done timeout (is_plane_upgraded o.master_kubernetes_version)
          refl (λ looked. report_done env done timeout looked.0) (λ plane log h. refl)
          (λ plane log h. refl) in
      search (keeps_rules, Reporting-bind, waiting, Sleepless-client) depth 12

  -- An upgrade that returns has printed its success right after a `Get` of the control plane that
  -- showed it provisioned at the version asked for, or its timeout after its last sleep; one that
  -- fails has not waited at all.
  pub upgrade_control_plane_outcome :
      (o : UpgradeControlPlaneOptions) (log : Log)
      → Ended (PlaneUpgradeReports o) (sleeps log) (upgrade_control_plane env o log)
  upgrade_control_plane_outcome o log = (Reporting-plane_upgrade o (sleeps log)).at log refl

  -- For the version that the request is resolved to.
  abbrev pub PlaneCreateReports : CreateControlPlaneOptions → Log → Type 0
  PlaneCreateReports o after =
      (version : String) × PlaneReports env (plane_key o.subscription_id o.resource_group)
        is_plane_provisioned
        ("✓ Successfully Created ControlPlane with Kubernetes Version " <> version)
        "✗ Failed to Create Control Plane timedout" after

  Reporting-plane_create :
      (o : CreateControlPlaneOptions) (before : ℕ)
      → Reporting (PlaneCreateReports o) before (create_control_plane env o)
  unfolding create_control_plane report_plane_created
  Reporting-plane_create o before =
      let key = plane_key o.subscription_id o.resource_group in
      let timeout : String = "✗ Failed to Create Control Plane timedout" in
      let done : String → String =
        λ version. "✓ Successfully Created ControlPlane with Kubernetes Version " <> version in
      let waiting = λ (version : String) (client : KubeClient) (rounds : ℕ).
        Reporting-weaken (PlaneReports env key is_plane_provisioned (done version) timeout)
          (PlaneCreateReports o) (λ log h. (version, h)) before _
          (Reporting-plane env before key (done version) timeout is_plane_provisioned refl
            (λ looked. report_plane_created env version looked.1) (λ plane log h. rw h)
            (λ plane log h. rw h) client rounds) in
      search
        (
          keeps_rules, Reporting-bind, Reporting-on_error, Reporting-fail, waiting,
          Sleepless-client, Sleepless-version,
        )
        depth 14

  -- A creation that returns has printed its success right after a `Get` of the control plane that
  -- showed it provisioned, or its timeout after its last sleep, which is then no error; one that
  -- fails has not waited at all.
  pub create_control_plane_outcome :
      (o : CreateControlPlaneOptions) (log : Log)
      → Ended (PlaneCreateReports o) (sleeps log) (create_control_plane env o log)
  create_control_plane_outcome o log = (Reporting-plane_create o (sleeps log)).at log refl
