-- ===== src/Cmd/Outcomes.antt =====
-- What the commands of cmd/nodepool/nodepool.go have seen when
-- they return, and that they have not waited when they fail.
use azk.Base.{ℕ, suc, String, ◌<>◌, Bool, true, false, ◌≡◌, refl, ◌∷◌}
use azk.Api.{NamespacedName, NodePool}
use azk.World.{Env, Log, returned, Act, KubeClient, kube, get_node_pool, ◌>>=◌, print}
use azk.World.Keeps.{keeps_rules}
use azk.Bootstrap.{cluster_name_of}
use azk.Cmd.Polling.{poll_until}
use azk.Cmd.NodePools.{
  ScaleNodePoolOptions, UpgradeNodePoolOptions, CreateNodePoolOptions, fetch_node_pool,
  scale_node_pool, upgrade_node_pool, create_node_pool, is_scaled, is_upgraded, is_provisioned,
  report_done, report_created, empty_node_pool,
}
use azk.Cmd.Reports.{
  sleeps, Reporting-weaken, Ended, Reporting, Reporting-bind, Reporting-on_error, Reporting-fail,
  Reports, Reporting-poll, Sleepless-version, Sleepless-client,
}

abbrev pub pool_key : String → String → String → NamespacedName
pool_key subscription_id resource_group name = record {
  namespace = cluster_name_of subscription_id resource_group;
  name = name;
}

-- The report of a command on a node pool: some client looked at the pool of that name.
abbrev pub PoolReports : Env → NamespacedName → (NodePool → Bool) → String → String → Log → Type 0
PoolReports env key reached done timeout after =
    (client : KubeClient) × Reports (kube client (get_node_pool key))
      (λ log. env.answer log (kube client (get_node_pool key))) reached done timeout env after

module _ (env : Env) (before : ℕ) (key : NamespacedName) (done timeout : String) where
  module _ (reached : NodePool → Bool) (not_yet : reached empty_node_pool ≡ false)
      (report : Bool × NodePool → Act (Unit {0}))
      (success : (pool : NodePool) (log : Log)
        → reached pool ≡ true
        → report (true, pool) log ≡ (returned tt, print done ∷ log))
      (failure : (pool : NodePool) (log : Log)
        → reached pool ≡ false
        → report (false, pool) log ≡ (returned tt, print timeout ∷ log)) where
    Reporting-pool :
        (client : KubeClient) (rounds : ℕ)
        → Reporting (PoolReports env key reached done timeout) before (
            poll_until env (fetch_node_pool env client key) reached (suc rounds) empty_node_pool
            >>= report)
    Reporting-pool client rounds =
        let look = kube client (get_node_pool key) in
        let get = λ (log : Log). env.answer log (kube client (get_node_pool key)) in
        Reporting-weaken (Reports look get reached done timeout env)
          (PoolReports env key reached done timeout) (λ log h. (client, h)) before _
          (Reporting-poll env look get reached done timeout report success failure before rounds
            empty_node_pool not_yet)

module _ (env : Env) where
  abbrev pub ScaleReports : ScaleNodePoolOptions → Log → Type 0
  ScaleReports o =
      PoolReports env (pool_key o.subscription_id o.resource_group o.name) (is_scaled o.count)
        ("✓ Successfully Scaled Nodepool " <> o.name)
        ("✗ Failed to Scale Nodepool " <> o.name <> ", timedout")

  Reporting-scale :
      (o : ScaleNodePoolOptions) (before : ℕ)
      → Reporting (ScaleReports o) before (scale_node_pool env o)
  unfolding scale_node_pool report_done
  Reporting-scale o before =
      let key = pool_key o.subscription_id o.resource_group o.name in
      let waiting =
        Reporting-pool env before key ("✓ Successfully Scaled Nodepool " <> o.name)
          ("✗ Failed to Scale Nodepool " <> o.name <> ", timedout") (is_scaled o.count) refl
          (λ looked.
            report_done env ("✓ Successfully Scaled Nodepool " <> o.name)
              ("✗ Failed to Scale Nodepool " <> o.name <> ", timedout") looked.0)
          (λ pool log h. refl) (λ pool log h. refl) in
      search (keeps_rules, Reporting-bind, waiting, Sleepless-client) depth 12

  -- A scaling that returns has printed its success right after a `Get` of the pool that showed it
  -- provisioned with the count asked for, or its timeout after its last sleep; one that fails has
  -- not waited at all.
  pub scale_node_pool_outcome :
      (o : ScaleNodePoolOptions) (log : Log)
      → Ended (ScaleReports o) (sleeps log) (scale_node_pool env o log)
  scale_node_pool_outcome o log = (Reporting-scale o (sleeps log)).at log refl

  abbrev pub UpgradeReports : UpgradeNodePoolOptions → Log → Type 0
  UpgradeReports o =
      PoolReports env (pool_key o.subscription_id o.resource_group o.name)
        (is_upgraded o.agent_kubernetes_version) ("✓ Successfully Upgraded Nodepool " <> o.name)
        ("✗ Failed to Upgrade Nodepool " <> o.name <> ", timedout")

  Reporting-upgrade :
      (o : UpgradeNodePoolOptions) (before : ℕ)
      → Reporting (UpgradeReports o) before (upgrade_node_pool env o)
  unfolding upgrade_node_pool report_done
  Reporting-upgrade o before =
      let key = pool_key o.subscription_id o.resource_group o.name in
      let done = "✓ Successfully Upgraded Nodepool " <> o.name in
      let timeout = "✗ Failed to Upgrade Nodepool " <> o.name <> ", timedout" in
      let waiting =
        Reporting-pool env before key done timeout (is_upgraded o.agent_kubernetes_version) refl
          (λ looked. report_done env done timeout looked.0) (λ pool log h. refl)
          (λ pool log h. refl) in
      search (keeps_rules, Reporting-bind, waiting, Sleepless-client) depth 12

  -- An upgrade that returns has printed its success right after a `Get` of the pool that showed it
  -- provisioned at the version asked for, or its timeout after its last sleep; one that fails has
  -- not waited at all.
  pub upgrade_node_pool_outcome :
      (o : UpgradeNodePoolOptions) (log : Log)
      → Ended (UpgradeReports o) (sleeps log) (upgrade_node_pool env o log)
  upgrade_node_pool_outcome o log = (Reporting-upgrade o (sleeps log)).at log refl

  -- For the version that the request is resolved to.
  abbrev pub CreateReports : CreateNodePoolOptions → Log → Type 0
  CreateReports o after =
      (version : String) × PoolReports env (pool_key o.subscription_id o.resource_group o.name)
        is_provisioned
        ("✓ Successfully Created NodePool " <> o.name <> " with Kubernetes Version " <> version)
        "✗ Failed to Create NodePool <nil>" after

  Reporting-create :
      (o : CreateNodePoolOptions) (before : ℕ)
      → Reporting (CreateReports o) before (create_node_pool env o)
  unfolding create_node_pool report_created
  Reporting-create o before =
      let key = pool_key o.subscription_id o.resource_group o.name in
      let timeout : String = "✗ Failed to Create NodePool <nil>" in
      let done : String → String = λ version.
        "✓ Successfully Created NodePool " <> o.name <> " with Kubernetes Version " <> version in
      let waiting = λ (version : String) (client : KubeClient) (rounds : ℕ).
        Reporting-weaken (PoolReports env key is_provisioned (done version) timeout)
          (CreateReports o) (λ log h. (version, h)) before _
          (Reporting-pool env before key (done version) timeout is_provisioned refl
            (λ looked. report_created env o.name version looked.1) (λ pool log h. rw h)
            (λ pool log h. rw h) client rounds) in
      search
        (
          keeps_rules, Reporting-bind, Reporting-on_error, Reporting-fail, waiting,
          Sleepless-client, Sleepless-version,
        )
        depth 14

  -- A creation that returns has printed its success right after a `Get` of the pool that showed it
  -- provisioned, or its failure after its last sleep, which is then no error; one that fails has
  -- not waited at all.
  pub create_node_pool_outcome :
      (o : CreateNodePoolOptions) (log : Log)
      → Ended (CreateReports o) (sleeps log) (create_node_pool env o log)
  create_node_pool_outcome o log = (Reporting-create o (sleeps log)).at log refl
