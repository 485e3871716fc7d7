-- ===== src/Controllers/NodeSets/Settling.antt =====
-- When a node set is reported as provisioned.
use azk.Base.{refl, none, [], ◌∷◌, ◌≡◌, ◌≢◌, ◌⊎◌, arith, ℤ}
use azk.Api.{NodeSet, Cluster}
use azk.World.{
  Env, Log, Exit, returned, failed, panicked, kube, manager_client, update_node_set_status,
}
use azk.Helpers.{wait_for_nodes_ready}
use azk.Helpers.Waiting.{EndsFound, WaitOutcome, wait_for_nodes_ready_outcome}
use azk.Controllers.Outcome.{Outcome, finished}
use azk.Controllers.NodeSets.{settled, settle}

module _ (env : Env) (instance : NodeSet) (cluster : Cluster) (replicas : ℤ) where
  -- The last call reports success, right after a listing that showed enough nodes.
  abbrev pub ReportedReady : Log → Type 0
  ReportedReady [] = ⊥
  ReportedReady (c ∷ waited) =
      (c ≡ kube manager_client (update_node_set_status (settled instance cluster)))
      × EndsFound env manager_client instance.meta.name replicas waited

  abbrev pub SettleOutcome : Exit Outcome × Log → Type 0
  SettleOutcome (returned o, after) =
      ((o ≡ finished) × ReportedReady after)
      ⊎ ((o.error ≢ none) × (o.requeue_after ≡ 30 ⊎ ReportedReady after))
  SettleOutcome (failed _, after) = ⊥
  SettleOutcome (panicked, after) = ⊥

  settle_waited :
      (log : Log) (waited : Exit (Unit {0}) × Log)
      → wait_for_nodes_ready env manager_client instance.meta.name replicas log ≡ waited
      → WaitOutcome env manager_client instance.meta.name replicas log waited
      → SettleOutcome (settle env instance cluster replicas log)
  unfolding settle
  settle_waited log waited h seen = ground arith

  -- A node set whose machines are as many as asked for is reported as provisioned, and its reconcile
  -- ends without an error, only right after a listing that showed enough nodes of its name. Else the
  -- outcome has an error: the wait failed, and the reconcile is asked for again after 30 seconds, or
  -- the report itself failed.
  pub settle_outcome : (log : Log) → SettleOutcome (settle env instance cluster replicas log)
  settle_outcome log =
      settle_waited log _ refl
        (wait_for_nodes_ready_outcome env manager_client instance.meta.name replicas log)
