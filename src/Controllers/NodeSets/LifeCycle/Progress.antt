-- ===== src/Controllers/NodeSets/LifeCycle/Progress.antt =====
-- How far a reconcile of a live node set gets, by what Azure lists.
use azk.Base.{
  String, ℤ, pos, Bool, true, false, Option, none, some, ◌≡◌, refl, ◌⊎◌, inl, inr, length, int_eq,
  if◌then◌else◌,
}
use azk.Api.{Error, NodeSet, Cluster}
use azk.World.{Env, Log, Exit, returned, failed, panicked, deref, on_error, ◌>>=◌}
use azk.Changes.{changes}
use azk.Changes.Phases
use azk.Changes.Phases.{Concludes, Concluded}
use azk.Controllers.Outcome.{Outcome}
use azk.Controllers.NodeSets.{
  cloud_configuration, update_node_set_nodes, create, scale, settle, provision,
}
use azk.Controllers.NodeSets.LifeCycle.{Phase, idle, built, scaling, resized, reported, Move}
use azk.Controllers.NodeSets.LifeCycle.Growing.{
  create-Concludes, scale-Concludes, settle-Concludes, update_nodes-ChangesNothing,
}

-- The last phase of a walk without an error, for a node set of which these machines were seen.
abbrev AfterCount : Bool → Phase → Type 0
AfterCount true p = p ≡ reported
AfterCount false p = (p ≡ scaling) ⊎ (p ≡ resized)

abbrev AfterReplicas : Option ℤ → NodeSet → Phase → Type 0
AfterReplicas none seen p = ⊥
AfterReplicas (some replicas) seen p =
    AfterCount (int_eq replicas (pos (length seen.status.node_status))) p

-- The same by how the look at the machines ended.
abbrev AfterLook : Exit NodeSet → Phase → Type 0
AfterLook (returned seen) p = AfterReplicas seen.spec.replicas seen p
AfterLook (failed e) p = p ≡ built
AfterLook panicked p = ⊥

abbrev UnlessError : (Phase → Type 0) → Option Error → Phase → Type 0
UnlessError P none p = P p
UnlessError P (some e) p = Unit

abbrev pub Expected : Exit NodeSet → Outcome → Phase → Type 0
Expected looked o p = UnlessError (AfterLook looked) o.error p

module _ (env : Env) (before : Log) (cluster : Cluster) where
  abbrev Ends : (Outcome → Phase → Type 0) → Exit Outcome × Log → Type 0
  Ends F = Concluded (Move true cluster.spec.cloud.group_name) idle before F

  module _ (seen : NodeSet) (replicas : ℤ) where
    counted :
        (fits : Bool) (log : Log)
        → Phases.At (Move true cluster.spec.cloud.group_name) idle before idle log
        → Ends
            (λ o p. UnlessError (AfterCount fits) o.error p)
            ((if fits then settle env seen cluster replicas else scale env seen cluster) log)
    counted true log h =
        (settle-Concludes env before cluster (λ o p. UnlessError (AfterCount true) o.error p)
            (λ o e p. tt) seen replicas refl).at
          log h
    counted false log h =
        (scale-Concludes env before cluster (λ o p. UnlessError (AfterCount false) o.error p)
            (λ o e p. tt) seen (inl refl) (inr refl)).at
          log h

  asked_for :
      (seen : NodeSet) (replicas : Option ℤ) (log : Log)
      → Phases.At (Move true cluster.spec.cloud.group_name) idle before idle log
      → Ends
          (λ o p. UnlessError (AfterReplicas replicas seen) o.error p)
          ((deref replicas >>= λ replicas.
              if int_eq replicas (pos (length seen.status.node_status))
              then settle env seen cluster replicas
              else scale env seen cluster)
            log)
  asked_for seen none log h = (idle, h)
  asked_for seen (some replicas) log h =
      counted seen replicas (int_eq replicas (pos (length seen.status.node_status))) log h

  module _ (instance : NodeSet) where
    looked_at :
        (sku : String) (looked : Exit NodeSet × Log)
        → Phases.At (Move true cluster.spec.cloud.group_name) idle before idle looked.1
        → Ends (Expected looked.0) (
            on_error
              (λ (log : Log). looked)
              (λ e. create env instance cluster sku)
              (λ seen. deref seen.spec.replicas >>= λ replicas.
                if int_eq replicas (pos (length seen.status.node_status))
                then settle env seen cluster replicas
                else scale env seen cluster)
              looked.1)
    looked_at sku (returned seen, log) h = asked_for seen seen.spec.replicas log h
    looked_at sku (failed e, log) h =
        (create-Concludes env before cluster (Expected (failed e)) (λ o x p. tt) instance sku
            refl).at
          log h
    looked_at sku (panicked, log) h = (idle, h)

-- A reconcile of a live node set that carries the finalizer goes as far as what it sees of the machines
-- calls for. When its outcome has no error: if the machines could not be listed, a scale set was
-- asked for; if they were not as many as asked for, the status was set to `Scaling`, and at
-- most nodes were drained and deleted, machines deleted and a capacity set; if they were as many, success was reported.
pub provision-Expected :
    (env : Env) (instance : NodeSet) (cluster : Cluster) (log : Log)
    → Concluded
        (Move true cluster.spec.cloud.group_name)
        idle
        (changes log)
        (Expected (update_node_set_nodes env instance (cloud_configuration cluster) log).0)
        (provision env instance cluster log)
unfolding provision
provision-Expected env instance cluster log =
    let look = update_node_set_nodes env instance (cloud_configuration cluster) in
    looked_at env (changes log) cluster instance _ (look log) (
      Phases.still (Move true cluster.spec.cloud.group_name) idle (changes log) look idle log
        (update_nodes-ChangesNothing env (changes log) cluster instance
          (cloud_configuration cluster))
        Phases.here)
