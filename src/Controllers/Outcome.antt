-- ===== src/Controllers/Outcome.antt =====
-- What a `Reconcile` returns, `(ctrl.Result, error)`, and the lookup of the namespace's cluster that
-- two of the reconcilers share.
use azk.Base.{ℕ, String, Bool, true, false, Option, none, some, List, [], ◌∷◌}
use azk.Api.{Error, Cluster, message}
use azk.World.{Env, Act, pure, fail, lift, ask, ◌>>=◌, kube, manager_client, list_clusters}

-- `requeue_after` is in seconds.
pub record Outcome : Type 0 where
  pub requeue : Bool
  pub requeue_after : ℕ
  pub error : Option Error

-- `ctrl.Result{}, nil`
abbrev pub finished : Outcome
finished = record { requeue = false; requeue_after = 0; error = none }

-- `ctrl.Result{Requeue: true}, nil`
abbrev pub requeued : Outcome
requeued = record { requeue = true; requeue_after = 0; error = none }

-- `ctrl.Result{Requeue: true, RequeueAfter: seconds * time.Second}, nil`
abbrev pub requeued_after : ℕ → Outcome
requeued_after seconds = record { requeue = true; requeue_after = seconds; error = none }

-- `result, err`
abbrev pub with_error : Outcome → Error → Outcome
with_error o e = record o { error = some e }

-- `ctrl.Result{}, err`
abbrev pub failing : Error → Act Outcome
failing e = pure (with_error finished e)

abbrev pub only_cluster : List Cluster → Act Cluster
only_cluster [] = fail (message "no clusters defined")
only_cluster (cluster ∷ []) = pure cluster
only_cluster (_ ∷ _ ∷ _) = fail (message "multiple clusters defined")

unfoldable pub get_cluster : Env → String → Act Cluster
get_cluster env namespace = do
  clusters ← (ask env (kube manager_client (list_clusters namespace)) >>= lift)
  only_cluster clusters
