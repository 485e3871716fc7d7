-- ===== src/Changes/Drains.antt =====
-- The changes of a node that `CordonDrainAndDeleteNode` (helpers/cordonanddrain.go) asks for, as steps
-- of any machine that may take them in one phase.
use azk.Base.{String, arith}
use azk.World.{Env, Log, Call, kubectl_drain, delete_node}
use azk.Helpers.{drain_args, cordon_drain_and_delete_node}
use azk.Changes.Phases.{Moves, next}

module _ {Phase : Type 0} (Move : Phase → Call → Phase → Type 0) (start : Phase) (before : Log)
    (env : Env) (kubeconfig vm_name : String) (p : Phase)
    (drains : Move p (kubectl_drain kubeconfig (drain_args vm_name)) p)
    (deletes : Move p (delete_node kubeconfig vm_name) p) where
  pub cordon_drain-Moves :
      Moves Move start before p p (cordon_drain_and_delete_node env kubeconfig vm_name)
  unfolding cordon_drain_and_delete_node
  cordon_drain-Moves = record {
    at = λ log h.
        let drained = next h drains in
        let deleted = next drained deletes in ground (arith, drained, deleted);
  }
