-- ===== src/Controllers/NodePools/Reconcile.antt =====
-- What a reconcile of a node pool deletes, and how it ends.
use azk.Base.{
  String, Bool, true, false, List, [], ◌∷◌, ◌≡◌, ◌≢◌, refl, arith, eq_iff, if◌then◌else◌,
}
use azk.Api.{Error, Result, NamespacedName, NodeSet, NodePool, spec_eq}
use azk.World.{
  ask, lift, on_error, ◌>>=◌, Env, Log, Call, kube, manager_client, delete_node_set, list_node_sets,
  update_node_set,
}
use azk.World.Keeps.{Keeps, keeps_rules}
use azk.World.Ends.{NeverPanics, AlwaysReturns, DidReturn, ending_rules}
use azk.Controllers.Outcome.{failing}
use azk.Controllers.NodePools.Collection.{deletion}
use azk.Controllers.NodePools.{
  delete_others, perform_garbage_collection, is_complete, report, propagate, node_set_name, create,
  reconcile,
}

-- No call so far deletes a node set of this name.
abbrev pub Spares : String → Log → Type 0
Spares name [] = Unit
Spares name (kube _ (delete_node_set node_set) ∷ log) =
    (node_set.meta.name ≢ name) × Spares name log
Spares name (_ ∷ log) = Spares name log

-- The calls so far that delete a node set, newest first.
abbrev pub deletions : Log → Log
deletions [] = []
deletions (kube client (delete_node_set node_set) ∷ log) =
    kube client (delete_node_set node_set) ∷ deletions log
deletions (_ ∷ log) = deletions log

-- The calls so far that update a node set, newest first.
abbrev pub updates : Log → Log
updates [] = []
updates (kube client (update_node_set node_set) ∷ log) =
    kube client (update_node_set node_set) ∷ updates log
updates (_ ∷ log) = updates log

module _ (env : Env) where
  module _ (P : Log → Type 0) where
    -- A predicate that each deletion of the loop keeps.
    delete_others-Keeps :
        (name : String)
        → ((node_set : NodeSet) (log : Log)
            → node_set.meta.name ≢ name
            → P log
            → P (deletion node_set ∷ log))
        → (node_sets : List NodeSet) → Keeps P (delete_others env name node_sets)
    unfolding delete_others
    delete_others-Keeps name k [] = search keeps_rules
    delete_others-Keeps name k (node_set ∷ node_sets) = record {
      at = λ log. ground (
        arith,
        eq_iff node_set.meta.name name,
        k node_set log,
        (delete_others-Keeps name k node_sets).at log,
        (delete_others-Keeps name k node_sets).at (deletion node_set ∷ log),
      );
    }

    collection-Keeps :
        (namespace name : String)
        → ((node_set : NodeSet) (log : Log)
            → node_set.meta.name ≢ name
            → P log
            → P (deletion node_set ∷ log))
        → ((log : Log) → P log → P (kube manager_client (list_node_sets namespace) ∷ log))
        → Keeps P (perform_garbage_collection env namespace name)
    unfolding perform_garbage_collection
    collection-Keeps namespace name k listing =
        let later = delete_others-Keeps name k in search (keeps_rules, later, listing)

  collection-Spares :
      (namespace name : String)
      → Keeps (Spares name) (perform_garbage_collection env namespace name)
  collection-Spares namespace name =
      collection-Keeps _ _ _ (λ node_set log other h. (other, h)) (λ log h. h)

  collection_updates :
      (before : Log) (namespace name : String)
      → Keeps (λ log. updates log ≡ before) (perform_garbage_collection env namespace name)
  collection_updates before namespace name =
      collection-Keeps _ _ _ (λ node_set log other h. h) (λ log h. h)

  module _ (pool : NodePool) where
    report-Spares : (found : NodeSet) → Keeps (Spares (node_set_name pool)) (report env pool found)
    unfolding report
    report-Spares found = search (keeps_rules, collection-Spares)

    propagate-Keeps :
        (wanted found : NodeSet)
        → Keeps (Spares (node_set_name pool)) (propagate env pool wanted found)
    unfolding propagate
    propagate-Keeps wanted found = search (keeps_rules, report-Spares)

    report_kept :
        (found : NodeSet) (before : Log)
        → is_complete pool found ≡ false
        → Keeps (λ log. deletions log ≡ before) (report env pool found)
    unfolding report
    report_kept found before h = rw h (search keeps_rules)

    updates-report :
        (before : Log) (found : NodeSet)
        → Keeps (λ log. updates log ≡ before) (report env pool found)
    unfolding report
    updates-report before found = search (keeps_rules, collection_updates)

    abbrev pub spec_update : NodeSet → NodeSet → Call
    spec_update wanted found =
        kube manager_client (update_node_set (record found { spec = wanted.spec }))

    -- What follows the answer to an update of the node set.
    answered_updates :
        (before : Log) (answer : Result NodeSet)
        → Keeps (λ log. updates log ≡ before) (on_error (lift answer) failing (report env pool))
    answered_updates before answer = search (keeps_rules, updates-report)

    propagated_updates :
        (same : Bool) (wanted found : NodeSet) (log : Log)
        → updates
            ((if same
                then report env pool found
                else on_error
                    (ask env (spec_update wanted found) >>= lift)
                    failing
                    (report env pool))
              log).1
          ≡ (if same then updates log else spec_update wanted found ∷ updates log)
    propagated_updates true wanted found log = (updates-report (updates log) found).at log refl
    propagated_updates false wanted found log =
        let after = spec_update wanted found ∷ log in
        (answered_updates (updates after) (env.answer log (spec_update wanted found))).at after refl

    -- Once its node set is found, a reconcile of a node pool does not delete the node set of the
    -- pool's current version: if no call before it does, no call up to its end does.
    pub propagate-Spares :
        (wanted found : NodeSet) (log : Log)
        → Spares (node_set_name pool) log
        → Spares (node_set_name pool) (propagate env pool wanted found log).1
    propagate-Spares wanted found log h = (propagate-Keeps wanted found).at log h

    -- While the node set found has not the number of machines that the pool asks for, or the pool
    -- asks for no number, no node set is deleted.
    pub report_incomplete :
        (found : NodeSet) (log : Log)
        → is_complete pool found ≡ false
        → deletions (report env pool found log).1 ≡ deletions log
    report_incomplete found log h = (report_kept found (deletions log) h).at log refl

    -- The node set found is updated exactly when its spec differs from the one that the pool wants:
    -- once, and only its spec is set, to that one.
    pub updates-propagate :
        (wanted found : NodeSet) (log : Log)
        → updates (propagate env pool wanted found log).1 ≡ (
            if spec_eq wanted.spec found.spec
            then updates log
            else spec_update wanted found ∷ updates log)
    unfolding propagate
    updates-propagate wanted found log =
        propagated_updates (spec_eq wanted.spec found.spec) wanted found log

  delete_others-NeverPanics :
      (name : String) (node_sets : List NodeSet) → NeverPanics (delete_others env name node_sets)
  unfolding delete_others
  delete_others-NeverPanics name [] = search ending_rules
  delete_others-NeverPanics name (node_set ∷ node_sets) = record {
    at = λ log. ground (
      arith,
      (delete_others-NeverPanics name node_sets).at log,
      (delete_others-NeverPanics name node_sets).at
          (kube manager_client (delete_node_set node_set) ∷ log),
    );
  }

  collection-NeverPanics :
      (namespace name : String) → NeverPanics (perform_garbage_collection env namespace name)
  unfolding perform_garbage_collection
  collection-NeverPanics namespace name = search (ending_rules, delete_others-NeverPanics)

  failing-AlwaysReturns : (e : Error) → AlwaysReturns (failing e)
  failing-AlwaysReturns e = record { at = λ log. tt }

  propagate-AlwaysReturns :
      (pool : NodePool) (wanted found : NodeSet) → AlwaysReturns (propagate env pool wanted found)
  unfolding propagate report
  propagate-AlwaysReturns pool wanted found =
      search (ending_rules, collection-NeverPanics, failing-AlwaysReturns) depth 12

  reconcile-AlwaysReturns : (request : NamespacedName) → AlwaysReturns (reconcile env request)
  unfolding reconcile create
  reconcile-AlwaysReturns request =
      search (ending_rules, failing-AlwaysReturns, propagate-AlwaysReturns) depth 12

  -- Whatever the systems around it answer, a reconcile of a node pool ends by returning an outcome:
  -- it does not panic, and an error is part of the outcome.
  pub reconcile_returned :
      (request : NamespacedName) (log : Log) → DidReturn (reconcile env request log).0
  reconcile_returned request log = (reconcile-AlwaysReturns request).at log
