-- ===== src/Cmd/Clusters/Deleting.antt =====
-- What `RunDelete` (cmd/cluster/cluster.go) deletes.
use azk.Base.{◌<>◌, Option, some, none, [], ◌∷◌, ◌≡◌, refl, ◌⊎◌, inl, inr, ◌∙◌, arith}
use azk.Api.{Error, Result, ok, err, Cluster, NamespacedName, CloudConfiguration}
use azk.World.{
  AzureClient, Env, Log, Call, Exit, returned, failed, panicked, fail, lift, ask, on_error, ◌>>=◌,
  kube, KubeClient, get_cluster, azure, group_delete, print,
}
use azk.World.Keeps.{Keeps, Keeps-pure, Keeps-fail, keeps_rules}
use azk.World.Ends.{DidNotPanic, NeverPanics, ending_rules}
use azk.Changes.{changes, ChangesNothing, quiet_rules}
use azk.Azure.{delete_resource_group, get_groups_client, usable}
use azk.Bootstrap.{cluster_name_of}
use azk.Cmd.Polling.{kube_client}
use azk.Cmd.Clusters.{DeleteOptions, run_delete}

module _ (env : Env) (o : DeleteOptions) where
  abbrev key : NamespacedName
  key =
      let name = cluster_name_of o.subscription_id o.resource_group in
      record { namespace = name; name = name }

  abbrev IsRead : Cluster → Call → Log → Type 0
  IsRead cluster (kube client (get_cluster k)) log =
      (k ≡ key) × (env.answer log (kube client (get_cluster k)) ≡ ok cluster)
  IsRead cluster _ log = ⊥

  -- The cluster was read, under the name that the options stand for.
  abbrev pub WasRead : Cluster → Log → Type 0
  WasRead cluster [] = ⊥
  WasRead cluster (c ∷ log) = IsRead cluster c log ⊎ WasRead cluster log

  abbrev deletion : CloudConfiguration → Call
  deletion cloud = azure (get_groups_client env cloud).0 (group_delete cloud.group_name)

  abbrev Succeeded : Log → Type 0
  Succeeded (print text ∷ log) = text ≡ "✓ Successfully Deleted Cluster " <> key.name
  Succeeded _ = ⊥

  abbrev pub DeleteOutcome : Log → Exit (Unit {0}) × Log → Type 0
  DeleteOutcome before (returned _, after) =
      ((cluster : Cluster) × WasRead cluster after
        × (changes after ≡ deletion cluster.spec.cloud ∷ changes before))
      × Succeeded after
  DeleteOutcome before (failed _, after) =
      (changes after ≡ changes before)
      ⊎ ((cluster : Cluster) × WasRead cluster after
          × (changes after ≡ deletion cluster.spec.cloud ∷ changes before))
  DeleteOutcome before (panicked, after) = ⊥

  -- How the deletion of the group ends.
  abbrev GroupOutcome : Cluster → Log → Exit (Unit {0}) × Log → Type 0
  GroupOutcome cluster before (returned _, after) =
      changes after ≡ deletion cluster.spec.cloud ∷ changes before
  GroupOutcome cluster before (failed _, after) =
      (changes after ≡ changes before)
      ⊎ (changes after ≡ deletion cluster.spec.cloud ∷ changes before)
  GroupOutcome cluster before (panicked, after) = ⊥

  group_outcome :
      (cluster : Cluster) (log : Log)
      → GroupOutcome cluster log (delete_resource_group env cluster.spec.cloud log)
  unfolding delete_resource_group
  group_outcome cluster log = ground arith

  usable-WasRead :
      (cluster : Cluster) (client : AzureClient × Option Error)
      → Keeps (WasRead cluster) (usable client)
  usable-WasRead cluster (client, none) = Keeps-pure (WasRead cluster) client
  usable-WasRead cluster (client, some e) = Keeps-fail (WasRead cluster) e

  asked-WasRead : (cluster : Cluster) (c : Call) → Keeps (WasRead cluster) (ask env c)
  asked-WasRead cluster c = record { at = λ log h. inr h }

  group-WasRead :
      (cluster : Cluster) → Keeps (WasRead cluster) (delete_resource_group env cluster.spec.cloud)
  unfolding delete_resource_group
  group-WasRead cluster = search (keeps_rules, usable-WasRead, asked-WasRead) depth 20

  told :
      (cluster : Cluster) (before : Log) (ended : Exit (Unit {0}) × Log)
      → GroupOutcome cluster before ended
      → WasRead cluster ended.1
      → DeleteOutcome before (
          on_error
            (λ (log : Log). ended)
            (λ e.
              ask env (print ("✗ Failed to Delete Cluster " <> env.error_text e)) >>= λ _. fail e)
            (λ _. ask env (print ("✓ Successfully Deleted Cluster " <> key.name)))
            ended.1)
  told cluster before (returned u, log) h r = ((cluster, inr r, h), refl)
  told cluster before (failed e, log) (inl h) r = inl h
  told cluster before (failed e, log) (inr h) r = inr (cluster, inr r, h)
  told cluster before (panicked, log) h r = absurd h

  since :
      (before log : Log) (ended : Exit (Unit {0}) × Log)
      → changes log ≡ changes before
      → DeleteOutcome log ended
      → DeleteOutcome before ended
  since before log (returned u, after) quiet ((cluster, r, h), told) =
      ((cluster, r, rw quiet at h), told)
  since before log (failed e, after) quiet (inl h) = inl (h ∙ quiet)
  since before log (failed e, after) quiet (inr (cluster, r, h)) = inr (cluster, r, rw quiet at h)
  since before log (panicked, after) quiet h = h

  found :
      (client : KubeClient) (before log : Log) (read : Result Cluster)
      → changes log ≡ changes before
      → env.answer log (kube client (get_cluster key)) ≡ read
      → DeleteOutcome before (
          (lift read >>= λ cluster.
          on_error
            (delete_resource_group env cluster.spec.cloud)
            (λ e.
              ask env (print ("✗ Failed to Delete Cluster " <> env.error_text e)) >>= λ _. fail e)
            (λ _. ask env (print ("✓ Successfully Deleted Cluster " <> key.name))))
            (kube client (get_cluster key) ∷ log))
  found client before log (ok cluster) quiet h =
      let asked = kube client (get_cluster key) ∷ log in
      since before asked _ quiet (
        told cluster asked (delete_resource_group env cluster.spec.cloud asked)
          (group_outcome cluster asked) ((group-WasRead cluster).at asked (inl (refl, h))))
  found client before log (err e) quiet h = inl quiet

  module _ (before : Log) where
    connected :
        (ended : Exit KubeClient × Log)
        → changes ended.1 ≡ changes before
        → DidNotPanic ended.0
        → DeleteOutcome before (
            ((λ (log : Log). ended) >>= λ client.
            (ask env (kube client (get_cluster key)) >>= lift) >>= λ cluster.
            on_error
              (delete_resource_group env cluster.spec.cloud)
              (λ e.
                ask env (print ("✗ Failed to Delete Cluster " <> env.error_text e)) >>= λ _. fail e)
              (λ _. ask env (print ("✓ Successfully Deleted Cluster " <> key.name))))
              ended.1)
    connected (returned client, log) quiet k = found client before log _ quiet refl
    connected (failed e, log) quiet k = inl quiet
    connected (panicked, log) quiet k = k

  client-ChangesNothing : ChangesNothing (kube_client env)
  unfolding kube_client
  client-ChangesNothing = search quiet_rules

  client-NeverPanics : NeverPanics (kube_client env)
  unfolding kube_client
  client-NeverPanics = search ending_rules depth 20

  -- A deletion of a cluster that returns has read the cluster of its options, has asked for one change,
  -- the deletion of that cluster's resource group, and has printed its success as the last call. One
  -- that fails has asked for no change, or has read the cluster and asked for that one. It does not
  -- panic.
  pub run_delete_outcome : (log : Log) → DeleteOutcome log (run_delete env o log)
  unfolding run_delete
  run_delete_outcome log =
      connected log (kube_client env log) (client-ChangesNothing.at log) (client-NeverPanics.at log)
