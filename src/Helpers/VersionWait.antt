-- ===== src/Helpers/VersionWait.antt =====
-- What `WaitForNodeVersionReady` (helpers/helpers.go) has seen when it ends: the kubelet version
-- alone decides.
use azk.Base.{
  ℕ, zero, suc, String, Option, none, some, List, [], ◌∷◌, ◌≡◌, refl, ◌⊎◌, inl, inr, arith, ◌<>◌,
  ◌==◌, eq_iff, subst, ap, if◌then◌else◌,
}
use azk.Api.{Error, Result, ok, err, message}
use azk.World.{
  Env, Log, Exit, returned, failed, panicked, KubeClient, kube, get_node, Node, NodeCondition,
  sleep,
}
use azk.Helpers.Nodes.{
  note_conditions, poll_node_version, version_error, wait_for_node_version_ready,
}

-- The log after so many sleeps.
abbrev pub slept : ℕ → Log → Log
slept zero log = log
slept (suc n) log = slept n (sleep 3 ∷ log)

-- The conditions that are of another type than Ready.
abbrev pub other_conditions : List NodeCondition → ℕ
other_conditions [] = 0
other_conditions (c ∷ conditions) =
    if c.kind == "Ready" then other_conditions conditions else suc (other_conditions conditions)

abbrev noted : String → List NodeCondition → Option Error → Option Error
noted node_name [] e = e
noted node_name (c ∷ conditions) e =
    noted node_name conditions
      (if c.kind == "Ready" then e else some (message ("Found node " <> node_name <> " not ready")))

module _ (env : Env) (client : KubeClient) (node_name : String) where
  note_conditions_lem :
      (conditions : List NodeCondition) (e : Option Error) (log : Log)
      → note_conditions env client node_name conditions e log
        ≡ (returned (noted node_name conditions e), slept (other_conditions conditions) log)
  unfolding note_conditions
  note_conditions_lem [] e log = refl
  note_conditions_lem (c ∷ conditions) e log = ground (
    arith,
    note_conditions_lem conditions e log,
    note_conditions_lem conditions (some (message ("Found node " <> node_name <> " not ready")))
        (sleep 3 ∷ log),
  )

  abbrev pub ShowsVersion : String → Result Node → Type 0
  ShowsVersion version (ok node) = node.kubelet_version ≡ "v" <> version
  ShowsVersion version (err e) = ⊥

  -- The last call but for sleeps read the node, and found it at the version.
  abbrev pub EndsAtVersion : String → Log → Type 0
  EndsAtVersion version (sleep _ ∷ rest) = EndsAtVersion version rest
  EndsAtVersion version (kube c r ∷ rest) =
      (kube c r ≡ kube client (get_node node_name))
      × ShowsVersion version (env.answer rest (kube client (get_node node_name)))
  EndsAtVersion version _ = ⊥

  EndsAtVersion-slept :
      (version : String) (n : ℕ) (log : Log)
      → EndsAtVersion version log
      → EndsAtVersion version (slept n log)
  EndsAtVersion-slept version zero log h = h
  EndsAtVersion-slept version (suc n) log h = EndsAtVersion-slept version n (sleep 3 ∷ log) h

  poll_node_version_match :
      (rounds : ℕ) (version : String) (e : Option Error) (log : Log) (node : Node)
      → env.answer log (kube client (get_node node_name)) ≡ ok node
      → node.kubelet_version ≡ "v" <> version
      → poll_node_version env client (suc rounds) node_name version e log ≡ (
        returned tt,
        slept (other_conditions node.conditions) (kube client (get_node node_name) ∷ log),
      )
  unfolding poll_node_version
  poll_node_version_match rounds version e log node h same = ground (
    arith,
    eq_iff node.kubelet_version ("v" <> version),
    note_conditions_lem node.conditions e (kube client (get_node node_name) ∷ log),
  )

  -- A node that is read at the version ends the wait without an error, whatever its conditions
  -- are: each one of another type than Ready only adds a sleep, and none need be Ready.
  pub wait_for_node_version_ready_match :
      (version : String) (log : Log) (node : Node)
      → env.answer log (kube client (get_node node_name)) ≡ ok node
      → node.kubelet_version ≡ "v" <> version
      → wait_for_node_version_ready env client node_name version log ≡ (
        returned tt,
        slept (other_conditions node.conditions) (kube client (get_node node_name) ∷ log),
      )
  unfolding wait_for_node_version_ready
  wait_for_node_version_ready_match version log node h same =
      poll_node_version_match 99 version none log node h same

  abbrev VersionOutcome : String → ℕ → Option Error → Exit (Unit {0}) × Log → Type 0
  VersionOutcome version rounds e (returned _, after) =
      ((rounds ≡ 0) × (e ≡ none)) ⊎ EndsAtVersion version after
  VersionOutcome version rounds e (failed _, after) = Unit
  VersionOutcome version rounds e (panicked, after) = ⊥

  poll_node_version_round :
      (version : String) (rounds : ℕ) (e : Option Error) (log : Log)
      → ((e : Option Error) (l : Log)
          → VersionOutcome version rounds e
              (poll_node_version env client rounds node_name version e l))
      → (answer : Result Node) → env.answer log (kube client (get_node node_name)) ≡ answer
      → VersionOutcome version
          (suc rounds)
          e
          (poll_node_version env client (suc rounds) node_name version e log)
  unfolding poll_node_version
  poll_node_version_round version rounds e log later (err x) h = ground arith
  poll_node_version_round version rounds e log later (ok node) h =
      let read = kube client (get_node node_name) ∷ log in
      let n = other_conditions node.conditions in
      let x = some (version_error env client node_name node version) in
      ground (
        arith,
        eq_iff node.kubelet_version ("v" <> version),
        note_conditions_lem node.conditions e read,
        EndsAtVersion-slept version n read,
        later x (sleep 3 ∷ slept n read),
      )

  poll_node_version_outcome :
      (version : String) (rounds : ℕ) (e : Option Error) (log : Log)
      → VersionOutcome version rounds e
          (poll_node_version env client rounds node_name version e log)
  unfolding poll_node_version
  poll_node_version_outcome version zero none log = ground arith
  poll_node_version_outcome version zero (some e) log = ground arith
  poll_node_version_outcome version (suc rounds) e log =
      poll_node_version_round version rounds e log
        (λ x l. poll_node_version_outcome version rounds x l) _ refl

  -- The wait ends without an error only when the node was read at the version, and slept at most
  -- after that.
  pub wait_for_node_version_ready_success :
      (version : String) (log : Log) {after : Log}
      → wait_for_node_version_ready env client node_name version log ≡ (returned tt, after)
      → EndsAtVersion version after
  unfolding wait_for_node_version_ready
  wait_for_node_version_ready_success version log h =
      success _ (poll_node_version_outcome version 100 none log) h
    where
      success :
          (ended : Exit (Unit {0}) × Log)
          → VersionOutcome version 100 none ended
          → {after : Log} → ended ≡ (returned tt, after)
          → EndsAtVersion version after
      success (returned _, after) (inl (never, _)) e = absurd (omega arith)
      success (returned _, after) (inr seen) e =
          subst (EndsAtVersion version) (ap (λ x. x.1) e) seen
      success (failed x, after) seen e = cc
      success (panicked, after) seen e = cc
