-- ===== src/Helpers/Waiting.antt =====
-- What the polling loops `WaitForNodesReady` and `WaitForNodeVersionReady` (helpers/helpers.go)
-- have seen when they end.
use azk.Base.{
  ℕ, zero, suc, ◌+◌, ◌*◌, String, Bool, false, Option, none, some, List, [], ◌∷◌, ◌≡◌, refl, ◌⊎◌,
  inl, inr, arith, ◌&&◌, contains_text, length, keep_if, map, ℤ, pos, ltb_ℤ,
}
use azk.Api.{Error, Result, ok, err, nodes_not_ready}
use azk.World.{
  Env, Log, Exit, returned, failed, panicked, KubeClient, kube, list_nodes, Node, NodeCondition,
  sleep,
}
use azk.Helpers.Nodes.{
  has_ready_condition, count_found, found_nodes, poll_nodes_ready, wait_for_nodes_ready,
}

-- The nodes that `WaitForNodesReady` counts.
abbrev pub is_counted : String → Node → Bool
is_counted node_name node = contains_text node.name node_name && has_ready_condition node.conditions

count_found_lem :
    (node_name : String) (nodes : List Node) (found : ℕ)
    → count_found node_name nodes found ≡ length (keep_if (is_counted node_name) nodes) + found
unfolding count_found
count_found_lem node_name [] found = omega arith
count_found_lem node_name (node ∷ nodes) found =
    ground
      (arith, count_found_lem node_name nodes found, count_found_lem node_name nodes (suc found))

-- The loop counts the nodes whose name contains the text and that have a Ready condition.
pub found_nodes_lem :
    (node_name : String) (nodes : List Node)
    → found_nodes node_name nodes ≡ length (keep_if (is_counted node_name) nodes)
unfolding found_nodes
found_nodes_lem node_name nodes = omega (arith, count_found_lem node_name nodes 0)

abbrev pub with_status : String → NodeCondition → NodeCondition
with_status status c = record c { status = status }

abbrev pub with_statuses : String → Node → Node
with_statuses status node = record node { conditions = map (with_status status) node.conditions }

has_ready_condition_statuses :
    (status : String) (conditions : List NodeCondition)
    → has_ready_condition (map (with_status status) conditions) ≡ has_ready_condition conditions
unfolding has_ready_condition
has_ready_condition_statuses status [] = refl
has_ready_condition_statuses status (c ∷ conditions) =
    ground (arith, has_ready_condition_statuses status conditions)

count_found_statuses :
    (status node_name : String) (nodes : List Node) (found : ℕ)
    → count_found node_name (map (with_statuses status) nodes) found
      ≡ count_found node_name nodes found
unfolding count_found
count_found_statuses status node_name [] found = refl
count_found_statuses status node_name (node ∷ nodes) found = ground (
  arith,
  has_ready_condition_statuses status node.conditions,
  count_found_statuses status node_name nodes found,
  count_found_statuses status node_name nodes (suc found),
)

-- The count does not depend on the statuses of the conditions: when every condition of every node
-- is given one status, such as False, the same nodes are counted as ready.
pub found_nodes_statuses :
    (status node_name : String) (nodes : List Node)
    → found_nodes node_name (map (with_statuses status) nodes) ≡ found_nodes node_name nodes
unfolding found_nodes
found_nodes_statuses status node_name nodes = count_found_statuses status node_name nodes 0

module _ (env : Env) (client : KubeClient) (node_name : String) where
  abbrev ShowsEnough : ℤ → Result (List Node) → Type 0
  ShowsEnough node_count (ok nodes) = ltb_ℤ (pos (found_nodes node_name nodes)) node_count ≡ false
  ShowsEnough node_count (err e) = ⊥

  -- The last call listed the nodes, and showed as many as were asked for whose name contains the text
  -- and that have a condition of type Ready, whatever its status.
  abbrev pub EndsFound : ℤ → Log → Type 0
  EndsFound node_count [] = ⊥
  EndsFound node_count (c ∷ rest) =
      (c ≡ kube client list_nodes)
      × ShowsEnough node_count (env.answer rest (kube client list_nodes))

  -- The last call listed the nodes, and failed with the error.
  abbrev pub EndsUnlisted : Error → Log → Type 0
  EndsUnlisted e [] = ⊥
  EndsUnlisted e (c ∷ rest) =
      (c ≡ kube client list_nodes) × (env.answer rest (kube client list_nodes) ≡ err e)

  abbrev PollOutcome : ℤ → ℕ → Option Error → Log → Exit (Unit {0}) × Log → Type 0
  PollOutcome node_count rounds local_err log (returned _, after) =
      ((rounds ≡ 0) × (local_err ≡ none)) ⊎ EndsFound node_count after
  PollOutcome node_count rounds local_err log (failed e, after) =
      EndsUnlisted e after ⊎ (length after ≡ length log + 2 * rounds)
  PollOutcome node_count rounds local_err log (panicked, after) = ⊥

  -- One round, from what the later rounds do.
  poll_nodes_ready_round :
      (node_count : ℤ) (rounds : ℕ) (local_err : Option Error) (log : Log)
      → ((e : Option Error) (l : Log)
          → PollOutcome node_count rounds e l
              (poll_nodes_ready env client rounds node_name node_count e l))
      → (answer : Result (List Node)) → env.answer log (kube client list_nodes) ≡ answer
      → PollOutcome node_count
          (suc rounds)
          local_err
          log
          (poll_nodes_ready env client (suc rounds) node_name node_count local_err log)
  unfolding poll_nodes_ready
  poll_nodes_ready_round node_count rounds local_err log later (err e) h = ground arith
  poll_nodes_ready_round node_count rounds local_err log later (ok nodes) h =
      let e = some (nodes_not_ready (found_nodes node_name nodes) node_count) in
      ground (arith, later e (sleep 3 ∷ kube client list_nodes ∷ log))

  poll_nodes_ready_outcome :
      (node_count : ℤ) (rounds : ℕ) (local_err : Option Error) (log : Log)
      → PollOutcome node_count rounds local_err log
          (poll_nodes_ready env client rounds node_name node_count local_err log)
  unfolding poll_nodes_ready
  poll_nodes_ready_outcome node_count zero none log = ground arith
  poll_nodes_ready_outcome node_count zero (some e) log = ground arith
  poll_nodes_ready_outcome node_count (suc rounds) local_err log =
      poll_nodes_ready_round node_count rounds local_err log
        (λ e l. poll_nodes_ready_outcome node_count rounds e l) _ refl

  abbrev pub WaitOutcome : ℤ → Log → Exit (Unit {0}) × Log → Type 0
  WaitOutcome node_count log (returned _, after) = EndsFound node_count after
  WaitOutcome node_count log (failed e, after) =
      EndsUnlisted e after ⊎ (length after ≡ length log + 200)
  WaitOutcome node_count log (panicked, after) = ⊥

  -- The wait ends without an error only when its last call listed enough nodes whose name contains the
  -- text and that have a condition of type Ready, whatever the status of that condition. It ends with
  -- an error when a listing failed, which is then the last call, or after 200 calls. It does not panic.
  pub wait_for_nodes_ready_outcome :
      (node_count : ℤ) (log : Log)
      → WaitOutcome node_count log (wait_for_nodes_ready env client node_name node_count log)
  unfolding wait_for_nodes_ready
  wait_for_nodes_ready_outcome node_count log =
      outcome _ (poll_nodes_ready_outcome node_count 100 none log)
    where
      outcome :
          (ended : Exit (Unit {0}) × Log)
          → PollOutcome node_count 100 none log ended
          → WaitOutcome node_count log ended
      outcome (returned _, after) (inl (never, _)) = absurd (omega arith)
      outcome (returned _, after) (inr ready) = ready
      outcome (failed e, after) (inl unlisted) = inl unlisted
      outcome (failed e, after) (inr long) = inr (omega arith)
      outcome (panicked, after) h = h
