-- ===== src/Tests/Servers.antt =====
-- The theorems on the web server, the manager, the deletion of a cluster and the tree of the
-- commands at concrete inputs.
use azk.Base.{true, [], ◌∷◌, some, ◌≡◌, refl, inl, inr}
use azk.World.{Env, returned}
use azk.Cmd.Clusters.{DeleteOptions, run_delete}
use azk.Cmd.Clusters.Deleting.{DeleteOutcome, run_delete_outcome}
use azk.Cmd.Web.{list}
use azk.Cmd.Web.Answers.{ListAnswer, list-ListAnswer}
use azk.Cmd.{run_create_or_update_addon, scale_node_pool}
use azk.Cmd.Flags.{scale_node_pool_flags, scale_node_pool_options}
use azk.Cmd.Commands.{
  Command, command, end, add, runs, or_exit, last_of, addon_commands, root_command,
}
use azk.Cmd.Commands.Registered.{Sound, Leads, root_command-Sound}
use azk.Manager.{run_manager}
use azk.Manager.Starting.{StartOutcome, start_up, run_manager_outcome}
use azk.Tests.Fixtures.{env}

abbrev options : DeleteOptions
options = record { subscription_id = "subscription"; resource_group = "group" }

run_delete_outcome_example : DeleteOutcome env options [] (run_delete env options [])
run_delete_outcome_example = run_delete_outcome env options []

list-ListAnswer_example :
    let (exit, after) = list env [] in (exit ≡ returned tt) × ListAnswer env [] after
list-ListAnswer_example = list-ListAnswer env []

run_manager_outcome_example :
    StartOutcome env (start_up env ":8080" true) [] (run_manager env ":8080" true [])
run_manager_outcome_example = run_manager_outcome env ":8080" true []

abbrev scale_node_pools : Command
scale_node_pools =
    command "nodepool" scale_node_pool_flags
      (some (runs (λ v. or_exit (scale_node_pool env (scale_node_pool_options v))))) end

root_command-Sound_example : Sound scale_node_pools
unfolding root_command Leads scale_node_pool_flags
root_command-Sound_example =
    root_command-Sound env scale_node_pools (inr (inr (inr (inl (inr (inl (inl refl)))))))

-- A variable that a loop shares with its closures: each command applies the last addon.
addon_commands_example :
    (e : Env)
    → addon_commands e (last_of "" ("a" ∷ "b" ∷ [])) ("a" ∷ "b" ∷ [])
      ≡ add (command "a" [] (some (runs (λ v. or_exit (run_create_or_update_addon e "b")))) end) (
          add
            (command "b" [] (some (runs (λ v. or_exit (run_create_or_update_addon e "b")))) end)
            end)
unfolding addon_commands last_of
addon_commands_example e = refl
