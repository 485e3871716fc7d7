-- ===== src/Cmd/Commands.antt =====
-- The tree of the commands (cmd/root.go, create.go, delete.go, scale.go, upgrade.go, version.go,
-- web.go, and the variables and `init` of the packages below cmd/). `os.Exit(1)` is told as a panic.
pub mod Registered
use azk.Base.{String, List, [], ◌∷◌, Option, none, some}
use azk.World.{Env, Act, pure, panic, ask, on_error, ◌>>=◌, print}
use azk.Cmd.Flags.{
  Registration, Values, create_cluster_flags, create_cluster_options, delete_cluster_flags,
  delete_cluster_options, create_control_plane_flags, create_control_plane_options,
  upgrade_control_plane_flags, upgrade_control_plane_options, create_node_pool_flags,
  create_node_pool_options, delete_node_pool_flags, delete_node_pool_options, scale_node_pool_flags,
  scale_node_pool_options, upgrade_node_pool_flags, upgrade_node_pool_options,
}
use azk.Cmd.Clusters.{run_create, run_delete}
use azk.Cmd.ControlPlanes.{create_control_plane, upgrade_control_plane}
use azk.Cmd.NodePools.{create_node_pool, delete_node_pool, scale_node_pool, upgrade_node_pool}
use azk.Cmd.Apply.{run_create_or_update_addon}
use azk.Cmd.Flow.{run_flow}
use azk.Cmd.Web.{run_web}

-- `Run` of a command: `cmd.Help()`, or a function of this program.
pub data Run : Type 0 where
  help : Run
  runs : (Values → Act (Unit {0})) → Run

-- `cobra.Command`: its name, its flags, what it runs and the commands below it.
mutual
  pub data Command : Type 0 where
    command : String → List Registration → Option Run → Commands → Command

  pub data Commands : Type 0 where
    end : Commands
    add : Command → Commands → Commands

-- The variable of a loop, which its closures share, has the last element when they run.
unfoldable pub last_of : String → List String → String
last_of last [] = last
last_of last (x ∷ xs) = last_of x xs

abbrev pub supported_addons : List String
supported_addons = "prometheus" ∷ []

-- `if err := f(); err != nil { os.Exit(1) }`
abbrev pub or_exit : Act (Unit {0}) → Act (Unit {0})
or_exit m = on_error m (λ e. panic) pure

abbrev leaf : String → List Registration → (Values → Act (Unit {0})) → Command
leaf name flags run = command name flags (some (runs run)) end

abbrev group : String → Commands → Command
group name below = command name [] none below

module _ (env : Env) where
  abbrev create_cluster_command : Command
  create_cluster_command =
      leaf "cluster" create_cluster_flags (λ v. or_exit (run_create env (create_cluster_options v)))

  abbrev delete_cluster_command : Command
  delete_cluster_command =
      leaf "cluster" delete_cluster_flags (λ v. or_exit (run_delete env (delete_cluster_options v)))

  abbrev create_control_plane_command : Command
  create_control_plane_command =
      leaf "controlplane" create_control_plane_flags
        (λ v. or_exit (create_control_plane env (create_control_plane_options v)))

  abbrev upgrade_control_plane_command : Command
  upgrade_control_plane_command =
      leaf "controlplane" upgrade_control_plane_flags
        (λ v. or_exit (upgrade_control_plane env (upgrade_control_plane_options v)))

  abbrev create_node_pool_command : Command
  create_node_pool_command =
      leaf "nodepool" create_node_pool_flags
        (λ v. or_exit (create_node_pool env (create_node_pool_options v)))

  abbrev delete_node_pool_command : Command
  delete_node_pool_command =
      leaf "nodepool" delete_node_pool_flags
        (λ v. or_exit (delete_node_pool env (delete_node_pool_options v)))

  abbrev scale_node_pool_command : Command
  scale_node_pool_command =
      leaf "nodepool" scale_node_pool_flags
        (λ v. or_exit (scale_node_pool env (scale_node_pool_options v)))

  abbrev upgrade_node_pool_command : Command
  upgrade_node_pool_command =
      leaf "nodepool" upgrade_node_pool_flags
        (λ v. or_exit (upgrade_node_pool env (upgrade_node_pool_options v)))

  abbrev flow_command : Command
  flow_command = leaf "flow" [] (λ v. or_exit (run_flow env))

  unfoldable pub addon_commands : String → List String → Commands
  addon_commands last [] = end
  addon_commands last (addon ∷ rest) =
      add (leaf addon [] (λ v. or_exit (run_create_or_update_addon env last)))
        (addon_commands last rest)

  -- `addons`, of `create` and of `upgrade`.
  unfoldable pub addons_command : Command
  unfolding addon_commands last_of
  addons_command = group "addons" (addon_commands (last_of "" supported_addons) supported_addons)

  unfoldable pub create_command : Command
  unfolding addons_command
  create_command = group "create" (
      add create_cluster_command (
        add create_control_plane_command
          (add create_node_pool_command (add flow_command (add addons_command end)))))

  unfoldable pub delete_command : Command
  delete_command =
      group "delete"
        (add delete_cluster_command (add delete_node_pool_command (add (group "addons" end) end)))

  unfoldable pub scale_command : Command
  scale_command = group "scale" (add scale_node_pool_command end)

  unfoldable pub upgrade_command : Command
  unfolding addons_command
  upgrade_command =
      group "upgrade"
        (add upgrade_control_plane_command (add upgrade_node_pool_command (add addons_command end)))

  unfoldable pub version_command : Command
  version_command = leaf "version" [] (λ v. ask env (print "v0.1.5"))

  unfoldable pub web_command : Command
  web_command = leaf "web" [] (λ v. or_exit (run_web env))

  -- `RootCmd`, with the commands in the order of the files that add them.
  unfoldable pub root_command : Command
  unfolding create_command delete_command scale_command upgrade_command version_command web_command
  root_command = command "azk" [] (some help) (
      add create_command (
        add delete_command
          (add scale_command (add upgrade_command (add version_command (add web_command end))))))
