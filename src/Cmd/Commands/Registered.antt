-- ===== src/Cmd/Commands/Registered.antt =====
-- What the command-line library asks of the commands, and how a command's function ends.
use azk.Base.{
  String, ◌==◌, Bool, true, false, not, ◌&&◌, ◌||◌, List, [], ◌∷◌, Option, none, some, ◌≡◌, refl,
  subst, ◌⊎◌, inl, inr,
}
use azk.World.{Env, Log, Act, Exit, returned, failed, panicked}
use azk.World.Ends.{NeverFails, DidNotFail, unfailing_rules}
use azk.Cmd.Flags.{
  Registration, text_flag, int32_flag, bool_flag, required, Values, create_cluster_flags,
  delete_cluster_flags, create_control_plane_flags, upgrade_control_plane_flags,
  create_node_pool_flags, delete_node_pool_flags, scale_node_pool_flags, upgrade_node_pool_flags,
}
use azk.Cmd.Commands.{
  Run, help, runs, Command, command, Commands, end, add, or_exit, root_command, addons_command,
  create_command, delete_command, scale_command, upgrade_command, version_command, web_command,
}

abbrev occurs : String → List String → Bool
occurs name [] = false
occurs name (x ∷ xs) = (name == x) || occurs name xs

-- The library panics when a name or a shorthand is registered twice, and marks only flags that
-- are registered.
abbrev pub registers : List String → List String → List Registration → Bool
registers names shorthands [] = true
registers names shorthands (text_flag name shorthand value ∷ rest) =
    not (occurs name names || occurs shorthand shorthands)
    && registers (name ∷ names) (shorthand ∷ shorthands) rest
registers names shorthands (int32_flag name shorthand value ∷ rest) =
    not (occurs name names || occurs shorthand shorthands)
    && registers (name ∷ names) (shorthand ∷ shorthands) rest
registers names shorthands (bool_flag name shorthand value ∷ rest) =
    not (occurs name names || occurs shorthand shorthands)
    && registers (name ∷ names) (shorthand ∷ shorthands) rest
registers names shorthands (required name ∷ rest) =
    occurs name names && registers names shorthands rest

abbrev pub names_of : Commands → List String
names_of end = []
names_of (add (command name flags run below) rest) = name ∷ names_of rest

abbrev pub distinct : List String → Bool
distinct [] = true
distinct (x ∷ xs) = not (occurs x xs) && distinct xs

abbrev pub LeavesNoError : Option Run → Type 0
LeavesNoError none = Unit
LeavesNoError (some help) = Unit
LeavesNoError (some (runs f)) = (values : Values) → NeverFails (f values)

-- The library adds a flag `help` with the shorthand `h` to each command.
abbrev pub Sound : Command → Type 0
Sound (command name flags run below) =
    (registers ("help" ∷ []) ("h" ∷ []) flags ≡ true)
    × (distinct (names_of below) ≡ true)
    × LeavesNoError run

-- A command is the other one, or a command below it leads to the other one.
unfoldable mutual
  pub Leads : Command → Command → Type 0
  Leads (command name flags run below) target =
      (command name flags run below ≡ target) ⊎ LeadsBelow below target

  pub LeadsBelow : Commands → Command → Type 0
  LeadsBelow end target = ⊥
  LeadsBelow (add c rest) target = Leads c target ⊎ LeadsBelow rest target

unfoldable mutual
  Whole : Command → Type 0
  Whole (command name flags run below) = Sound (command name flags run below) × WholeBelow below

  WholeBelow : Commands → Type 0
  WholeBelow end = Unit
  WholeBelow (add c rest) = Whole c × WholeBelow rest

mutual
  unfolding Leads Whole

  Whole-Sound : (c target : Command) → Whole c → Leads c target → Sound target
  Whole-Sound (command name flags run below) target h (inl e) = subst Sound e h.0
  Whole-Sound (command name flags run below) target h (inr l) = below-Sound below target h.1 l

  below-Sound :
      (cs : Commands) (target : Command) → WholeBelow cs → LeadsBelow cs target → Sound target
  below-Sound end target h l = elim l [ ]
  below-Sound (add c rest) target h (inl l) = Whole-Sound c target h.0 l
  below-Sound (add c rest) target h (inr l) = below-Sound rest target h.1 l

exit_end : (ended : Exit (Unit {0}) × Log) → DidNotFail (or_exit (λ log. ended) ended.1).0
exit_end (returned a, log) = tt
exit_end (failed e, log) = tt
exit_end (panicked, log) = tt

or_exit-NeverFails : (m : Act (Unit {0})) → NeverFails (or_exit m)
or_exit-NeverFails m = record { at = λ log. exit_end (m log) }

leaf-Whole :
    (name : String) (flags : List Registration) (f : Values → Act (Unit {0}))
    → registers ("help" ∷ []) ("h" ∷ []) flags ≡ true
    → Whole (command name flags (some (runs (λ v. or_exit (f v)))) end)
unfolding Whole
leaf-Whole name flags f e = ((e, refl, λ values. or_exit-NeverFails (f values)), tt)

module _ (env : Env) where
  addons-Whole : Whole (addons_command env)
  unfolding Whole addons_command
  addons-Whole = ((refl, refl, tt), (leaf-Whole "prometheus" [] _ refl, tt))

  create-Whole : Whole (create_command env)
  unfolding Whole create_command create_cluster_flags create_control_plane_flags
      create_node_pool_flags
  create-Whole = (
    (refl, refl, tt),
    (
      leaf-Whole "cluster" create_cluster_flags _ refl,
      (
        leaf-Whole "controlplane" create_control_plane_flags _ refl,
        (
          leaf-Whole "nodepool" create_node_pool_flags _ refl,
          (leaf-Whole "flow" [] _ refl, (addons-Whole, tt)),
        ),
      ),
    ),
  )

  delete-Whole : Whole (delete_command env)
  unfolding Whole delete_command delete_cluster_flags delete_node_pool_flags
  delete-Whole = (
    (refl, refl, tt),
    (
      leaf-Whole "cluster" delete_cluster_flags _ refl,
      (leaf-Whole "nodepool" delete_node_pool_flags _ refl, (((refl, refl, tt), tt), tt)),
    ),
  )

  scale-Whole : Whole (scale_command env)
  unfolding Whole scale_command scale_node_pool_flags
  scale-Whole = ((refl, refl, tt), (leaf-Whole "nodepool" scale_node_pool_flags _ refl, tt))

  upgrade-Whole : Whole (upgrade_command env)
  unfolding Whole upgrade_command upgrade_control_plane_flags upgrade_node_pool_flags
  upgrade-Whole = (
    (refl, refl, tt),
    (
      leaf-Whole "controlplane" upgrade_control_plane_flags _ refl,
      (leaf-Whole "nodepool" upgrade_node_pool_flags _ refl, (addons-Whole, tt)),
    ),
  )

  version-Whole : Whole (version_command env)
  unfolding Whole version_command
  version-Whole = ((refl, refl, λ values. search unfailing_rules), tt)

  web-Whole : Whole (web_command env)
  unfolding Whole web_command
  web-Whole = leaf-Whole "web" [] _ refl

-- Every command that `azk` leads to can be registered: its flags have different names and different
-- shorthands, `help` and `h` included, each flag that is marked as required is registered before,
-- and the commands below it have different names. Whatever the flags hold, running it never ends in
-- an error that is left to the library: it returns, or it exits or panics.
pub root_command-Sound :
    (env : Env) (target : Command) → Leads (root_command env) target → Sound target
unfolding root_command Whole
root_command-Sound env target = Whole-Sound (root_command env) target (
  (refl, refl, tt),
  (
    create-Whole env,
    (
      delete-Whole env,
      (scale-Whole env, (upgrade-Whole env, (version-Whole env, (web-Whole env, tt)))),
    ),
  ),
)
