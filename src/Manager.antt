-- ===== src/Manager.antt =====
-- manager/main.go: the process that runs the four controllers. `os.Exit(1)` is told as a panic.
pub mod Starting
use azk.Base.{String, Bool}
use azk.World.{
  Env, Act, pure, panic, lift, ask, on_error, ◌>>=◌, get_config, new_manager, setup_with_manager,
  start_manager,
}
use azk.World.Web.{cluster, control_plane, node_pool, node_set}

module _ (env : Env) where
  -- `SetupWithManager` of each reconciler, with at most thirty reconciles at a time.
  abbrev pub set_up_clusters : Act (Unit {0})
  set_up_clusters = ask env (setup_with_manager cluster 30) >>= lift

  abbrev pub set_up_control_planes : Act (Unit {0})
  set_up_control_planes = ask env (setup_with_manager control_plane 30) >>= lift

  abbrev pub set_up_node_pools : Act (Unit {0})
  set_up_node_pools = ask env (setup_with_manager node_pool 30) >>= lift

  abbrev pub set_up_node_sets : Act (Unit {0})
  set_up_node_sets = ask env (setup_with_manager node_set 30) >>= lift

  -- `main`, with the flags as it was given them.
  unfoldable pub run_manager : String → Bool → Act (Unit {0})
  run_manager metrics_addr enable_leader_election =
      on_error (ask env get_config >>= lift) (λ e. panic)
        λ _.
          on_error (ask env (new_manager metrics_addr enable_leader_election) >>= lift) (λ e. panic)
            λ _.
              on_error set_up_clusters (λ e. panic)
                λ _.
                  on_error set_up_control_planes (λ e. panic)
                    λ _.
                      on_error set_up_node_pools (λ e. panic)
                        λ _.
                          on_error set_up_node_sets (λ e. panic)
                            λ _.
                              on_error (ask env start_manager >>= lift) (λ e. panic)
                                λ done. pure done
