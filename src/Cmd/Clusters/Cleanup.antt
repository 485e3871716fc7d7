-- ===== src/Cmd/Clusters/Cleanup.antt =====
-- What `RunCreate` (cmd/cluster/cluster.go) leaves behind when the bootstrap fails.
use azk.Base.{none, [], ◌∷◌, ◌≡◌, refl, ◌⊎◌, inr, ◌<>◌, arith}
use azk.Api.{Error, Spec, CloudConfiguration}
use azk.World.{
  Env, Log, Call, Exit, returned, failed, panicked, pure, fail, ask, on_error, ◌>>=◌, print, azure,
  group_delete,
}
use azk.Azure.{delete_resource_group, get_groups_client}
use azk.Bootstrap.{bootstrap}
use azk.Cmd.Clusters.{bootstrap_or_clean_up}

-- The call is in the log.
abbrev pub Asked : Call → Log → Type 0
Asked c [] = ⊥
Asked c (d ∷ log) = (d ≡ c) ⊎ Asked c log

abbrev deletion : Env → CloudConfiguration → Call
deletion env c = azure (get_groups_client env c).0 (group_delete c.group_name)

abbrev DeletionAsked : Env → CloudConfiguration → Exit (Unit {0}) × Log → Type 0
DeletionAsked env c (returned u, after) = Asked (deletion env c) after
DeletionAsked env c (failed e, after) = Asked (deletion env c) after
DeletionAsked env c (panicked, after) = ⊥

delete_resource_group-DeletionAsked :
    (env : Env) (c : CloudConfiguration) (log : Log)
    → (get_groups_client env c).1 ≡ none
    → DeletionAsked env c (delete_resource_group env c log)
unfolding delete_resource_group
delete_resource_group-DeletionAsked env c log usable_client = ground arith

cleaned_after :
    (env : Env) (spec : Spec) (e : Error) (ended : Exit (Unit {0}) × Log)
    → DeletionAsked env spec.cloud ended
    → let (exit, after) =
        (on_error (λ (log : Log). ended) (λ e. pure tt) pure >>= λ _.
        ask env (print ("✓ Successfully cleanup up bootstrap resources " <> spec.cluster_name))
        >>= λ _. fail {A = Spec} e)
          ended.1 in
      (exit ≡ failed e) × Asked (deletion env spec.cloud) after
cleaned_after env spec e (returned u, log) h = (refl, inr h)
cleaned_after env spec e (failed x, log) h = (refl, inr h)
cleaned_after env spec e (panicked, log) h = absurd h

-- A bootstrap that fails makes `RunCreate` fail with the bootstrap's error, not with one of the
-- clean-up, and the deletion of the whole resource group has then been asked for, if a client for
-- resource groups can be made.
pub bootstrap_or_clean_up_failed :
    (env : Env) (spec : Spec) (e : Error) (log failed_at : Log)
    → (get_groups_client env spec.cloud).1 ≡ none
    → bootstrap env spec log ≡ (failed e, failed_at)
    → let (exit, after) = bootstrap_or_clean_up env spec log in
      (exit ≡ failed e)
      × Asked
          (azure (get_groups_client env spec.cloud).0 (group_delete spec.cloud.group_name))
          after
unfolding bootstrap_or_clean_up
bootstrap_or_clean_up_failed env spec e log failed_at usable_client h =
    let noted = print ("✗ Failed to create bootstrap resources " <> env.error_text e) ∷ failed_at in
    rw h (
      cleaned_after env spec e (delete_resource_group env spec.cloud noted)
        (delete_resource_group-DeletionAsked env spec.cloud noted usable_client))
