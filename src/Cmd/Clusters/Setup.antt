-- ===== src/Cmd/Clusters/Setup.antt =====
-- The steps of `RunCreate` (cmd/cluster/cluster.go): the bootstrap, the wait for the first machine, the
-- manifests, the namespace and the cluster object.
use azk.Base.{
  ℕ, zero, suc, String, ◌<>◌, ◌==◌, Bool, true, false, Option, none, some, List, [], ◌∷◌,
  contains_text, pos, if◌then◌else◌,
}
use azk.Api.{Error, Result, ok, err, Spec, Cluster}
use azk.World.{
  Env, Act, pure, fail, lift, ask, on_error, ◌>>=◌, KubeClient, client_of, kube, print, get_cluster,
  create_cluster, create_namespace, write_file, client_new, sleep,
}
use azk.Helpers.{wait_for_nodes_ready}
use azk.Azure.{delete_resource_group}
use azk.Bootstrap.{bootstrap}
use azk.Cmd.NodePools.{named}
use azk.Cmd.Apply.{kubectl_apply_folder}

module _ (env : Env) where
  -- `err == nil` after `yaml.Marshal` writes the file; the error of `WriteFile` is not looked at.
  abbrev pub write_if_marshalled : String → Result String → Act (Unit {0})
  write_if_marshalled file (ok text) = do _ ← ask env (write_file file text); pure tt
  write_if_marshalled file (err e) = pure tt

  -- `Bootstrap`; after its error the resources are cleaned up, whatever comes of that.
  unfoldable pub bootstrap_or_clean_up : Spec → Act Spec
  bootstrap_or_clean_up spec =
      on_error (bootstrap env spec)
        (λ e. do
          _ ← ask env (print ("✗ Failed to create bootstrap resources " <> env.error_text e))
          _ ← on_error (delete_resource_group env spec.cloud) (λ e. pure tt) pure
          _ ←
              ask env
                (print ("✓ Successfully cleanup up bootstrap resources " <> spec.cluster_name))
          fail e)
        (λ established. do
          _ ← ask env (print ("✓ Successfully created bootstrap resources " <> spec.cluster_name))
          pure established)

  -- The loop that waits for the first machine: the rounds that are left, and `loopErr`.
  unfoldable pub stabilise : String → ℕ → Option Error → Act (Unit {0})
  stabilise kubeconfig zero none = pure tt
  stabilise kubeconfig zero (some loop_err) = fail loop_err
  stabilise kubeconfig (suc rounds) loop_err =
      on_error
        (do
          _ ← (ask env (client_new kubeconfig) >>= lift)
          wait_for_nodes_ready env (client_of kubeconfig) "azk-master-vmss" (pos 1))
        (λ e. ask env (sleep 3) >>= λ _. stabilise kubeconfig rounds (some e)) (λ _. pure tt)

  abbrev folders : Bool → List String
  folders true = []
  folders false = "deployment" ∷ []

  unfoldable pub apply_folders : String → List String → Act (Unit {0})
  apply_folders kubeconfig [] = pure tt
  apply_folders kubeconfig (folder ∷ rest) = do
    _ ← kubectl_apply_folder env folder kubeconfig "assets"
    apply_folders kubeconfig rest

  unfoldable pub kubectl_apply_resources : String → Bool → Act (Unit {0})
  unfolding apply_folders
  kubectl_apply_resources kubeconfig is_development =
      apply_folders kubeconfig (folders is_development)

  unfoldable pub create_namespace_unless_there : KubeClient → String → Act (Unit {0})
  create_namespace_unless_there client name =
      on_error (ask env (kube client (create_namespace name)) >>= lift)
        (λ e.
          if contains_text (env.error_text e) "already exists"
          then ask env (print ("✓ Successfully Created Namespace " <> name))
          else ask env (print ("✗ Failed to Create Namespace " <> env.error_text e))
            >>= (λ _. fail e))
        (λ _. ask env (print ("✓ Successfully Created Namespace " <> name)))

  -- At most ten creations, three seconds apart; the error is that of the last one.
  unfoldable pub create_with_retries : KubeClient → Cluster → ℕ → Option Error → Act (Unit {0})
  create_with_retries client cluster zero none = pure tt
  create_with_retries client cluster zero (some e) = do
    _ ← ask env (print ("✗ Failed to Create Cluster " <> env.error_text e))
    fail e
  create_with_retries client cluster (suc rounds) last =
      on_error (ask env (kube client (create_cluster cluster)) >>= lift)
        (λ e. ask env (sleep 3) >>= λ _. create_with_retries client cluster rounds (some e))
        (λ _. pure tt)

  abbrev pub new_cluster : String → Spec → Cluster
  new_cluster name spec = record {
    meta = named name name;
    spec = spec;
    status = record { provisioning_state = "" };
  }

  unfoldable pub ensure_cluster : KubeClient → String → String → Spec → Act (Unit {0})
  unfolding create_with_retries
  ensure_cluster client dir name spec =
      on_error
        (ask env (kube client (get_cluster (record { namespace = name; name = name }))) >>= lift)
        (λ e. do
          _ ← ask env (sleep 3)
          let cluster = new_cluster name spec
          _ ← write_if_marshalled (dir <> "/clusterspec.yml") (env.marshal_cluster cluster)
          _ ← create_with_retries client cluster 10 none
          ask env (print ("✓ Successfully Created Cluster " <> name)))
        (λ found. do
          _ ←
              if found.status.provisioning_state == "Succeeded"
              then ask env (print ("✓ Already Created Cluster " <> name))
              else pure tt
          write_if_marshalled (dir <> "/clusterspec.yml") (env.marshal_cluster found))
