-- ===== src/Bootstrap/Certificates.antt =====
-- bootstrap/certificates.go and bootstrap/kubeconfigs.go: the certificates, the kubeconfigs and the
-- pins of the certificates that a kubeconfig names. The names of the files are kubeadm's constants.
use azk.Base.{ℕ, String, Option, none, some, List, map, if◌then◌else◌, ◌==◌}
use azk.Api.{message}
use azk.World.{
  Env, Act, pure, fail, lift, ask, ◌>>=◌, KubeadmConfig, KubeconfigCluster, create_pki_assets,
  create_service_account_keys, create_kubeconfig_file, load_cluster_from_file, certs_from_file,
}

module _ (env : Env) where
  unfoldable pub create_pki_sa_certificates : KubeadmConfig → Act (Unit {0})
  create_pki_sa_certificates cfg = do
    _ ← (ask env (create_pki_assets cfg) >>= lift)
    ask env (create_service_account_keys cfg.certificates_dir) >>= lift

  unfoldable pub create_kubeconfigs : KubeadmConfig → String → Act (Unit {0})
  create_kubeconfigs cfg kubeconfig_dir = do
    _ ← (ask env (create_kubeconfig_file "admin.conf" kubeconfig_dir cfg) >>= lift)
    _ ← (ask env (create_kubeconfig_file "kubelet.conf" kubeconfig_dir cfg) >>= lift)
    _ ← (ask env (create_kubeconfig_file "controller-manager.conf" kubeconfig_dir cfg) >>= lift)
    ask env (create_kubeconfig_file "scheduler.conf" kubeconfig_dir cfg) >>= lift

  -- The certificates of the authority, from the data or from the file.
  abbrev authority_certs : Option String → String → Act (List ℕ)
  authority_certs (some pem) file = lift (env.parse_certs_pem pem)
  authority_certs none file =
      if file == ""
      then fail (message "no CA certificates found in kubeconfig")
      else ask env (certs_from_file file) >>= lift

  abbrev default_cluster : Option KubeconfigCluster → Act KubeconfigCluster
  default_cluster none = fail (message "failed to get default cluster config")
  default_cluster (some found) = pure found

  unfoldable pub get_discovery_hashes : String → Act (List String)
  get_discovery_hashes kubeconfig_file = do
    loaded ← (ask env (load_cluster_from_file kubeconfig_file) >>= lift)
    found ← default_cluster loaded
    ca_certs ← authority_certs found.certificate_authority_data found.certificate_authority
    pure (map env.pin_hash ca_certs)
