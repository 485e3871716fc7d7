-- ===== src/Bootstrap/Specs.antt =====
-- `CreateSpec` and `UpdateSpec` (bootstrap/spec.go). The spec that the Go code fills in through a
-- pointer is the value they return; after an error its only caller drops it.
use azk.Base.{String, ◌<>◌, ◌==◌, List, [], ◌∷◌, if◌then◌else◌}
use azk.Api.{CloudConfiguration, Spec, is_valid}
use azk.World.{
  Env, Act, pure, lift, ask, finally, ◌>>=◌, KubeadmConfig, read_file, remove_file, remove_all,
  create_kubeconfig_file,
}
use azk.Azure.{azure_cloud_provider_config}
use azk.Bootstrap.Names.{
  cluster_name_of, spec_public_ip_name, public_dns_name_of, internal_dns_name_of,
}
use azk.Bootstrap.Certificates.{
  create_pki_sa_certificates, create_kubeconfigs, get_discovery_hashes,
}

-- `if spec.X == "" { spec.X = … }`
abbrev pub or_else : String → String → String
or_else present otherwise = if present == "" then otherwise else present

abbrev pub tmp_dir_name : Spec → String
tmp_dir_name spec = "/tmp/kubeadm" <> spec.cluster_name

-- `&Spec{}`
abbrev pub empty_spec : Spec
empty_spec = record {
  cloud = record {
    cloud_name = "";
    subscription_id = "";
    client_id = "";
    client_secret = "";
    tenant_id = "";
    group_name = "";
    group_location = "";
    user_agent = "";
  };
  dns_prefix = "";
  cluster_name = "";
  ca_certificate = "";
  ca_certificate_key = "";
  service_account_key = "";
  service_account_pub = "";
  front_proxy_ca_certificate = "";
  front_proxy_ca_certificate_key = "";
  etcd_ca_certificate = "";
  etcd_ca_certificate_key = "";
  admin_kubeconfig = "";
  customer_kubeconfig = "";
  discovery_hashes = [];
  public_dns_name = "";
  public_ip_address = "";
  internal_dns_name = "";
  azure_cloud_provider_config = "";
  bootstrap_vm_sku_type = "";
  bootstrap_kubernetes_version = "";
}

-- What `CreateSpec` sets before it makes a file.
unfoldable pub named_spec : CloudConfiguration → String → String → String → Spec
named_spec c dns_prefix vm_sku_type kubernetes_version =
    let cluster_name =
      or_else empty_spec.cluster_name (cluster_name_of c.subscription_id c.group_name) in
    let public_ip_name = spec_public_ip_name dns_prefix cluster_name in
    record empty_spec {
      cluster_name = cluster_name;
      cloud = if is_valid empty_spec.cloud then empty_spec.cloud else c;
      dns_prefix = or_else empty_spec.dns_prefix dns_prefix;
      bootstrap_kubernetes_version =
          or_else empty_spec.bootstrap_kubernetes_version kubernetes_version;
      bootstrap_vm_sku_type = or_else empty_spec.bootstrap_vm_sku_type vm_sku_type;
      public_dns_name =
          or_else empty_spec.public_dns_name (public_dns_name_of public_ip_name c.group_location);
      internal_dns_name =
          or_else empty_spec.internal_dns_name (internal_dns_name_of public_ip_name);
    }

abbrev pub init_configuration : Spec → KubeadmConfig
init_configuration spec = record {
  certificates_dir = tmp_dir_name spec <> "/certs";
  advertise_address = "10.0.0.4";
  bind_port = 6443;
  control_plane_endpoint = spec.internal_dns_name <> ":6443";
  cert_sans = "10.0.0.100" ∷ spec.public_dns_name ∷ spec.internal_dns_name ∷ [];
  node_registration_name = "fakenode" <> spec.cluster_name;
}

module _ (env : Env) where
  -- One field of `UpdateSpec`: a file is read only for an empty field.
  unfoldable pub read_if_empty : String → String → Act String
  read_if_empty present file =
      if present == "" then (ask env (read_file file) >>= lift) else pure present

  unfoldable pub hashes_if_none : List String → String → Act (List String)
  hashes_if_none [] file = get_discovery_hashes env file
  hashes_if_none (hash ∷ hashes) file = pure (hash ∷ hashes)

  unfoldable pub update_spec : Spec → Act Spec
  update_spec spec = do
    let dir = tmp_dir_name spec
    ca_certificate ← read_if_empty spec.ca_certificate (dir <> "/certs/ca.crt")
    ca_certificate_key ← read_if_empty spec.ca_certificate_key (dir <> "/certs/ca.key")
    service_account_key ← read_if_empty spec.service_account_key (dir <> "/certs/sa.key")
    service_account_pub ← read_if_empty spec.service_account_pub (dir <> "/certs/sa.pub")
    front_proxy_ca_certificate ←
        read_if_empty spec.front_proxy_ca_certificate (dir <> "/certs/front-proxy-ca.crt")
    front_proxy_ca_certificate_key ←
        read_if_empty spec.front_proxy_ca_certificate_key (dir <> "/certs/front-proxy-ca.key")
    etcd_ca_certificate ← read_if_empty spec.etcd_ca_certificate (dir <> "/certs/etcd/ca.crt")
    etcd_ca_certificate_key ←
        read_if_empty spec.etcd_ca_certificate_key (dir <> "/certs/etcd/ca.key")
    admin_kubeconfig ← read_if_empty spec.admin_kubeconfig (dir <> "/kubeconfigs/admin.conf")
    discovery_hashes ← hashes_if_none spec.discovery_hashes (dir <> "/kubeconfigs/admin.conf")
    pure (record spec {
      ca_certificate = ca_certificate;
      ca_certificate_key = ca_certificate_key;
      service_account_key = service_account_key;
      service_account_pub = service_account_pub;
      front_proxy_ca_certificate = front_proxy_ca_certificate;
      front_proxy_ca_certificate_key = front_proxy_ca_certificate_key;
      etcd_ca_certificate = etcd_ca_certificate;
      etcd_ca_certificate_key = etcd_ca_certificate_key;
      admin_kubeconfig = admin_kubeconfig;
      discovery_hashes = discovery_hashes;
    })

  abbrev pub with_provider_config : CloudConfiguration → Spec → Spec
  with_provider_config c spec = record spec {
    azure_cloud_provider_config = or_else spec.azure_cloud_provider_config (
        azure_cloud_provider_config c.tenant_id c.subscription_id c.client_id c.client_secret
          c.group_name c.group_location);
  }

  -- The kubeconfig that names the public host.
  unfoldable pub customer_kubeconfig_of : Spec → Act String
  customer_kubeconfig_of spec = do
    let dir = tmp_dir_name spec <> "/kubeconfigs"
    _ ← ask env (remove_file (dir <> "/admin.conf"))
    let cfg = record (init_configuration spec) {
      control_plane_endpoint = spec.public_dns_name <> ":6443";
    }
    _ ← (ask env (create_kubeconfig_file "admin.conf" dir cfg) >>= lift)
    ask env (read_file (dir <> "/admin.conf")) >>= lift

  unfoldable pub with_customer_kubeconfig : Spec → Act Spec
  unfolding customer_kubeconfig_of
  with_customer_kubeconfig spec =
      if spec.customer_kubeconfig == ""
      then customer_kubeconfig_of spec
        >>= (λ text. pure (record spec { customer_kubeconfig = text }))
      else pure spec

  -- The part of `CreateSpec` that makes and reads files, under the deferred removal of the folder.
  unfoldable pub filled_spec : CloudConfiguration → Spec → Act Spec
  unfolding update_spec with_customer_kubeconfig
  filled_spec c spec = do
    let cfg = init_configuration spec
    _ ← create_pki_sa_certificates env cfg
    _ ← create_kubeconfigs env cfg (tmp_dir_name spec <> "/kubeconfigs")
    updated ← update_spec spec
    with_customer_kubeconfig (with_provider_config c updated)

  unfoldable pub create_spec : CloudConfiguration → String → String → String → Act Spec
  unfolding named_spec filled_spec
  create_spec c dns_prefix vm_sku_type kubernetes_version =
      let spec = named_spec c dns_prefix vm_sku_type kubernetes_version in
      finally (ask env (remove_all (tmp_dir_name spec))) (filled_spec c spec)
