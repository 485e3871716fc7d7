-- ===== src/Controllers/Scripts.antt =====
-- The start-up and upgrade scripts of controllers/nodeset_controller.go and
-- controllers/controlplane_controller.go.
use azk.Base.{String, [], ◌∷◌, ◌<>◌, unlines}
use azk.Helpers.{pre_requisites_install_script}

unfoldable pub kubeadm_node_join_config : String → String → String → String
kubeadm_node_join_config internal_dns_name bootstrap_token discovery_hash = unlines (
    ""
    ∷ "cat <<EOF >/tmp/kubeadm-config.yaml"
    ∷ "apiVersion: kubeadm.k8s.io/v1beta1"
    ∷ "kind: JoinConfiguration"
    ∷ "nodeRegistration:"
    ∷ "  kubeletExtraArgs:"
    ∷ "    cloud-provider: azure"
    ∷ "    cloud-config: /etc/kubernetes/azure.json"
    ∷ "discovery:"
    ∷ "  bootstrapToken:"
    ∷ ("    token: " <> bootstrap_token)
    ∷ ("    apiServerEndpoint: \"" <> internal_dns_name <> ":6443\"")
    ∷ "    caCertHashes:"
    ∷ ("    - " <> discovery_hash)
    ∷ "EOF"
    ∷ [])

unfoldable pub get_node_set_startup_script : String → String → String → String → String
get_node_set_startup_script kubernetes_version internal_dns_name bootstrap_token discovery_hash =
    unlines (
      ""
      ∷ pre_requisites_install_script kubernetes_version
      ∷ "sudo cp -f /etc/hosts /tmp/hostsupdate"
      ∷ "sudo chown $(id -u):$(id -g) /tmp/hostsupdate"
      ∷ ("echo '10.0.0.100 " <> internal_dns_name <> "' >> /tmp/hostsupdate")
      ∷ "sudo mv /etc/hosts /etc/hosts.bak"
      ∷ "sudo mv /tmp/hostsupdate /etc/hosts"
      ∷ kubeadm_node_join_config internal_dns_name bootstrap_token discovery_hash
      ∷ "#Setup using kubeadm"
      ∷ "sudo kubeadm join --config /tmp/kubeadm-config.yaml"
      ∷ [])

unfoldable pub pre_requisites : String → String → String → String
pre_requisites kubernetes_version api_server_ip internal_dns_name = unlines (
    ""
    ∷ pre_requisites_install_script kubernetes_version
    ∷ "sudo cp -f /etc/hosts /tmp/hostsupdate"
    ∷ "sudo chown $(id -u):$(id -g) /tmp/hostsupdate"
    ∷ ("echo '" <> api_server_ip <> " " <> internal_dns_name <> "' >> /tmp/hostsupdate")
    ∷ "sudo mv /etc/hosts /etc/hosts.bak"
    ∷ "sudo mv /tmp/hostsupdate /etc/hosts"
    ∷ [])

unfoldable pub kubeadm_cp_join_config : String → String → String → String
kubeadm_cp_join_config bootstrap_token internal_dns_name discovery_hash = unlines (
    ""
    ∷ "cat <<EOF >/tmp/kubeadm-config.yaml"
    ∷ "apiVersion: kubeadm.k8s.io/v1beta1"
    ∷ "kind: JoinConfiguration"
    ∷ "nodeRegistration:"
    ∷ "  kubeletExtraArgs:"
    ∷ "    cloud-provider: azure"
    ∷ "    cloud-config: /etc/kubernetes/azure.json"
    ∷ "discovery:"
    ∷ "  bootstrapToken:"
    ∷ ("    token: " <> bootstrap_token)
    ∷ ("    apiServerEndpoint: \"" <> internal_dns_name <> ":6443\"")
    ∷ "    caCertHashes:"
    ∷ ("    - " <> discovery_hash)
    ∷ "controlPlane:"
    ∷ "  localAPIEndpoint:"
    ∷ "EOF"
    ∷ [])

unfoldable pub get_master_startup_script :
    String → String → String → String → String → String → String
get_master_startup_script kubernetes_version api_server_ip internal_dns_name bootstrap_token
      discovery_hash etcd_endpoints =
    unlines (
      ""
      ∷ "set -eux"
      ∷ pre_requisites kubernetes_version api_server_ip internal_dns_name
      ∷ kubeadm_cp_join_config bootstrap_token internal_dns_name discovery_hash
      ∷ "#Setup using kubeadm"
      ∷ "until sudo kubeadm join --config /tmp/kubeadm-config.yaml > /dev/null; do"
      ∷ ("\tMEMBER_ID=$(sudo etcdctl --cert-file /etc/kubernetes/pki/etcd/server.crt --key-file /etc/kubernetes/pki/etcd/server.key --ca-file /etc/kubernetes/pki/etcd/ca.crt --endpoints \\\""
          <> etcd_endpoints <> "\\\" member list | grep -i $(uname -n) | cut -d ':' -f1)")
      ∷ ("\t[ ! -z \"$MEMBER_ID\" ] && sudo etcdctl --cert-file /etc/kubernetes/pki/etcd/server.crt --key-file /etc/kubernetes/pki/etcd/server.key --ca-file /etc/kubernetes/pki/etcd/ca.crt --endpoints \\\""
          <> etcd_endpoints <> "\\\" member remove $MEMBER_ID")
      ∷ "\tsudo rm -rf /etc/kubernetes/manifests"
      ∷ "\tsleep 30"
      ∷ "done"
      ∷ "sudo cp -f /etc/hosts.bak /tmp/hostsupdate"
      ∷ "sudo chown $(id -u):$(id -g) /tmp/hostsupdate"
      ∷ ("echo '127.0.0.1 " <> internal_dns_name <> "' >> /tmp/hostsupdate")
      ∷ "sudo mv /tmp/hostsupdate /etc/hosts"
      ∷ [])

unfoldable pub get_upgrade_script : String → String
get_upgrade_script kubernetes_version = unlines (
    ""
    ∷ ("sudo apt-get upgrade -y kubectl=" <> kubernetes_version <> "-00 kubeadm="
        <> kubernetes_version <> "-00")
    ∷ ("sudo kubeadm upgrade apply --force --yes v" <> kubernetes_version)
    ∷ "sudo kubectl --kubeconfig /etc/kubernetes/admin.conf drain $(uname -n) --ignore-daemonsets"
    ∷ "sudo apt-mark unhold kubelet"
    ∷ ("sudo apt-get upgrade -y kubelet=" <> kubernetes_version <> "-00 ")
    ∷ "sudo apt-mark hold kubelet"
    ∷ "sudo systemctl restart kubelet"
    ∷ "sudo kubectl --kubeconfig /etc/kubernetes/admin.conf uncordon $(uname -n)"
    ∷ [])
