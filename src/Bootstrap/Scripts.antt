-- ===== src/Bootstrap/Scripts.antt =====
-- The kubeadm configuration and the start-up script of bootstrap/infrastructure.go.
use azk.Base.{String, [], ◌∷◌, ◌<>◌, unlines}
use azk.Helpers.{pre_requisites_install_script, canal_cni}

unfoldable pub pre_requisites : String → String → String
pre_requisites kubernetes_version internal_dns_name = unlines (
    ""
    ∷ pre_requisites_install_script kubernetes_version
    ∷ "sudo cp -f /etc/hosts /tmp/hostsupdate"
    ∷ "sudo chown $(id -u):$(id -g) /tmp/hostsupdate"
    ∷ ("echo '10.0.0.4 " <> internal_dns_name <> "' >> /tmp/hostsupdate")
    ∷ "sudo mv /etc/hosts /etc/hosts.bak"
    ∷ "sudo mv /tmp/hostsupdate /etc/hosts"
    ∷ [])

unfoldable pub kubeadm_init_config : String → String → String → String
kubeadm_init_config kubernetes_version public_dns_name internal_dns_name = unlines (
    ""
    ∷ "cat <<EOF >/tmp/kubeadm-config.yaml"
    ∷ "apiVersion: kubeadm.k8s.io/v1beta1"
    ∷ "nodeRegistration:"
    ∷ "  kubeletExtraArgs:"
    ∷ "    cloud-provider: azure"
    ∷ "    cloud-config: /etc/kubernetes/azure.json"
    ∷ "kind: InitConfiguration"
    ∷ "---"
    ∷ "apiVersion: kubeadm.k8s.io/v1beta1"
    ∷ "kind: ClusterConfiguration"
    ∷ "apiServer:"
    ∷ "  certSANs:"
    ∷ ("  - \"" <> public_dns_name <> "\"")
    ∷ ("  - \"" <> internal_dns_name <> "\"")
    ∷ "  - \"10.0.0.100\""
    ∷ "  extraArgs:"
    ∷ "    cloud-config: /etc/kubernetes/azure.json"
    ∷ "    cloud-provider: azure"
    ∷ "  extraVolumes:"
    ∷ "  - hostPath: /etc/kubernetes/azure.json"
    ∷ "    mountPath: /etc/kubernetes/azure.json"
    ∷ "    name: cloud-config"
    ∷ "    readOnly: true"
    ∷ "controllerManager:"
    ∷ "  extraArgs:"
    ∷ "    cloud-config: /etc/kubernetes/azure.json"
    ∷ "    cloud-provider: azure"
    ∷ "  extraVolumes:"
    ∷ "  - hostPath: /etc/kubernetes/azure.json"
    ∷ "    mountPath: /etc/kubernetes/azure.json"
    ∷ "    name: cloud-config"
    ∷ "    readOnly: true"
    ∷ ("kubernetesVersion: " <> kubernetes_version)
    ∷ ("controlPlaneEndpoint: \"" <> internal_dns_name <> ":6443\"")
    ∷ "networking:"
    ∷ "  podSubnet: \"10.244.0.0/16\""
    ∷ "etcd:"
    ∷ "  local:"
    ∷ "    imageRepository: gcr.io/etcd-development"
    ∷ "    imageTag: v3.4.1"
    ∷ "EOF"
    ∷ [])

unfoldable pub get_bootstrap_startup_script : String → String → String → String
get_bootstrap_startup_script kubernetes_version public_dns_name internal_dns_name = unlines (
    ""
    ∷ "set -eux"
    ∷ kubeadm_init_config kubernetes_version public_dns_name internal_dns_name
    ∷ pre_requisites kubernetes_version internal_dns_name
    ∷ "until sudo kubeadm init --config /tmp/kubeadm-config.yaml > /dev/null; do"
    ∷ "\tsleep 30"
    ∷ "done"
    ∷ "mkdir -p $HOME/.kube"
    ∷ "sudo cp -f /etc/kubernetes/admin.conf $HOME/.kube/config"
    ∷ "sudo chown $(id -u):$(id -g) $HOME/.kube/config"
    ∷ canal_cni
    ∷ [])
