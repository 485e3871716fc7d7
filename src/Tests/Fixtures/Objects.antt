-- ===== src/Tests/Fixtures/Objects.antt =====
-- A cluster, a node set of two machines, a node pool, a control plane and network resources.
use azk.Base.{String, none, some, List, [], ◌∷◌, pos}
use azk.Api.{
  ObjectMeta, VmStatus, NodeSetSpec, NodeSet, NodePool, ControlPlane, CloudConfiguration, Cluster,
}
use azk.World.Web.{Event}
use azk.World.{Node, ResourceSku, PublicIpAddress, LoadBalancer, Subnet}

abbrev pub meta_of : String → List String → ObjectMeta
meta_of name finalizers = record {
  name = name;
  namespace = "default";
  finalizers = finalizers;
  deletion_timestamp = none;
  owner_references = [];
}

abbrev pub cloud : CloudConfiguration
cloud = record {
  cloud_name = "AzurePublicCloud";
  subscription_id = "subscription";
  client_id = "client";
  client_secret = "secret";
  tenant_id = "tenant";
  group_name = "group";
  group_location = "westus2";
  user_agent = "azk";
}

abbrev pub cluster : Cluster
cluster = record {
  meta = meta_of "cluster" ("cluster.finalizers.engine.azk.io" ∷ []);
  spec = record {
    cloud = cloud;
    dns_prefix = "azk";
    cluster_name = "cluster";
    ca_certificate = "";
    ca_certificate_key = "";
    service_account_key = "";
    service_account_pub = "";
    front_proxy_ca_certificate = "";
    front_proxy_ca_certificate_key = "";
    etcd_ca_certificate = "";
    etcd_ca_certificate_key = "";
    admin_kubeconfig = "";
    customer_kubeconfig = "kubeconfig";
    discovery_hashes = "hash" ∷ [];
    public_dns_name = "azk.westus2";
    public_ip_address = "10.0.0.1";
    internal_dns_name = "azk.internal";
    azure_cloud_provider_config = "";
    bootstrap_vm_sku_type = "";
    bootstrap_kubernetes_version = "";
  };
  status = record { provisioning_state = "Succeeded" };
}

abbrev pub machine : String → VmStatus
machine name = record { vm_computer_name = name; vm_instance_id = "0" }

abbrev pub pool_spec : NodeSetSpec
pool_spec = record { kubernetes_version = "1.14.1"; replicas = some (pos 1); vm_sku_type = "" }

-- One machine is asked for, and two are there.
abbrev pub node_set : String → NodeSet
node_set name = record {
  meta = meta_of name ("nodesets.finalizers.engine.azk.io" ∷ []);
  spec = pool_spec;
  status = record {
    replicas = pos 2;
    kubernetes_version = "1.14.1";
    provisioning_state = "Succeeded";
    kubeconfig = "kubeconfig";
    node_status = machine "agent0" ∷ machine "agent1" ∷ [];
  };
}

abbrev pub node_pool : NodePool
node_pool = record {
  meta = meta_of "pool" [];
  spec = pool_spec;
  status = record {
    node_set_name = "";
    vm_replicas = pos 0;
    node_set_status = (node_set "").status;
  };
}

abbrev pub control_plane : ControlPlane
control_plane = record {
  meta = meta_of "control-plane" [];
  spec = record { kubernetes_version = "1.14.1"; vm_sku_type = "" };
  status = record {
    kubernetes_version = "1.13.5";
    provisioning_state = "Succeeded";
    node_status = machine "master0" ∷ [];
  };
}

-- A node at version 1.14.1 whose Ready condition has this status.
abbrev pub node_with : String → String → Node
node_with status name = record {
  name = name;
  conditions = record { kind = "Ready"; status = status } ∷ [];
  kubelet_version = "v1.14.1";
}

abbrev pub nodes : List Node
nodes =
    node_with "True" "azk-master-vmss0"
    ∷ node_with "True" "azk-master-vmss1"
    ∷ node_with "False" "azk-master-vmss2"
    ∷ []

abbrev pub sku : String → ResourceSku
sku name = record {
  name = some name;
  location_info = some (record { location = some "westus2"; zones = some ("1" ∷ "2" ∷ []) } ∷ []);
}

abbrev pub public_ip : PublicIpAddress
public_ip = record {
  sku = "Standard";
  name = some "azk";
  location = some "westus2";
  properties = some (record {
    version = "IPv4";
    allocation_method = "Static";
    domain_name_label = some "azk";
    fqdn = some "azk.westus2.cloudapp.azure.com";
    ip_address = some "52.0.0.1";
  });
}

abbrev pub load_balancer : LoadBalancer
load_balancer = record {
  sku = "Standard";
  location = "westus2";
  properties = some (record {
    frontend_ip_configurations = [];
    backend_address_pools =
        some (record { id = some "pool-id"; name = some "master-backEndPool" } ∷ []);
    probes = [];
    load_balancing_rules = [];
    inbound_nat_pools = none;
    inbound_nat_rules = some (some "rule-id" ∷ []);
  });
}

abbrev pub subnet : Subnet
subnet = record {
  id = some "subnet-id";
  name = some "master-subnet";
  address_prefix = some "10.0.0.0/16";
  network_security_group = none;
  route_table = none;
}

abbrev pub event : String → Event
event reason = record {
  name = "agents.1";
  namespace = "default";
  last_timestamp = 7;
  kind = "Normal";
  reason = reason;
  involved_kind = "NodeSet";
  message = "agents-agentvmss";
}
