-- ===== src/Api.antt =====
-- The objects that the program keeps in Kubernetes (api/v1alpha1/*_types.go): a node set, a node
-- pool, a control plane and a cluster, each with a desired `spec` and an observed `status`. The
-- cluster's spec and the cloud account stand in `Api/ClusterSpec.antt`, errors in `Api/Errors.antt`.
mod Errors
mod ClusterSpec
pub use Errors.*
unfoldable pub use ClusterSpec.*
use azk.Base.{ℕ, String, Bool, true, false, Option, none, some, List, ℤ, nat_eq, int_eq, ◌==◌, ◌&&◌}

-- The parts of `metav1.ObjectMeta` that the program reads or writes. `deletion_timestamp` is
-- nil or a time, 0 being Go's zero time.
pub record ObjectMeta : Type 0 where
  pub name : String
  pub namespace : String
  pub finalizers : List String
  pub deletion_timestamp : Option ℕ
  pub owner_references : List String

-- `DeletionTimestamp.IsZero()`
abbrev pub is_zero : Option ℕ → Bool
is_zero none = true
is_zero (some t) = nat_eq t 0

pub record NamespacedName : Type 0 where
  pub namespace : String
  pub name : String

pub record VmStatus : Type 0 where
  pub vm_computer_name : String
  pub vm_instance_id : String

-- `replicas` is an `*int32`.
pub record NodeSetSpec : Type 0 where
  pub kubernetes_version : String
  pub replicas : Option ℤ
  pub vm_sku_type : String

pub record NodeSetStatus : Type 0 where
  pub replicas : ℤ
  pub kubernetes_version : String
  pub provisioning_state : String
  pub kubeconfig : String
  pub node_status : List VmStatus

pub record NodeSet : Type 0 where
  pub meta : ObjectMeta
  pub spec : NodeSetSpec
  pub status : NodeSetStatus

pub record NodePoolStatus : Type 0 where
  pub node_set_name : String
  pub vm_replicas : ℤ
  pub node_set_status : NodeSetStatus

-- The spec of a node pool is that of a node set.
pub record NodePool : Type 0 where
  pub meta : ObjectMeta
  pub spec : NodeSetSpec
  pub status : NodePoolStatus

pub record ControlPlaneSpec : Type 0 where
  pub kubernetes_version : String
  pub vm_sku_type : String

pub record ControlPlaneStatus : Type 0 where
  pub kubernetes_version : String
  pub provisioning_state : String
  pub node_status : List VmStatus

pub record ControlPlane : Type 0 where
  pub meta : ObjectMeta
  pub spec : ControlPlaneSpec
  pub status : ControlPlaneStatus

pub record ClusterStatus : Type 0 where
  pub provisioning_state : String

pub record Cluster : Type 0 where
  pub meta : ObjectMeta
  pub spec : Spec
  pub status : ClusterStatus

-- `reflect.DeepEqual` on two optional counts and on two node set specs.
abbrev pub replicas_eq : Option ℤ → Option ℤ → Bool
replicas_eq none none = true
replicas_eq (some a) (some b) = int_eq a b
replicas_eq none (some _) = false
replicas_eq (some _) none = false

abbrev pub spec_eq : NodeSetSpec → NodeSetSpec → Bool
spec_eq a b =
    (a.kubernetes_version == b.kubernetes_version)
    && (replicas_eq a.replicas b.replicas)
    && (a.vm_sku_type == b.vm_sku_type)
