-- ===== src/Azure/Network.antt =====
-- The operations on Azure's network resources (azure/ip.go, loadbalancer.go, securitygroups.go,
-- routetables.go, vnet.go, subnet.go and nic.go), a child module for each kind.
mod Running
mod Ips
mod SecurityGroups
mod LoadBalancers
mod VirtualNetworks
mod Interfaces
unfoldable pub use Running.*
unfoldable pub use Ips.*
unfoldable pub use SecurityGroups.*
unfoldable pub use LoadBalancers.*
unfoldable pub use VirtualNetworks.*
unfoldable pub use Interfaces.*
