-- ===== src/Lib.antt =====
-- The engine of azk: Kubernetes controllers that keep clusters of virtual machines in Azure.
--
-- The program has four controllers. A cluster (controllers/cluster_controller.go) owns an Azure
-- resource group. A control plane (controllers/controlplane_controller.go) is a scale set of
-- three machines, which it creates and upgrades one machine at a time. A node pool
-- (controllers/nodepool_controller.go) makes one node set for each version and collects the others.
-- A node set (controllers/nodeset_controller.go) is a scale set of agents, which it creates,
-- scales and deletes. They share helpers (helpers/*.go), the Azure operations (azure/*.go) and the
-- bootstrap token and scripts (bootstrap/*.go). The commands (cmd/) make a first cluster, by way of
-- the spec and the base infrastructure of bootstrap/, and write the objects that the controllers
-- reconcile; then they look at these objects until the controllers have set their status.
--
-- How the files correspond to the program:
--   Api        the objects (api/v1alpha1/*_types.go), with CloudConfiguration (azure/helpers.go)
--              and Spec (bootstrap/spec.go), and Go's errors;
--   World      what the program asks of the systems around it. A procedure is a function from the
--              log of the calls made so far to its exit (a value, an error or a panic) and the
--              longer log. The environment answers each call in any way that may depend on the whole
--              log, so a theorem for every environment covers failures, changes made by others
--              between two calls, and every order in which Go ranges over a map. World/Keeps,
--              World/Ends and World/Post hold rules for predicates on logs and exits;
--   Helpers    helpers/helpers.go, helpers/cordonanddrain.go (Finalizers, Nodes, Versions),
--              helpers/scripts.go (Scripts) and helpers/restclientgetter.go (RestClient);
--              the other children are about their behaviour;
--   Azure      azure/helpers.go (Clients), azure/vmss.go (CustomData, Vmss), azure/groups.go (Groups),
--              azure/cloudconfig.go (CloudConfig), and GenerateRandomHexString of helpers/helpers.go
--              (CustomData); Zones, Creation, Authorizer and Digits are about these. Network has
--              azure/ip.go (Ips), azure/securitygroups.go and azure/routetables.go (SecurityGroups),
--              azure/vnet.go and azure/subnet.go (VirtualNetworks), azure/loadbalancer.go
--              (LoadBalancers), azure/nic.go (Interfaces) and what they share (Running);
--   Bootstrap  bootstrap/spec.go in Specs (CreateSpec, UpdateSpec) and Token
--              (CreateNewBootstrapToken), bootstrap/certificates.go and bootstrap/kubeconfigs.go in
--              Certificates, the names that are computed for a cluster in Names, and
--              bootstrap/infrastructure.go in Scripts, Infrastructure (CreateInfrastructure) and
--              BaseInfrastructure (CreateBaseInfrastructure, and bootstrap/bootstrap.go); Filling,
--              HostNames, Order and FirstMachine are about these;
--   Changes    the calls that ask for a change (all but those for bootstrap tokens), and the
--              procedures that make none of them; Drains has the changes of nodes, Plan has
--              the procedures that create the resources of a list in its order, and Phases machines
--              whose steps are changes, with the procedures that take such steps;
--   Controllers  NodeSets, NodePools, ControlPlanes and Clusters, one for each controller: `reconcile`
--              is its `Reconcile`, and the other functions are its methods (those on machines in
--              the child Machines of NodeSets and ControlPlanes) and the parts of its
--              body between two early returns; Outcome is what a `Reconcile` returns. LifeCycle of
--              each has the phases of its reconcile, as the abstract machine that it implements;
--   Cmd        cmd/nodepool/nodepool.go (NodePools), cmd/controlplane/controlplane.go (ControlPlanes),
--              the client and the loop that they share (Polling), cmd/helpers/helpers.go and
--              RunCreateorUpdateAddon of cmd/addons/addons.go (Apply), cmd/cluster/cluster.go
--              (Clusters, with the steps before the goroutines in Setup and the goroutines as state
--              machines in Workers), cmd/flow/flow.go (Flow), cmd/web.go (Web), the
--              flags of all commands with the options that they set (Flags), and the tree of the
--              commands (Commands: cmd/root.go, cmd/create.go and the like, and the variables of
--              type `cobra.Command`); the other children are about these;
--   Manager    manager/main.go, with the `SetupWithManager` of each controller;
--   Std        Go's library functions on texts: base64, FNV-1a, %d, %x, EqualFold, ToLower (on
--              ASCII letters), TrimSpace, Sort and ParseUint;
--   Base       names of the libraries and helpers on numbers, texts and lists;
--   Tests      a concrete environment and objects, and theorems at them.
--
-- Bounds: the polling loops have the source's rounds: 100 in helpers/ and for the first machine, 20
-- and 30 in the commands, 10 for the creation of a cluster object. `%x` is given 16 digits and `%d`
-- 20, which suffice for 64 bits. The two goroutines of RunCreate take 106 steps together, which is
-- what both have at most; a step is one call, and the environment chooses who makes the next one.
-- All other loops are recursion on the list that the source ranges over. A count is an integer;
-- int32 wraps around where the source converts a length to it.
--
-- Not modelled: logging, spinners and elapsed times (the lines printed for the user are calls); the
-- texts of the help, the middleware of the web server, generated code and assets. Libraries that the
-- program calls (kubectl, the Azure clients, kubeadm, YAML, JSON, the router, semantic versions,
-- random numbers, keys, files) are calls in the log or fields of the environment. How cobra parses
-- the arguments and chooses a command is left open: a command is run with any values of its flags.
-- A `Get` that answers sets the whole object. The iterator over stock keeping units is a list, so
-- its `Next` does not fail. `SetControllerReference` is a function of the two objects' metadata. A
-- published version starts with a letter of one byte. `os.Exit` is told as a panic. The handler of
-- fatal exits of kubectl, which concurrent drains share, is not a state of the model: any drain may
-- be answered with any message.
pub mod Base
pub mod Std
pub mod Api
pub mod World
pub mod Helpers
pub mod Azure
pub mod Bootstrap
pub mod Changes
pub mod Controllers
pub mod Cmd
pub mod Manager
pub mod Tests
