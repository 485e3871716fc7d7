-- ===== src/World/Web.antt =====
-- What the web server (cmd/web.go), the manager (manager/main.go) and the getter of configurations
-- (helpers/restclientgetter.go) hand to the libraries that they are built on.
use azk.Base.{ℕ, String}

-- `rest.Config`, of which the program sets the time-out in seconds.
pub record RestConfig : Type 0 where
  pub config : ℕ
  pub timeout : ℕ

-- What the program reads of a Kubernetes event; a time is known by a handle.
pub record Event : Type 0 where
  pub name : String
  pub namespace : String
  pub last_timestamp : ℕ
  pub kind : String
  pub reason : String
  pub involved_kind : String
  pub message : String

-- `clusterListType`
pub record ClusterItem : Type 0 where
  pub name : String
  pub region : String
  pub resource_group : String
  pub subscription_id : String
  pub kubernetes_version : String
  pub status : String

-- `eventListType`
pub record EventItem : Type 0 where
  pub name : String
  pub namespace : String
  pub last_seen : String
  pub kind : String
  pub reason : String
  pub involved_kind : String
  pub message : String

-- `http.RedirectHandler(url, code)`, `http.StripPrefix(prefix, http.FileServer(root))`, and the
-- program's own handlers.
pub data Handler : Type 0 where
  redirect : String → ℕ → Handler
  files : String → String → Handler
  events : Handler
  cluster_list : Handler
  cluster_get : Handler

-- The kinds of object that the controllers of the manager reconcile.
pub data Kind : Type 0 where
  cluster control_plane node_pool node_set : Kind
