-- ===== src/Cmd/Web.antt =====
-- cmd/web.go: the web server of the dashboard. Each handler answers by `http_error` or `write_body`.
pub mod Answers
use azk.Base.{
  ℕ, suc, String, ◌<>◌, ◌==◌, contains_text, Bool, true, false, not, ◌||◌, ◌&&◌, Option, none, some,
  List, [], ◌∷◌, ◌++◌, if◌then◌else◌,
}
use azk.Api.{Error, Cluster}
use azk.World.{
  Env, Act, pure, panic, lift, ask, on_error, ◌>>=◌, ◌>>◌, client_of, kube, list_clusters,
  list_events, get_config, client_new, KubeClient, http_error, write_body, time_since, getwd,
  route_get, listen_and_serve,
}
use azk.World.Web.{
  Event, ClusterItem, EventItem, Handler, redirect, files, events, cluster_list, cluster_get,
}

abbrev pub cluster_item : Cluster → ClusterItem
cluster_item c = record {
  name = c.meta.name;
  region = c.spec.cloud.group_location;
  resource_group = c.spec.cloud.group_name;
  subscription_id = c.spec.cloud.subscription_id;
  kubernetes_version = c.spec.bootstrap_kubernetes_version;
  status = c.status.provisioning_state;
}

-- The loop of `List`.
unfoldable pub cluster_items : List Cluster → List ClusterItem → List ClusterItem
cluster_items [] items = items
cluster_items (c ∷ clusters) items = cluster_items clusters (items ++ cluster_item c ∷ [])

abbrev pub event_item : Event → String → EventItem
event_item e last_seen = record {
  name = e.name;
  namespace = e.namespace;
  last_seen = last_seen;
  kind = e.kind;
  reason = e.reason;
  involved_kind = e.involved_kind;
  message = e.message;
}

-- The last byte of a path, if there is one, is a slash.
abbrev ends_in_slash : String → Bool
ends_in_slash String.[] = false
ends_in_slash (String.◌∷◌ c String.[]) = String.◌∷◌ c String.[] == "/"
ends_in_slash (String.◌∷◌ c (String.◌∷◌ d s)) = ends_in_slash (String.◌∷◌ d s)

module _ (env : Env) where
  -- `http.Error(w, fmt.Sprintf(text, err), 400)`
  abbrev pub refuse : String → Error → Act (Unit {0})
  refuse text e = ask env (http_error (text <> env.error_text e) 400)

  -- The client that `List` and `Events` share the way to, and what follows.
  abbrev with_client : (KubeClient → Act (Unit {0})) → Act (Unit {0})
  with_client use_it =
      on_error (ask env get_config >>= lift) (refuse "failed to get config ") λ cfg.
        on_error (ask env (client_new cfg) >>= lift) (refuse "failed to get client ")
          λ _. use_it (client_of cfg)

  -- `clusterResource.List`
  unfoldable pub list : Act (Unit {0})
  unfolding cluster_items
  list = with_client λ client.
      on_error (ask env (kube client (list_clusters "")) >>= lift)
        (refuse "failed to get cluster list ")
        λ clusters.
          on_error (lift (env.marshal_cluster_items (cluster_items clusters [])))
            (refuse "Failed to fetch json ") λ json. ask env (write_body json)

  -- `clusterResource.Get`
  unfoldable pub get : Act (Unit {0})
  get = ask env (write_body "cluster get")

  -- The loop of `Events`.
  unfoldable pub event_items : List Event → List EventItem → Act (List EventItem)
  event_items [] items = pure items
  event_items (e ∷ listed) items = do
    last_seen ← ask env (time_since e.last_timestamp)
    event_items listed (items ++ event_item e last_seen ∷ [])

  -- `Events`
  unfoldable pub list_all_events : Act (Unit {0})
  unfolding event_items
  list_all_events = with_client λ client.
      on_error (ask env (kube client list_events) >>= lift) (refuse "failed to get event list ")
        λ listed. event_items listed [] >>= λ items.
          on_error (lift (env.marshal_event_items items)) (refuse "Failed to fetch json ")
            λ json. ask env (write_body json)

  -- `FileServer`; the prefix that is stripped is the path as it was given.
  unfoldable pub file_server : String → String → Act (Unit {0})
  file_server path root =
      if contains_text path "{" || contains_text path "}" || contains_text path "*"
      then panic
      else if path == "/"
      then ask env (route_get [] (path <> "*") (files path root))
      else if path == ""
      then panic
      else if ends_in_slash path
      then ask env (route_get [] (path <> "*") (files path root))
      else do
        ask env (route_get [] path (redirect (path <> "/") 301))
        ask env (route_get [] (path <> "/" <> "*") (files path root))

  -- `clusterResource.Routes`, mounted at this path.
  unfoldable pub routes : String → Act (Unit {0})
  routes mount = do
    ask env (route_get (mount ∷ []) "/" cluster_list)
    ask env (route_get (mount ∷ "/{id}" ∷ []) "/" cluster_get)

  -- The error of `ListenAndServe` is dropped. The middleware of the router is the library's.
  unfoldable pub run_web : Act (Unit {0})
  unfolding file_server routes
  run_web = do
    work_dir ← ask env getwd
    file_server "/dashboard" (env.join_path work_dir "dashboard")
    ask env (route_get [] "/" (redirect "/dashboard" 301))
    ask env (route_get [] "/events" events)
    routes "/clusters"
    served ← ask env (listen_and_serve ":8080")
    pure tt
