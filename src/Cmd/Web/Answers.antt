-- ===== src/Cmd/Web/Answers.antt =====
-- What the list of clusters of the web server (cmd/web.go) answers.
use azk.Base.{
  ℕ, suc, String, ◌<>◌, List, [], ◌∷◌, ◌++◌, ◌≡◌, refl, sym, ap, ◌∙◌, ◌⊎◌, inl, inr, map,
}
use azk.Api.{Error, Result, ok, err, Cluster}
use azk.World.{
  Env, Log, Exit, returned, kube, list_clusters, get_config, client_new, client_of, http_error,
  write_body,
}
use azk.World.Web.{ClusterItem}
use azk.Cmd.Web.{cluster_item, cluster_items, list}
use mathlib.Core.List.{append-nil, append_assoc}

cluster_items_lem :
    (clusters : List Cluster) (items : List ClusterItem)
    → cluster_items clusters items ≡ items ++ map cluster_item clusters
unfolding cluster_items
cluster_items_lem [] items = sym (append-nil items)
cluster_items_lem (c ∷ clusters) items =
    cluster_items_lem clusters (items ++ cluster_item c ∷ [])
    ∙ append_assoc items (cluster_item c ∷ []) (map cluster_item clusters)

-- How often the request was answered so far.
abbrev pub answers : Log → ℕ
answers [] = 0
answers (write_body _ ∷ log) = suc (answers log)
answers (http_error _ _ ∷ log) = suc (answers log)
answers (_ ∷ log) = answers log

module _ (env : Env) where
  -- The newest call has an answer that keeps the list from being written.
  abbrev Stopped : Error → Log → Type 0
  Stopped e (get_config ∷ log) = env.answer log get_config ≡ err e
  Stopped e (client_new cfg ∷ log) = env.answer log (client_new cfg) ≡ err e
  Stopped e (kube client (list_clusters namespace) ∷ log) =
      (env.answer log (kube client (list_clusters namespace)) ≡ err e)
      ⊎ ((clusters : List Cluster) × (env.answer log (kube client (list_clusters namespace))
            ≡ ok clusters)
          × (env.marshal_cluster_items (map cluster_item clusters) ≡ err e))
  Stopped e _ = ⊥

  -- The last call writes the clusters of the listing right before it, in its order, or tells the error
  -- that kept it from that; the request was not answered before.
  abbrev pub ListAnswer : Log → Log → Type 0
  ListAnswer before (write_body json ∷ kube client (list_clusters namespace) ∷ log) =
      (clusters : List Cluster) × (env.answer log (kube client (list_clusters namespace))
        ≡ ok clusters)
      × (env.marshal_cluster_items (map cluster_item clusters) ≡ ok json)
      × (namespace ≡ "")
      × (answers log ≡ answers before)
  ListAnswer before (http_error text code ∷ log) =
      (e : Error) × Stopped e log
      × ((heading : String) × (text ≡ heading <> env.error_text e))
      × (code ≡ 400)
      × (answers log ≡ answers before)
  ListAnswer before _ = ⊥

  abbrev ListEnd : Log → Exit (Unit {0}) × Log → Type 0
  ListEnd before (exit, after) = (exit ≡ returned tt) × ListAnswer before after

  marshalled :
      (log : Log) (cfg : String) (clusters : List Cluster) (json : Result String)
      → env.answer (client_new cfg ∷ get_config ∷ log) (kube (client_of cfg) (list_clusters ""))
        ≡ ok clusters
      → env.marshal_cluster_items (cluster_items clusters []) ≡ json
      → env.answer (get_config ∷ log) (client_new cfg) ≡ ok tt
      → env.answer log get_config ≡ ok cfg
      → ListEnd log (list env log)
  unfolding list
  marshalled log cfg clusters (ok json) got made fresh found =
      rw (found, fresh, got, made)
        (
          refl,
          (
            clusters,
            got,
            ap env.marshal_cluster_items (sym (cluster_items_lem clusters [])) ∙ made,
            refl,
            refl,
          ),
        )
  marshalled log cfg clusters (err e) got made fresh found =
      rw (found, fresh, got, made)
        (
          refl,
          (
            e,
            inr (
              clusters,
              got,
              ap env.marshal_cluster_items (sym (cluster_items_lem clusters [])) ∙ made,
            ),
            ("Failed to fetch json ", refl),
            refl,
            refl,
          ),
        )

  listed :
      (log : Log) (cfg : String) (clusters : Result (List Cluster))
      → env.answer (client_new cfg ∷ get_config ∷ log) (kube (client_of cfg) (list_clusters ""))
        ≡ clusters
      → env.answer (get_config ∷ log) (client_new cfg) ≡ ok tt
      → env.answer log get_config ≡ ok cfg
      → ListEnd log (list env log)
  unfolding list
  listed log cfg (ok clusters) got fresh found = marshalled log cfg clusters _ got refl fresh found
  listed log cfg (err e) got fresh found =
      rw (found, fresh, got) (refl, (e, inl got, ("failed to get cluster list ", refl), refl, refl))

  connected :
      (log : Log) (cfg : String) (fresh : Result (Unit {0}))
      → env.answer (get_config ∷ log) (client_new cfg) ≡ fresh
      → env.answer log get_config ≡ ok cfg
      → ListEnd log (list env log)
  unfolding list
  connected log cfg (ok _) fresh found = listed log cfg _ refl fresh found
  connected log cfg (err e) fresh found =
      rw (found, fresh) (refl, (e, fresh, ("failed to get client ", refl), refl, refl))

  configured :
      (log : Log) (found : Result String)
      → env.answer log get_config ≡ found
      → ListEnd log (list env log)
  unfolding list
  configured log (ok cfg) found = connected log cfg _ refl found
  configured log (err e) found =
      rw found (refl, (e, found, ("failed to get config ", refl), refl, refl))

-- The list of clusters answers each request exactly once, by its last call, and does not panic: with
-- every cluster of the listing right before it, over all namespaces and in its order; or, when the
-- configuration, the client, the listing or the text of the answer failed, with that error and the
-- status 400.
pub list-ListAnswer :
    (env : Env) (log : Log)
    → let (exit, after) = list env log in (exit ≡ returned tt) × ListAnswer env log after
list-ListAnswer env log = configured env log _ refl
