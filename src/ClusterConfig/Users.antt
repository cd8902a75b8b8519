-- ===== src/ClusterConfig/Users.antt =====
-- What users may see of the metrics in the tables of pkg/archive/clusterConfig.go.
use cc_backend.Common.{
  ◌≡◌, refl, sym, ◌∙◌, Bool, true, false, Option, none, some, List, [], ◌∷◌, ◌++◌, ltb, ◌==◌,
  length, inl, inr, if◌then◌else◌, Bool-cases, Option-cases, All, All-append,
}
use cc_backend.Common.{ok, bind-eq-ok, guard-eq-ok}
use cc_backend.Bytes.{Bytes, key_eq, key_eq_iff}
use cc_backend.ClusterConfig.{
  MetricConfig, SubClusterConfig, sub_cluster_lookup, SubCluster, Cluster, GlobalMetric, Tables,
  config_of, new_metric, set_footprint, visit_sub_clusters, new_item, item_or, add_support,
  check_metric, visit_metric, visit_metrics, node_lists_of, init_cluster, init_clusters,
  init_cluster_config,
}
use cc_backend.Maps.{
  IsIn, IsIn-append, IsIn-last, All-map, AllKeys, find_key-All, set_key-All, find_key-set_key,
  find_key-set_key_other, Map, find_key, set_key,
}

-- The last of the entries for a subcluster.
abbrev pub last_for : {F : Type 0} → Bytes → List (SubClusterConfig F) → Option (SubClusterConfig F)
last_for sc [] = none
last_for sc (cfg ∷ cfgs) = elim (last_for sc cfgs) [
  | some later ↦ some later
  | none ↦ if key_eq cfg.name sc then some cfg else none
]

-- The metric is neither removed nor restricted on the subcluster, by the last entry for the
-- subcluster or else by the metric.
pub IsOpen : {F U : Type 0} → MetricConfig F U → Bytes → Type 0
IsOpen mc sc = elim (last_for sc mc.sub_clusters) [
  | none ↦ mc.restrict ≡ false
  | some cfg ↦ (cfg.remove ≡ false) × (cfg.restrict ≡ false)
]

-- The look-up in the map of the entries finds the last one.
find_key-sub_cluster_lookup :
    {F : Type 0} (sc : Bytes) (cfgs : List (SubClusterConfig F)) (m : Map (SubClusterConfig F))
    → find_key sc (sub_cluster_lookup cfgs m)
      ≡ (elim (last_for sc cfgs) [ some later ↦ some later | none ↦ find_key sc m ])
unfolding sub_cluster_lookup
find_key-sub_cluster_lookup sc [] m = refl
find_key-sub_cluster_lookup {F} sc (cfg ∷ cfgs) m =
    find_key-sub_cluster_lookup sc cfgs (set_key cfg.name cfg m)
    ∙ elim (Option-cases (last_for sc cfgs)) [
      | inr (later, found) ↦ rw found refl
      | inl missing ↦ rw missing (elim (Bool-cases (key_eq cfg.name sc)) [
        | inl here ↦ rw here (found_at cfg.name ((key_eq_iff cfg.name sc).0 here) cfg)
        | inr other ↦ rw other (find_key-set_key_other cfg.name sc cfg m other)
      ])
    ]
  where
    found_at :
        (name : Bytes)
        → name ≡ sc
        → (x : SubClusterConfig F) → find_key sc (set_key name x m) ≡ some x
    found_at name same x = rw same (find_key-set_key sc x m)

config_of-last_for :
    {F U : Type 0} (mc : MetricConfig F U) (sc : Bytes)
    → config_of mc sc ≡ last_for sc mc.sub_clusters
unfolding find_key
config_of-last_for {F} mc sc =
    find_key-sub_cluster_lookup sc mc.sub_clusters [] ∙ keep (last_for sc mc.sub_clusters)
  where
    keep :
        (o : Option (SubClusterConfig F)) → (elim o [ some later ↦ some later | none ↦ none ]) ≡ o
    keep none = refl
    keep (some later) = refl

new_metric-IsOpen :
    {F U : Type 0} (mc : MetricConfig F U) (sc : Bytes) {m : MetricConfig F U}
    → new_metric mc sc ≡ some (m, false)
    → IsOpen mc sc
unfolding new_metric IsOpen
new_metric-IsOpen {F} {U} mc sc {m} e = elim (Option-cases (config_of mc sc)) [
  | inl plain ↦
      rw (IsOpen, sym (config_of-last_for mc sc) ∙ plain)
        (restricted_of (rw (new_metric, plain) at e))
  | inr (cfg, found) ↦ elim (Bool-cases cfg.remove) [
    | inl gone ↦ absurd (none_some (rw (new_metric, found, gone) at e))
    | inr kept ↦
        rw (IsOpen, sym (config_of-last_for mc sc) ∙ found)
          (kept, restricted_of (rw (new_metric, found, kept) at e))
  ]
]
  where
    restricted_of :
        {a b : MetricConfig F U} {r : Bool}
        → ◌≡◌ {A = Option (MetricConfig F U × Bool)} (some (a, r)) (some (b, false))
        → r ≡ false
    restricted_of h = cc

    none_some :
        {b : MetricConfig F U}
        → ◌≡◌ {A = Option (MetricConfig F U × Bool)} none (some (b, false))
        → ⊥
    none_some h = cc

-- R holds of all that the entry of a metric offers.
Offers : {U : Type 0} → (Bytes → Bytes → Bytes → Type 0) → Bytes → GlobalMetric U → Type 0
Offers R metric item = All (λ s. All (R s.cluster metric) s.sub_clusters) item.availability

Offers-map :
    {U : Type 0} (R S : Bytes → Bytes → Bytes → Type 0)
    → ((c m s : Bytes) → R c m s → S c m s)
    → (m : Map (GlobalMetric U)) → AllKeys (Offers R) m
    → AllKeys (Offers S) m
unfolding Offers
Offers-map R S f m h =
    All-map _ _ m
      (λ e. All-map _ _ e.1.availability λ s. All-map _ _ s.sub_clusters (f s.cluster e.0)) h

module _ {F U T : Type 0} where
  -- In the configuration of a cluster of this name, the metric is open on the subcluster.
  pub IsShown : List (Cluster F U T) → Bytes → Bytes → Bytes → Type 0
  IsShown cs cluster metric sc =
      (c : Cluster F U T) × IsIn c cs
      × (c.name ≡ cluster)
      × (mc : MetricConfig F U) × IsIn mc c.metric_config
      × (mc.name ≡ metric)
      × IsOpen mc sc

  module _ (init_topology : T → T) where
    visit-IsOpen :
        (mc : MetricConfig F U) (scs : List (SubCluster F U T)) (lookup : Map (GlobalMetric U))
        → let (scs', names, user, lookup') = visit_sub_clusters init_topology mc scs lookup in
          All (IsOpen mc) user
    unfolding visit_sub_clusters
    visit-IsOpen mc [] lookup = tt
    visit-IsOpen mc (sc ∷ scs) lookup = elim (Option-cases (new_metric mc sc.name)) [
      | inl gone ↦ rw (gone, visit_sub_clusters) (visit-IsOpen mc scs lookup)
      | inr ((m, true), kept) ↦
          rw (kept, visit_sub_clusters) (visit-IsOpen mc scs (set_footprint init_topology m lookup))
      | inr ((m, false), kept) ↦
          rw (kept, visit_sub_clusters)
            (
              new_metric-IsOpen mc sc.name kept,
              visit-IsOpen mc scs (set_footprint init_topology m lookup),
            )
    ]

    module _ (R : Bytes → Bytes → Bytes → Type 0) where
      add_support-Offers :
          (cluster : Bytes) (mc : MetricConfig F U) (names : List Bytes) (item : GlobalMetric U)
          → Offers R mc.name item
          → All (R cluster mc.name) names
          → Offers R mc.name (add_support (record { cluster = cluster; sub_clusters = names }) item)
      unfolding Offers
      add_support-Offers cluster mc names item h k = All-append _ item.availability _ h (k, tt)

      item-Offers :
          (mc : MetricConfig F U) (found : Option (GlobalMetric U))
          → ((item : GlobalMetric U) → found ≡ some item → Offers R mc.name item)
          → Offers R mc.name (item_or (new_item mc) found)
      unfolding Offers
      item-Offers mc none f = tt
      item-Offers mc (some item) f = f item refl

      user-Offers :
          (cluster : Bytes) (mc : MetricConfig F U) (names : List Bytes)
          (user : Map (GlobalMetric U))
          → All (R cluster mc.name) names
          → AllKeys (Offers R) user
          → AllKeys (Offers R) (
              if ltb 0 (length names)
              then set_key mc.name
                  (add_support
                    (record { cluster = cluster; sub_clusters = names })
                    (item_or (new_item mc) (find_key mc.name user)))
                  user
              else user)
      user-Offers cluster mc names user k h = elim (Bool-cases (ltb 0 (length names))) [
        | inl shown ↦ rw shown (
            set_key-All (Offers R) mc.name _ user h (
              add_support-Offers cluster mc names _
                (item-Offers mc (find_key mc.name user)
                  λ item e. find_key-All (Offers R) mc.name user h e)
                k))
        | inr hidden ↦ rw hidden h
      ]

      visit_metric-Offers :
          (cluster : Bytes) (mc : MetricConfig F U) (scs : List (SubCluster F U T))
          (metrics user : Map (GlobalMetric U))
          → ((sc : Bytes) → IsOpen mc sc → R cluster mc.name sc)
          → AllKeys (Offers R) user
          → let (scs', metrics', user') = visit_metric init_topology cluster mc scs metrics user in
            AllKeys (Offers R) user'
      unfolding visit_metric Offers
      visit_metric-Offers cluster mc scs metrics user f h =
          user-Offers cluster mc _ user
            (All-map (IsOpen mc) (R cluster mc.name) _ f (visit-IsOpen mc scs _)) h

      visit_metrics-Offers :
          (node_scope : Bytes) (is_valid_scope : Bytes → Bool) (cluster : Bytes)
          (mcs : List (MetricConfig F U)) (scs : List (SubCluster F U T))
          (metrics user : Map (GlobalMetric U)) {mcs' : List (MetricConfig F U)}
          {scs' : List (SubCluster F U T)} {metrics' user' : Map (GlobalMetric U)}
          → visit_metrics init_topology node_scope is_valid_scope cluster mcs scs metrics user
            ≡ ok (mcs', scs', metrics', user')
          → ((mc : MetricConfig F U)
              → IsIn mc mcs'
              → (sc : Bytes) → IsOpen mc sc
              → R cluster mc.name sc)
          → AllKeys (Offers R) user
          → AllKeys (Offers R) user'
      unfolding visit_metrics
      visit_metrics-Offers node_scope is_valid_scope cluster [] scs metrics user {mcs'} {scs'}
            {metrics'} {user'} e f h =
          let same : user ≡ user' = cc in rw (sym same) h
      visit_metrics-Offers node_scope is_valid_scope cluster (mc ∷ mcs) scs metrics user {mcs'}
            {scs'} {metrics'} {user'} e f h =
          let (mc', checked, e1) =
            bind-eq-ok (check_metric init_topology node_scope is_valid_scope mc) _ e in
          let (x, e2, e3) =
            bind-eq-ok (visit_metrics init_topology node_scope is_valid_scope cluster mcs _ _ _) _
              e1 in
          let all : mc' ∷ x.0 ≡ mcs' = cc in
          let last : x.3 ≡ user' = cc in
          rw (sym last) (
            visit_metrics-Offers node_scope is_valid_scope cluster mcs _ _ _ e2
              (λ m h'. f m (rw (sym all) (inr h')))
              (visit_metric-Offers cluster mc' scs metrics user
                (λ sc shown. f mc' (rw (sym all) (inl refl)) sc shown) h))

    module _ (node_scope : Bytes) (is_valid_scope : Bytes → Bool) where
      IsShown-append :
          (cs : List (Cluster F U T)) (c : Cluster F U T) (cluster metric sc : Bytes)
          → IsShown cs cluster metric sc
          → IsShown (cs ++ c ∷ []) cluster metric sc
      unfolding IsShown
      IsShown-append cs c cluster metric sc (d, h, named, mc, known, of_metric, shown) =
          (d, IsIn-append d cs (c ∷ []) h, named, mc, known, of_metric, shown)

      init_cluster-IsShown :
          (t : Tables F U T) (c : Cluster F U T) {t' : Tables F U T}
          → init_cluster init_topology node_scope is_valid_scope t c ≡ ok t'
          → AllKeys (Offers (IsShown t.clusters)) t.user_metrics
          → AllKeys (Offers (IsShown t'.clusters)) t'.user_metrics
      unfolding init_cluster IsShown
      init_cluster-IsShown t c {t'} e h =
          let e1 = (guard-eq-ok (key_eq c.name []) _ _ e).1 in
          let e2 = (guard-eq-ok (length c.metric_config == 0) _ _ e1).1 in
          let e3 = (guard-eq-ok (length c.sub_clusters == 0) _ _ e2).1 in
          let (v, visited, e4) =
            bind-eq-ok
              (visit_metrics init_topology node_scope is_valid_scope c.name c.metric_config
                c.sub_clusters t.metrics t.user_metrics)
              _ e3 in
          let (lists, listed, e5) = bind-eq-ok (node_lists_of v.1 []) _ e4 in
          let done : Cluster F U T = record {
            name = c.name;
            metric_config = v.0;
            sub_clusters = v.1;
          } in
          let cs : t.clusters ++ done ∷ [] ≡ t'.clusters = cc in
          let us : v.3 ≡ t'.user_metrics = cc in
          rw (sym cs, sym us)
            (visit_metrics-Offers (IsShown (t.clusters ++ done ∷ [])) node_scope is_valid_scope
              c.name c.metric_config c.sub_clusters t.metrics t.user_metrics visited
              (λ mc h' sc shown. (done, IsIn-last done t.clusters, refl, mc, h', refl, shown))
              (Offers-map (IsShown t.clusters) (IsShown (t.clusters ++ done ∷ []))
                (λ cl m s. IsShown-append t.clusters done cl m s) t.user_metrics h))

      init_clusters-IsShown :
          (t : Tables F U T) (cs : List (Option (Cluster F U T))) {t' : Tables F U T}
          → init_clusters init_topology node_scope is_valid_scope t cs ≡ ok t'
          → AllKeys (Offers (IsShown t.clusters)) t.user_metrics
          → AllKeys (Offers (IsShown t'.clusters)) t'.user_metrics
      unfolding init_clusters
      init_clusters-IsShown t [] {t'} e h = let same : t ≡ t' = cc in rw (sym same) h
      init_clusters-IsShown t (none ∷ cs) e h = cc
      init_clusters-IsShown t (some c ∷ cs) {t'} e h =
          let (t1, e1, e2) =
            bind-eq-ok (init_cluster init_topology node_scope is_valid_scope t c) _ e in
          init_clusters-IsShown t1 cs e2 (init_cluster-IsShown t c e1 h)

      -- Where the configurations are accepted, a metric is offered to users for a subcluster only if
      -- the configuration of a cluster of that name has the metric and neither removes nor restricts
      -- it on that subcluster.
      pub init_cluster_config-IsShown :
          (cs : List (Option (Cluster F U T))) {t : Tables F U T}
          → init_cluster_config init_topology node_scope is_valid_scope cs ≡ ok t
          → All
              (λ entry.
                All
                  (λ support. All (IsShown t.clusters support.cluster entry.0) support.sub_clusters)
                  entry.1.availability)
              t.user_metrics
      unfolding init_cluster_config Offers
      init_cluster_config-IsShown cs e = init_clusters-IsShown _ cs e tt
