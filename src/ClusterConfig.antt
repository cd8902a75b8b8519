-- ===== src/ClusterConfig.antt =====
-- pkg/archive/clusterConfig.go: the tables that are made of the configurations of the clusters. The
-- types Cluster, SubCluster, MetricConfig and so on come from the package cc-lib, of which the code
-- uses the fields that are here; a number, a unit and a topology are of a type that the caller
-- chooses. The order of a map is that in which its keys were first set.
pub mod Users
pub mod Lookup
pub mod Lists
pub mod Assign
mod Tests
use cc_backend.Common.{
  ℕ, zero, suc, ◌+◌, ◌-◌, ◌*◌, ◌/◌, ◌%◌, ◌^◌, ◌≤◌, ◌<◌, ℤ, pos, negsuc, sub_ℕ, pos_part, neg_part,
  ltb_ℤ, leb_ℤ, ◌≤ℤ◌, ◌<ℤ◌, ◌+ℤ◌, ◌-ℤ◌, ◌≡◌, refl, sym, ap, ◌∙◌, Bool, true, false, not, ◌&&◌, ◌||◌,
  Option, none, some, List, [], ◌∷◌, ◌++◌, map, append-nil, append_assoc, ltb, leb, ◌==◌, length,
  get_elem?, ◌⊎◌, inl, inr, ◌↔◌, ◌≢◌, get_or, set, replicate, take, drop, if◌then◌else◌, arith,
  int_laws, Bool-cases, Option-cases, length-append, length-replicate, length-set, All, All-append,
  le→leb, gt→leb, lt→ltb, ge→ltb, ltb→lt, leb→le, ==_iff,
}
use cc_backend.Common.{Result, ok, err, ◌>>=◌}
use cc_backend.Bytes.{Bytes, key_eq}
use cc_backend.NodeList.{NodeList}
use cc_backend.NodeList.Parse.{ParseError, parse_node_list}
use cc_backend.Maps.{
  IsIn, IsIn-append, IsIn-last, All-map, AllKeys, find_key-All, set_key-All, Map, find_key, set_key,
}

-- The limits that a metric has, on a cluster or on a subcluster.
pub record Thresholds (F : Type 0) : Type 0 where
  pub peak : F
  pub normal : F
  pub caution : F
  pub alert : F

pub record SubClusterConfig (F : Type 0) : Type 0 where
  pub name : Bytes
  pub thresholds : Thresholds F
  pub footprint : Bytes
  pub energy : Bytes
  pub lower_is_better : Bool
  pub remove : Bool
  pub restrict : Bool

pub record MetricConfig (F U : Type 0) : Type 0 where
  pub name : Bytes
  pub unit : U
  pub thresholds : Thresholds F
  pub energy : Bytes
  pub scope : Bytes
  pub aggregation : Bytes
  pub timestep : ℤ
  pub lower_is_better : Bool
  pub footprint : Bytes
  pub restrict : Bool
  pub sub_clusters : List (SubClusterConfig F)

pub record SubCluster (F U T : Type 0) : Type 0 where
  pub name : Bytes
  pub nodes : Bytes
  pub metric_config : List (MetricConfig F U)
  pub footprint : List Bytes
  pub energy_footprint : List Bytes
  pub topology : T

pub record Cluster (F U T : Type 0) : Type 0 where
  pub name : Bytes
  pub metric_config : List (MetricConfig F U)
  pub sub_clusters : List (SubCluster F U T)

pub record ClusterSupport : Type 0 where
  pub cluster : Bytes
  pub sub_clusters : List Bytes

pub record GlobalMetric (U : Type 0) : Type 0 where
  pub name : Bytes
  pub scope : Bytes
  pub unit : U
  pub footprint : Bytes
  pub availability : List ClusterSupport

pub data ConfigError : Type 0 where
  load_failed empty_cluster_name no_metrics no_sub_clusters : ConfigError
  empty_metric_name bad_timestep bad_scope : ConfigError
  bad_node_list : ParseError → ConfigError

-- metricLookup and userMetricLookup, Clusters and NodeLists
pub record Tables (F U T : Type 0) : Type 0 where
  pub clusters : List (Cluster F U T)
  pub metrics : Map (GlobalMetric U)
  pub user_metrics : Map (GlobalMetric U)
  pub node_lists : Map (Map NodeList)

-- scLookup
unfoldable pub sub_cluster_lookup :
    {F : Type 0} → List (SubClusterConfig F) → Map (SubClusterConfig F) → Map (SubClusterConfig F)
sub_cluster_lookup [] m = m
sub_cluster_lookup (scc ∷ sccs) m = sub_cluster_lookup sccs (set_key scc.name scc m)

abbrev pub config_of : {F U : Type 0} → MetricConfig F U → Bytes → Option (SubClusterConfig F)
config_of mc name = find_key name (sub_cluster_lookup mc.sub_clusters [])

-- newMetric, and whether it is restricted; `none` where the subcluster has the metric removed
unfoldable pub new_metric :
    {F U : Type 0} → MetricConfig F U → Bytes → Option (MetricConfig F U × Bool)
new_metric mc name =
    let plain = record mc { restrict = false; sub_clusters = [] } in
    elim (config_of mc name) [
      | none ↦ some (plain, mc.restrict)
      | some cfg ↦
          if cfg.remove
          then none
          else some (
            record plain {
              thresholds = cfg.thresholds;
              footprint = cfg.footprint;
              energy = cfg.energy;
              lower_is_better = cfg.lower_is_better;
            },
            cfg.restrict,
          )
    ]

abbrev pub add_if : Bool → Bytes → List Bytes → List Bytes
add_if true s l = l ++ s ∷ []
add_if false s l = l

abbrev pub new_item : {F U : Type 0} → MetricConfig F U → GlobalMetric U
new_item mc = record {
  name = mc.name;
  scope = mc.scope;
  unit = mc.unit;
  footprint = mc.footprint;
  availability = [];
}

abbrev pub item_or : {U : Type 0} → GlobalMetric U → Option (GlobalMetric U) → GlobalMetric U
item_or new none = new
item_or new (some item) = item

abbrev pub add_support : {U : Type 0} → ClusterSupport → GlobalMetric U → GlobalMetric U
add_support s item = record item { availability = item.availability ++ s ∷ [] }

module _ {F U T : Type 0} where
  -- NodeLists of a cluster
  unfoldable pub node_lists_of :
      List (SubCluster F U T) → Map NodeList → Result ConfigError (Map NodeList)
  node_lists_of [] m = ok m
  node_lists_of (sc ∷ scs) m =
      if key_eq sc.nodes (b'*' ∷ []) then node_lists_of scs m else elim (parse_node_list sc.nodes) [
        | err e ↦ err (bad_node_list e)
        | ok nl ↦ node_lists_of scs (set_key sc.name nl m)
      ]

  module _ (init_topology : T → T) where
    unfoldable pub extend_sub_cluster : MetricConfig F U → SubCluster F U T → SubCluster F U T
    extend_sub_cluster m sc = record sc {
      metric_config = sc.metric_config ++ m ∷ [];
      footprint = add_if (not (key_eq m.footprint [])) m.name sc.footprint;
      energy_footprint = add_if (not (key_eq m.energy [])) m.name sc.energy_footprint;
      topology = init_topology sc.topology;
    }

    -- item.Footprint = newMetric.Footprint, under the name of the metric
    unfoldable pub set_footprint : MetricConfig F U → Map (GlobalMetric U) → Map (GlobalMetric U)
    set_footprint m lookup = elim (find_key m.name lookup) [
      | none ↦ lookup
      | some item ↦
          if key_eq m.footprint []
          then lookup
          else set_key m.name (record item { footprint = m.footprint }) lookup
    ]

    -- The loop over the subclusters: the subclusters behind it, the names that have the metric and
    -- those that show it to users, and the lookup.
    unfoldable pub visit_sub_clusters :
        MetricConfig F U
        → List (SubCluster F U T)
        → Map (GlobalMetric U)
        → List (SubCluster F U T) × List Bytes × List Bytes × Map (GlobalMetric U)
    visit_sub_clusters mc [] lookup = ([], [], [], lookup)
    visit_sub_clusters mc (sc ∷ scs) lookup = elim (new_metric mc sc.name) [
      | none ↦
          (let (scs', names, user, lookup') = visit_sub_clusters mc scs lookup in
            (sc ∷ scs', names, user, lookup'))
      | some (m, restricted) ↦
          (let (scs', names, user, lookup') = visit_sub_clusters mc scs (set_footprint m lookup) in
            (
              extend_sub_cluster m sc ∷ scs',
              sc.name ∷ names,
              (if restricted then user else sc.name ∷ user),
              lookup',
            ))
    ]

    -- The rest of the loop for a metric.
    unfoldable pub visit_metric :
        Bytes
        → MetricConfig F U
        → List (SubCluster F U T)
        → Map (GlobalMetric U)
        → Map (GlobalMetric U)
        → List (SubCluster F U T) × Map (GlobalMetric U) × Map (GlobalMetric U)
    visit_metric cluster mc scs metrics user_metrics =
        let known : Map (GlobalMetric U) = elim (find_key mc.name metrics) [
          | none ↦ set_key mc.name (new_item mc) metrics
          | some item ↦ metrics
        ] in
        let (scs', names, user, lookup) = visit_sub_clusters mc scs known in
        let item = item_or (new_item mc) (find_key mc.name lookup) in
        let user_item = item_or (new_item mc) (find_key mc.name user_metrics) in
        (
          scs',
          set_key mc.name (add_support (record { cluster = cluster; sub_clusters = names }) item)
              lookup,
          (if ltb 0 (length user)
              then set_key mc.name
                  (add_support (record { cluster = cluster; sub_clusters = user }) user_item)
                  user_metrics
              else user_metrics),
        )

    module _ (node_scope : Bytes) (is_valid_scope : Bytes → Bool) where
      -- The tests on a metric, and its scope where it has none.
      unfoldable pub check_metric : MetricConfig F U → Result ConfigError (MetricConfig F U)
      check_metric mc =
          let scoped = if key_eq mc.scope [] then record mc { scope = node_scope } else mc in
          if key_eq mc.name []
          then err empty_metric_name
          else if ltb_ℤ mc.timestep (pos 1)
          then err bad_timestep
          else if not (is_valid_scope scoped.scope)
          then err bad_scope
          else ok scoped

      -- The loop over the metrics of a cluster: its metrics and subclusters behind it, and the lookups.
      unfoldable pub visit_metrics :
          Bytes
          → List (MetricConfig F U)
          → List (SubCluster F U T)
          → Map (GlobalMetric U)
          → Map (GlobalMetric U)
          → Result ConfigError (
              List (MetricConfig F U)
              × List (SubCluster F U T)
              × Map (GlobalMetric U)
              × Map (GlobalMetric U))
      visit_metrics cluster [] scs metrics user_metrics = ok ([], scs, metrics, user_metrics)
      visit_metrics cluster (mc ∷ mcs) scs metrics user_metrics = do
        mc' ← check_metric mc
        let (scs', metrics', user_metrics') = visit_metric cluster mc' scs metrics user_metrics
        (mcs', scs'', metrics'', user_metrics'') ←
            visit_metrics cluster mcs scs' metrics' user_metrics'
        ok (mc' ∷ mcs', scs'', metrics'', user_metrics'')

      unfoldable pub init_cluster : Tables F U T → Cluster F U T → Result ConfigError (Tables F U T)
      init_cluster t c =
          if key_eq c.name []
          then err empty_cluster_name
          else if length c.metric_config == 0
          then err no_metrics
          else if length c.sub_clusters == 0
          then err no_sub_clusters
          else (do
            (mcs, scs, metrics, user_metrics) ←
                visit_metrics c.name c.metric_config c.sub_clusters t.metrics t.user_metrics
            lists ← node_lists_of scs []
            ok (record {
              clusters =
                  t.clusters
                  ++ record { name = c.name; metric_config = mcs; sub_clusters = scs } ∷ [];
              metrics = metrics;
              user_metrics = user_metrics;
              node_lists = set_key c.name lists t.node_lists;
            }))

      -- The loop over the clusters of the archive; `none` is an error of LoadClusterCfg.
      unfoldable pub init_clusters :
          Tables F U T → List (Option (Cluster F U T)) → Result ConfigError (Tables F U T)
      init_clusters t [] = ok t
      init_clusters t (none ∷ cs) = err load_failed
      init_clusters t (some c ∷ cs) = do t' ← init_cluster t c; init_clusters t' cs

      unfoldable pub init_cluster_config :
          List (Option (Cluster F U T)) → Result ConfigError (Tables F U T)
      init_cluster_config cs =
          init_clusters (record { clusters = []; metrics = []; user_metrics = []; node_lists = [] })
            cs
