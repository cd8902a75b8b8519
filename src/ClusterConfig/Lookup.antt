-- ===== src/ClusterConfig/Lookup.antt =====
-- The look-ups of pkg/archive/clusterConfig.go in the tables.
use cc_backend.Common.{ℕ, suc, not, Option, none, some, List, [], ◌∷◌, if◌then◌else◌}
use cc_backend.Common.{Result, ok, err}
use cc_backend.Bytes.{Bytes, key_eq}
use cc_backend.NodeList.{NodeList, contains}
use cc_backend.ClusterConfig.{Thresholds, MetricConfig, SubCluster, Cluster, Tables}
use cc_backend.Maps.{Map, find_key, set_key}

-- The fields of a Job that are used here, with the host names of its resources.
pub record Job : Type 0 where
  pub cluster : Bytes
  pub sub_cluster : Bytes
  pub hosts : List Bytes

pub data AssignError : Type 0 where
  unknown_cluster unknown_sub_cluster no_hosts no_sub_cluster : AssignError

pub record Metric (F U : Type 0) : Type 0 where
  pub name : Bytes
  pub unit : U
  pub thresholds : Thresholds F

unfoldable pub find_metric :
    {F U : Type 0} → List (MetricConfig F U) → Bytes → Option (MetricConfig F U)
find_metric [] name = none
find_metric (m ∷ ms) name = if key_eq m.name name then some m else find_metric ms name

unfoldable pub metric_map :
    {F U : Type 0} → List (MetricConfig F U) → Map (Metric F U) → Map (Metric F U)
metric_map [] metrics = metrics
metric_map (m ∷ ms) metrics =
    metric_map ms
      (set_key m.name (record { name = m.name; unit = m.unit; thresholds = m.thresholds }) metrics)

unfoldable pub metric_index : {F U : Type 0} → List (MetricConfig F U) → Bytes → Option ℕ
metric_index [] name = none
metric_index (m ∷ ms) name =
    if key_eq m.name name
    then some 0
    else (elim (metric_index ms name) [ none ↦ none | some i ↦ some (suc i) ])

-- The loop over the node lists of a cluster, in the order in which they are met.
unfoldable pub list_with : Map NodeList → Bytes → Option Bytes
list_with [] host = none
list_with ((sc, nl) ∷ lists) host = if contains nl host then some sc else list_with lists host

module _ {F U T : Type 0} where
  unfoldable pub get_cluster : List (Cluster F U T) → Bytes → Option (Cluster F U T)
  get_cluster [] name = none
  get_cluster (c ∷ cs) name = if key_eq c.name name then some c else get_cluster cs name

  unfoldable pub find_sub_cluster : List (SubCluster F U T) → Bytes → Option (SubCluster F U T)
  find_sub_cluster [] name = none
  find_sub_cluster (sc ∷ scs) name =
      if key_eq sc.name name then some sc else find_sub_cluster scs name

  -- It goes on to the next cluster of the same name.
  unfoldable pub get_sub_cluster : List (Cluster F U T) → Bytes → Bytes → Option (SubCluster F U T)
  get_sub_cluster [] cluster name = none
  get_sub_cluster (c ∷ cs) cluster name =
      let rest = get_sub_cluster cs cluster name in
      if key_eq c.name cluster
      then (elim (find_sub_cluster c.sub_clusters name) [ none ↦ rest | some sc ↦ some sc ])
      else rest

  unfoldable pub get_metric_config :
      List (Cluster F U T) → Bytes → Bytes → Option (MetricConfig F U)
  get_metric_config [] cluster name = none
  get_metric_config (c ∷ cs) cluster name =
      let rest = get_metric_config cs cluster name in
      if key_eq c.name cluster
      then (elim (find_metric c.metric_config name) [ none ↦ rest | some m ↦ some m ])
      else rest

  unfoldable pub get_metric_config_sub_cluster :
      List (Cluster F U T) → Bytes → Bytes → Map (Metric F U)
  get_metric_config_sub_cluster cs cluster name = elim (get_sub_cluster cs cluster name) [
    | none ↦ []
    | some sc ↦ metric_map sc.metric_config []
  ]

  abbrev pub lists_of : Tables F U T → Bytes → Map NodeList
  lists_of t cluster = elim (find_key cluster t.node_lists) [ none ↦ [] | some lists ↦ lists ]

  -- cluster.SubClusters[0]; a cluster of the tables has a subcluster.
  unfoldable pub first_with : Bytes → List (SubCluster F U T) → Option Bytes
  first_with nodes [] = none
  first_with nodes (sc ∷ scs) = if key_eq sc.nodes nodes then some sc.name else none

  unfoldable pub assign_sub_cluster : Tables F U T → Job → Result AssignError Job
  assign_sub_cluster t job = elim (get_cluster t.clusters job.cluster) [
    | none ↦ err unknown_cluster
    | some c ↦
        if not (key_eq job.sub_cluster [])
        then (elim (find_sub_cluster c.sub_clusters job.sub_cluster) [
          | none ↦ err unknown_sub_cluster
          | some sc ↦ ok job
        ])
        else elim job.hosts [
          | [] ↦ err no_hosts
          | host0 ∷ hosts ↦ elim (list_with (lists_of t job.cluster) host0) [
            | some sc ↦ ok (record job { sub_cluster = sc })
            | none ↦ elim (first_with (b'*' ∷ []) c.sub_clusters) [
              | some sc ↦ ok (record job { sub_cluster = sc })
              | none ↦ err no_sub_cluster
            ]
          ]
        ]
  ]

  unfoldable pub get_sub_cluster_by_node : Tables F U T → Bytes → Bytes → Result AssignError Bytes
  get_sub_cluster_by_node t cluster host = elim (list_with (lists_of t cluster) host) [
    | some sc ↦ ok sc
    | none ↦ elim (get_cluster t.clusters cluster) [
      | none ↦ err unknown_cluster
      | some c ↦ elim (first_with [] c.sub_clusters) [ some sc ↦ ok sc | none ↦ err no_sub_cluster ]
    ]
  ]
