-- ===== src/ClusterConfig/Tests.antt =====
-- The tables of a cluster with two subclusters, after pkg/archive/clusterConfig.go.
use cc_backend.Common.{ℕ, pos, ◌≡◌, refl, true, false, some, [], ◌∷◌, All}
use cc_backend.Common.{Result, ok, err}
use cc_backend.Bytes.{Bytes, key_eq}
use cc_backend.ClusterConfig.{
  Thresholds, SubClusterConfig, MetricConfig, SubCluster, Cluster, Tables, GlobalMetric,
  ConfigError, init_cluster_config,
}
use cc_backend.ClusterConfig.Users.{IsShown, init_cluster_config-IsShown}
use cc_backend.ClusterConfig.Lookup.{
  Job, AssignError, no_sub_cluster, assign_sub_cluster, get_sub_cluster_by_node,
}
use cc_backend.ClusterConfig.Assign.{IsAssigned, assign_sub_cluster-IsAssigned}
use cc_backend.Maps.{
  IsIn, IsIn-append, IsIn-last, All-map, AllKeys, find_key-All, set_key-All, Map, find_key, set_key,
}

abbrev limits : Thresholds ℕ
limits = record { peak = 4; normal = 3; caution = 2; alert = 1 }

-- Hidden from users on the subcluster g.
abbrev flops : MetricConfig ℕ ℕ
flops = record {
  name = b'f' ∷ [];
  unit = 0;
  thresholds = limits;
  energy = [];
  scope = [];
  aggregation = [];
  timestep = pos 60;
  lower_is_better = false;
  footprint = [];
  restrict = false;
  sub_clusters =
      record {
        name = b'g' ∷ [];
        thresholds = limits;
        footprint = [];
        energy = [];
        lower_is_better = false;
        remove = false;
        restrict = true;
      }
      ∷ [];
}

abbrev sub_cluster : Bytes → Bytes → SubCluster ℕ ℕ ℕ
sub_cluster name nodes = record {
  name = name;
  nodes = nodes;
  metric_config = [];
  footprint = [];
  energy_footprint = [];
  topology = 0;
}

-- The nodes of g are g[1-2], and all others are in m.
abbrev fritz : Cluster ℕ ℕ ℕ
fritz = record {
  name = b'c' ∷ [];
  metric_config = flops ∷ [];
  sub_clusters =
      sub_cluster (b'm' ∷ []) (b'*' ∷ [])
      ∷ sub_cluster (b'g' ∷ []) (b'g' ∷ b'[' ∷ b'1' ∷ b'-' ∷ b'2' ∷ b']' ∷ [])
      ∷ [];
}

abbrev initial : Result ConfigError (Tables ℕ ℕ ℕ)
initial = init_cluster_config (λ t. t) (b'n' ∷ []) (λ s. true) (some fritz ∷ [])

abbrev tables_of : Result ConfigError (Tables ℕ ℕ ℕ) → Tables ℕ ℕ ℕ
tables_of (ok t) = t
tables_of (err e) = record { clusters = []; metrics = []; user_metrics = []; node_lists = [] }

abbrev tables : Tables ℕ ℕ ℕ
tables = tables_of initial

accepted : initial ≡ ok tables
unfolding init_cluster_config cc_backend.ClusterConfig.init_clusters
    cc_backend.ClusterConfig.init_cluster cc_backend.ClusterConfig.visit_metrics
    cc_backend.ClusterConfig.check_metric cc_backend.ClusterConfig.node_lists_of
    cc_backend.ClusterConfig.visit_metric cc_backend.ClusterConfig.visit_sub_clusters
    cc_backend.ClusterConfig.new_metric cc_backend.Maps.find_key
    cc_backend.ClusterConfig.sub_cluster_lookup cc_backend.Maps.set_key
    cc_backend.ClusterConfig.extend_sub_cluster cc_backend.ClusterConfig.set_footprint key_eq
    cc_backend.NodeList.Parse.parse_node_list cc_backend.NodeList.Parse.split_terms
    cc_backend.NodeList.Parse.parse_terms cc_backend.NodeList.Parse.parse_exprs
    cc_backend.NodeList.Parse.cut_at cc_backend.NodeList.Parse.parse_range
    cc_backend.NodeList.Parse.parse_ranges cc_backend.NodeList.Parse.span
    cc_backend.NodeList.Parse.split_commas cc_backend.NodeList.parse_digits
    cc_backend.NodeList.parse_int32 cc_backend.NodeList.parse_uint
accepted = refl

abbrev job : Job
job = record { cluster = b'c' ∷ []; sub_cluster = []; hosts = (b'g' ∷ b'2' ∷ []) ∷ [] }

assigned : assign_sub_cluster tables job ≡ ok (record job { sub_cluster = b'g' ∷ [] })
unfolding assign_sub_cluster init_cluster_config cc_backend.ClusterConfig.init_clusters
    cc_backend.ClusterConfig.init_cluster cc_backend.ClusterConfig.visit_metrics
    cc_backend.ClusterConfig.check_metric cc_backend.ClusterConfig.node_lists_of
    cc_backend.ClusterConfig.visit_metric cc_backend.ClusterConfig.visit_sub_clusters
    cc_backend.ClusterConfig.new_metric cc_backend.Maps.find_key
    cc_backend.ClusterConfig.sub_cluster_lookup cc_backend.Maps.set_key
    cc_backend.ClusterConfig.extend_sub_cluster cc_backend.ClusterConfig.set_footprint key_eq
    cc_backend.NodeList.Parse.parse_node_list cc_backend.NodeList.Parse.split_terms
    cc_backend.NodeList.Parse.parse_terms cc_backend.NodeList.Parse.parse_exprs
    cc_backend.NodeList.Parse.cut_at cc_backend.NodeList.Parse.parse_range
    cc_backend.NodeList.Parse.parse_ranges cc_backend.NodeList.Parse.span
    cc_backend.NodeList.Parse.split_commas cc_backend.NodeList.parse_digits
    cc_backend.NodeList.parse_int32 cc_backend.NodeList.parse_uint
    cc_backend.ClusterConfig.Lookup.get_cluster cc_backend.ClusterConfig.Lookup.first_with
    cc_backend.ClusterConfig.Lookup.list_with cc_backend.ClusterConfig.Lookup.find_sub_cluster
    cc_backend.NodeList.consume cc_backend.NodeList.consume_range cc_backend.NodeList.consume_ranges
    cc_backend.NodeList.contains cc_backend.NodeList.contains_from cc_backend.NodeList.cut_prefix
    cc_backend.NodeList.match_term cc_backend.NodeList.strip_zeros
assigned = refl

-- A host outside of the node lists falls to the first subcluster, but not in GetSubClusterByNode.
other_host :
    assign_sub_cluster tables (record job { hosts = (b'x' ∷ []) ∷ [] })
    ≡ ok (record job { sub_cluster = b'm' ∷ []; hosts = (b'x' ∷ []) ∷ [] })
unfolding assign_sub_cluster init_cluster_config cc_backend.ClusterConfig.init_clusters
    cc_backend.ClusterConfig.init_cluster cc_backend.ClusterConfig.visit_metrics
    cc_backend.ClusterConfig.check_metric cc_backend.ClusterConfig.node_lists_of
    cc_backend.ClusterConfig.visit_metric cc_backend.ClusterConfig.visit_sub_clusters
    cc_backend.ClusterConfig.new_metric cc_backend.Maps.find_key
    cc_backend.ClusterConfig.sub_cluster_lookup cc_backend.Maps.set_key
    cc_backend.ClusterConfig.extend_sub_cluster cc_backend.ClusterConfig.set_footprint key_eq
    cc_backend.NodeList.Parse.parse_node_list cc_backend.NodeList.Parse.split_terms
    cc_backend.NodeList.Parse.parse_terms cc_backend.NodeList.Parse.parse_exprs
    cc_backend.NodeList.Parse.cut_at cc_backend.NodeList.Parse.parse_range
    cc_backend.NodeList.Parse.parse_ranges cc_backend.NodeList.Parse.span
    cc_backend.NodeList.Parse.split_commas cc_backend.NodeList.parse_digits
    cc_backend.NodeList.parse_int32 cc_backend.NodeList.parse_uint
    cc_backend.ClusterConfig.Lookup.get_cluster cc_backend.ClusterConfig.Lookup.first_with
    cc_backend.ClusterConfig.Lookup.list_with cc_backend.ClusterConfig.Lookup.find_sub_cluster
    cc_backend.NodeList.consume cc_backend.NodeList.consume_range cc_backend.NodeList.consume_ranges
    cc_backend.NodeList.contains cc_backend.NodeList.contains_from cc_backend.NodeList.cut_prefix
    cc_backend.NodeList.match_term cc_backend.NodeList.strip_zeros
other_host = refl

other_host_by_node : get_sub_cluster_by_node tables (b'c' ∷ []) (b'x' ∷ []) ≡ err no_sub_cluster
unfolding get_sub_cluster_by_node init_cluster_config cc_backend.ClusterConfig.init_clusters
    cc_backend.ClusterConfig.init_cluster cc_backend.ClusterConfig.visit_metrics
    cc_backend.ClusterConfig.check_metric cc_backend.ClusterConfig.node_lists_of
    cc_backend.ClusterConfig.visit_metric cc_backend.ClusterConfig.visit_sub_clusters
    cc_backend.ClusterConfig.new_metric cc_backend.Maps.find_key
    cc_backend.ClusterConfig.sub_cluster_lookup cc_backend.Maps.set_key
    cc_backend.ClusterConfig.extend_sub_cluster cc_backend.ClusterConfig.set_footprint key_eq
    cc_backend.NodeList.Parse.parse_node_list cc_backend.NodeList.Parse.split_terms
    cc_backend.NodeList.Parse.parse_terms cc_backend.NodeList.Parse.parse_exprs
    cc_backend.NodeList.Parse.cut_at cc_backend.NodeList.Parse.parse_range
    cc_backend.NodeList.Parse.parse_ranges cc_backend.NodeList.Parse.span
    cc_backend.NodeList.Parse.split_commas cc_backend.NodeList.parse_digits
    cc_backend.NodeList.parse_int32 cc_backend.NodeList.parse_uint
    cc_backend.ClusterConfig.Lookup.get_cluster cc_backend.ClusterConfig.Lookup.first_with
    cc_backend.ClusterConfig.Lookup.list_with cc_backend.ClusterConfig.Lookup.find_sub_cluster
    cc_backend.NodeList.consume cc_backend.NodeList.consume_range cc_backend.NodeList.consume_ranges
    cc_backend.NodeList.contains cc_backend.NodeList.contains_from cc_backend.NodeList.cut_prefix
    cc_backend.NodeList.match_term cc_backend.NodeList.strip_zeros
other_host_by_node = refl

init_cluster_config-IsShown_example :
    All
      (λ entry.
        All
          (λ support. All (IsShown tables.clusters support.cluster entry.0) support.sub_clusters)
          entry.1.availability)
      tables.user_metrics
init_cluster_config-IsShown_example =
    init_cluster_config-IsShown (λ t. t) (b'n' ∷ []) (λ s. true) (some fritz ∷ []) accepted

assign_sub_cluster-IsAssigned_example :
    IsAssigned tables job (record job { sub_cluster = b'g' ∷ [] })
assign_sub_cluster-IsAssigned_example =
    assign_sub_cluster-IsAssigned (λ t. t) (b'n' ∷ []) (λ s. true) (some fritz ∷ []) tables job
      (record job { sub_cluster = b'g' ∷ [] }) accepted assigned
