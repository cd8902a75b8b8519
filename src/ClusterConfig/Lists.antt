-- ===== src/ClusterConfig/Lists.antt =====
-- The node lists in the tables of pkg/archive/clusterConfig.go are those of the subclusters.
use cc_backend.Common.{
  ◌≡◌, refl, sym, ◌∙◌, Bool, Option, none, some, List, [], ◌∷◌, ◌++◌, ◌==◌, length, inl, inr,
  Bool-cases,
}
use cc_backend.Common.{ok, err, bind-eq-ok, guard-eq-ok, Result-cases}
use cc_backend.Bytes.{Bytes, key_eq}
use cc_backend.NodeList.{NodeList}
use cc_backend.NodeList.Parse.{parse_node_list}
use cc_backend.ClusterConfig.{
  SubCluster, Cluster, ConfigError, bad_node_list, Tables, visit_metrics, node_lists_of,
  init_cluster, init_clusters,
}
use cc_backend.Maps.{IsIn, IsIn-append, IsIn-last, All-map, AllKeys, set_key-All, Map, set_key}

err_ok : (p : ConfigError) (lists : Map NodeList) → err p ≡ ok lists → ⊥
err_ok p lists e = cc

module _ {F U T : Type 0} where
  -- A node list of the tables is that of a subcluster of this name.
  unfoldable pub IsListOf : List (SubCluster F U T) → Bytes → NodeList → Type 0
  IsListOf scs name nl =
      (sc : SubCluster F U T) × IsIn sc scs × (sc.name ≡ name) × (parse_node_list sc.nodes ≡ ok nl)

  unfoldable pub AreListsOf : List (Cluster F U T) → Bytes → Map NodeList → Type 0
  AreListsOf cs name lists =
      (c : Cluster F U T) × IsIn c cs × (c.name ≡ name) × AllKeys (IsListOf c.sub_clusters) lists

  node_lists_of-IsListOf :
      (all scs : List (SubCluster F U T)) (m : Map NodeList) {lists : Map NodeList}
      → ((sc : SubCluster F U T) → IsIn sc scs → IsIn sc all)
      → AllKeys (IsListOf all) m
      → node_lists_of scs m ≡ ok lists
      → AllKeys (IsListOf all) lists
  unfolding node_lists_of IsListOf
  node_lists_of-IsListOf all [] m {lists} f h e = let same : m ≡ lists = cc in rw (sym same) h
  node_lists_of-IsListOf all (sc ∷ scs) m {lists} f h e =
      elim (Bool-cases (key_eq sc.nodes (b'*' ∷ []))) [
        | inl star ↦ node_lists_of-IsListOf all scs m (λ x h'. f x (inr h')) h (sym (rw star) ∙ e)
        | inr nodes ↦ elim (Result-cases (parse_node_list sc.nodes)) [
          | inl (p, e1) ↦ absurd (err_ok (bad_node_list p) lists (sym (rw (nodes, e1) refl) ∙ e))
          | inr (nl, e1) ↦
              node_lists_of-IsListOf all scs (set_key sc.name nl m) (λ x h'. f x (inr h'))
                (set_key-All (IsListOf all) sc.name nl m h (sc, f sc (inl refl), refl, e1))
                (sym (rw (nodes, e1, node_lists_of) refl) ∙ e)
        ]
      ]

  module _ (init_topology : T → T) (node_scope : Bytes) (is_valid_scope : Bytes → Bool) where
    AreListsOf-append :
        (cs : List (Cluster F U T)) (c : Cluster F U T) (name : Bytes) (lists : Map NodeList)
        → AreListsOf cs name lists
        → AreListsOf (cs ++ c ∷ []) name lists
    unfolding AreListsOf
    AreListsOf-append cs c name lists (d, h, rest, all) =
        (d, IsIn-append d cs (c ∷ []) h, rest, all)

    init_cluster-AreListsOf :
        (t : Tables F U T) (c : Cluster F U T) {t' : Tables F U T}
        → init_cluster init_topology node_scope is_valid_scope t c ≡ ok t'
        → AllKeys (AreListsOf t.clusters) t.node_lists
        → AllKeys (AreListsOf t'.clusters) t'.node_lists
    unfolding init_cluster AreListsOf
    init_cluster-AreListsOf t c {t'} e h =
        let e1 = (guard-eq-ok (key_eq c.name []) _ _ e).1 in
        let e2 = (guard-eq-ok (length c.metric_config == 0) _ _ e1).1 in
        let e3 = (guard-eq-ok (length c.sub_clusters == 0) _ _ e2).1 in
        let (v, visited, e4) =
          bind-eq-ok
            (visit_metrics init_topology node_scope is_valid_scope c.name c.metric_config
              c.sub_clusters t.metrics t.user_metrics)
            _ e3 in
        let (lists, listed, e5) = bind-eq-ok (node_lists_of v.1 []) _ e4 in
        let done : Cluster F U T = record {
          name = c.name;
          metric_config = v.0;
          sub_clusters = v.1;
        } in
        let cs : t.clusters ++ done ∷ [] ≡ t'.clusters = cc in
        let ls : set_key c.name lists t.node_lists ≡ t'.node_lists = cc in
        rw (sym cs, sym ls)
          (set_key-All (AreListsOf (t.clusters ++ done ∷ [])) c.name lists t.node_lists
            (All-map (λ x. AreListsOf t.clusters x.0 x.1)
              (λ x. AreListsOf (t.clusters ++ done ∷ []) x.0 x.1) t.node_lists
              (λ x. AreListsOf-append t.clusters done x.0 x.1) h)
            (
              done,
              IsIn-last done t.clusters,
              refl,
              node_lists_of-IsListOf v.1 v.1 [] (λ x h'. h') tt listed,
            ))

    pub init_clusters-AreListsOf :
        (t : Tables F U T) (cs : List (Option (Cluster F U T))) {t' : Tables F U T}
        → init_clusters init_topology node_scope is_valid_scope t cs ≡ ok t'
        → AllKeys (AreListsOf t.clusters) t.node_lists
        → AllKeys (AreListsOf t'.clusters) t'.node_lists
    unfolding init_clusters
    init_clusters-AreListsOf t [] {t'} e h = let same : t ≡ t' = cc in rw (sym same) h
    init_clusters-AreListsOf t (none ∷ cs) e h = cc
    init_clusters-AreListsOf t (some c ∷ cs) {t'} e h =
        let (t1, e1, e2) =
          bind-eq-ok (init_cluster init_topology node_scope is_valid_scope t c) _ e in
        init_clusters-AreListsOf t1 cs e2 (init_cluster-AreListsOf t c e1 h)
