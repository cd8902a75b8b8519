-- ===== src/ClusterConfig/Assign.antt =====
-- The subcluster that `AssignSubCluster` of pkg/archive/clusterConfig.go gives to a job.
use cc_backend.Common.{
  ◌≡◌, refl, sym, ap, ◌∙◌, Bool, true, false, Option, none, some, List, [], ◌∷◌, ◌⊎◌, inl, inr, ◌≢◌,
  Bool-cases, Option-cases,
}
use cc_backend.Common.{Result, ok, err}
use cc_backend.Bytes.{Bytes, key_eq, key_eq_iff}
use cc_backend.NodeList.{NodeList, contains}
use cc_backend.NodeList.Parse.{parse_node_list}
use cc_backend.ClusterConfig.{SubCluster, Cluster, Tables, init_cluster_config}
use cc_backend.ClusterConfig.Lookup.{
  Job, AssignError, unknown_cluster, unknown_sub_cluster, no_hosts, no_sub_cluster, get_cluster,
  find_sub_cluster, list_with, lists_of, first_with, assign_sub_cluster,
}
use cc_backend.ClusterConfig.Lists.{IsListOf, AreListsOf, init_clusters-AreListsOf}
use cc_backend.Maps.{IsIn, AllKeys, find_key-All, Map, find_key}

not_empty : (s : Bytes) → key_eq s [] ≡ false → s ≢ []
unfolding key_eq
not_empty [] h q = cc
not_empty (b ∷ s) h q = cc

no_job : (p : AssignError) (job : Job) → err p ≡ ok job → ⊥
no_job p job e = cc

job_of : (job job' : Job) → ◌≡◌ {A = Result AssignError Job} (ok job) (ok job') → job ≡ job'
job_of job job' e = cc

module _ {F U T : Type 0} where
  get_cluster-IsIn :
      (cs : List (Cluster F U T)) (name : Bytes) {c : Cluster F U T}
      → get_cluster cs name ≡ some c
      → IsIn c cs × (c.name ≡ name)
  unfolding get_cluster
  get_cluster-IsIn [] name e = cc
  get_cluster-IsIn (d ∷ cs) name {c} e = elim (Bool-cases (key_eq d.name name)) [
    | inl here ↦
        (let found : some d ≡ some c = sym (rw here) ∙ e in
          let same : c ≡ d = cc in
          (inl same, ap (λ x. x.name) same ∙ (key_eq_iff d.name name).0 here))
    | inr there ↦ (let rest = get_cluster-IsIn cs name (sym (rw there) ∙ e) in (inr rest.0, rest.1))
  ]

  find_sub_cluster-IsIn :
      (scs : List (SubCluster F U T)) (name : Bytes) {sc : SubCluster F U T}
      → find_sub_cluster scs name ≡ some sc
      → IsIn sc scs × (sc.name ≡ name)
  unfolding find_sub_cluster
  find_sub_cluster-IsIn [] name e = cc
  find_sub_cluster-IsIn (d ∷ scs) name {sc} e = elim (Bool-cases (key_eq d.name name)) [
    | inl here ↦
        (let found : some d ≡ some sc = sym (rw here) ∙ e in
          let same : sc ≡ d = cc in
          (inl same, ap (λ x. x.name) same ∙ (key_eq_iff d.name name).0 here))
    | inr there ↦
        (let rest = find_sub_cluster-IsIn scs name (sym (rw there) ∙ e) in (inr rest.0, rest.1))
  ]

  first_with-IsIn :
      (nodes : Bytes) (scs : List (SubCluster F U T)) {name : Bytes}
      → first_with nodes scs ≡ some name
      → (sc : SubCluster F U T) × IsIn sc scs × (sc.name ≡ name) × (sc.nodes ≡ nodes)
  unfolding first_with
  first_with-IsIn nodes [] e = cc
  first_with-IsIn nodes (sc ∷ scs) {name} e = elim (Bool-cases (key_eq sc.nodes nodes)) [
    | inl same ↦
        (let found : some sc.name ≡ some name = sym (rw same) ∙ e in
          (sc, inl refl, cc, (key_eq_iff sc.nodes nodes).0 same))
    | inr other ↦ (let found : none ≡ some name = sym (rw other) ∙ e in cc)
  ]

  -- The first host is in the node list of the subcluster, or all hosts are.
  pub IsHost : SubCluster F U T → List Bytes → Type 0
  IsHost sc [] = ⊥
  IsHost sc (host0 ∷ hosts) =
      ((nl : NodeList) × (parse_node_list sc.nodes ≡ ok nl) × (contains nl host0 ≡ true))
      ⊎ (sc.nodes ≡ b'*' ∷ [])

  pub IsAssigned : Tables F U T → Job → Job → Type 0
  IsAssigned t job job' =
      (c : Cluster F U T) × IsIn c t.clusters
      × (c.name ≡ job.cluster)
      × (sc : SubCluster F U T) × IsIn sc c.sub_clusters
      × (sc.name ≡ job'.sub_cluster)
      × ((job.sub_cluster ≢ []) × (job' ≡ job) ⊎ (job.sub_cluster ≡ []) × IsHost sc job.hosts)

list_with-All :
    (P : Bytes → NodeList → Type 0) (lists : Map NodeList) (host : Bytes) {name : Bytes}
    → AllKeys P lists
    → list_with lists host ≡ some name
    → (nl : NodeList) × P name nl × (contains nl host ≡ true)
unfolding list_with
list_with-All P [] host h e = cc
list_with-All P ((k, nl) ∷ lists) host {name} (h, hs) e = elim (Bool-cases (contains nl host)) [
  | inl here ↦
      (let found : some k ≡ some name = sym (rw here) ∙ e in
        let same : k ≡ name = cc in (nl, rw (sym same) h, here))
  | inr there ↦ list_with-All P lists host hs (sym (rw there) ∙ e)
]

module _ {F U T : Type 0} where
  -- A node list that is found for a cluster is that of one of its subclusters.
  lists_of-IsListOf :
      (t : Tables F U T) (cluster host : Bytes) {name : Bytes}
      → AllKeys (AreListsOf t.clusters) t.node_lists
      → list_with (lists_of t cluster) host ≡ some name
      → (c : Cluster F U T) × IsIn c t.clusters
        × (c.name ≡ cluster)
        × (nl : NodeList) × IsListOf c.sub_clusters name nl
        × (contains nl host ≡ true)
  unfolding AreListsOf list_with
  lists_of-IsListOf t cluster host {name} h e =
      elim (Option-cases (find_key cluster t.node_lists)) [
        | inl missing ↦
            (let none_is : none ≡ some name = sym (rw (lists_of, missing, list_with) refl) ∙ e in
              cc)
        | inr (lists, found) ↦
            (let (c, there, named, all) =
                find_key-All (AreListsOf t.clusters) cluster t.node_lists h found in
              let (nl, of, holds) =
                list_with-All (IsListOf c.sub_clusters) lists host all
                  (sym (rw (lists_of, found) refl) ∙ e) in
              (c, there, named, nl, of, holds))
      ]

  assign-given :
      (t : Tables F U T) (job : Job) (c : Cluster F U T) {job' : Job}
      → get_cluster t.clusters job.cluster ≡ some c
      → key_eq job.sub_cluster [] ≡ false
      → assign_sub_cluster t job ≡ ok job'
      → IsAssigned t job job'
  unfolding assign_sub_cluster IsAssigned
  assign-given t job c {job'} known given e =
      let (in_tables, named) = get_cluster-IsIn t.clusters job.cluster known in
      elim (Option-cases (find_sub_cluster c.sub_clusters job.sub_cluster)) [
        | inl missing ↦ absurd (
            no_job unknown_sub_cluster job'
              (sym (rw (assign_sub_cluster, known, given, missing) refl) ∙ e))
        | inr (sc, found) ↦
            (let same =
                job_of job job' (sym (rw (assign_sub_cluster, known, given, found) refl) ∙ e) in
              let (in_cluster, sub_named) =
                find_sub_cluster-IsIn c.sub_clusters job.sub_cluster found in
              (
                c,
                in_tables,
                named,
                sc,
                in_cluster,
                sub_named ∙ ap (λ j. j.sub_cluster) same,
                inl (not_empty job.sub_cluster given, sym same),
              ))
      ]

  assign-new :
      (t : Tables F U T) (cluster sub_cluster host0 : Bytes) (hosts : List Bytes)
      (c : Cluster F U T) {job' : Job}
      → AllKeys (AreListsOf t.clusters) t.node_lists
      → get_cluster t.clusters cluster ≡ some c
      → key_eq sub_cluster [] ≡ true
      → assign_sub_cluster t
          (record { cluster = cluster; sub_cluster = sub_cluster; hosts = host0 ∷ hosts })
        ≡ ok job'
      → IsAssigned t
          (record { cluster = cluster; sub_cluster = sub_cluster; hosts = host0 ∷ hosts })
          job'
  unfolding assign_sub_cluster IsAssigned IsHost IsListOf
  assign-new t cluster sub_cluster host0 hosts c {job'} h known new e =
      elim (Option-cases (list_with (lists_of t cluster) host0)) [
        | inr (name, listed) ↦
            (let same =
                job_of (record { cluster = cluster; sub_cluster = name; hosts = host0 ∷ hosts })
                  job' (sym (rw (assign_sub_cluster, known, new, listed) refl) ∙ e) in
              let (d, in_tables, named, nl, (sc, in_cluster, sub_named, parsed), holds) =
                lists_of-IsListOf t cluster host0 h listed in
              (
                d,
                in_tables,
                named,
                sc,
                in_cluster,
                sub_named ∙ ap (λ j. j.sub_cluster) same,
                inr ((key_eq_iff sub_cluster []).0 new, inl (nl, parsed, holds)),
              ))
        | inl unlisted ↦ elim (Option-cases (first_with (b'*' ∷ []) c.sub_clusters)) [
          | inl none_left ↦ absurd (
              no_job no_sub_cluster job'
                (sym (rw (assign_sub_cluster, known, new, unlisted, none_left) refl) ∙ e))
          | inr (name, first) ↦
              (let same =
                  job_of (record { cluster = cluster; sub_cluster = name; hosts = host0 ∷ hosts })
                    job' (sym (rw (assign_sub_cluster, known, new, unlisted, first) refl) ∙ e) in
                let (in_tables, named) = get_cluster-IsIn t.clusters cluster known in
                let (sc, in_cluster, sub_named, star) =
                  first_with-IsIn (b'*' ∷ []) c.sub_clusters first in
                (
                  c,
                  in_tables,
                  named,
                  sc,
                  in_cluster,
                  sub_named ∙ ap (λ j. j.sub_cluster) same,
                  inr ((key_eq_iff sub_cluster []).0 new, inr star),
                ))
        ]
      ]

  assign-no_hosts :
      (t : Tables F U T) (cluster sub_cluster : Bytes) (c : Cluster F U T) {job' : Job}
      → get_cluster t.clusters cluster ≡ some c
      → key_eq sub_cluster [] ≡ true
      → assign_sub_cluster t (record { cluster = cluster; sub_cluster = sub_cluster; hosts = [] })
        ≡ ok job'
      → ⊥
  unfolding assign_sub_cluster
  assign-no_hosts t cluster sub_cluster c {job'} known new e =
      no_job no_hosts job' (sym (rw (assign_sub_cluster, known, new) refl) ∙ e)

  assign-IsAssigned :
      (t : Tables F U T) (job : Job) {job' : Job}
      → AllKeys (AreListsOf t.clusters) t.node_lists
      → assign_sub_cluster t job ≡ ok job'
      → IsAssigned t job job'
  unfolding assign_sub_cluster
  assign-IsAssigned t job {job'} h e = elim (Option-cases (get_cluster t.clusters job.cluster)) [
    | inl unknown ↦
        absurd (no_job unknown_cluster job' (sym (rw (assign_sub_cluster, unknown) refl) ∙ e))
    | inr (c, known) ↦ elim (Bool-cases (key_eq job.sub_cluster [])) [
      | inr given ↦ assign-given t job c known given e
      | inl new ↦ go job.hosts c known new e
    ]
  ]
    where
      go :
          (hosts : List Bytes) (c : Cluster F U T)
          → get_cluster t.clusters job.cluster ≡ some c
          → key_eq job.sub_cluster [] ≡ true
          → assign_sub_cluster t
              (record { cluster = job.cluster; sub_cluster = job.sub_cluster; hosts = hosts })
            ≡ ok job'
          → IsAssigned t
              (record { cluster = job.cluster; sub_cluster = job.sub_cluster; hosts = hosts })
              job'
      go [] c known new e' = absurd (assign-no_hosts t job.cluster job.sub_cluster c known new e')
      go (host0 ∷ hosts) c known new e' =
          assign-new t job.cluster job.sub_cluster host0 hosts c h known new e'

  -- With the tables of the accepted configurations, a job that `AssignSubCluster` accepts has a
  -- subcluster of a cluster of its name. If the job had a subcluster, nothing is changed; if not, the
  -- node list of the subcluster that it gets has the first host of the job, or stands for all hosts.
  pub assign_sub_cluster-IsAssigned :
      (init_topology : T → T) (node_scope : Bytes) (is_valid_scope : Bytes → Bool)
      (cs : List (Option (Cluster F U T))) (t : Tables F U T) (job job' : Job)
      → init_cluster_config init_topology node_scope is_valid_scope cs ≡ ok t
      → assign_sub_cluster t job ≡ ok job'
      → IsAssigned t job job'
  unfolding init_cluster_config
  assign_sub_cluster-IsAssigned init_topology node_scope is_valid_scope cs t job job' e e' =
      assign-IsAssigned t job
        (init_clusters-AreListsOf init_topology node_scope is_valid_scope _ cs e tt) e'
