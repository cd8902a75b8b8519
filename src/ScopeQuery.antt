-- ===== src/ScopeQuery.antt =====
-- pkg/metricstore/scopequery.go: the queries that bring a metric from its native scope to the scope
-- that was asked for. A pointer is an option; the identifiers of hardware threads, cores, domains
-- and sockets are never negative.
mod Tests
use cc_backend.Common.{
  ℕ, zero, suc, ◌+◌, ◌-◌, ◌*◌, ◌/◌, ◌%◌, ◌^◌, ◌≤◌, ◌<◌, ℤ, pos, negsuc, sub_ℕ, pos_part, neg_part,
  ltb_ℤ, leb_ℤ, ◌≤ℤ◌, ◌<ℤ◌, ◌+ℤ◌, ◌-ℤ◌, ◌≡◌, refl, sym, ap, ◌∙◌, Bool, true, false, not, ◌&&◌, ◌||◌,
  Option, none, some, List, [], ◌∷◌, ◌++◌, map, append-nil, append_assoc, ltb, leb, ◌==◌, length,
  get_elem?, ◌⊎◌, inl, inr, ◌↔◌, ◌≢◌, get_or, set, replicate, take, drop, if◌then◌else◌, arith,
  int_laws, Bool-cases, Option-cases, length-append, length-replicate, length-set, All, All-append,
  le→leb, gt→leb, lt→ltb, ge→ltb, ltb→lt, leb→le, ==_iff,
}
use cc_backend.Bytes.{Bytes, key_eq}
use cc_backend.NodeList.Print.{decimal}

-- No two of a list are the same.
abbrev pub Distinct {ℓ} : {A : Type ℓ} → (A → A → Bool) → List A → Type 0
Distinct same [] = Unit {0}
Distinct same (x ∷ xs) = All (λ y. same x y ≡ false) xs × Distinct same xs

-- schema.MetricScope of the package cc-lib: a type of strings with six constants and an order.
pub record Scopes : Type 1 where
  pub Scope : Type 0
  pub same : Scope → Scope → Bool
  pub same_iff : (x y : Scope) → (same x y ≡ true) ↔ (x ≡ y)
  pub text : Scope → Bytes
  pub max : Scope → Scope → Scope
  pub lt : Scope → Scope → Bool
  pub node : Scope
  pub socket : Scope
  pub memory_domain : Scope
  pub core : Scope
  pub hwthread : Scope
  pub accelerator : Scope
  pub distinct : Distinct same (accelerator ∷ hwthread ∷ core ∷ memory_domain ∷ socket ∷ node ∷ [])

-- schema.Topology of the same package: two of its tables, and what its methods return. A map is the
-- list of its values in the order of the loop over it; `none` is the error.
pub record Topology : Type 0 where
  pub core_table : List (List ℕ)
  pub socket_table : List (List ℕ)
  pub cores_from_hwthreads : List ℕ → List ℕ
  pub sockets_from_hwthreads : List ℕ → List ℕ
  pub sockets_from_cores : List ℕ → List ℕ
  pub memory_domains_from_hwthreads : List ℕ → List ℕ
  pub memory_domains_by_socket : List ℕ → Option (List (List ℕ))

-- ScopeQueryResult; `none` in `type_ids` does not occur: a nil slice is an empty one.
pub record Query (S : Type 0) : Type 0 where
  pub query_type : Option Bytes
  pub metric : Bytes
  pub hostname : Bytes
  pub type_ids : List Bytes
  pub scope : S
  pub aggregate : Bool

-- The two results of `BuildScopeQueries`, or the panic of an index out of range.
pub data Built (S : Type 0) : Type 0 where
  queries : List (Query S) → Built S
  unhandled : Built S
  out_of_range : Built S

unfoldable pub int_to_string_slice : List ℕ → List Bytes
int_to_string_slice [] = []
int_to_string_slice (x ∷ xs) = decimal (suc x) x ∷ int_to_string_slice xs

-- table[i] for each i
unfoldable pub rows : List (List ℕ) → List ℕ → Option (List (List ℕ))
rows table [] = some []
rows table (i ∷ is) =
    let rest = rows table is in
    elim (get_elem? table i) [
      | none ↦ none
      | some row ↦ elim rest [ none ↦ none | some others ↦ some (row ∷ others) ]
    ]

unfoldable pub extract_type_id : Option Bytes → List Bytes → ℕ → Option Bytes
extract_type_id none type_ids i = none
extract_type_id (some t) type_ids i = if ltb i (length type_ids) then get_elem? type_ids i else none

-- The two fields of schema.SubClusterConfig that are read: its name and `Remove`.
unfoldable pub is_metric_removed_for_sub_cluster : List (Bytes × Bool) → Bytes → Bool
is_metric_removed_for_sub_cluster [] sub_cluster = false
is_metric_removed_for_sub_cluster ((name, remove) ∷ configs) sub_cluster =
    let rest = is_metric_removed_for_sub_cluster configs sub_cluster in
    if key_eq name sub_cluster && remove then true else rest

-- The three numbers that the pointers of `SanitizeStats` lead to. The test for NaN and the number 0
-- come with schema.Float.
module _ {F : Type 0} (is_nan : F → Bool) (zero_float : F) where
  unfoldable pub sanitize_stats : F → F → F → F × F × F
  sanitize_stats avg low high =
      if is_nan avg || is_nan low || is_nan high
      then (zero_float, zero_float, zero_float)
      else (avg, low, high)

  -- No NaN, and all three as before or all three 0.
  abbrev pub IsSane : F → F → F → F × F × F → Type 0
  IsSane avg low high r =
      ((is_nan r.0 || is_nan r.1 || is_nan r.2) ≡ false)
      × ((r ≡ (avg, low, high)) ⊎ (r ≡ (zero_float, zero_float, zero_float)))

  -- Where 0 is a number, `SanitizeStats` leaves no NaN, and it keeps all three values or sets all
  -- three to 0.
  sanitize_stats-IsSane :
      (avg low high : F)
      → is_nan zero_float ≡ false
      → IsSane avg low high (sanitize_stats avg low high)
  unfolding sanitize_stats
  sanitize_stats-IsSane avg low high h =
      elim (Bool-cases (is_nan avg || is_nan low || is_nan high)) [
        | inl some_nan ↦ rw some_nan (rw h refl, inr refl)
        | inr no_nan ↦ rw no_nan (no_nan, inl refl)
      ]

module _ (sc : Scopes) (topology : Topology) (metric hostname : Bytes) where
  open sc use {
    Scope, same, same_iff, text, max, lt, node, socket, memory_domain, core, hwthread, accelerator,
    distinct,
  }

  -- One query for each list of identifiers.
  abbrev pub query : Bool → Scope → Scope → List Bytes → Query Scope
  query aggregated of scope ids = record {
    query_type = some (text of);
    metric = metric;
    hostname = hostname;
    type_ids = ids;
    scope = scope;
    aggregate = aggregated;
  }

  unfoldable pub query_each : Scope → Scope → List (List ℕ) → List (Query Scope)
  query_each of scope [] = []
  query_each of scope (ids ∷ more) =
      query true of scope (int_to_string_slice ids) ∷ query_each of scope more

  abbrev pub for_rows : Scope → Scope → Option (List (List ℕ)) → Built Scope
  for_rows of scope none = out_of_range
  for_rows of scope (some ids) = queries (query_each of scope ids)

  -- The branch for domains by socket: on the error it returns no query.
  abbrev pub for_domains : Scope → Scope → Option (List (List ℕ)) → Built Scope
  for_domains of scope none = queries []
  for_domains of scope (some domains) = queries (query_each of scope domains)

  unfoldable pub build_scope_queries : Scope → Scope → List ℕ → List Bytes → Built Scope
  build_scope_queries native requested hwthreads accelerators =
      let scope = max native requested in
      let cores = topology.cores_from_hwthreads hwthreads in
      let sockets = topology.sockets_from_hwthreads hwthreads in
      let mem_domains = topology.memory_domains_from_hwthreads hwthreads in
      if same native accelerator && lt scope node
      then (if not (same scope accelerator)
          then queries []
          else queries (query false accelerator accelerator accelerators ∷ []))
      else if same native accelerator && same scope node
      then (if length accelerators == 0
          then queries []
          else queries (query true accelerator scope accelerators ∷ []))
      else if same native hwthread && same scope hwthread
      then queries (query false hwthread scope (int_to_string_slice hwthreads) ∷ [])
      else if same native hwthread && same scope core
      then for_rows hwthread scope (rows topology.core_table cores)
      else if same native hwthread && same scope socket
      then for_rows hwthread scope (rows topology.socket_table sockets)
      else if same native hwthread && same scope node
      then queries (query true hwthread scope (int_to_string_slice hwthreads) ∷ [])
      else if same native core && same scope core
      then queries (query false core scope (int_to_string_slice cores) ∷ [])
      else if same native core && same scope socket
      then for_rows core scope (rows topology.socket_table (topology.sockets_from_cores hwthreads))
      else if same native core && same scope node
      then queries (query true core scope (int_to_string_slice cores) ∷ [])
      else if same native memory_domain && same scope memory_domain
      then queries (query false memory_domain scope (int_to_string_slice mem_domains) ∷ [])
      else if same native memory_domain && same scope socket
      then for_domains memory_domain scope (topology.memory_domains_by_socket mem_domains)
      else if same native memory_domain && same scope node
      then queries (query true memory_domain scope (int_to_string_slice mem_domains) ∷ [])
      else if same native socket && same scope socket
      then queries (query false socket scope (int_to_string_slice sockets) ∷ [])
      else if same native socket && same scope node
      then queries (query true socket scope (int_to_string_slice sockets) ∷ [])
      else if same native node && same scope node
      then queries (record (query false node scope []) { query_type = none } ∷ [])
      else unhandled

  -- What is promised of each query: it is for the metric and host, at the coarser of the scopes,
  -- and it aggregates exactly where that is not the native one.
  unfoldable pub Promised : Scope → Scope → Built Scope → Type 0
  Promised native scope (queries qs) =
      All
        (λ q.
          (q.metric ≡ metric)
          × (q.hostname ≡ hostname)
          × (q.scope ≡ scope)
          × (q.aggregate ≡ not (same native scope)))
        qs
  Promised native scope unhandled = Unit {0}
  Promised native scope out_of_range = Unit {0}

  record IsFor (native scope : Scope) (built : Built Scope) : Type 0 where
    promised : Promised native scope built

  agree :
      (native scope x : Scope) → (same native x && same scope x) ≡ true → same native scope ≡ true
  agree native scope x h =
      ground (arith, same_iff native x, same_iff scope x, same_iff native scope)

  differ :
      (native scope x y : Scope)
      → same x y ≡ false
      → (same native x && same scope y) ≡ true
      → same native scope ≡ false
  differ native scope x y d h = ground (arith, same_iff native x, same_iff scope y, d)

  -- One test of the chain.
  test-IsFor :
      (native scope : Scope) (t : Bool) (found others : Built Scope)
      → (t ≡ true → Promised native scope found)
      → IsFor native scope others
      → IsFor native scope (if t then found else others)
  test-IsFor native scope true found others f g = record { promised = f refl }
  test-IsFor native scope false found others f g = g

  query_each-Promised :
      (native scope of : Scope) (ids : List (List ℕ))
      → same native scope ≡ false
      → Promised native scope (queries (query_each of scope ids))
  unfolding query_each Promised
  query_each-Promised native scope of [] h = tt
  query_each-Promised native scope of (row ∷ ids) h =
      ((refl, refl, refl, rw h), query_each-Promised native scope of ids h)

  for_rows-Promised :
      (native scope of : Scope) (found : Option (List (List ℕ)))
      → same native scope ≡ false
      → Promised native scope (for_rows of scope found)
  unfolding Promised
  for_rows-Promised native scope of none h = tt
  for_rows-Promised native scope of (some ids) h = query_each-Promised native scope of ids h

  for_domains-Promised :
      (native scope of : Scope) (found : Option (List (List ℕ)))
      → same native scope ≡ false
      → Promised native scope (for_domains of scope found)
  unfolding Promised
  for_domains-Promised native scope of none h = tt
  for_domains-Promised native scope of (some ids) h = query_each-Promised native scope of ids h

  -- One step of the chain of tests, for each kind of answer.
  module _ (native scope of : Scope) where
    native_step :
        (ids : List Bytes) (others : Built Scope)
        → IsFor native scope others
        → IsFor native scope (
            if same native of && same scope of
            then queries (query false of scope ids ∷ [])
            else others)
    native_step ids others f =
        test-IsFor native scope (same native of && same scope of)
          (queries (query false of scope ids ∷ [])) others
          (λ h. unfold Promised in ((refl, refl, refl, rw (agree native scope of h)), tt)) f

    module _ (to : Scope) (d : same of to ≡ false) where
      coarser_step :
          (ids : List Bytes) (others : Built Scope)
          → IsFor native scope others
          → IsFor native scope (
              if same native of && same scope to
              then queries (query true of scope ids ∷ [])
              else others)
      coarser_step ids others f =
          test-IsFor native scope (same native of && same scope to)
            (queries (query true of scope ids ∷ [])) others
            (λ h. unfold Promised in ((refl, refl, refl, rw (differ native scope of to d h)), tt)) f

      rows_step :
          (found : Option (List (List ℕ))) (others : Built Scope)
          → IsFor native scope others
          → IsFor native scope
              (if same native of && same scope to then for_rows of scope found else others)
      rows_step found others f =
          test-IsFor native scope (same native of && same scope to) (for_rows of scope found) others
            (λ h. for_rows-Promised native scope of found (differ native scope of to d h)) f

      domains_step :
          (found : Option (List (List ℕ))) (others : Built Scope)
          → IsFor native scope others
          → IsFor native scope
              (if same native of && same scope to then for_domains of scope found else others)
      domains_step found others f =
          test-IsFor native scope (same native of && same scope to) (for_domains of scope found)
            others (λ h. for_domains-Promised native scope of found (differ native scope of to d h))
            f

  accelerators_step :
      (native scope : Scope) (ids : List Bytes) (others : Built Scope)
      → IsFor native scope others
      → IsFor native scope (
          if same native accelerator && lt scope node
          then (if not (same scope accelerator)
              then queries []
              else queries (query false accelerator accelerator ids ∷ []))
          else others)
  accelerators_step native scope ids others f =
      test-IsFor native scope (same native accelerator && lt scope node) _ others
        (λ h. at_accelerator (ground (arith, h))) f
    where
      at_accelerator :
          same native accelerator ≡ true
          → Promised native scope (
              if not (same scope accelerator)
              then queries []
              else queries (query false accelerator accelerator ids ∷ []))
      at_accelerator h =
          unfold Promised in
          elim (Bool-cases (same scope accelerator)) [
            | inl found ↦ rw found (
              (
                refl,
                refl,
                sym ((same_iff scope accelerator).0 found),
                rw (agree native scope accelerator (ground arith)),
              ),
              tt,
            )
            | inr other ↦ rw other tt
          ]

  accelerators_node_step :
      (native scope : Scope) (ids : List Bytes) (others : Built Scope)
      → IsFor native scope others
      → IsFor native scope (
          if same native accelerator && same scope node
          then (if length ids == 0
              then queries []
              else queries (query true accelerator scope ids ∷ []))
          else others)
  accelerators_node_step native scope ids others f =
      test-IsFor native scope (same native accelerator && same scope node) _ others
        (λ h.
          unfold Promised in
          elim (Bool-cases (length ids == 0)) [
            | inl none_there ↦ rw none_there tt
            | inr some_there ↦ rw some_there (
              (refl, refl, refl, rw (differ native scope accelerator node distinct.0.1.1.1.1.0 h)),
              tt,
            )
          ])
        f

  last_step :
      (native scope : Scope)
      → IsFor native scope (
          if same native node && same scope node
          then queries (record (query false node scope []) { query_type = none } ∷ [])
          else unhandled)
  last_step native scope =
      test-IsFor native scope (same native node && same scope node) _ unhandled
        (λ h. unfold Promised in ((refl, refl, refl, rw (agree native scope node h)), tt))
        (record { promised = unfold Promised in tt })

  build-IsFor :
      (native requested : Scope) (hwthreads : List ℕ) (accelerators : List Bytes)
      → IsFor native
          (max native requested)
          (build_scope_queries native requested hwthreads accelerators)
  unfolding build_scope_queries
  build-IsFor native requested hwthreads accelerators =
      let s = max native requested in
      let cores = topology.cores_from_hwthreads hwthreads in
      let sockets = topology.sockets_from_hwthreads hwthreads in
      let domains = topology.memory_domains_from_hwthreads hwthreads in
      accelerators_step native s accelerators _ (
        accelerators_node_step native s accelerators _ (
          native_step native s hwthread (int_to_string_slice hwthreads) _ (
            rows_step native s hwthread core distinct.1.0.0 (rows topology.core_table cores) _ (
              rows_step native s hwthread socket distinct.1.0.1.1.0
                (rows topology.socket_table sockets) _
                (coarser_step native s hwthread node distinct.1.0.1.1.1.0
                  (int_to_string_slice hwthreads) _
                  (native_step native s core (int_to_string_slice cores) _ (
                    rows_step native s core socket distinct.1.1.0.1.0
                      (rows topology.socket_table (topology.sockets_from_cores hwthreads)) _
                      (coarser_step native s core node distinct.1.1.0.1.1.0
                        (int_to_string_slice cores) _
                        (native_step native s memory_domain (int_to_string_slice domains) _ (
                          domains_step native s memory_domain socket distinct.1.1.1.0.0
                            (topology.memory_domains_by_socket domains) _
                            (coarser_step native s memory_domain node distinct.1.1.1.0.1.0
                              (int_to_string_slice domains) _
                              (native_step native s socket (int_to_string_slice sockets) _ (
                                coarser_step native s socket node distinct.1.1.1.1.0.0
                                  (int_to_string_slice sockets) _ (last_step native s))))))))))))))

  -- Each query that `BuildScopeQueries` returns is for the metric and the host that it was called
  -- with and for the coarser of the two scopes, and it aggregates exactly where that scope is not
  -- the native one.
  pub build_scope_queries-Promised :
      (native requested : Scope) (hwthreads : List ℕ) (accelerators : List Bytes)
      → Promised native
          (max native requested)
          (build_scope_queries native requested hwthreads accelerators)
  build_scope_queries-Promised native requested hwthreads accelerators =
      (build-IsFor native requested hwthreads accelerators).promised
