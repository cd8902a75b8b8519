-- ===== src/ScopeQuery/Tests.antt =====
-- A run of `BuildScopeQueries` of pkg/metricstore/scopequery.go.
use cc_backend.Common.{
  ℕ, refl, Bool, true, false, Option, none, some, [], ◌∷◌, ltb, ◌==◌, if◌then◌else◌, ==_iff,
}
use cc_backend.ScopeQuery.{
  Scopes, Topology, build_scope_queries, build_scope_queries-Promised, Promised,
}

-- Six numbers as the scopes, the coarser the lower.
abbrev coarser : ℕ → ℕ → ℕ
coarser m n = if ltb m n then m else n

abbrev six_scopes : Scopes
six_scopes = record {
  Scope = ℕ;
  same = ◌==◌;
  same_iff = ==_iff;
  text = λ n. n ∷ [];
  max = coarser;
  lt = λ m n. ltb n m;
  node = 0;
  socket = 1;
  memory_domain = 2;
  core = 3;
  hwthread = 4;
  accelerator = 5;
  distinct = (
    (refl, (refl, (refl, (refl, (refl, tt))))),
    (
      (refl, (refl, (refl, (refl, tt)))),
      ((refl, (refl, (refl, tt))), ((refl, (refl, tt)), ((refl, tt), (tt, tt)))),
    ),
  );
}

-- One socket with two cores of two hardware threads.
abbrev small : Topology
small = record {
  core_table = (0 ∷ 1 ∷ []) ∷ (2 ∷ 3 ∷ []) ∷ [];
  socket_table = (0 ∷ 1 ∷ 2 ∷ 3 ∷ []) ∷ [];
  cores_from_hwthreads = λ threads. 0 ∷ 1 ∷ [];
  sockets_from_hwthreads = λ threads. 0 ∷ [];
  sockets_from_cores = λ cores. 0 ∷ [];
  memory_domains_from_hwthreads = λ threads. 0 ∷ [];
  memory_domains_by_socket = λ domains. some (domains ∷ []);
}

build_scope_queries_example :
    Promised six_scopes small
      (b'm' ∷ [])
      (b'h' ∷ [])
      4
      3
      (build_scope_queries six_scopes small (b'm' ∷ []) (b'h' ∷ []) 4 3 (0 ∷ 1 ∷ 2 ∷ []) [])
build_scope_queries_example =
    build_scope_queries-Promised six_scopes small (b'm' ∷ []) (b'h' ∷ []) 4 3 (0 ∷ 1 ∷ 2 ∷ []) []

abbrev is_none : Option ℕ → Bool
is_none none = true
is_none (some n) = false
