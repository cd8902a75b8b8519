-- ===== src/HealthCheck.antt =====
-- pkg/metricstore/healthcheck.go: the state of a node by the age of the data of its metrics. A map
-- of names to true is the list of its names. All tests of one call see the same time.
pub mod Grades
mod Tests
use cc_backend.Common.{
  ℕ, zero, suc, ◌+◌, ◌-◌, ◌*◌, ◌/◌, ◌%◌, ◌^◌, ◌≤◌, ◌<◌, ℤ, pos, negsuc, sub_ℕ, pos_part, neg_part,
  ltb_ℤ, leb_ℤ, ◌≤ℤ◌, ◌<ℤ◌, ◌+ℤ◌, ◌-ℤ◌, ◌≡◌, refl, sym, ap, ◌∙◌, Bool, true, false, not, ◌&&◌, ◌||◌,
  Option, none, some, List, [], ◌∷◌, ◌++◌, map, append-nil, append_assoc, ltb, leb, ◌==◌, length,
  get_elem?, ◌⊎◌, inl, inr, ◌↔◌, ◌≢◌, get_or, set, replicate, take, drop, if◌then◌else◌, arith,
  int_laws, Bool-cases, Option-cases, length-append, length-replicate, length-set, All, All-append,
  le→leb, gt→leb, lt→ltb, ge→ltb, ltb→lt, leb→le, ==_iff,
}
use cc_backend.Bytes.{Bytes, key_eq}
use cc_backend.Buffer.{Buffer}
use cc_backend.Level.{Level, level, Children, nil, cons, find_level}

-- schema.MonitoringState of the package cc-lib, as far as it is used here.
pub data MonitoringState : Type 0 where
  full partial failed : MonitoringState

abbrev pub max_missing_data_points : ℕ
max_missing_data_points = 5

-- The maps `healthy` and `degraded`.
pub record Status : Type 0 where
  pub healthy : List Bytes
  pub degraded : List Bytes

unfoldable pub mem : Bytes → List Bytes → Bool
mem n [] = false
mem n (m ∷ ms) = let rest = mem n ms in if key_eq m n then true else rest

unfoldable pub delete : Bytes → List Bytes → List Bytes
delete n [] = []
delete n (m ∷ ms) = let rest = delete n ms in if key_eq m n then rest else m ∷ rest

module _ {F : Type 0} where
  unfoldable pub buffer_exists : List (Buffer F) → Bool
  buffer_exists [] = false
  buffer_exists (b ∷ older) = not (length b.contents == 0)

  unfoldable pub is_buffer_healthy : ℤ → Buffer F → Bool
  is_buffer_healthy now b =
      leb_ℤ (now -ℤ (b.start +ℤ pos (b.frequency * length b.contents)))
        (pos (max_missing_data_points * b.frequency))

-- `offset` is the look-up in m.Metrics; every level has a slot for each offset.
module _ (offset : Bytes → Option ℕ) (now : ℤ) where
  -- The chain of a metric in a level, empty for an unknown metric.
  unfoldable pub chain_of : {F : Type 0} → List (List (Buffer F)) → Bytes → List (Buffer F)
  chain_of ms name = elim (offset name) [ none ↦ [] | some i ↦ get_or ms i [] ]

  unfoldable pub visit_buffer : {F : Type 0} → Bytes → List (Buffer F) → Status → Status
  visit_buffer name [] st = st
  visit_buffer name (b ∷ older) st =
      if not (buffer_exists (b ∷ older))
      then st
      else if not (is_buffer_healthy now b)
      then record { healthy = delete name st.healthy; degraded = name ∷ st.degraded }
      else if not (mem name st.degraded)
      then record { healthy = name ∷ st.healthy; degraded = st.degraded }
      else st

  -- The body of the loop over the expected metrics.
  unfoldable pub visit : {F : Type 0} → List (List (Buffer F)) → Bytes → Status → Status
  visit ms name st =
      if mem name st.degraded
      then st
      else elim (offset name) [ none ↦ st | some i ↦ visit_buffer name (get_or ms i []) st ]

  unfoldable pub visit_all : {F : Type 0} → List (List (Buffer F)) → List Bytes → Status → Status
  visit_all ms [] st = st
  visit_all ms (name ∷ expected) st = visit_all ms expected (visit ms name st)

  unfoldable mutual
    pub collect_metric_status : {F : Type 0} → List Bytes → Level F → Status → Status
    collect_metric_status expected (level cs ms) st =
        collect_children expected cs (visit_all ms expected st)

    pub collect_children : {F : Type 0} → List Bytes → Children F → Status → Status
    collect_children expected nil st = st
    collect_children expected (cons key child cs) st =
        collect_children expected cs (collect_metric_status expected child st)

  -- The loop of `getHealthyMetrics`: the degraded list, then the missing one.
  unfoldable pub sort_metrics : Status → List Bytes → List Bytes × List Bytes
  sort_metrics st [] = ([], [])
  sort_metrics st (name ∷ expected) =
      let (degraded, missing) = sort_metrics st expected in
      if mem name st.healthy
      then (degraded, missing)
      else if mem name st.degraded
      then (name ∷ degraded, missing)
      else (degraded, name ∷ missing)

  unfoldable pub get_healthy_metrics : {F : Type 0} → Level F → List Bytes → List Bytes × List Bytes
  get_healthy_metrics l expected =
      sort_metrics (collect_metric_status expected l (record { healthy = []; degraded = [] }))
        expected

  -- The switch of `HealthCheck`
  unfoldable pub judge : ℕ → ℕ → ℕ → MonitoringState
  judge expected degraded missing =
      if degraded == 0 && missing == 0
      then full
      else if expected - degraded - missing == 0
      then failed
      else partial

  -- The body of its loop over the hosts, without the JSON of the two lists; `none` of the look-up
  -- is the error of `GetHealthyMetrics`.
  unfoldable pub check_node : {F : Type 0} → Level F → Bytes → Bytes → List Bytes → MonitoringState
  check_node root cluster hostname expected = elim (find_level root (cluster ∷ hostname ∷ [])) [
    | none ↦ failed
    | some l ↦
        (let (degraded, missing) = get_healthy_metrics l expected in
          judge (length expected) (length degraded) (length missing))
  ]

  -- `results`, in the order of the loop.
  unfoldable pub health_check :
      {F : Type 0} → Level F → Bytes → List Bytes → List Bytes → List (Bytes × MonitoringState)
  health_check root cluster [] expected = []
  health_check root cluster (hostname ∷ nodes) expected =
      (hostname, check_node root cluster hostname expected)
      ∷ health_check root cluster nodes expected
