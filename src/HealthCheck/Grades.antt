-- ===== src/HealthCheck/Grades.antt =====
-- What `collectMetricStatus` and `HealthCheck` of pkg/metricstore/healthcheck.go find out.
use cc_backend.Common.{
  ℕ, ◌+◌, ℤ, ◌≡◌, refl, sym, ap, ◌∙◌, Bool, true, false, not, ◌&&◌, ◌||◌, Option, none, some, List,
  [], ◌∷◌, ◌==◌, length, inl, inr, get_or, if◌then◌else◌, arith, Bool-cases, Option-cases, All,
}
use cc_backend.Bytes.{Bytes, key_eq, key_eq_iff, key_eq_refl}
use cc_backend.Buffer.{Buffer}
use cc_backend.Level.{Level, level, Children, nil, cons, find_level}
use cc_backend.HealthCheck.{
  MonitoringState, full, partial, failed, Status, mem, delete, buffer_exists, is_buffer_healthy,
  visit_buffer, visit, visit_all, collect_metric_status, collect_children, sort_metrics,
  get_healthy_metrics, judge, check_node,
}

mem-delete : (n m : Bytes) (ms : List Bytes) → mem n (delete m ms) ≡ (not (key_eq m n) && mem n ms)
unfolding mem delete
mem-delete n m [] = ground arith
mem-delete n m (k ∷ ms) =
    ground (arith, mem-delete n m ms, key_eq_iff m n, key_eq_iff k n, key_eq_iff k m)

module _ (offset : Bytes → Option ℕ) (now : ℤ) where
  -- A metric is seen in a level that holds data of it, and stale in one where that is too old.
  unfoldable pub seen_here : {F : Type 0} → List (List (Buffer F)) → Bytes → Bool
  seen_here ms name = elim (offset name) [ none ↦ false | some i ↦ buffer_exists (get_or ms i []) ]

  abbrev stale_head : {F : Type 0} → List (Buffer F) → Bool
  stale_head [] = false
  stale_head (b ∷ older) = buffer_exists (b ∷ older) && not (is_buffer_healthy now b)

  unfoldable pub stale_here : {F : Type 0} → List (List (Buffer F)) → Bytes → Bool
  stale_here ms name = elim (offset name) [ none ↦ false | some i ↦ stale_head (get_or ms i []) ]

  unfoldable mutual
    pub seen : {F : Type 0} → Bytes → Level F → Bool
    seen n (level cs ms) = seen_here ms n || seen_below n cs

    pub seen_below : {F : Type 0} → Bytes → Children F → Bool
    seen_below n nil = false
    seen_below n (cons k l cs) = seen n l || seen_below n cs

  unfoldable mutual
    pub stale : {F : Type 0} → Bytes → Level F → Bool
    stale n (level cs ms) = stale_here ms n || stale_below n cs

    pub stale_below : {F : Type 0} → Bytes → Children F → Bool
    stale_below n nil = false
    stale_below n (cons k l cs) = stale n l || stale_below n cs

  -- What became of the maps for one name, where data was seen or was stale.
  record Moved (n : Bytes) (st st' : Status) (saw old : Bool) : Type 0 where
    bad : mem n st'.degraded ≡ (mem n st.degraded || old)
    good : mem n st'.healthy ≡ (not (mem n st.degraded || old) && (mem n st.healthy || saw))

  -- No name is in both maps.
  abbrev Apart : Bytes → Status → Type 0
  Apart n st = (mem n st.degraded && mem n st.healthy) ≡ false

  Moved-Apart :
      (n : Bytes) (st st' : Status) {saw old : Bool} → Moved n st st' saw old → Apart n st'
  Moved-Apart n st st' m = ground (arith, m.bad, m.good)

  Moved-stay : (n : Bytes) (st : Status) → Apart n st → Moved n st st false false
  Moved-stay n st h = record { bad = ground arith; good = ground arith }

  Moved-then :
      (n : Bytes) (st st' st'' : Status) {saw old saw' old' : Bool}
      → Moved n st st' saw old
      → Moved n st' st'' saw' old'
      → Moved n st st'' (saw || saw') (old || old')
  Moved-then n st st' st'' m k = record {
    bad = ground (arith, m.bad, m.good, k.bad, k.good);
    good = ground (arith, m.bad, m.good, k.bad, k.good);
  }

  same_mem : (n name : Bytes) (ms : List Bytes) → key_eq name n ≡ true → mem name ms ≡ mem n ms
  same_mem n name ms h = ap (λ k. mem k ms) ((key_eq_iff name n).0 h)

  module _ {F : Type 0} where
    visit_buffer-Moved :
        (n name : Bytes) (c : List (Buffer F)) (st : Status)
        → Apart n st
        → mem name st.degraded ≡ false
        → Moved n st
            (visit_buffer offset now name c st)
            (key_eq name n && buffer_exists c)
            (key_eq name n && stale_head c)
    unfolding visit_buffer mem
    visit_buffer-Moved n name [] st h k = record {
      bad = unfold visit_buffer buffer_exists in ground arith;
      good = unfold visit_buffer buffer_exists in ground arith;
    }
    visit_buffer-Moved n name (b ∷ older) st h k = record {
      bad =
          unfold visit_buffer mem in
          ground (arith, mem-delete n name st.healthy, same_mem n name st.degraded);
      good =
          unfold visit_buffer mem in
          ground (arith, mem-delete n name st.healthy, same_mem n name st.degraded);
    }

    module _ (ms : List (List (Buffer F))) where
      found_here :
          (n name : Bytes) (i : ℕ)
          → offset name ≡ some i
          → ((key_eq name n && seen_here ms n) ≡ (key_eq name n && buffer_exists (get_or ms i [])))
            × ((key_eq name n && stale_here ms n) ≡ (key_eq name n && stale_head (get_or ms i [])))
      unfolding seen_here stale_here
      found_here n name i e = elim (Bool-cases (key_eq name n)) [
        | inl same ↦
            let at : offset n ≡ some i = ap offset (sym ((key_eq_iff name n).0 same)) ∙ e in
            (rw (at, seen_here), rw (at, stale_here))
        | inr other ↦ (rw other, rw other)
      ]

      unknown_here :
          (n name : Bytes)
          → offset name ≡ none
          → ((key_eq name n && seen_here ms n) ≡ false)
            × ((key_eq name n && stale_here ms n) ≡ false)
      unfolding seen_here stale_here
      unknown_here n name e = elim (Bool-cases (key_eq name n)) [
        | inl same ↦
            let at : offset n ≡ none = ap offset (sym ((key_eq_iff name n).0 same)) ∙ e in
            (rw (same, at, seen_here), rw (same, at, stale_here))
        | inr other ↦ (rw other, rw other)
      ]

      visit-Moved :
          (n name : Bytes) (st : Status)
          → Apart n st
          → Moved n st
              (visit offset now ms name st)
              (key_eq name n && seen_here ms n)
              (key_eq name n && stale_here ms n)
      unfolding visit
      visit-Moved n name st h = elim (Bool-cases (mem name st.degraded)) [
        | inl bad ↦ rw bad (record {
          bad = ground (arith, same_mem n name st.degraded);
          good = ground (arith, same_mem n name st.degraded);
        })
        | inr fine ↦ elim (Option-cases (offset name)) [
          | inl e ↦
              rw (fine, e, visit, (unknown_here n name e).0, (unknown_here n name e).1)
                (Moved-stay n st h)
          | inr (i, e) ↦
              rw (fine, e, visit, (found_here n name i e).0, (found_here n name i e).1)
                (visit_buffer-Moved n name (get_or ms i []) st h fine)
        ]
      ]

      visit_all-Moved :
          (n : Bytes) (expected : List Bytes) (st : Status)
          → Apart n st
          → Moved n st
              (visit_all offset now ms expected st)
              (mem n expected && seen_here ms n)
              (mem n expected && stale_here ms n)
      unfolding visit_all mem
      visit_all-Moved n [] st h = Moved-stay n st h
      visit_all-Moved n (name ∷ expected) st h =
          let one = visit-Moved n name st h in
          let all =
            visit_all-Moved n expected (visit offset now ms name st) (Moved-Apart n _ _ one) in
          let m = Moved-then n _ _ _ one all in
          record {
            bad = unfold visit_all mem in ground (arith, m.bad);
            good = unfold visit_all mem in ground (arith, m.good);
          }

  mutual
    unfolding collect_metric_status collect_children seen seen_below stale stale_below

    collect-Moved :
        {F : Type 0} (n : Bytes) (expected : List Bytes) (l : Level F) (st : Status)
        → Apart n st
        → Moved n st
            (collect_metric_status offset now expected l st)
            (mem n expected && seen n l)
            (mem n expected && stale n l)
    collect-Moved n expected (level cs ms) st h =
        let one = visit_all-Moved ms n expected st h in
        let all = collect_children-Moved n expected cs _ (Moved-Apart n _ _ one) in
        let m = Moved-then n _ _ _ one all in
        record { bad = ground (arith, m.bad); good = ground (arith, m.good) }

    collect_children-Moved :
        {F : Type 0} (n : Bytes) (expected : List Bytes) (cs : Children F) (st : Status)
        → Apart n st
        → Moved n st
            (collect_children offset now expected cs st)
            (mem n expected && seen_below n cs)
            (mem n expected && stale_below n cs)
    collect_children-Moved n expected nil st h = record { bad = ground arith; good = ground arith }
    collect_children-Moved n expected (cons k l cs) st h =
        let one = collect-Moved n expected l st h in
        let all = collect_children-Moved n expected cs _ (Moved-Apart n _ _ one) in
        let m = Moved-then n _ _ _ one all in
        record { bad = ground (arith, m.bad); good = ground (arith, m.good) }

  -- From empty maps, `collectMetricStatus` leaves in `degraded` the expected metrics that are stale
  -- somewhere in the tree, and in `healthy` those that have data and are stale nowhere.
  pub collect_metric_status_lem :
      {F : Type 0} (n : Bytes) (expected : List Bytes) (l : Level F)
      → (mem n
            (collect_metric_status offset now expected l
              (record { healthy = []; degraded = [] })).degraded
          ≡ (mem n expected && stale n l))
        × (mem n
              (collect_metric_status offset now expected l
                (record { healthy = []; degraded = [] })).healthy
            ≡ (mem n expected && (seen n l && not (stale n l))))
  unfolding mem
  collect_metric_status_lem n expected l =
      let m =
        collect-Moved n expected l (record { healthy = []; degraded = [] }) (unfold mem in refl) in
      (m.bad, m.good ∙ ground arith)

  -- The metrics without a stale buffer, and with data.
  abbrev pub fine : {F : Type 0} → Level F → Bytes → Bool
  fine l n = seen n l && not (stale n l)

  unfoldable pub count_fine : {F : Type 0} → Level F → List Bytes → ℕ
  count_fine l [] = 0
  count_fine l (n ∷ names) = (if fine l n then 1 else 0) + count_fine l names

  -- The counts of `sort_metrics` where the maps are right for each name.
  sort_metrics-count :
      {F : Type 0} (l : Level F) (st : Status) (expected : List Bytes)
      → All (λ n. (mem n st.healthy ≡ fine l n)) expected
      → length (sort_metrics offset now st expected).0
          + length (sort_metrics offset now st expected).1
          + count_fine l expected
        ≡ length expected
  unfolding sort_metrics count_fine
  sort_metrics-count l st [] h = refl
  sort_metrics-count l st (n ∷ expected) (h, hs) =
      ground (arith, sort_metrics-count l st expected hs)

  -- `healthy` holds exactly the fine ones among the names of a part of the expected list.
  healthy_fine :
      {F : Type 0} (l : Level F) (expected part : List Bytes)
      → All (λ n. mem n expected ≡ true) part
      → All
          (λ n.
            mem n
              (collect_metric_status offset now expected l
                (record { healthy = []; degraded = [] })).healthy
            ≡ fine l n)
          part
  healthy_fine l expected [] h = tt
  healthy_fine l expected (n ∷ part) (h, hs) =
      ((collect_metric_status_lem n expected l).1 ∙ rw h, healthy_fine l expected part hs)

  mem_self : (names : List Bytes) → All (λ n. mem n names ≡ true) names
  mem_self names = go names names (λ n h. h)
    where
      go :
          (part names : List Bytes)
          → ((n : Bytes) → mem n part ≡ true → mem n names ≡ true)
          → All (λ n. mem n names ≡ true) part
      go [] names f = tt
      go (n ∷ part) names f = (
        f n (unfold mem in rw (key_eq_refl n)),
        go part names (λ m h. f m (unfold mem in ground (arith, h))),
      )

  -- The state that is meant: of `n` expected metrics `good` are fine.
  abbrev pub verdict : ℕ → ℕ → MonitoringState
  verdict n good = if good == n then full else if good == 0 then failed else partial

  judge_lem : (n d m good : ℕ) → d + m + good ≡ n → judge offset now n d m ≡ verdict n good
  unfolding judge
  judge_lem n d m good h = ground (arith, h)

  abbrev pub node_verdict : {F : Type 0} → List Bytes → Option (Level F) → MonitoringState
  node_verdict expected none = failed
  node_verdict expected (some l) = verdict (length expected) (count_fine l expected)

  -- `HealthCheck` finds a node without a level failed; another one is full if every expected metric
  -- has data and is stale nowhere below the node, failed if that holds of none of them, and partial
  -- in between.
  pub check_node_lem :
      {F : Type 0} (root : Level F) (cluster hostname : Bytes) (expected : List Bytes)
      → check_node offset now root cluster hostname expected
        ≡ node_verdict expected (find_level root (cluster ∷ hostname ∷ []))
  unfolding check_node get_healthy_metrics
  check_node_lem root cluster hostname expected =
      elim (Option-cases (find_level root (cluster ∷ hostname ∷ []))) [
        | inl e ↦ rw (e, check_node)
        | inr (l, e) ↦
            rw (e, check_node)
              (judge_lem (length expected) _ _ (count_fine l expected) (
                sort_metrics-count l _ expected
                  (healthy_fine l expected expected (mem_self expected))))
      ]
