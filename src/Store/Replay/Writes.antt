-- ===== src/Store/Replay/Writes.antt =====
-- A replay of the log of pkg/metricstore/walCheckpoint.go against the writes of
-- pkg/metricstore/metricstore.go.
use cc_backend.Common.{
  ℕ, ◌<◌, ℤ, ltb_ℤ, ◌≡◌, refl, sym, ap, ◌∙◌, false, Option, none, some, List, [], ◌∷◌, ◌==◌, inl,
  inr, get_or, if◌then◌else◌, arith, Bool-cases, Option-cases, All,
}
use cc_backend.Bytes.{Bytes, key_eq, key_eq_iff}
use cc_backend.Buffer.{Floats, Buffer, Pool}
use cc_backend.Level.{
  Level, level, Children, nil, cons, metrics, find_child, set_child, find_level,
  find_level_or_create,
}
use cc_backend.Level.Create.{
  found_or, find_child-set_child, find-cons, find-missing, create-cons, find-find_level_or_create,
  create_keeps,
}
use cc_backend.Store.{open_chain, replace_metrics, write_chain, write_metrics, write_to_level}
use cc_backend.Store.Replay.{
  join_selector, LevelCache, look_up, ReplayState, write_sample, write_at, replay_message,
  replay_messages,
}
use cc_backend.Store.Replay.Cache.{IsPlain, join_selector-injective, look_up-All}
use cc_backend.Wal.{WalMessage}

module _ {F : Type 0} where
  -- There is a level at the path.
  IsThere : Level F → List Bytes → Type 0
  IsThere l path = (t : Level F) × (find_level l path ≡ some t)

  none-some : (t : Level F) → none ≡ some t → ⊥
  none-some t q = cc

  set_child_same :
      (k : Bytes) (cs : Children F) {c : Level F} → find_child k cs ≡ some c → set_child k c cs ≡ cs
  unfolding find_child set_child
  set_child_same k nil e = cc
  set_child_same k (cons j l cs) {c} e = elim (Bool-cases (key_eq j k)) [
    | inl here ↦
        (let found : some l ≡ some c = sym (rw here) ∙ e in
          let same : l ≡ c = cc in rw (here, same) refl)
    | inr there ↦ rw there (ap (cons j l) (set_child_same k cs (sym (rw there) ∙ e)))
  ]

  -- A level that is there is not made again.
  create_present :
      (l : Level F) (path : List Bytes) (n : ℕ) → IsThere l path → find_level_or_create l path n ≡ l
  unfolding IsThere
  create_present l [] n (t, e) = unfold find_level_or_create in refl
  create_present (level cs ms) (s ∷ path) n (t, e) = elim (Option-cases (find_child s cs)) [
    | inl missing ↦ absurd (none-some t (sym (find-missing cs ms s path missing) ∙ e))
    | inr (c, found) ↦
        (let below = create_present c path n (t, sym (find-cons cs ms s path c found) ∙ e) in
          create-cons cs ms s path n
          ∙ rw (found, below) (ap (λ cs'. level cs' ms) (set_child_same s cs found)))
  ]

  replace_keeps :
      (l : Level F) (sel path : List Bytes) (ms' : List (List (Buffer F)))
      → IsThere l path
      → IsThere (replace_metrics l sel ms') path
  unfolding IsThere replace_metrics
  replace_keeps l sel [] ms' h = (replace_metrics l sel ms', unfold find_level in refl)
  replace_keeps (level cs ms) [] (p ∷ path) ms' (t, e) = (t, unfold find_level in e)
  replace_keeps (level cs ms) (s ∷ sel) (p ∷ path) ms' (t, e) =
      elim (Option-cases (find_child s cs)) [
        | inl missing ↦ rw (missing, replace_metrics) (t, e)
        | inr (c, found) ↦
            rw (found, replace_metrics)
              (elim (Bool-cases (key_eq s p)) [
                | inl here ↦
                    (let same = (key_eq_iff s p).0 here in
                      let below =
                        replace_keeps c sel path ms'
                          (t, sym (find-cons cs ms p path c (rw (sym same) found)) ∙ e) in
                      (
                        below.0,
                        find-cons (set_child s (replace_metrics c sel ms') cs) ms p path
                              (replace_metrics c sel ms')
                              (find_child-set_child s p (replace_metrics c sel ms') cs
                                ∙ rw here refl)
                            ∙ below.1,
                      ))
                | inr there ↦ elim (Option-cases (find_child p cs)) [
                  | inl missing ↦ absurd (none-some t (sym (find-missing cs ms p path missing) ∙ e))
                  | inr (d, at_p) ↦ (
                    t,
                    find-cons (set_child s (replace_metrics c sel ms') cs) ms p path d
                          (find_child-set_child s p (replace_metrics c sel ms') cs ∙ rw there at_p)
                        ∙ (sym (find-cons cs ms p path d at_p) ∙ e),
                  )
                ]
              ])
      ]

  create-IsThere_all :
      (l : Level F) (sel path : List Bytes) (n : ℕ)
      → IsThere l path
      → IsThere (find_level_or_create l sel n) path
  unfolding IsThere
  create-IsThere_all l sel path n (t, e) =
      let kept = create_keeps l sel path n t e in (kept.0, kept.1)

  create-IsThere :
      (l : Level F) (sel : List Bytes) (n : ℕ) → IsThere (find_level_or_create l sel n) sel
  unfolding IsThere
  create-IsThere l sel n = (found_or n (find_level l sel), find-find_level_or_create l sel n)

module _ (fl : Floats) (n : ℕ) (retained : Bytes → Option (ℕ × ℕ)) (from : ℤ) where
  open fl use {Float}

  -- The effect of WriteToLevel on a message that is kept.
  abbrev pub write_message : Pool Float → Level Float → WalMessage Float → Pool Float × Level Float
  write_message pool tree msg =
      if ltb_ℤ msg.timestamp from then (pool, tree) else elim (retained msg.metric_name) [
        | none ↦ (pool, tree)
        | some config ↦
            (let r =
                write_to_level fl n pool tree msg.selector msg.timestamp
                  (record { offset = config.0; frequency = config.1; value = msg.value } ∷ []) in
              (r.pool, r.left))
      ]

  unfoldable pub write_messages :
      Pool Float → Level Float → List (WalMessage Float) → Pool Float × Level Float
  write_messages pool tree [] = (pool, tree)
  write_messages pool tree (msg ∷ msgs) =
      let (p, t) = write_message pool tree msg in write_messages p t msgs

  module _
      (frequencies : (name : Bytes) (config : ℕ × ℕ)
        → retained name ≡ some config
        → 0 < config.1) where
    write_sample_lem :
        (pool : Pool Float) (ms : List (List (Buffer Float))) (config : ℕ × ℕ) (ts : ℤ) (v : Float)
        → 0 < config.1
        → let r =
            write_metrics fl pool ms ts
              (record { offset = config.0; frequency = config.1; value = v } ∷ []) in
          write_sample fl pool ms config ts v ≡ (r.pool, r.left)
    unfolding write_sample write_metrics
    write_sample_lem pool ms config ts v h =
        let positive : (config.1 == 0) ≡ false = ground arith in
        elim (Option-cases (
          write_chain fl (open_chain pool (get_or ms config.0 []) ts config.1).0
            (open_chain pool (get_or ms config.0 []) ts config.1).1 ts v)) [
              | inl error ↦ rw (write_sample, positive, error) refl
              | inr (r, done) ↦ rw (write_sample, positive, done) refl
            ]

    write_at_lem :
        (pool : Pool Float) (tree : Level Float) (sel : List Bytes) (config : ℕ × ℕ) (ts : ℤ)
        (v : Float)
        → 0 < config.1
        → let r =
            write_to_level fl n pool tree sel ts
              (record { offset = config.0; frequency = config.1; value = v } ∷ []) in
          write_at fl pool (find_level_or_create tree sel n) sel config ts v ≡ (r.pool, r.left)
    unfolding write_at write_to_level
    write_at_lem pool tree sel config ts v h =
        elim (Option-cases (find_level (find_level_or_create tree sel n) sel)) [
          | inl missing ↦ rw (write_at, write_to_level, missing) refl
          | inr (l, found) ↦
              rw (write_at, write_to_level, found, write_sample_lem pool (metrics l) config ts v h)
                refl
        ]

    -- A level that is looked up is there, at the path of its key.
    IsCached : Level Float → Bytes × List Bytes → Type 0
    IsCached tree entry =
        (entry.0 ≡ join_selector entry.1) × All IsPlain entry.1 × IsThere tree entry.1

    IsCached-map :
        (t t' : Level Float) (cache : LevelCache)
        → ((p : List Bytes) → IsThere t p → IsThere t' p)
        → All (IsCached t) cache
        → All (IsCached t') cache
    unfolding IsCached
    IsCached-map t t' [] f h = tt
    IsCached-map t t' (e ∷ cache) f ((k, plain, there), hs) =
        ((k, plain, f e.1 there), IsCached-map t t' cache f hs)

    write_at_keeps :
        (pool : Pool Float) (tree : Level Float) (sel : List Bytes) (config : ℕ × ℕ) (ts : ℤ)
        (v : Float) (p : List Bytes)
        → IsThere tree p
        → IsThere (write_at fl pool tree sel config ts v).1 p
    unfolding write_at
    write_at_keeps pool tree sel config ts v p h = elim (Option-cases (find_level tree sel)) [
      | inl missing ↦ rw (write_at, missing) h
      | inr (l, found) ↦ rw (write_at, found) (replace_keeps tree sel p _ h)
    ]

    replay_message_lem :
        (st : ReplayState Float) (msg : WalMessage Float)
        → All IsPlain msg.selector
        → All (IsCached st.tree) st.cache
        → let st' = replay_message fl n retained from st msg in
          (write_message st.pool st.tree msg ≡ (st'.pool, st'.tree))
          × All (IsCached st'.tree) st'.cache
    unfolding replay_message IsCached
    replay_message_lem st msg plain h = elim (Bool-cases (ltb_ℤ msg.timestamp from)) [
      | inl old ↦ rw old (refl, h)
      | inr recent ↦ elim (Option-cases (retained msg.metric_name)) [
        | inl unknown ↦ rw (recent, unknown) (refl, h)
        | inr (config, known) ↦
            elim (Option-cases (look_up (join_selector msg.selector) st.cache)) [
              | inl missing ↦
                  let made = find_level_or_create st.tree msg.selector n in
                  let stays = λ (p : List Bytes). λ (there : IsThere st.tree p).
                    write_at_keeps st.pool made msg.selector config msg.timestamp msg.value p
                      (create-IsThere_all st.tree msg.selector p n there) in
                  rw (recent, known, missing)
                    (
                      sym (
                          write_at_lem st.pool st.tree msg.selector config msg.timestamp msg.value
                            (frequencies msg.metric_name config known)),
                      (
                        (
                          refl,
                          plain,
                          write_at_keeps st.pool made msg.selector config msg.timestamp msg.value
                              msg.selector (create-IsThere st.tree msg.selector n),
                        ),
                        IsCached-map st.tree _ st.cache stays h,
                      ),
                    )
              | inr (path, found) ↦
                  let (key, path_plain, there) =
                    look_up-All (IsCached st.tree) (join_selector msg.selector) st.cache h found in
                  let same = join_selector-injective msg.selector path plain path_plain key in
                  let stays = λ (p : List Bytes). λ (there' : IsThere st.tree p).
                    write_at_keeps st.pool st.tree path config msg.timestamp msg.value p there' in
                  rw (recent, known, found)
                    (
                      rw same (
                          sym (
                            write_at_lem st.pool st.tree path config msg.timestamp msg.value
                              (frequencies msg.metric_name config known))
                          ∙ ap (λ t. write_at fl st.pool t path config msg.timestamp msg.value)
                              (create_present st.tree path n there)),
                      IsCached-map st.tree _ st.cache stays h,
                    )
            ]
      ]
    ]

    replay_messages_lem :
        (st : ReplayState Float) (msgs : List (WalMessage Float))
        → All (λ m. All IsPlain m.selector) msgs
        → All (IsCached st.tree) st.cache
        → let st' = replay_messages fl n retained from st msgs in
          write_messages st.pool st.tree msgs ≡ (st'.pool, st'.tree)
    unfolding replay_messages write_messages
    replay_messages_lem st [] plain h = refl
    replay_messages_lem st (msg ∷ msgs) (plain, plains) h =
        let (same, kept) = replay_message_lem st msg plain h in
        let st' = replay_message fl n retained from st msg in
        rw same (replay_messages_lem st' msgs plains kept)

    -- Where every known metric has a frequency and the selectors consist of names that are not empty
    -- and have no null byte, a replay does to the tree and the pool what WriteToLevel does for the
    -- messages that are recent enough, one after the other: its cache of levels changes nothing.
    pub replay_messages-writes :
        (pool : Pool Float) (tree : Level Float) (msgs : List (WalMessage Float))
        → All (λ m. All IsPlain m.selector) msgs
        → let st =
            replay_messages fl n retained from
              (record { pool = pool; tree = tree; cache = [] })
              msgs in
          (st.pool, st.tree) ≡ write_messages pool tree msgs
    replay_messages-writes pool tree msgs plain =
        sym (replay_messages_lem (record { pool = pool; tree = tree; cache = [] }) msgs plain tt)
