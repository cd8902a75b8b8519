-- ===== src/LineProtocol/Kept.antt =====
-- What a step of `DecodeLine` of pkg/metricstore/lineprotocol.go keeps from one line to the next.
use cc_backend.Common.{
  ℕ, ℤ, ◌≡◌, refl, sym, true, not, ◌||◌, Option, none, some, List, [], ◌∷◌, ◌++◌, ◌⊎◌, inl, inr,
  arith, Bool-cases, Option-cases,
}
use cc_backend.Bytes.{Bytes}
use cc_backend.Store.{Metric}
use cc_backend.LineProtocol.{
  is_valid_path_component, Line, DecodeError, DecodeState, TagState, Event, get_level, sample, Step,
  next, stop, read_fields, read_time, finish_line, decode_tagged,
}

abbrev pub IsValid : Bytes → Type 0
IsValid s = is_valid_path_component s ≡ true

-- The cached level is that of the cluster and the host that are remembered, which are safe.
abbrev pub IsCached : Option (List Bytes) → Bytes → Bytes → Type 0
IsCached none c h = Unit {0}
IsCached (some path) c h = (path ≡ c ∷ h ∷ []) × IsValid c × IsValid h

module _ {T F : Type 0} (unix : T → ℤ) (now : T) (metrics : Bytes → Option (ℕ × ℕ))
    (spare : Bytes → Bytes) (cluster_default : Bytes) where
  -- A step that keeps a property of the state, and whose events have one.
  abbrev pub Keeps :
      (DecodeState T F → Type 0) → (List (Event F) → Type 0) → Step (DecodeState T F) F → Type 0
  Keeps P Q (next st events) = P st × Q events
  Keeps P Q (stop e events) = Q events

  abbrev pub StateIsCached : DecodeState T F → Type 0
  StateIsCached st = IsCached st.level st.prev_cluster st.prev_host

  -- The sample of a line with these tags.
  abbrev pub sample_of : TagState → Bytes → List Bytes → List Bytes → Metric F → ℤ → Event F
  sample_of t name path selector m time = sample (record {
    name = name;
    cluster = t.cluster;
    node = t.host;
    path = path;
    selector = selector;
    metric = m;
    timestamp = time;
  })

  finish_line-Keeps :
      (Q : List (Event F) → Type 0) (st : DecodeState T F) (t : TagState)
      (path selector : List Bytes) (line : Line T F) (name : Bytes) (config : ℕ × ℕ)
      (made : List (Event F))
      → StateIsCached st
      → Q made
      → ((m : Metric F) (time : ℤ) → Q (made ++ sample_of t name path selector m time ∷ []))
      → Keeps StateIsCached Q (
          finish_line unix now metrics spare cluster_default st t path selector line name config
            made)
  unfolding finish_line
  finish_line-Keeps Q st t path selector line name config made k q f =
      go (read_fields st.value line.fields) refl
    where
      go :
          (r : DecodeError ⊎ F)
          → read_fields st.value line.fields ≡ r
          → Keeps StateIsCached Q (
              finish_line unix now metrics spare cluster_default st t path selector line name config
                made)
      go (inl err) e = rw (e, finish_line) q
      go (inr v) e = elim (Bool-cases line.fields_end) [
        | inr broken ↦ rw (e, finish_line) (simp broken q)
        | inl complete ↦ elim (Option-cases (read_time now st.time line)) [
          | inl untimed ↦ rw (e, finish_line) (simp (complete, untimed) q)
          | inr (time, timed) ↦
              rw (e, finish_line)
                (simp (complete, timed)
                  (
                    k,
                    f (record { offset = config.0; frequency = config.1; value = v }) (unix time),
                  ))
        ]
      ]

  pub IsCached-stay :
      (st : DecodeState T F) (l : Option (List Bytes))
      → (l ≡ none) ⊎ (l ≡ st.level)
      → StateIsCached st
      → IsCached l st.prev_cluster st.prev_host
  IsCached-stay st none h k = tt
  IsCached-stay st (some path) (inl e) k = absurd (none_some (sym e))
    where
      none_some : none ≡ some path → ⊥
      none_some q = cc
  IsCached-stay st (some path) (inr e) k = rw (sym e) at k

  pub decode_tagged-Keeps :
      (Q : List (Event F) → Type 0) (st : DecodeState T F) (t : TagState) (line : Line T F)
      (name : Bytes) (config : ℕ × ℕ)
      → (t.level ≡ none) ⊎ (t.level ≡ st.level)
      → StateIsCached st
      → Q []
      → (IsValid t.cluster → IsValid t.host → Q (get_level (t.cluster ∷ t.host ∷ []) ∷ []))
      → ((selector : List Bytes) (m : Metric F) (time : ℤ)
          → IsValid t.cluster
          → IsValid t.host
          → Q (
              get_level (t.cluster ∷ t.host ∷ [])
              ∷ sample_of t name (t.cluster ∷ t.host ∷ []) selector m time
              ∷ []))
      → ((path selector : List Bytes) (m : Metric F) (time : ℤ)
          → IsValid t.cluster
          → IsValid t.host
          → t.level ≡ some path
          → Q (sample_of t name path selector m time ∷ []))
      → Keeps StateIsCached Q
          (decode_tagged unix now metrics spare cluster_default st t line name config)
  unfolding decode_tagged
  decode_tagged-Keeps Q st t line name config lev k nothing g f f' =
      elim (Bool-cases
        (not (is_valid_path_component t.cluster) || not (is_valid_path_component t.host))) [
          | inl bad ↦ rw bad (IsCached-stay st t.level lev k, nothing)
          | inr good ↦
              let c : IsValid t.cluster = ground arith in
              let h : IsValid t.host = ground arith in
              elim (Option-cases t.level) [
                | inl fresh ↦
                    simp (good, fresh)
                      (finish_line-Keeps Q _ t (t.cluster ∷ t.host ∷ []) _ line name config
                        (get_level (t.cluster ∷ t.host ∷ []) ∷ []) (refl, c, h) (g c h)
                        (λ m time. f _ m time c h))
                | inr (path, have) ↦
                    simp (good, have)
                      (finish_line-Keeps Q _ t path _ line name config []
                        (rw have at (IsCached-stay st t.level lev k)) nothing
                        (λ m time. f' path _ m time c h have))
              ]
        ]
