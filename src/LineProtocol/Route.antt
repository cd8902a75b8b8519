-- ===== src/LineProtocol/Route.antt =====
-- Where `DecodeLine` of pkg/metricstore/lineprotocol.go sends its samples.
use cc_backend.Common.{
  ℕ, ℤ, ◌≡◌, refl, ◌∙◌, Bool, false, Option, none, some, List, [], ◌∷◌, ◌++◌, append-nil, sym, ◌⊎◌,
  inl, inr, Bool-cases, Option-cases, All, All-append,
}
use cc_backend.Bytes.{Bytes}
use cc_backend.Store.{Metric}
use cc_backend.LineProtocol.{
  Line, Cache, DecodeState, TagState, Event, get_level, sample, Step, next, stop, scan_tags,
  decode_tagged, no_tags, decode_line, decode_lines, decode,
}
use cc_backend.LineProtocol.Scan.{
  is_cluster_tag, is_host_tag, has_tag, last_tag, IsTagged, Scanned, scan_tags-Scanned,
  scan_tags-last_tag,
}
use cc_backend.LineProtocol.Kept.{
  IsValid, Keeps, sample_of, StateIsCached, IsCached-stay, decode_tagged-Keeps,
}
use cc_backend.LineProtocol.Safe.{IsSafe, IsConfined, is_valid_path_component-IsSafe}

-- The events fall into one stretch for each line, in order, with a property.
pub Cut : {L E : Type 0} → (L → List E → Type 0) → List L → List E → Type 0
Cut Q [] events = events ≡ []
Cut {L} {E} Q (line ∷ lines) events =
    (own : List E) × (rest : List E) × (events ≡ own ++ rest) × Q line own × Cut Q lines rest

module _ {T F : Type 0} (cluster_default : Bytes) where
  -- The path of the cluster and the host that the tags of a line name, the last one where there are
  -- several.
  pub path_of : Line T F → List Bytes
  path_of line =
      last_tag is_cluster_tag cluster_default line.tags ∷ last_tag is_host_tag [] line.tags ∷ []

  -- The level, the cluster and the node of the sample are those of the tags, and its name is that of
  -- the line.
  pub IsRouted : Line T F → Event F → Type 0
  IsRouted line (get_level path) = path ≡ path_of line
  IsRouted line (sample s) =
      (s.path ≡ path_of line)
      × (s.cluster ∷ s.node ∷ [] ≡ path_of line)
      × (line.measurement ≡ some s.name)

  -- A line makes at most its level and one sample, both by its own tags.
  pub IsSentBy : Line T F → List (Event F) → Type 0
  IsSentBy line [] = Unit {0}
  IsSentBy line (e ∷ []) = IsRouted line e
  IsSentBy line (get_level path ∷ sample s ∷ []) =
      IsRouted line (get_level path) × IsRouted line (sample s)
  IsSentBy line _ = ⊥

module _ {T F : Type 0} (unix : T → ℤ) (now : T) (metrics : Bytes → Option (ℕ × ℕ))
    (spare : Bytes → Bytes) (cluster_default : Bytes) where
  -- What the scan of the tags of a line leaves.
  scanned :
      (st : DecodeState T F) (line : Line T F)
      → Scanned spare st.level st.prev_cluster st.prev_host
          (has_tag is_cluster_tag line.tags)
          (has_tag is_host_tag line.tags)
          (scan_tags spare st.prev_cluster st.prev_host
            (no_tags unix now metrics spare cluster_default st)
            line.tags)
  scanned st line =
      scan_tags-Scanned spare st.level st.prev_cluster st.prev_host false false _ line.tags
        (inr (refl, ((λ e. cc), (λ e. cc))))

  KeepsLine : (List (Event F) → Type 0) → Step (DecodeState T F) F → Type 0
  KeepsLine Q r =
      Keeps unix now metrics spare cluster_default
        (StateIsCached unix now metrics spare cluster_default) Q r

  abbrev TagsOf : DecodeState T F → Line T F → TagState
  TagsOf st line =
      scan_tags spare st.prev_cluster st.prev_host
        (no_tags unix now metrics spare cluster_default st) line.tags

  decode_line-Keeps :
      (Q : List (Event F) → Type 0) (st : DecodeState T F) (line : Line T F)
      → (StateIsCached unix now metrics spare cluster_default) st
      → Q []
      → ((name : Bytes) (config : ℕ × ℕ)
          → line.measurement ≡ some name
          → KeepsLine Q (
              decode_tagged unix now metrics spare cluster_default st
                (TagsOf st line)
                line
                name
                config))
      → KeepsLine Q (decode_line unix now metrics spare cluster_default st line)
  unfolding decode_line KeepsLine
  decode_line-Keeps Q st line k nothing f = elim (Option-cases line.measurement) [
    | inl broken ↦ rw (broken, decode_line) nothing
    | inr (name, there) ↦ elim (Option-cases (metrics name)) [
      | inl unknown ↦ rw (there, unknown, decode_line) (k, nothing)
      | inr (config, known) ↦ elim (Bool-cases line.tags_end) [
        | inr cut ↦ rw (there, known, decode_line) (simp cut nothing)
        | inl whole ↦ rw (there, known, decode_line) (simp whole (f name config there))
      ]
    ]
  ]

  -- Both theorems follow from the invariant of the state, by induction on the lines.
  decode_lines-Cut :
      (Q : Line T F → List (Event F) → Type 0) (Good : Line T F → Type 0)
      → ((line : Line T F) → Q line [])
      → ((st : DecodeState T F) (line : Line T F)
          → Good line
          → (StateIsCached unix now metrics spare cluster_default) st
          → KeepsLine (Q line) (decode_line unix now metrics spare cluster_default st line))
      → (st : DecodeState T F) (lines : List (Line T F)) → All Good lines
      → (StateIsCached unix now metrics spare cluster_default) st
      → Cut Q lines (decode_lines unix now metrics spare cluster_default st lines).0
  unfolding decode_lines Cut KeepsLine
  decode_lines-Cut Q Good nothing f st [] h k = refl
  decode_lines-Cut Q Good nothing f st (line ∷ lines) (h, hs) k =
      go (decode_line unix now metrics spare cluster_default st line) refl (f st line h k)
        (λ st' k'. decode_lines-Cut Q Good nothing f st' lines hs k')
    where
      none_left : (ls : List (Line T F)) → Cut Q ls []
      none_left [] = refl
      none_left (l ∷ ls) = ([], [], refl, nothing l, none_left ls)

      go :
          (r : Step (DecodeState T F) F)
          → decode_line unix now metrics spare cluster_default st line ≡ r
          → KeepsLine (Q line) r
          → ((st' : DecodeState T F)
              → (StateIsCached unix now metrics spare cluster_default) st'
              → Cut Q lines (decode_lines unix now metrics spare cluster_default st' lines).0)
          → Cut Q
              (line ∷ lines)
              (decode_lines unix now metrics spare cluster_default st (line ∷ lines)).0
      go (stop err events) e q rest =
          rw (e, decode_lines) (events, [], sym (append-nil events), q, none_left lines)
      go (next st' events) e (k', q) rest = rw (e, decode_lines) (events, _, refl, q, rest st' k')

  level_of :
      (st : DecodeState T F) (a b : Bool) (t : TagState)
      → Scanned spare st.level st.prev_cluster st.prev_host a b t
      → (t.level ≡ none) ⊎ (t.level ≡ st.level)
  level_of st a b t (inl e) = inl e
  level_of st a b t (inr (e, _)) = inr e

  -- A cached path is that of the cluster and the host that are remembered.
  source :
      (st : DecodeState T F) (line : Line T F) (path : List Bytes)
      → (StateIsCached unix now metrics spare cluster_default) st
      → (TagsOf st line).level ≡ some path
      → (path ≡ st.prev_cluster ∷ st.prev_host ∷ [])
        × IsValid st.prev_cluster
        × IsValid st.prev_host
  source st line path k have = rw have at (
      IsCached-stay unix now metrics spare cluster_default st (TagsOf st line).level
        (level_of st _ _ (TagsOf st line) (scanned st line)) k)

  line-Keeps :
      (Q : List (Event F) → Type 0) (st : DecodeState T F) (line : Line T F)
      → (StateIsCached unix now metrics spare cluster_default) st
      → Q []
      → (let host_path = (TagsOf st line).cluster ∷ (TagsOf st line).host ∷ [] in
          (IsValid (TagsOf st line).cluster
            → IsValid (TagsOf st line).host
            → Q (get_level host_path ∷ []))
          × ((name : Bytes) (selector : List Bytes) (m : Metric F) (time : ℤ)
              → line.measurement ≡ some name
              → IsValid (TagsOf st line).cluster
              → IsValid (TagsOf st line).host
              → Q (
                  get_level host_path
                  ∷ sample_of unix now metrics spare cluster_default
                      (TagsOf st line)
                      name
                      host_path
                      selector
                      m
                      time
                  ∷ []))
          × ((name : Bytes) (path selector : List Bytes) (m : Metric F) (time : ℤ)
              → line.measurement ≡ some name
              → IsValid (TagsOf st line).cluster
              → IsValid (TagsOf st line).host
              → (TagsOf st line).level ≡ some path
              → Q (
                  sample_of unix now metrics spare cluster_default
                    (TagsOf st line)
                    name
                    path
                    selector
                    m
                    time
                  ∷ [])))
      → KeepsLine Q (decode_line unix now metrics spare cluster_default st line)
  unfolding KeepsLine
  line-Keeps Q st line k nothing (g, f, f') =
      decode_line-Keeps Q st line k nothing (λ name config there.
        decode_tagged-Keeps unix now metrics spare cluster_default Q st (TagsOf st line) line name
          config (level_of st _ _ (TagsOf st line) (scanned st line)) k nothing g
          (λ selector m time. f name selector m time there)
          (λ path selector m time. f' name path selector m time there))

  line-IsConfined :
      (st : DecodeState T F) (line : Line T F)
      → Unit {0}
      → (StateIsCached unix now metrics spare cluster_default) st
      → KeepsLine (All IsConfined) (decode_line unix now metrics spare cluster_default st line)
  unfolding IsConfined
  line-IsConfined st line _ k = line-Keeps (All IsConfined) st line k tt (
    (λ c h. (both _ _ c h, tt)),
    (λ name selector m time there c h. (both _ _ c h, ((both _ _ c h, safe _ c, safe _ h), tt))),
    λ name path selector m time there c h have.
        let (e, sc, sh) = source st line path k have in
        ((rw e (both _ _ sc sh), safe _ c, safe _ h), tt),
  )
    where
      safe : (s : Bytes) → IsValid s → IsSafe s
      safe s v = is_valid_path_component-IsSafe s v

      both : (c h : Bytes) → IsValid c → IsValid h → All IsSafe (c ∷ h ∷ [])
      both c h cv hv = (safe c cv, (safe h hv, tt))

  tags_path :
      (st : DecodeState T F) (line : Line T F)
      → (TagsOf st line).cluster ∷ (TagsOf st line).host ∷ [] ≡ path_of cluster_default line
  unfolding path_of
  tags_path st line =
      let (c, h) =
        scan_tags-last_tag spare st.prev_cluster st.prev_host
          (no_tags unix now metrics spare cluster_default st) line.tags in
      rw (c, h) refl

  line-IsSentBy :
      (st : DecodeState T F) (line : Line T F)
      → IsTagged line
      → (StateIsCached unix now metrics spare cluster_default) st
      → KeepsLine
          (IsSentBy cluster_default line)
          (decode_line unix now metrics spare cluster_default st line)
  unfolding IsSentBy IsRouted
  line-IsSentBy st line tagged k = line-Keeps (IsSentBy cluster_default line) st line k tt (
    (λ c h. tags_path st line),
    (λ name selector m time there c h.
        (tags_path st line, (tags_path st line, tags_path st line, there))),
    λ name path selector m time there c h have. (
      routed path have (source st line path k have).0 (scanned st line) ∙ tags_path st line,
      tags_path st line,
      there,
    ),
  )
    where
      routed :
          (path : List Bytes)
          → (TagsOf st line).level ≡ some path
          → path ≡ st.prev_cluster ∷ st.prev_host ∷ []
          → Scanned spare st.level st.prev_cluster st.prev_host
              (has_tag is_cluster_tag line.tags)
              (has_tag is_host_tag line.tags)
              (TagsOf st line)
          → path ≡ (TagsOf st line).cluster ∷ (TagsOf st line).host ∷ []
      routed path have e (inl missing) = cc
      routed path have e (inr (_, (c, h))) = e ∙ rw (c tagged.0, h tagged.1)

  everywhere : (lines : List (Line T F)) → All (λ line. Unit {0}) lines
  everywhere [] = tt
  everywhere (line ∷ lines) = (tt, everywhere lines)

  Cut-All :
      (Q : Event F → Type 0) (lines : List (Line T F)) (events : List (Event F))
      → Cut (λ line. All Q) lines events
      → All Q events
  unfolding Cut
  Cut-All Q [] events e = rw e tt
  Cut-All Q (line ∷ lines) events (own, rest, e, q, more) =
      rw e (All-append Q own rest q (Cut-All Q lines rest more))

  -- Whatever the lines are, each part of the path of a level that `DecodeLine` makes, and of the level
  -- of a sample that it writes, and the cluster and the node that it logs for it, has no "/" and no
  -- "\", and no dot in it follows on a dot: no tag leads out of the directory of the log.
  pub decode-IsConfined :
      (zero_value : F) (c d : Cache) (lines : List (Line T F))
      → All IsConfined (decode unix now metrics spare cluster_default zero_value c d lines).0
  unfolding decode
  decode-IsConfined zero_value c d lines = Cut-All IsConfined lines _ (
      decode_lines-Cut (λ line. All IsConfined) (λ line. Unit {0}) (λ line. tt) line-IsConfined _
        lines (everywhere lines) tt)

  -- Where every line has a tag for the cluster and one for the host, the level that is kept from one
  -- line to the next is never the wrong one: what `DecodeLine` sends falls into one stretch for each
  -- line, in order, of at most a level that is made and one sample; their paths, and the cluster and
  -- the node of the sample, are the values of the last of these tags of that line, and the name of the
  -- sample is the measurement of the line.
  pub decode-IsRouted :
      (zero_value : F) (c d : Cache) (lines : List (Line T F))
      → All IsTagged lines
      → Cut
          (IsSentBy cluster_default)
          lines
          (decode unix now metrics spare cluster_default zero_value c d lines).0
  unfolding decode IsSentBy
  decode-IsRouted zero_value c d lines h =
      decode_lines-Cut (IsSentBy cluster_default) IsTagged (λ line. tt) line-IsSentBy _ lines h tt
