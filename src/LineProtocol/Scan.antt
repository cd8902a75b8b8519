-- ===== src/LineProtocol/Scan.antt =====
-- The tags of a line in `DecodeLine` of pkg/metricstore/lineprotocol.go and the level that is kept.
use cc_backend.Common.{
  ◌≡◌, refl, ap, ◌∙◌, if◌then◌else◌, Bool, true, false, not, ◌&&◌, ◌||◌, Option, none, List, [],
  ◌∷◌, ◌⊎◌, arith,
}
use cc_backend.Bytes.{Bytes, key_eq, key_eq_iff}
use cc_backend.LineProtocol.{
  cluster_key, hostname_key, host_key, Line, TagState, scan_tag, scan_tags,
}

abbrev pub is_cluster_tag : Bytes → Bool
is_cluster_tag key = key_eq key cluster_key

abbrev pub is_host_tag : Bytes → Bool
is_host_tag key = not (key_eq key cluster_key) && (key_eq key hostname_key || key_eq key host_key)

unfoldable pub has_tag : (Bytes → Bool) → List (Bytes × Bytes) → Bool
has_tag test [] = false
has_tag test ((key, val) ∷ tags) = test key || has_tag test tags

-- The value of the last tag that passes a test, or else `d`.
unfoldable pub last_tag : (Bytes → Bool) → Bytes → List (Bytes × Bytes) → Bytes
last_tag test d [] = d
last_tag test d ((key, val) ∷ tags) = last_tag test (if test key then val else d) tags

-- A line with a tag for the cluster and one for the host.
abbrev pub IsTagged : {T F : Type 0} → Line T F → Type 0
IsTagged line = (has_tag is_cluster_tag line.tags ≡ true) × (has_tag is_host_tag line.tags ≡ true)

module _ (spare : Bytes → Bytes) (level0 : Option (List Bytes))
    (prev_cluster prev_host : Bytes) where
  -- What holds behind some tags, where `c` and `h` tell whether the cluster and the host were seen.
  abbrev pub Scanned : Bool → Bool → TagState → Type 0
  Scanned c h t =
      (t.level ≡ none)
      ⊎ ((t.level ≡ level0)
          × ((c ≡ true → t.cluster ≡ prev_cluster) × (h ≡ true → t.host ≡ prev_host)))

  scan_tag-Scanned :
      (c h : Bool) (t : TagState) (key val : Bytes)
      → Scanned c h t
      → Scanned
          (c || is_cluster_tag key)
          (h || is_host_tag key)
          (scan_tag spare prev_cluster prev_host t key val)
  unfolding scan_tag
  scan_tag-Scanned c h t key val s = ground arith

  pub scan_tags-Scanned :
      (c h : Bool) (t : TagState) (tags : List (Bytes × Bytes))
      → Scanned c h t
      → Scanned
          (c || has_tag is_cluster_tag tags)
          (h || has_tag is_host_tag tags)
          (scan_tags spare prev_cluster prev_host t tags)
  unfolding scan_tags has_tag
  scan_tags-Scanned c h t [] s = ground arith
  scan_tags-Scanned c h t ((key, val) ∷ tags) s = ground (
    arith,
    scan_tags-Scanned (c || is_cluster_tag key) (h || is_host_tag key)
        (scan_tag spare prev_cluster prev_host t key val) tags (scan_tag-Scanned c h t key val s),
  )

module _ (spare : Bytes → Bytes) (prev_cluster prev_host : Bytes) where
  scan_tag-last :
      (t : TagState) (key val : Bytes)
      → ((scan_tag spare prev_cluster prev_host t key val).cluster
          ≡ (if is_cluster_tag key then val else t.cluster))
        × ((scan_tag spare prev_cluster prev_host t key val).host
            ≡ (if is_host_tag key then val else t.host))
  unfolding scan_tag
  scan_tag-last t key val =
      let c = (key_eq_iff val prev_cluster).0 in
      let h = (key_eq_iff val prev_host).0 in ground arith

  -- Cluster and host of a line are the values of its last tags for them.
  pub scan_tags-last_tag :
      (t : TagState) (tags : List (Bytes × Bytes))
      → ((scan_tags spare prev_cluster prev_host t tags).cluster
          ≡ last_tag is_cluster_tag t.cluster tags)
        × ((scan_tags spare prev_cluster prev_host t tags).host ≡ last_tag is_host_tag t.host tags)
  unfolding scan_tags last_tag
  scan_tags-last_tag t [] = (refl, refl)
  scan_tags-last_tag t ((key, val) ∷ tags) =
      let (c, h) = scan_tags-last_tag (scan_tag spare prev_cluster prev_host t key val) tags in
      let (c', h') = scan_tag-last t key val in
      (
        c ∙ ap (λ d. last_tag is_cluster_tag d tags) c',
        h ∙ ap (λ d. last_tag is_host_tag d tags) h',
      )
