-- ===== src/LineProtocol/Tags.antt =====
-- The order of the tags of a line, for `DecodeLine` of pkg/metricstore/lineprotocol.go.
use cc_backend.Common.{Bool, ◌||◌, List}
use cc_backend.Bytes.{Bytes, key_eq}
use cc_backend.LineProtocol.{type_key, type_id_key, TagState, scan_tags}

abbrev pub is_type_tag : Bytes → Bool
is_type_tag key = key_eq key type_key || key_eq key type_id_key

module _ (spare : Bytes → Bytes) (prev_cluster prev_host : Bytes) where
  abbrev scan : TagState → List (Bytes × Bytes) → TagState
  scan t tags = scan_tags spare prev_cluster prev_host t tags
