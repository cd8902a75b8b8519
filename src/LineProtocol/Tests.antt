-- ===== src/LineProtocol/Tests.antt =====
-- Runs of `DecodeLine` of pkg/metricstore/lineprotocol.go.
use cc_backend.Common.{
  ℕ, ◌+◌, pos, ◌≡◌, refl, true, Option, none, some, List, [], ◌∷◌, if◌then◌else◌, All,
}
use cc_backend.Bytes.{Bytes, key_eq}
use cc_backend.Buffer.{Floats}
use cc_backend.LineProtocol.{
  cluster_key, hostname_key, host_key, value_key, has_byte, has_dots, is_valid_path_component,
  number, Line, Cache, TagState, Event, get_level, sample, scan_tag, scan_tags, make_selector,
  read_fields, read_time, finish_line, decode_tagged, decode_line, decode_lines, decode,
}
use cc_backend.LineProtocol.Reorder.{reorder, shift, put_from}
use cc_backend.LineProtocol.Scan.{has_tag}
use cc_backend.LineProtocol.Safe.{IsConfined}
use cc_backend.LineProtocol.Route.{Cut, IsSentBy, decode-IsConfined, decode-IsRouted}

-- Numbers with a NaN, `none`.
abbrev sum : Option ℕ → Option ℕ → Option ℕ
sum (some x) (some y) = some (x + y)
sum _ _ = none

sum-nan : (x : Option ℕ) → sum x none ≡ none
sum-nan none = refl
sum-nan (some x) = refl

abbrev numbers : Floats
numbers = record { Float = Option ℕ; nan = none; add = sum; add_nan = sum-nan }

reorder_in_place :
    reorder (b'0' ∷ b'1' ∷ []) (9 ∷ 9 ∷ 9 ∷ []) (b'c' ∷ b'p' ∷ []) ≡ b'c' ∷ b'p' ∷ b'0' ∷ b'1' ∷ []
unfolding reorder shift put_from
reorder_in_place = refl

abbrev four_spare : Bytes → Bytes
four_spare buf = 0 ∷ 0 ∷ 0 ∷ 0 ∷ []

abbrev start : TagState
start = record { level = none; cluster = []; host = []; type_buf = []; sub_type_buf = [] }

abbrev host_tag : List (Bytes × Bytes)
host_tag = (host_key, b'h' ∷ []) ∷ []

abbrev flops : Bytes
flops = b'f' ∷ []

abbrev metrics : Bytes → Option (ℕ × ℕ)
metrics name = if key_eq name flops then some (0, 60) else none

abbrev line_of : List (Bytes × Bytes) → ℕ → Line ℕ (Option ℕ)
line_of tags t = record {
  measurement = some flops;
  tags = tags;
  tags_end = true;
  fields = (value_key, number (some t)) ∷ [];
  fields_end = true;
  time = λ p d. some t;
}

abbrev empty_cache : Cache
empty_cache = record { bytes = []; str = [] }

abbrev both_tags : Bytes → Bytes → List (Bytes × Bytes)
both_tags c h = (cluster_key, c) ∷ (hostname_key, h) ∷ []

abbrev lines : List (Line ℕ (Option ℕ))
lines =
    line_of (both_tags (b'x' ∷ []) (b'h' ∷ [])) 60
    ∷ line_of (both_tags (b'y' ∷ []) (b'h' ∷ [])) 61
    ∷ []

decode-IsConfined_example :
    All IsConfined
      (decode pos 0 metrics four_spare (b'd' ∷ []) (some 0) empty_cache empty_cache lines).0
decode-IsConfined_example =
    decode-IsConfined pos 0 metrics four_spare (b'd' ∷ []) (some 0) empty_cache empty_cache lines

decode-IsRouted_example :
    Cut
      (IsSentBy (b'd' ∷ []))
      lines
      (decode pos 0 metrics four_spare (b'd' ∷ []) (some 0) empty_cache empty_cache lines).0
unfolding has_tag key_eq
decode-IsRouted_example =
    decode-IsRouted pos 0 metrics four_spare (b'd' ∷ []) (some 0) empty_cache empty_cache lines
      ((refl, refl), ((refl, refl), tt))

-- Without the tag for the cluster, the level of the line before is kept.
abbrev sample_of : Bytes → List Bytes → ℕ → Event (Option ℕ)
sample_of cluster path t = sample (record {
  name = flops;
  cluster = cluster;
  node = b'h' ∷ [];
  path = path;
  selector = [];
  metric = record { offset = 0; frequency = 60; value = some t };
  timestamp = pos t;
})

untagged_run :
    (decode pos 0 metrics four_spare
      (b'd' ∷ [])
      (some 0)
      empty_cache
      empty_cache
      (line_of (both_tags (b'x' ∷ []) (b'h' ∷ [])) 60 ∷ line_of host_tag 61 ∷ [])).0
    ≡ get_level ((b'x' ∷ []) ∷ (b'h' ∷ []) ∷ [])
      ∷ sample_of (b'x' ∷ []) ((b'x' ∷ []) ∷ (b'h' ∷ []) ∷ []) 60
      ∷ sample_of (b'd' ∷ []) ((b'x' ∷ []) ∷ (b'h' ∷ []) ∷ []) 61
      ∷ []
unfolding decode decode_lines decode_line decode_tagged finish_line read_time read_fields
    make_selector scan_tags scan_tag key_eq has_byte has_dots is_valid_path_component
untagged_run = refl
