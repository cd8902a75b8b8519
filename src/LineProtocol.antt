-- ===== src/LineProtocol.antt =====
-- `DecodeLine` of pkg/metricstore/lineprotocol.go. The decoder of influx lines is a library: a Line is
-- what its calls yield for one line. A pointer to a level is the path to it, and every read of the
-- clock within a call yields the same time.
mod Data
pub mod Reorder
pub mod Scan
pub mod Kept
pub mod Safe
pub mod Route
pub mod Tags
pub mod Ingest
mod Tests
use cc_backend.Common.{
  ℕ, zero, suc, ◌+◌, ◌-◌, ◌*◌, ◌/◌, ◌%◌, ◌^◌, ◌≤◌, ◌<◌, ℤ, pos, negsuc, sub_ℕ, pos_part, neg_part,
  ltb_ℤ, leb_ℤ, ◌≤ℤ◌, ◌<ℤ◌, ◌+ℤ◌, ◌-ℤ◌, ◌≡◌, refl, sym, ap, ◌∙◌, Bool, true, false, not, ◌&&◌, ◌||◌,
  Option, none, some, List, [], ◌∷◌, ◌++◌, map, append-nil, append_assoc, ltb, leb, ◌==◌, length,
  get_elem?, ◌⊎◌, inl, inr, ◌↔◌, ◌≢◌, get_or, set, replicate, take, drop, if◌then◌else◌, arith,
  int_laws, Bool-cases, Option-cases, length-append, length-replicate, length-set, All, All-append,
  le→leb, gt→leb, lt→ltb, ge→ltb, ltb→lt, leb→le, ==_iff,
}
use cc_backend.Bytes.{Bytes, key_eq}
use cc_backend.Buffer.{Floats, Pool}
use cc_backend.Level.{Level, find_level_or_create}
use cc_backend.Store.{Metric, write_to_level}
use cc_backend.Wal.{WalMessage}
use cc_backend.LineProtocol.Reorder.{reorder}
pub use Data.{
  cluster_key, hostname_key, host_key, type_key, type_id_key, stype_key, stype_id_key, node_value,
  value_key, Precision, second, millisecond, microsecond, nanosecond, FieldValue, number,
  unsupported, Line, DecodeError, measurement_error, tag_error, field_error, unknown_field,
  unsupported_value, timestamp_error, Cache, DecodeState, TagState, Sample, Event, get_level,
  sample, Step, next, stop,
}
unfoldable pub use Data.{has_byte, has_dots, is_valid_path_component}

-- `spare` is what stands behind a buffer in its array.
module _ (spare : Bytes → Bytes) where
  -- Of the cases "type" and "stype".
  abbrev pub put_type : Bytes → Bytes → Bytes
  put_type buf val = if length buf == 0 then buf ++ val else reorder buf (spare buf) val

  module _ (prev_cluster prev_host : Bytes) where
    unfoldable pub scan_tag : TagState → Bytes → Bytes → TagState
    scan_tag t key val =
        if key_eq key cluster_key
        then (if key_eq val prev_cluster
            then record t { cluster = prev_cluster }
            else record t { cluster = val; level = none })
        else if key_eq key hostname_key || key_eq key host_key
        then (if key_eq val prev_host
            then record t { host = prev_host }
            else record t { host = val; level = none })
        else if key_eq key type_key
        then (if key_eq val node_value then t else record t { type_buf = put_type t.type_buf val })
        else if key_eq key type_id_key
        then record t { type_buf = t.type_buf ++ val }
        else if key_eq key stype_key
        then record t { sub_type_buf = put_type t.sub_type_buf val }
        else if key_eq key stype_id_key
        then record t { sub_type_buf = t.sub_type_buf ++ val }
        else t

    unfoldable pub scan_tags : TagState → List (Bytes × Bytes) → TagState
    scan_tags t [] = t
    scan_tags t ((key, val) ∷ tags) = scan_tags (scan_tag t key val) tags

-- The cache of a conversion from bytes to a string.
abbrev pub cached : Bytes → Cache → Cache
cached buf c = if not (key_eq buf c.bytes) then record { bytes = buf; str = buf } else c

unfoldable pub make_selector : Bytes → Bytes → Cache → Cache → List Bytes × Cache × Cache
make_selector type_buf sub_type_buf c d =
    if length type_buf == 0
    then ([], c, d)
    else if length sub_type_buf == 0
    then ((cached type_buf c).str ∷ [], cached type_buf c, d)
    else (
      (cached type_buf c).str ∷ (cached sub_type_buf d).str ∷ [],
      cached type_buf c,
      cached sub_type_buf d,
    )

-- The loop over the fields, with the value of the line before.
unfoldable pub read_fields : {F : Type 0} → F → List (Bytes × FieldValue F) → DecodeError ⊎ F
read_fields v [] = inr v
read_fields v ((key, number x) ∷ fields) =
    if not (key_eq key value_key) then inl unknown_field else read_fields x fields
read_fields v ((key, unsupported) ∷ fields) =
    if not (key_eq key value_key) then inl unknown_field else inl unsupported_value

abbrev pub or_else {ℓ} : {A : Type ℓ} → Option A → Option A → Option A
or_else none b = b
or_else (some a) b = some a

-- The four attempts at the time; `t` is the time of the line before.
unfoldable pub read_time : {T F : Type 0} → T → T → Line T F → Option T
read_time now t line = or_else (line.time second t) (
    or_else (line.time millisecond now)
      (or_else (line.time microsecond now) (line.time nanosecond now)))

module _ {T F : Type 0} (unix : T → ℤ) (now : T) (metrics : Bytes → Option (ℕ × ℕ))
    (spare : Bytes → Bytes) (cluster_default : Bytes) where
  -- Behind the selector: the fields, the time and the sample.
  unfoldable pub finish_line :
      DecodeState T F
      → TagState
      → List Bytes
      → List Bytes
      → Line T F
      → Bytes
      → ℕ × ℕ
      → List (Event F)
      → Step (DecodeState T F) F
  finish_line st t path selector line name config made = elim (read_fields st.value line.fields) [
    | inl e ↦ stop e made
    | inr v ↦
        if not line.fields_end then stop field_error made else elim (read_time now st.time line) [
          | none ↦ stop timestamp_error made
          | some time ↦
              next (record st { time = time; value = v })
                (made
                  ++ sample (record {
                    name = name;
                    cluster = t.cluster;
                    node = t.host;
                    path = path;
                    selector = selector;
                    metric = record { offset = config.0; frequency = config.1; value = v };
                    timestamp = unix time;
                  })
                    ∷ [])
        ]
  ]

  -- From the test of the path components on.
  unfoldable pub decode_tagged :
      DecodeState T F → TagState → Line T F → Bytes → ℕ × ℕ → Step (DecodeState T F) F
  decode_tagged st t line name config =
      let (selector, c, d) =
        make_selector t.type_buf t.sub_type_buf st.type_cache st.sub_type_cache in
      let host_path = t.cluster ∷ t.host ∷ [] in
      if not (is_valid_path_component t.cluster) || not (is_valid_path_component t.host)
      then next (record st { level = t.level }) []
      else elim t.level [
        | some path ↦
            finish_line (record st { level = some path; type_cache = c; sub_type_cache = d }) t path
              selector line name config []
        | none ↦
            finish_line
              (record st {
                level = some host_path;
                prev_cluster = t.cluster;
                prev_host = t.host;
                type_cache = c;
                sub_type_cache = d;
              })
              t host_path selector line name config (get_level host_path ∷ [])
      ]

  abbrev pub no_tags : DecodeState T F → TagState
  no_tags st = record {
    level = st.level;
    cluster = cluster_default;
    host = [];
    type_buf = [];
    sub_type_buf = [];
  }

  unfoldable pub decode_line : DecodeState T F → Line T F → Step (DecodeState T F) F
  decode_line st line = elim line.measurement [
    | none ↦ stop measurement_error []
    | some name ↦ elim (metrics name) [
      | none ↦ next st []
      | some config ↦
          if not line.tags_end
          then stop tag_error []
          else decode_tagged st
              (scan_tags spare st.prev_cluster st.prev_host (no_tags st) line.tags) line name config
    ]
  ]

  -- The loop over the lines.
  unfoldable pub decode_lines :
      DecodeState T F → List (Line T F) → List (Event F) × Option DecodeError
  decode_lines st [] = ([], none)
  decode_lines st (line ∷ lines) = elim (decode_line st line) [
    | stop e events ↦ (events, some e)
    | next st' events ↦ (let (more, e) = decode_lines st' lines in (events ++ more, e))
  ]

  -- The state at the start, with the caches that the pool gives.
  unfoldable pub decode : F → Cache → Cache → List (Line T F) → List (Event F) × Option DecodeError
  decode zero_value c d lines =
      decode_lines
        (record {
          level = none;
          prev_cluster = [];
          prev_host = [];
          time = now;
          value = zero_value;
          type_cache = c;
          sub_type_cache = d;
        })
        lines

-- The message for the log.
abbrev pub message : {F : Type 0} → Sample F → WalMessage F
message s = record {
  metric_name = s.name;
  cluster = s.cluster;
  node = s.node;
  selector = s.selector;
  value = s.metric.value;
  timestamp = s.timestamp;
}

-- The effect on the store. An error of WriteToLevel is only logged.
unfoldable pub ingest :
    (fl : Floats)
    → ℕ
    → Pool (Floats.Float fl)
    → Level (Floats.Float fl)
    → List (Event (Floats.Float fl))
    → Pool (Floats.Float fl) × Level (Floats.Float fl)
ingest fl n pool root [] = (pool, root)
ingest fl n pool root (get_level path ∷ events) =
    ingest fl n pool (find_level_or_create root path n) events
ingest fl n pool root (sample s ∷ events) =
    let r = write_to_level fl n pool root (s.path ++ s.selector) s.timestamp (s.metric ∷ []) in
    ingest fl n r.pool r.left events
