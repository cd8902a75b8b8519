-- ===== src/LineProtocol/Data.antt =====
-- The data of `DecodeLine` of pkg/metricstore/lineprotocol.go: what the decoder yields for a line, the
-- variables of the loops, and the test of a path component.
use cc_backend.Common.{ℕ, ℤ, Bool, false, not, ◌&&◌, ◌||◌, Option, List, [], ◌∷◌, ◌==◌}
use cc_backend.Bytes.{Bytes}
use cc_backend.Store.{Metric}

-- The string literals of the code.
abbrev pub cluster_key : Bytes
cluster_key = b'c' ∷ b'l' ∷ b'u' ∷ b's' ∷ b't' ∷ b'e' ∷ b'r' ∷ []

abbrev pub hostname_key : Bytes
hostname_key = b'h' ∷ b'o' ∷ b's' ∷ b't' ∷ b'n' ∷ b'a' ∷ b'm' ∷ b'e' ∷ []

abbrev pub host_key : Bytes
host_key = b'h' ∷ b'o' ∷ b's' ∷ b't' ∷ []

abbrev pub type_key : Bytes
type_key = b't' ∷ b'y' ∷ b'p' ∷ b'e' ∷ []

abbrev pub type_id_key : Bytes
type_id_key = b't' ∷ b'y' ∷ b'p' ∷ b'e' ∷ b'-' ∷ b'i' ∷ b'd' ∷ []

abbrev pub stype_key : Bytes
stype_key = b's' ∷ b't' ∷ b'y' ∷ b'p' ∷ b'e' ∷ []

abbrev pub stype_id_key : Bytes
stype_id_key = b's' ∷ b't' ∷ b'y' ∷ b'p' ∷ b'e' ∷ b'-' ∷ b'i' ∷ b'd' ∷ []

abbrev pub node_value : Bytes
node_value = b'n' ∷ b'o' ∷ b'd' ∷ b'e' ∷ []

abbrev pub value_key : Bytes
value_key = b'v' ∷ b'a' ∷ b'l' ∷ b'u' ∷ b'e' ∷ []

-- strings.Contains, for the three strings that are looked for
unfoldable pub has_byte : ℕ → Bytes → Bool
has_byte c [] = false
has_byte c (d ∷ s) = let rest = has_byte c s in d == c || rest

unfoldable pub has_dots : Bytes → Bool
has_dots [] = false
has_dots (c ∷ []) = false
has_dots (c ∷ d ∷ s) = let rest = has_dots (d ∷ s) in c == b'.' && d == b'.' || rest

unfoldable pub is_valid_path_component : Bytes → Bool
is_valid_path_component s = not (has_dots s) && not (has_byte b'/' s) && not (has_byte 92 s)

pub data Precision : Type 0 where
  second millisecond microsecond nanosecond : Precision

-- The kinds of a value, for those that are numbers as schema.Float holds them.
pub data FieldValue (F : Type 0) : Type 0 where
  number : F → FieldValue F
  unsupported : FieldValue F

-- What the decoder yields for a line: the measurement or an error, the tags up to the end or to an
-- error, the fields likewise, and the time for a precision and a default.
pub record Line (T F : Type 0) : Type 0 where
  pub measurement : Option Bytes
  pub tags : List (Bytes × Bytes)
  pub tags_end : Bool
  pub fields : List (Bytes × FieldValue F)
  pub fields_end : Bool
  pub time : Precision → T → Option T

pub data DecodeError : Type 0 where
  measurement_error tag_error field_error unknown_field unsupported_value timestamp_error :
      DecodeError

-- prevTypeBytes with prevTypeStr, or the same for the subtype
pub record Cache : Type 0 where
  pub bytes : Bytes
  pub str : Bytes

-- The variables that keep their values from one line to the next.
pub record DecodeState (T F : Type 0) : Type 0 where
  pub level : Option (List Bytes)
  pub prev_cluster : Bytes
  pub prev_host : Bytes
  pub time : T
  pub value : F
  pub type_cache : Cache
  pub sub_type_cache : Cache

-- The variables of the loop over the tags.
pub record TagState : Type 0 where
  pub level : Option (List Bytes)
  pub cluster : Bytes
  pub host : Bytes
  pub type_buf : Bytes
  pub sub_type_buf : Bytes

-- A sample on its way to the log and to the level at `path`.
pub record Sample (F : Type 0) : Type 0 where
  pub name : Bytes
  pub cluster : Bytes
  pub node : Bytes
  pub path : List Bytes
  pub selector : List Bytes
  pub metric : Metric F
  pub timestamp : ℤ

-- A call of GetLevel, or a sample.
pub data Event (F : Type 0) : Type 0 where
  get_level : List Bytes → Event F
  sample : Sample F → Event F

pub data Step (S F : Type 0) : Type 0 where
  next : S → List (Event F) → Step S F
  stop : DecodeError → List (Event F) → Step S F
