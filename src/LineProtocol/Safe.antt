-- ===== src/LineProtocol/Safe.antt =====
-- What the test of a path component in pkg/metricstore/lineprotocol.go keeps out.
use cc_backend.Common.{◌≡◌, true, false, [], ◌∷◌, ◌++◌, ◌≢◌, arith, All}
use cc_backend.Bytes.{Bytes}
use cc_backend.LineProtocol.{has_byte, has_dots, is_valid_path_component, Event, get_level, sample}

-- A name without a separator of either kind, in which no dot follows on a dot.
pub IsSafe : Bytes → Type 0
IsSafe s =
    All (λ c. (c ≢ b'/') × (c ≢ b'\\')) s × ((pre post : Bytes) → s ≢ pre ++ b'.' ∷ b'.' ∷ post)

-- No event leads out of the directory of the log: each part of a path is one safe component.
unfoldable pub IsConfined : {F : Type 0} → Event F → Type 0
IsConfined (get_level path) = All IsSafe path
IsConfined (sample s) = All IsSafe s.path × IsSafe s.cluster × IsSafe s.node

has_byte-All :
    (s : Bytes)
    → has_byte b'/' s ≡ false
    → has_byte b'\\' s ≡ false
    → All (λ c. (c ≢ b'/') × (c ≢ b'\\')) s
unfolding has_byte
has_byte-All [] e f = tt
has_byte-All (c ∷ s) e f =
    (((λ h. ground arith), (λ h. ground arith)), has_byte-All s (ground arith) (ground arith))

has_dots-append : (pre post : Bytes) → has_dots (pre ++ b'.' ∷ b'.' ∷ post) ≡ true
unfolding has_dots
has_dots-append [] post = ground arith
has_dots-append (c ∷ []) post = ground (arith, has_dots-append [] post)
has_dots-append (c ∷ d ∷ pre) post = ground (arith, has_dots-append (d ∷ pre) post)

pub is_valid_path_component-IsSafe : (s : Bytes) → is_valid_path_component s ≡ true → IsSafe s
unfolding is_valid_path_component IsSafe
is_valid_path_component-IsSafe s h = (
  has_byte-All s (ground arith) (ground arith),
  λ pre post e. let dots : has_dots s ≡ true = rw e (has_dots-append pre post) in ground arith,
)
