-- ===== src/Rtsp/Headers.antt =====
-- normalize_headers of src/streaming_lib/rtsp_lib/src/rtsp_headers.cpp.
pub mod Joined
mod Tests
use Prim.Native.String.{String, ◌++◌}
use text.Mathlib.Text.{◌==◌}
use rtsp.Common.{Bool, true, false, Option, none, some, List, [], ◌∷◌, if◌then◌else◌}
use rtsp.Rtsp.Definitions.{RawHeaders, NormalizedHeaders}

-- `find` and `at` of an `unordered_map`.
unfoldable pub lookup {ℓ} : {A : Type ℓ} → String → List (String × A) → Option A
lookup key [] = none
lookup key ((k, v) ∷ map) = if k == key then some v else lookup key map

-- `count`, as a `bool`.
unfoldable pub contains {ℓ} : {A : Type ℓ} → String → List (String × A) → Bool
unfolding lookup
contains key map = elim (lookup key map) [ none ↦ false | some v ↦ true ]

-- The body of the loop: a new entry, or the value behind a comma at the end of the old one.
unfoldable pub add_header : String → String → NormalizedHeaders → NormalizedHeaders
add_header key value [] = (key, value) ∷ []
add_header key value ((k, v) ∷ map) =
    if k == key then (k, v ++ ("," ++ value)) ∷ map else (k, v) ∷ add_header key value map

-- `boost::algorithm::to_lower_copy` is a parameter.
module _ (to_lower_copy : String → String) where
  unfoldable pub normalize_from : NormalizedHeaders → RawHeaders → NormalizedHeaders
  normalize_from new_headers [] = new_headers
  normalize_from new_headers ((name, value) ∷ raw_headers) =
      normalize_from (add_header (to_lower_copy name) value new_headers) raw_headers

  unfoldable pub normalize_headers : RawHeaders → NormalizedHeaders
  normalize_headers raw_headers = normalize_from [] raw_headers
