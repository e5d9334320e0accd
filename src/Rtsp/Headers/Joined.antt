-- ===== src/Rtsp/Headers/Joined.antt =====
-- What a normalized header holds: the values of all raw headers of that name, joined by commas.
use Prim.Native.String.{String, ◌++◌}
use text.Mathlib.Text.{◌==◌}
use text.Mathlib.TextEquality.{eq_iff}
use text.Mathlib.TextLemmas.{append_assoc, append-nil}
use rtsp.Common.{
  Option, none, some, List, [], ◌∷◌, ◌≡◌, refl, ap, ◌∙◌, inl, inr, sym, if◌then◌else◌, arith,
  Bool-cases,
}
use rtsp.Rtsp.Definitions.{RawHeaders, NormalizedHeaders}
use rtsp.Rtsp.Headers.{lookup, add_header, normalize_from, normalize_headers}

-- The values behind a first one.
unfoldable pub more_values : List String → String
more_values [] = ""
more_values (v ∷ vs) = "," ++ (v ++ more_values vs)

unfoldable pub join_values : List String → Option String
join_values [] = none
join_values (v ∷ vs) = some (v ++ more_values vs)

-- The values of the raw headers whose name is `key` in lower case, in their order.
unfoldable pub values_of : (String → String) → String → RawHeaders → List String
values_of to_lower_copy key [] = []
values_of to_lower_copy key ((name, value) ∷ headers) =
    if to_lower_copy name == key
    then value ∷ values_of to_lower_copy key headers
    else values_of to_lower_copy key headers

-- The entry after one more header.
abbrev joined : Option String → String → Option String
joined none value = some value
joined (some v) value = some (v ++ ("," ++ value))

lookup-add_header :
    (key name value : String) (map : NormalizedHeaders)
    → lookup key (add_header name value map)
      ≡ (if name == key then joined (lookup key map) value else lookup key map)
unfolding lookup add_header
lookup-add_header key name value [] = refl
lookup-add_header key name value ((k, v) ∷ map) =
    ground
      (arith, eq_iff k name, eq_iff k key, eq_iff name key, lookup-add_header key name value map)

extended : Option String → List String → Option String
extended none vs = join_values vs
extended (some w) vs = some (w ++ more_values vs)

extended-nil : (o : Option String) → o ≡ extended o []
unfolding extended join_values more_values
extended-nil none = refl
extended-nil (some w) = ap some (sym (append-nil w))

extended-cons :
    (o : Option String) (v : String) (vs : List String)
    → extended (joined o v) vs ≡ extended o (v ∷ vs)
unfolding extended join_values more_values
extended-cons none v vs = refl
extended-cons (some w) v vs = ap some (
    append_assoc w ("," ++ v) (more_values vs)
    ∙ ap (λ s. w ++ s) (append_assoc "," v (more_values vs)))

lookup-normalize_from :
    (to_lower_copy : String → String) (key : String) (map : NormalizedHeaders)
    (headers : RawHeaders)
    → lookup key (normalize_from to_lower_copy map headers)
      ≡ extended (lookup key map) (values_of to_lower_copy key headers)
unfolding normalize_from values_of
lookup-normalize_from lower key map [] = extended-nil (lookup key map)
lookup-normalize_from lower key map ((name, value) ∷ headers) =
    lookup-normalize_from lower key (add_header (lower name) value map) headers
    ∙ (elim (Bool-cases (lower name == key)) [
      | inl hit ↦
          rw (hit, lookup-add_header key (lower name) value map, hit)
            (extended-cons (lookup key map) value (values_of lower key headers))
      | inr miss ↦ rw (miss, lookup-add_header key (lower name) value map, miss)
    ])

-- For every list of raw headers and every key: the normalized headers hold under the key the values
-- of all raw headers whose name in lower case is that key, in the order of the message and joined by
-- commas, and nothing exactly when there is no such header.
pub lookup-normalize_headers :
    (to_lower_copy : String → String) (key : String) (headers : RawHeaders)
    → lookup key (normalize_headers to_lower_copy headers)
      ≡ join_values (values_of to_lower_copy key headers)
unfolding normalize_headers lookup extended
lookup-normalize_headers lower key headers = lookup-normalize_from lower key [] headers
