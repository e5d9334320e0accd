-- ===== src/Rtsp/Headers/Tests.antt =====
-- A concrete run of normalize_headers, and the witness of its theorem.
use Prim.Native.String.{String}
use text.Mathlib.Text.{◌==◌}
use rtsp.Common.{some, [], ◌∷◌, ◌≡◌, if◌then◌else◌}
use rtsp.Rtsp.Definitions.{RawHeaders}
use rtsp.Rtsp.Headers.{lookup, normalize_headers}
use rtsp.Rtsp.Headers.Joined.{more_values, join_values, values_of, lookup-normalize_headers}

-- Lower case of the names that occur below.
abbrev lower : String → String
lower name = if name == "Require" then "require" else if name == "CSeq" then "cseq" else name

abbrev received : RawHeaders
received = ("CSeq", "3") ∷ ("Require", "a") ∷ ("require", "b") ∷ []

lookup-normalize_headers_example : lookup "require" (normalize_headers lower received) ≡ some "a,b"
unfolding join_values values_of more_values
lookup-normalize_headers_example = lookup-normalize_headers lower "require" received
