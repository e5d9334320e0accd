-- ===== src/Rtsp/Definitions.antt =====
-- The messages of src/streaming_lib/rtsp_lib/include/rtsp_definitions.hpp.
use Prim.Native.String.{String}
use rtsp.Common.{ℕ, List}

-- `rtsp::header` and `rtsp::raw_headers`
abbrev pub RtspHeader : Type 0
RtspHeader = String × String

abbrev pub RawHeaders : Type 0
RawHeaders = List RtspHeader

-- `rtsp::normalized_headers`, an `unordered_map`, as the list of its entries.
abbrev pub NormalizedHeaders : Type 0
NormalizedHeaders = List (String × String)

pub record Request : Type 0 where
  pub method_or_extension : String
  pub uri : String
  pub rtsp_version_major : ℕ
  pub rtsp_version_minor : ℕ
  pub headers : RawHeaders

abbrev pub InternalRequest : Type 0
InternalRequest = Request × NormalizedHeaders

pub record Response : Type 0 where
  pub rtsp_version_major : ℕ
  pub rtsp_version_minor : ℕ
  pub status_code : ℕ
  pub reason_phrase : String
  pub headers : RawHeaders

-- An address of Boost.Asio: the server only compares it and hands it on.
abbrev pub Address : Type 0
Address = ℕ
