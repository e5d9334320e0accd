-- ===== src/Rtp/Packet.antt =====
-- The packets of src/streaming_lib/rtp_lib/include/rtp_packet.hpp.
pub mod Grammar
pub mod Generator
pub mod HeaderRoundTrip
pub mod RoundTrip
pub mod Parsed
mod Tests
use rtsp.Common.{ℕ, Bool, false, List, []}

-- `header<Payload>`
pub record Header : Type 0 where
  pub version : ℕ
  pub padding_set : Bool
  pub extension_bit : Bool
  pub csrc : ℕ
  pub marker : Bool
  pub payload_type_field : ℕ
  pub sequence_number : ℕ
  pub timestamp : ℕ
  pub ssrc : ℕ
  pub csrcs : List ℕ
  pub header_extension : List ℕ

abbrev pub default_header : Header
default_header = record {
  version = 2;
  padding_set = false;
  extension_bit = false;
  csrc = 0;
  marker = false;
  payload_type_field = 0;
  sequence_number = 0;
  timestamp = 0;
  ssrc = 0;
  csrcs = [];
  header_extension = [];
}

pub record CustomJpegPayloadHeader : Type 0 where
  pub base : Header
  pub open base use *
  pub type_specific : ℕ
  pub fragment_offset : ℕ
  pub jpeg_type : ℕ
  pub quantization_table : ℕ
  pub image_width : ℕ
  pub image_height : ℕ

pub record CustomJpegPacket : Type 0 where
  pub header : CustomJpegPayloadHeader
  pub payload : List ℕ

-- `custom_jpeg_packet{}`
abbrev pub default_jpeg_packet : CustomJpegPacket
default_jpeg_packet = record {
  header = record {
    base = default_header;
    type_specific = 0;
    fragment_offset = 0;
    jpeg_type = 0;
    quantization_table = 0;
    image_width = 0;
    image_height = 0;
  };
  payload = [];
}

pub record CustomFecHeader : Type 0 where
  pub base : Header
  pub open base use *
  pub extension_flag : Bool
  pub long_mask_flag : Bool
  pub p_recovery_field : Bool
  pub x_recovery_field : Bool
  pub cc_recovery_field : ℕ
  pub m_recovery_field : Bool
  pub pt_recovery_field : ℕ
  pub sn_base_field : ℕ
  pub ts_recovery_field : ℕ
  pub length_recovery_field : ℕ

pub record CustomFecLevelHeader : Type 0 where
  pub protection_length_field : ℕ
  pub mask_field : ℕ

-- `std::pair<custom_fec_level_header, fec_payload>`
abbrev pub FecLevel : Type 0
FecLevel = CustomFecLevelHeader × List ℕ

pub record CustomFecPacket : Type 0 where
  pub header : CustomFecHeader
  pub levels : List FecLevel

-- `custom_fec_packet{}`
abbrev pub default_fec_packet : CustomFecPacket
default_fec_packet = record {
  header = record {
    base = default_header;
    extension_flag = false;
    long_mask_flag = false;
    p_recovery_field = false;
    x_recovery_field = false;
    cc_recovery_field = 0;
    m_recovery_field = false;
    pt_recovery_field = 0;
    sn_base_field = 0;
    ts_recovery_field = 0;
    length_recovery_field = 0;
  };
  levels = [];
}
