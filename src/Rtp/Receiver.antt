-- ===== src/Rtp/Receiver.antt =====
-- unicast_jpeg_rtp_receiver of src/streaming_lib/rtp_lib/include/rtp_endsystem.hpp and
-- src/streaming_lib/rtp_lib/src/rtp_endsystem.cpp: its state, and the results of its operations.
-- The children hold the recovery of lost packets, the handlers, and what is proved of them.
pub mod Reconstruction
pub mod Recovery
pub mod Handlers
pub mod Effects
pub mod Runs
pub mod Buffers
pub mod Contents
pub mod Delivery
pub mod Numbers
pub mod Gapless
pub mod Bounds
pub mod Reports
pub mod Rebuilt
mod Tests
use rtsp.Common.{ℕ, zero, suc, Bool, false, Option, none, some, List, [], ◌∷◌}
use rtsp.Rtp.Sequence.{RtpReceiverSquenceUtility}
use rtsp.Rtp.Packet.{CustomJpegPacket, CustomFecPacket}

-- A parsed packet with the octets that it was parsed from.
abbrev pub JpegEntry : Type 0
JpegEntry = CustomJpegPacket × List ℕ

abbrev pub FecEntry : Type 0
FecEntry = CustomFecPacket × List ℕ

-- The members that the handlers use. The handlers for frames and statistics are what the caller
-- passes: a frame or a statistics value is part of a result, and `statistics_handler` says whether
-- one is set.
pub record Receiver : Type 0 where
  pub statistics_handler : Bool
  pub ssrc : ℕ
  pub jpeg_sequence_utility : Option RtpReceiverSquenceUtility
  pub fec_sequence_utility : Option RtpReceiverSquenceUtility
  pub jpeg_packet_frame_buffer : List CustomJpegPacket
  pub jpeg_packet_incoming_buffer : List JpegEntry
  pub fec_packet_incoming_buffer : List FecEntry
  pub corrected : ℕ
  pub uncorrectable : ℕ

abbrev pub buffer_size : ℕ
buffer_size = 50

abbrev pub media_packet_delay : ℕ
media_packet_delay = 20

-- `statistics`
pub record Statistics : Type 0 where
  pub received : ℕ
  pub expected_packets : ℕ
  pub corrected_packets : ℕ
  pub uncorrectable_packets : ℕ

-- The constructor; it also opens the sockets and starts the timer.
abbrev pub construct : ℕ → Receiver
construct ssrc = record {
  statistics_handler = false;
  ssrc = ssrc;
  jpeg_sequence_utility = none;
  fec_sequence_utility = none;
  jpeg_packet_frame_buffer = [];
  jpeg_packet_incoming_buffer = [];
  fec_packet_incoming_buffer = [];
  corrected = 0;
  uncorrectable = 0;
}

-- What a call leaves: a value, an exception, or behaviour that C++ does not define, such as a
-- dereferenced end iterator.
pub data Result (A : Type 0) : Type 0 where
  returns : A → Result A
  throws : Result A
  is_undefined : Result A

abbrev pub bind : {A B : Type 0} → Result A → (A → Result B) → Result B
bind (returns a) next = next a
bind throws next = throws
bind is_undefined next = is_undefined

-- `at(0)`
abbrev pub front : {A : Type 0} → List A → Result A
front [] = throws
front (x ∷ xs) = returns x

-- `*(begin + n)`
abbrev pub element : {A : Type 0} → ℕ → List A → Result A
element n [] = is_undefined
element zero (x ∷ xs) = returns x
element (suc n) (x ∷ xs) = element n xs
