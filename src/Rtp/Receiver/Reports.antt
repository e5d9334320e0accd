-- ===== src/Rtp/Receiver/Reports.antt =====
-- The statistics of unicast_jpeg_rtp_receiver of rtp_endsystem.cpp, which are read through
-- `jpeg_sequence_utility_`.
use rtsp.Common.{ℕ, ◌≡◌, true, false, none, List, arith}
use rtsp.Rtp.Spirit.{Spirit}
use rtsp.Rtp.Sequence.{RtpReceiverSquenceUtility}
use rtsp.Rtp.Packet.{default_jpeg_packet, default_fec_packet}
use rtsp.Rtp.Packet.Grammar.{parse_jpeg_packet, parse_fec_packet}
use rtsp.Rtp.Receiver.{Receiver}
use rtsp.Rtp.Receiver.Handlers.{
  is_undefined, report, handle_new_jpeg_packet, handle_new_fec_packet, handle_new_incoming_message,
}

module _ (spirit : Spirit) (storage : RtpReceiverSquenceUtility) where
  -- Before the first JPEG packet of a source, with a statistics handler set: a message that is no
  -- JPEG packet, and whose SSRC as the grammar of FEC packets leaves it is that of the receiver, makes
  -- the receiver dereference an empty optional, whether it is an FEC packet or not.
  pub handle_new_incoming_message-undefined :
      (s : Receiver) (message : List ℕ)
      → s.statistics_handler ≡ true
      → s.jpeg_sequence_utility ≡ none
      → (parse_jpeg_packet spirit default_jpeg_packet message).success ≡ false
      → (parse_fec_packet spirit default_fec_packet message).attribute.header.ssrc ≡ s.ssrc
      → handle_new_incoming_message spirit storage s message ≡ is_undefined
  unfolding handle_new_incoming_message handle_new_jpeg_packet handle_new_fec_packet report
  handle_new_incoming_message-undefined s message h u j f = ground (arith, h, u, j, f)
