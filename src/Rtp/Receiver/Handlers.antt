-- ===== src/Rtp/Receiver/Handlers.antt =====
-- The handlers of unicast_jpeg_rtp_receiver of rtp_endsystem.cpp: JPEG packets, FEC packets, any
-- message, and the timer that shows the next frame.
use rtsp.Common.{
  ℕ, ◌+◌, ◌-◌, ◌%◌, ◌^◌, Bool, true, false, not, Option, none, some, List, [], ◌∷◌, ◌++◌, length,
  drop, value_or, ltb, ◌==◌, if◌then◌else◌,
}
use rtsp.Rtp.Spirit.{Spirit}
use rtsp.Rtp.Sequence.{RtpReceiverSquenceUtility, update_seq, expected}
use rtsp.Rtp.Sequence
use rtsp.Rtp.Packet.{CustomJpegPacket, default_jpeg_packet, default_fec_packet}
use rtsp.Rtp.Packet.Grammar.{parse_jpeg_packet, parse_fec_packet}
use rtsp.Rtp.Receiver.{
  JpegEntry, Receiver, Statistics, Result, returns, bind, element, buffer_size, media_packet_delay,
}
use rtsp.Rtp.Receiver.Recovery.{recover_packet_by_fec}

-- The result of a packet handler, with the state that it leaves.
pub data Handled : Type 0 where
  handled : Receiver → Bool → Handled
  throws : Receiver → Handled
  is_undefined : Handled

-- The result of a message, with the statistics that are passed on.
pub data Received : Type 0 where
  received : Receiver → Option Statistics → Received
  throws : Receiver → Received
  is_undefined : Received

-- The result of the timer: the frame that is shown, or the end of the timer by an exception.
pub data Displayed : Type 0 where
  displays : Receiver → Option (List ℕ) → Displayed
  throws : Displayed

abbrev pub count_corrected : Receiver → Receiver
count_corrected s = record s { corrected = (s.corrected + 1) % 2 ^ 64 }

abbrev pub count_uncorrectable : Receiver → Receiver
count_uncorrectable s = record s { uncorrectable = (s.uncorrectable + 1) % 2 ^ 64 }

-- `frame_buffer.push_back(incoming_buffer.front().first)`, `incoming_buffer.pop_front()`
abbrev pub release_from : Receiver → List JpegEntry → Receiver
release_from s [] = record s { jpeg_packet_incoming_buffer = [] }
release_from s (entry ∷ entries) = record s {
  jpeg_packet_frame_buffer = s.jpeg_packet_frame_buffer ++ (entry.0 ∷ []);
  jpeg_packet_incoming_buffer = entries;
}

abbrev pub release_front : Receiver → Receiver
release_front s = release_from s s.jpeg_packet_incoming_buffer

-- The frame that the timer shows, of the frame buffer given.
abbrev pub display_front : Receiver → List CustomJpegPacket → Displayed
display_front s [] = displays s none
display_front s (packet ∷ packets) =
    displays (record s { jpeg_packet_frame_buffer = packets }) (some packet.payload)

-- `display_next_frame_timer_handler(error)`
unfoldable pub display_next_frame_timer_handler : Bool → Receiver → Displayed
display_next_frame_timer_handler error s =
    if error then throws else display_front s s.jpeg_packet_frame_buffer

-- `statistics_handler_(statistics{…})`, by what `jpeg_sequence_utility_` holds.
abbrev pub report_by : Receiver → Option RtpReceiverSquenceUtility → Received
report_by s none = is_undefined
report_by s (some utility) = received s (
    some (record {
      received = utility.received;
      expected_packets = expected utility;
      corrected_packets = s.corrected;
      uncorrectable_packets = s.uncorrectable;
    }))

-- The call of the statistics handler, which reads the sequence numbers of JPEG packets.
unfoldable pub report : Receiver → Received
report s = if s.statistics_handler then report_by s s.jpeg_sequence_utility else received s none

module _ (spirit : Spirit) (storage : RtpReceiverSquenceUtility) where
  -- The part of `handle_new_jpeg_packet` that compares the two packets around the place of the
  -- delay, whose difference is an `int`.
  unfoldable pub check_gap : Receiver → Result Receiver
  check_gap s =
      let buffer = s.jpeg_packet_incoming_buffer in
      let place = length buffer - media_packet_delay in
      bind (element place buffer) (λ next. bind (element (place - 1) buffer) (λ previous.
        let number = next.0.header.sequence_number in
        let limit = previous.0.header.sequence_number + 2 in
        if number == limit
        then bind (recover_packet_by_fec spirit s) (λ recovery.
          returns
            (if recovery.1 then count_corrected recovery.0 else count_uncorrectable recovery.0))
        else returns (if ltb limit number then count_uncorrectable s else s)))

  -- The part of `handle_new_jpeg_packet` behind the push.
  unfoldable pub shift_buffers : Receiver → Handled
  shift_buffers s =
      if ltb (length s.jpeg_packet_incoming_buffer) buffer_size
      then handled s true
      else elim (check_gap s) [
        | returns s' ↦ handled (release_front s') true
        | Result.throws ↦ throws s
        | Result.is_undefined ↦ is_undefined
      ]

  -- The part of `handle_new_jpeg_packet` behind the tests of the packet.
  unfoldable pub take_jpeg_packet : Receiver → CustomJpegPacket → List ℕ → Handled
  take_jpeg_packet s packet message =
      let number = packet.header.sequence_number in
      let utility =
        update_seq (value_or s.jpeg_sequence_utility (rtsp.Rtp.Sequence.construct storage number))
          number in
      let s' = record s { jpeg_sequence_utility = some utility.0 } in
      if utility.1 == 0
      then handled s' true
      else shift_buffers (record s' {
        jpeg_packet_incoming_buffer = s.jpeg_packet_incoming_buffer ++ ((packet, message) ∷ []);
      })

  -- `handle_new_jpeg_packet(message)`. The data are looked at from their end: with fewer than two
  -- octets `at` throws, and data that do not end with FF D9 are only logged.
  unfoldable pub handle_new_jpeg_packet : Receiver → List ℕ → Handled
  handle_new_jpeg_packet s message =
      let p = parse_jpeg_packet spirit default_jpeg_packet message in
      if not p.success
      then handled s false
      else if not (p.attribute.header.ssrc == s.ssrc)
      then throws s
      else if ltb (length p.attribute.payload) 2
      then throws s
      else take_jpeg_packet s p.attribute message

  -- `handle_new_fec_packet(message)`
  unfoldable pub handle_new_fec_packet : Receiver → List ℕ → Handled
  handle_new_fec_packet s message =
      let p = parse_fec_packet spirit default_fec_packet message in
      let number = p.attribute.header.sequence_number in
      let utility =
        update_seq (value_or s.fec_sequence_utility (rtsp.Rtp.Sequence.construct storage number))
          number in
      let s' = record s { fec_sequence_utility = some utility.0 } in
      let buffer = s.fec_packet_incoming_buffer ++ ((p.attribute, message) ∷ []) in
      if not p.success
      then handled s false
      else if not (p.attribute.header.payload_type_field == 100)
      then handled s false
      else if not (p.attribute.header.ssrc == s.ssrc)
      then throws s
      else if utility.1 == 0
      then handled s' true
      else handled
          (record s' {
            fec_packet_incoming_buffer =
                if ltb buffer_size (length buffer) then drop 1 buffer else buffer;
          })
          true

  -- `handle_new_incoming_message(message)`
  unfoldable pub handle_new_incoming_message : Receiver → List ℕ → Received
  handle_new_incoming_message s message = elim (handle_new_jpeg_packet s message) [
    | handled s' true ↦ report s'
    | handled s' false ↦ elim (handle_new_fec_packet s' message) [
      | handled s'' known ↦ report s''
      | throws s'' ↦ throws s''
      | is_undefined ↦ is_undefined
    ]
    | throws s' ↦ throws s'
    | is_undefined ↦ is_undefined
  ]

-- `set_statistics_handler(statistics_handler)`, for a handler that is not empty.
abbrev pub set_statistics_handler : Receiver → Receiver
set_statistics_handler s = record s { statistics_handler = true }
