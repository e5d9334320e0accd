-- ===== src/Rtp/Receiver/Tests.antt =====
-- The theorems on unicast_jpeg_rtp_receiver of rtp_endsystem.cpp at small receivers, and runs of its
-- handlers.
use rtsp.Common.{
  ℕ, zero, suc, ◌+◌, ◌-◌, ◌*◌, ◌^◌, ◌≤◌, ◌<◌, ◌≡◌, refl, ap, subst, ◌∙◌, Bool, true, false, none,
  some, List, [], ◌∷◌, ◌++◌, length, from_bool, arith,
}
use rtsp.Common.Bits.{agree, agree_sound}
use rtsp.Rtp.Spirit.{big_endian}
use rtsp.Rtp.Sequence.{RtpReceiverSquenceUtility, update_seq}
use rtsp.Rtp.Packet.{CustomJpegPacket, default_header, default_jpeg_packet, default_fec_packet}
use rtsp.Rtp.Packet.Grammar.{
  succeed, parse_fixed_header, parse_csrcs, parse_header, parse_jpeg_profile, parse_jpeg_packet,
  parse_fec_packet, parse_fec_header,
}
use rtsp.Rtp.Receiver.{JpegEntry, FecEntry, Receiver, Result, returns, construct, element}
use rtsp.Rtp.Receiver.Reconstruction.{fec_reconstruction}
use rtsp.Rtp.Receiver.Recovery.{mask_test, find_media}
use rtsp.Rtp.Receiver.Handlers.{
  handle_new_jpeg_packet, take_jpeg_packet, shift_buffers, report, Received, set_statistics_handler,
  handle_new_incoming_message, display_next_frame_timer_handler,
}
use rtsp.Rtp.Receiver.Runs.{Ran, started, received_message, messages, idle, displayed, set_handler}
use rtsp.Rtp.Receiver.Buffers.{IsBuffered, Ran-IsBuffered}
use rtsp.Rtp.Receiver.Contents.{contents, Grows}
use rtsp.Rtp.Receiver.Delivery.{Ran-Grows}
use rtsp.Rtp.Receiver.Numbers.{IsConsecutive, element-IsConsecutive}
use rtsp.Rtp.Receiver.Gapless.{receive_all, receive_all-frames}
use rtsp.Rtp.Receiver.Reports.{handle_new_incoming_message-undefined}
use rtsp.Rtp.Receiver.Rebuilt.{ReturnsUnnumbered, fec_reconstruction-ReturnsUnnumbered}
use rtsp.Rtp.Receiver.Bounds.{Returns, find_media-Returns, find_media-undefined}

abbrev storage : RtpReceiverSquenceUtility
storage = record {
  max_seq = 7;
  cycles = 7;
  base_seq = 7;
  bad_seq = 7;
  probation = 7;
  received = 7;
  expected_prior = 7;
  received_prior = 7;
  transit = 7;
  jitter = 7;
}

abbrev packet : ℕ → ℕ → CustomJpegPacket
packet number octet = record default_jpeg_packet {
  header = record (default_jpeg_packet.header) {
    base = record default_header { payload_type_field = 26; sequence_number = number; ssrc = 5 };
  };
  payload = octet ∷ 0xff ∷ 0xd9 ∷ [];
}

abbrev octets : ℕ → ℕ → List ℕ
octets number octet =
    0x80 ∷ 26 ∷ 0 ∷ number ∷ 0 ∷ 0 ∷ 0 ∷ 0 ∷ 0 ∷ 0 ∷ 0 ∷ 5 ∷ 0 ∷ 0 ∷ 0 ∷ 0 ∷ 0 ∷ 0 ∷ 0 ∷ 0 ∷ octet
    ∷ 0xff ∷ 0xd9 ∷ []

abbrev entry : ℕ → ℕ → JpegEntry
entry number octet = (packet number octet, octets number octet)

packet_parses :
    parse_jpeg_packet big_endian default_jpeg_packet (octets 9 33) ≡ succeed [] (packet 9 33)
unfolding parse_jpeg_packet parse_header parse_fixed_header parse_csrcs parse_jpeg_profile
packet_parses = refl

receive_all-frames_example :
    (s : Receiver) × (receive_all big_endian storage
        (construct 5)
        (entry 8 11 ∷ entry 9 22 ∷ entry 10 33 ∷ [])
      ≡ some s)
    × (contents s ≡ (22 ∷ 0xff ∷ 0xd9 ∷ []) ∷ (33 ∷ 0xff ∷ 0xd9 ∷ []) ∷ [])
    × (s.corrected ≡ 0)
    × (s.uncorrectable ≡ 0)
unfolding parse_jpeg_packet parse_header parse_fixed_header parse_csrcs parse_jpeg_profile
receive_all-frames_example =
    receive_all-frames big_endian storage 5 8 (entry 8 11) (entry 9 22 ∷ entry 10 33 ∷ [])
      (omega arith) (refl, (refl, (refl, tt)))
      (refl, refl, omega arith, (refl, refl, omega arith, (refl, refl, omega arith, tt)))

-- A receiver that has accepted packets up to number 8 and holds a frame to show.
abbrev holding : Receiver
holding = record (construct 5) {
  jpeg_packet_frame_buffer = packet 7 22 ∷ [];
  jpeg_sequence_utility = some (record storage { max_seq = 8; probation = 0 });
}

abbrev holding_two : Receiver
holding_two = record holding {
  jpeg_packet_incoming_buffer = entry 9 33 ∷ [];
  jpeg_sequence_utility = some (record storage { max_seq = 9; probation = 0; received = 8 });
}

message_9 :
    handle_new_incoming_message big_endian storage holding (octets 9 33)
    ≡ Received.received holding_two none
unfolding handle_new_incoming_message handle_new_jpeg_packet take_jpeg_packet shift_buffers report
    parse_jpeg_packet parse_header parse_fixed_header parse_csrcs parse_jpeg_profile update_seq
message_9 = refl

-- It receives the packet with the number 9, and shows the frame that it held.
shown_run :
    Ran big_endian storage holding true
      ((22 ∷ 0xff ∷ 0xd9 ∷ []) ∷ [])
      (record holding_two { jpeg_packet_frame_buffer = [] })
unfolding display_next_frame_timer_handler
shown_run = displayed (received_message started (octets 9 33) message_9) refl

Ran-Grows_example : Grows big_endian (contents holding) (messages big_endian storage shown_run) (
    ((22 ∷ 0xff ∷ 0xd9 ∷ []) ∷ [])
    ++ contents (record holding_two { jpeg_packet_frame_buffer = [] }))
Ran-Grows_example = Ran-Grows big_endian storage holding shown_run

idle_run : Ran big_endian storage (construct 5) true [] (set_statistics_handler (construct 5))
unfolding display_next_frame_timer_handler
idle_run = set_handler (idle started refl)

Ran-IsBuffered_example : IsBuffered (set_statistics_handler (construct 5))
Ran-IsBuffered_example = Ran-IsBuffered big_endian storage 5 idle_run

handle_new_incoming_message-undefined_example :
    handle_new_incoming_message big_endian storage (set_statistics_handler (construct 0)) []
    ≡ Received.is_undefined
unfolding parse_jpeg_packet parse_fec_packet parse_fec_header parse_header parse_fixed_header
handle_new_incoming_message-undefined_example =
    handle_new_incoming_message-undefined big_endian storage (set_statistics_handler (construct 0))
      [] refl refl refl refl

abbrev fec_packet : FecEntry
fec_packet = (
  record default_fec_packet {
    levels = (record { protection_length_field = 12; mask_field = 0 }, 1 ∷ 2 ∷ []) ∷ [];
  },
  0x80 ∷ 100 ∷ 0 ∷ 1 ∷ 0 ∷ 0 ∷ 0 ∷ 0 ∷ 0 ∷ 0 ∷ 0 ∷ 5 ∷ 0 ∷ 0 ∷ 0 ∷ 0 ∷ 0 ∷ 0 ∷ 0 ∷ 0 ∷ 0 ∷ 0 ∷ [],
)

fec_reconstruction-ReturnsUnnumbered_example :
    ReturnsUnnumbered (fec_reconstruction big_endian fec_packet (entry 9 33 ∷ []))
fec_reconstruction-ReturnsUnnumbered_example =
    fec_reconstruction-ReturnsUnnumbered big_endian fec_packet (entry 9 33 ∷ [])

-- Packets with the numbers from `number` on.
abbrev entries : ℕ → ℕ → List JpegEntry
entries zero number = []
entries (suc n) number = entry number 1 ∷ entries n (number + 1)

entries-IsConsecutive :
    (n number : ℕ) → number + n < 65536 → IsConsecutive number (entries n number)
entries-IsConsecutive zero number h = tt
entries-IsConsecutive (suc n) number h = (
  refl,
  subst (λ k. IsConsecutive k (entries n (number + 1))) (omega arith)
      (entries-IsConsecutive n (number + 1) (omega arith)),
)

-- The mask of a block of three packets, and of one of 22.
abbrev mask_of_three : ℕ
mask_of_three = 7 * 2 ^ 61

abbrev mask_of_22 : ℕ
mask_of_22 = (2 ^ 22 - 1) * 2 ^ 42

digit_false : (b : Bool) → from_bool b ≡ 0 → b ≡ false
digit_false true e = absurd (omega arith)
digit_false false e = refl

digit_true : (b : Bool) → from_bool b ≡ 1 → b ≡ true
digit_true true e = refl
digit_true false e = absurd (omega arith)

three_clear : (u : ℕ) → 20 < u → u ≤ 63 → mask_test mask_of_three (63 - u) ≡ false
unfolding agree
three_clear u h l = digit_false _ (
    agree_sound 43 (λ b. from_bool (mask_test mask_of_three b)) (λ b. 0) refl (63 - u)
      (omega arith))

find_media-Returns_example : Returns (find_media (entries 50 100) mask_of_three 129 1)
find_media-Returns_example =
    find_media-Returns (entries 50 100) mask_of_three 129 1 (omega arith) (omega arith) three_clear

ones_set : (u : ℕ) → 1 ≤ u → u ≤ 21 → mask_test mask_of_22 (63 - u) ≡ true
unfolding agree
ones_set u h l =
    digit_true _ (
      agree_sound 22 (λ v. from_bool (mask_test mask_of_22 (63 - v))) (λ v. 1) refl u (omega arith))

numbered :
    (i : ℕ)
    → i < 20
    → (e : JpegEntry) × (element (length (entries 20 1) - 20 + i) (entries 20 1) ≡ returns e)
      × (e.0.header.sequence_number ≡ 0 + (i + 1))
numbered i h =
    let (e, at, n) =
      element-IsConsecutive 1 i (entries 20 1) (entries-IsConsecutive 20 1 (omega arith))
        (omega arith) (omega arith) in
    let place : 0 + i ≡ i = omega arith in
    (e, ap (λ j. element j (entries 20 1)) place ∙ at, omega arith)

find_media-undefined_example : find_media (entries 20 1) mask_of_22 0 0 ≡ Result.is_undefined
find_media-undefined_example =
    find_media-undefined (entries 20 1) mask_of_22 0 (omega arith) ones_set numbered
