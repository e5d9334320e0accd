-- ===== src/Rtp/Sender/Sending.antt =====
-- send_next_packet_handler of src/streaming_lib/rtp_lib/src/rtp_endsystem.cpp.
use rtsp.Common.{
  ℕ, zero, suc, ◌+◌, ◌*◌, ◌%◌, Bool, true, false, not, Option, none, some, List, [], ◌∷◌, ◌++◌,
  length, take, drop, ltb, ◌==◌, if◌then◌else◌,
}
use rtsp.Rtp.Spirit.{Spirit}
use rtsp.Rtp.Packet.{Header, default_header, CustomJpegPacket, default_jpeg_packet}
use rtsp.Rtp.Packet.Generator.{generate_header, generate_jpeg_packet}
use rtsp.Rtp.Fec.{returns, throws_logic_error, throws_out_of_range, generate_next_fec_packet}
use rtsp.Rtp.Sender.{Sender}

-- How a call of the handler ends: with the packets that it hands to the socket; with an exception behind
-- the packets that it has handed over; or in undefined behaviour at the end of the stream.
pub data Sent : Type 0 where
  sends : Sender → List (List ℕ) → Sent
  throws : Sender → List (List ℕ) → Sent
  reads_past_end : Sent

abbrev pub payload_type_number : ℕ
payload_type_number = 26

abbrev pub frame_period : ℕ
frame_period = 40

-- The packet before its data are read. The product of the timestamp is an `int`; it stays below 2 ^ 28.
unfoldable pub next_packet : Sender → CustomJpegPacket
next_packet s = record default_jpeg_packet {
  header = record default_jpeg_packet.header {
    base = record default_header {
      payload_type_field = payload_type_number;
      ssrc = s.ssrc;
      marker = true;
      sequence_number = s.current_sequence_number;
      timestamp = s.current_sequence_number * frame_period * 90;
    };
    image_width = 48;
    image_height = 36;
  };
}

-- The header of a FEC packet.
unfoldable pub next_fec_header : Sender → CustomJpegPacket → Header
next_fec_header s packet = record default_header {
  sequence_number = s.current_fec_sequence_number;
  ssrc = s.ssrc;
  payload_type_field = 100;
  timestamp = packet.header.base.timestamp;
}

-- `std::copy_n` from the iterator that has read the first octet already: `none` is a read at the end.
unfoldable pub copy_n : ℕ → List ℕ → Option (List ℕ × List ℕ)
copy_n zero stream = some ([], drop 1 stream)
copy_n (suc n) stream =
    if ltb (length stream) (suc n) then none else some (take (suc n) stream, drop (suc n) stream)

-- A packet is not sent if the simulated channel is there and draws a failure.
unfoldable pub passes : Sender → Bool → Bool
passes s fails = elim s.channel_failure_distribution [ none ↦ true | some droprate ↦ not fails ]

abbrev pub stopped : Sender → Sender
stopped s = record s { running = false; waiting = false }

-- The end of the handler: the next number, and the timer waits again.
unfoldable pub send_next : Sender → Sender
send_next s = record s {
  current_sequence_number = (s.current_sequence_number + 1) % 65536;
  waiting = true;
}

-- `qi::parse` with `qi::uint_parser<uint_fast32_t, 10>`, which need not read all of the text.
module _ (spirit : Spirit) (uint_ : List ℕ → Option ℕ) where
  -- The block `if (this->fec_generator_)`, and the end; `fec_fails` is what the channel draws.
  unfoldable pub send_fec : Sender → CustomJpegPacket → List ℕ → List (List ℕ) → Bool → Sent
  unfolding passes next_fec_header send_next
  send_fec s packet buffer sent fec_fails = elim s.fec_generator [
    | none ↦ sends (send_next s) sent
    | some fec_generator ↦
        elim (generate_next_fec_packet spirit fec_generator buffer s.current_sequence_number) [
          | throws_logic_error g ↦ throws (record s { fec_generator = some g }) sent
          | throws_out_of_range g ↦ throws (record s { fec_generator = some g }) sent
          | returns g made ↦ elim made [
            | none ↦ sends (send_next (record s { fec_generator = some g })) sent
            | some fec_packet ↦
                if passes s fec_fails
                then sends
                    (send_next (record s {
                      fec_generator = some g;
                      current_fec_sequence_number = (s.current_fec_sequence_number + 1) % 65536;
                    }))
                    (sent
                      ++ (((generate_header spirit (next_fec_header s packet)).1 ++ fec_packet)
                          ∷ []))
                else sends (send_next (record s { fec_generator = some g })) sent
          ]
        ]
  ]

  -- The packet once its data are read, over the socket and into the FEC generator.
  unfoldable pub send_packet : Sender → CustomJpegPacket → Bool → Bool → Sent
  unfolding passes send_fec
  send_packet s packet fails fec_fails =
      let buffer = (generate_jpeg_packet spirit packet).1 in
      send_fec s packet buffer (if passes s fails then buffer ∷ [] else []) fec_fails

  -- `send_next_packet_handler` without an error, for a handler that waited on the timer.
  unfoldable pub send_next_packet_handler : Sender → Bool → Bool → Sent
  unfolding next_packet copy_n send_packet
  send_next_packet_handler s fails fec_fails =
      let frame_length = take 5 s.jpeg_source in
      let rest = drop 5 s.jpeg_source in
      let fired = record s { jpeg_source = rest; waiting = false } in
      if not (length frame_length == 5)
      then sends (stopped fired) []
      else elim (uint_ frame_length) [
        | none ↦ throws (stopped fired) []
        | some frame_size ↦ elim rest [
          | [] ↦ sends (stopped fired) []
          | octet ∷ octets ↦ elim (copy_n frame_size (octet ∷ octets)) [
            | none ↦ reads_past_end
            | some (octets_read, left) ↦
                send_packet (record fired { jpeg_source = left })
                  (record (next_packet s) { payload = octets_read }) fails fec_fails
          ]
        ]
      ]
