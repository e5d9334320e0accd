-- ===== src/Rtp/Sender/Frames.antt =====
-- Sending a file of frames.
use rtsp.Common.{
  ℕ, zero, suc, ◌+◌, ◌*◌, ◌%◌, ◌^◌, ◌<◌, ◌≡◌, ◌≢◌, refl, sym, ap, subst, false, Option, none, some,
  List, [], ◌∷◌, ◌++◌, length, length-append, take, drop, All, arith,
}
use rtsp.Rtp.Spirit.{Spirit}
use rtsp.Rtp.Packet.{CustomJpegPacket, default_jpeg_packet}
use rtsp.Rtp.Packet.Generator.{generate_jpeg_packet}
use rtsp.Rtp.Packet.Grammar.{parse_jpeg_packet, succeed}
use rtsp.Rtp.Packet.HeaderRoundTrip.{IsByte}
use rtsp.Rtp.Packet.RoundTrip.{IsSendableJpeg, parse-generate_jpeg_packet}
use rtsp.Rtp.Sender.{Sender}
use rtsp.Rtp.Sender.Sending.{
  sends, throws, reads_past_end, copy_n, next_packet, passes, send_next, send_fec, send_packet,
  send_next_packet_handler, stopped,
}

module _ {ℓ} {A : Type ℓ} where
  take-append : (xs ys : List A) → take (length xs) (xs ++ ys) ≡ xs
  take-append [] ys = refl
  take-append (x ∷ xs) ys = ap (λ zs. x ∷ zs) (take-append xs ys)

  drop-append : (xs ys : List A) → drop (length xs) (xs ++ ys) ≡ ys
  drop-append [] ys = refl
  drop-append (x ∷ xs) ys = drop-append xs ys

-- A frame in the file: five characters that read as the length of the data, and the data.
abbrev pub Frame : Type 0
Frame = List ℕ × List ℕ

pub record IsFrame (uint_ : List ℕ → Option ℕ) (frame : Frame) : Type 0 where
  pub five_characters : length frame.0 ≡ 5
  pub reads_as_length : uint_ frame.0 ≡ some (length frame.1)
  pub some_data : length frame.1 ≢ 0
  pub octets : All IsByte frame.1

abbrev pub file_of : List Frame → List ℕ
file_of [] = []
file_of ((text, payload) ∷ frames) = text ++ (payload ++ file_of frames)

-- No channel simulation and no FEC.
pub record IsPlain (s : Sender) : Type 0 where
  pub no_channel : s.channel_failure_distribution ≡ none
  pub no_fec : s.fec_generator ≡ none
  pub ssrc_range : s.ssrc < 2 ^ 32
  pub sequence_range : s.current_sequence_number < 2 ^ 16

module _ (spirit : Spirit) (uint_ : List ℕ → Option ℕ) where
  -- The handler `n` times in a row, with what it hands to the socket.
  pub send_times : ℕ → Sender → Option (Sender × List (List ℕ))
  send_times zero s = some (s, [])
  send_times (suc n) s = elim (send_next_packet_handler spirit uint_ s false false) [
    | sends s' sent ↦ elim (send_times n s') [
      | none ↦ none
      | some (s'', more) ↦ some (s'', sent ++ more)
    ]
    | throws s' sent ↦ none
    | reads_past_end ↦ none
  ]

  -- The buffers are the packets of the frames, in order: each is read to its end by the grammar of
  -- the receiver, as a packet with the data, the SSRC, consecutive numbers that wrap at 16 bits, and
  -- 3600 units of time for each number.
  abbrev pub Carries : ℕ → ℕ → List Frame → List (List ℕ) → Type 0
  Carries ssrc seq [] [] = Unit {0}
  Carries ssrc seq ((text, payload) ∷ frames) (buffer ∷ buffers) =
      ((packet : CustomJpegPacket) × (parse_jpeg_packet spirit default_jpeg_packet buffer
          ≡ succeed [] packet)
        × (packet.payload ≡ payload)
        × (packet.header.base.ssrc ≡ ssrc)
        × (packet.header.base.sequence_number ≡ seq)
        × (packet.header.base.timestamp ≡ seq * 3600))
      × Carries ssrc ((seq + 1) % 65536) frames buffers
  Carries ssrc seq _ _ = ⊥

  next_packet-IsSendable :
      (s : Sender) (frame : Frame)
      → IsPlain s
      → IsFrame uint_ frame
      → IsSendableJpeg (record (next_packet s) { payload = frame.1 })
  unfolding next_packet
  next_packet-IsSendable s frame plain f = record {
    sendable = record {
      version_two = refl;
      no_extension = refl;
      csrc_count = refl;
      csrc_field = omega arith;
      payload_type_range = omega arith;
      sequence_range = plain.sequence_range;
      timestamp_range = omega (arith, plain.sequence_range);
      ssrc_range = plain.ssrc_range;
      csrcs_range = tt;
      extension_empty = refl;
    };
    jpeg_payload_type = refl;
    type_specific_range = omega arith;
    fragment_offset_range = omega arith;
    jpeg_type_range = omega arith;
    quantization_range = omega arith;
    width_range = omega arith;
    height_range = omega arith;
    payload_range = f.octets;
  }

  copied :
      (payload rest : List ℕ)
      → length payload ≢ 0
      → copy_n (length payload) (payload ++ rest) ≡ some (payload, rest)
  unfolding copy_n
  copied [] rest h = absurd (h refl)
  copied (b ∷ bs) rest h =
      ground (arith, length-append bs rest, take-append bs rest, drop-append bs rest)

  abbrev plain_with : Sender → List ℕ → Sender
  plain_with s source = record s {
    jpeg_source = source;
    channel_failure_distribution = none;
    fec_generator = none;
  }

  plain_form :
      (s : Sender) {source : List ℕ} → IsPlain s → s.jpeg_source ≡ source → plain_with s source ≡ s
  plain_form s plain e = λ i. record s {
    jpeg_source = sym e i;
    channel_failure_distribution = sym plain.no_channel i;
    fec_generator = sym plain.no_fec i;
  }

  -- The state and the packet of one frame.
  abbrev Sends : Frame → List ℕ → Sender → Type 0
  Sends frame rest s =
      send_next_packet_handler spirit uint_ s false false
      ≡ sends (send_next (record s { jpeg_source = rest }))
          ((generate_jpeg_packet spirit (record (next_packet s) { payload = frame.1 })).1 ∷ [])

  one_plain_frame :
      (s : Sender) (frame : Frame) (rest : List ℕ)
      → IsFrame uint_ frame
      → Sends frame rest (plain_with s (frame.0 ++ (frame.1 ++ rest)))
  unfolding send_next_packet_handler send_packet send_fec passes send_next next_packet
  one_plain_frame s (text, []) rest f = absurd (f.some_data refl)
  one_plain_frame s (a ∷ b ∷ c ∷ d ∷ e ∷ [], x ∷ xs) rest f =
      rw (f.reads_as_length, send_next_packet_handler) (rw (copied (x ∷ xs) rest f.some_data) refl)
  one_plain_frame s (_, x ∷ xs) rest f = absurd (omega (arith, f.five_characters))

  one_frame :
      (s : Sender) (frame : Frame) (rest : List ℕ)
      → IsPlain s
      → IsFrame uint_ frame
      → s.jpeg_source ≡ frame.0 ++ (frame.1 ++ rest)
      → Sends frame rest s
  one_frame s frame rest plain f e =
      subst (Sends frame rest) (plain_form s plain e) (one_plain_frame s frame rest f)

  after_frame-IsPlain :
      (s : Sender) (rest : List ℕ)
      → IsPlain s
      → IsPlain (send_next (record s { jpeg_source = rest }))
  unfolding send_next
  after_frame-IsPlain s rest plain = record {
    no_channel = plain.no_channel;
    no_fec = plain.no_fec;
    ssrc_range = plain.ssrc_range;
    sequence_range = omega arith;
  }

  at_end :
      (s : Sender)
      → s.jpeg_source ≡ []
      → send_next_packet_handler spirit uint_ s false false ≡ sends (stopped s) []
  unfolding send_next_packet_handler
  at_end s e =
      subst (λ s. send_next_packet_handler spirit uint_ s false false ≡ sends (stopped s) [])
        (λ i. record s { jpeg_source = sym e i }) refl

  -- For a sender without channel simulation and FEC, on a file that is any number of frames and
  -- nothing else: the handler hands over one buffer for each frame, in order; the parser of the receiver
  -- reads each buffer to its end, as the data of its frame under the sender's SSRC, with numbers that
  -- go up by one from the sender's current one and wrap at 16 bits, and a time of 3600 units
  -- for each number. The next call finds the end of the file, sends nothing, and the sender stops.
  pub send_times-Carries :
      (frames : List Frame) (s : Sender)
      → IsPlain s
      → All (IsFrame uint_) frames
      → s.jpeg_source ≡ file_of frames
      → (s' : Sender) × (sent : List (List ℕ)) × (send_times (length frames) s ≡ some (s', sent))
        × Carries s.ssrc s.current_sequence_number frames sent
        × (send_next_packet_handler spirit uint_ s' false false ≡ sends (stopped s') [])
  unfolding send_next next_packet send_times
  send_times-Carries [] s plain f e = (s, [], refl, tt, at_end s e)
  send_times-Carries (frame ∷ frames) s plain (f, fs) e =
      let after = send_next (record s { jpeg_source = file_of frames }) in
      let packet : CustomJpegPacket = record (next_packet s) { payload = frame.1 } in
      let (s', sent, run, carried, ends) =
        send_times-Carries frames after (after_frame-IsPlain s (file_of frames) plain) fs refl in
      let read =
        parse-generate_jpeg_packet spirit packet (next_packet-IsSendable s frame plain f) in
      (
        s',
        (generate_jpeg_packet spirit packet).1 ∷ sent,
        rw (one_frame s frame (file_of frames) plain f e, send_times) (rw run refl),
        ((packet, read.1, refl, refl, refl, omega arith), carried),
        ends,
      )
