-- ===== src/Rtp/Receiver/Gapless.antt =====
-- unicast_jpeg_rtp_receiver of rtp_endsystem.cpp on a stream of JPEG packets without a loss.
use rtsp.Common.{
  ℕ, ◌+◌, ◌-◌, ◌%◌, ◌≤◌, ◌<◌, ◌≡◌, refl, sym, ap, subst, ◌∙◌, inl, inr, true, false, Option,
  Bool-cases, ltb, none, some, List, [], ◌∷◌, ◌++◌, append-nil, append_assoc, length, length-append,
  arith,
}
use rtsp.Rtp.Spirit.{Spirit}
use rtsp.Rtp.Sequence.{RtpReceiverSquenceUtility, update_seq}
use rtsp.Rtp.Sequence
use rtsp.Rtp.Sequence.Consecutive.{Expects, update_seq-construct, update_seq-Expects}
use rtsp.Rtp.Packet.{default_jpeg_packet}
use rtsp.Rtp.Packet.Grammar.{succeed, parse_jpeg_packet}
use rtsp.Rtp.Receiver.{JpegEntry, Receiver, returns, construct}
use rtsp.Rtp.Receiver.Handlers.{
  handled, received, throws, is_undefined, release_from, release_front, check_gap, shift_buffers,
  take_jpeg_packet, handle_new_jpeg_packet, report, handle_new_incoming_message,
}
use rtsp.Rtp.Receiver.Effects.{pushed}
use rtsp.Rtp.Receiver.Contents.{contents, frames_in, contents-pushed, contents-release_from}
use rtsp.Rtp.Receiver.Numbers.{IsConsecutive, IsConsecutive-append, element-IsConsecutive}

module _ (spirit : Spirit) (storage : RtpReceiverSquenceUtility) where
  -- Packets with the octets that they are parsed from, as a sender with this SSRC sends them.
  abbrev pub IsStream : ℕ → List JpegEntry → Type 0
  IsStream ssrc [] = Unit
  IsStream ssrc (entry ∷ entries) =
      (parse_jpeg_packet spirit default_jpeg_packet entry.1 ≡ succeed [] entry.0)
      × (entry.0.header.ssrc ≡ ssrc)
      × (2 ≤ length entry.0.payload)
      × IsStream ssrc entries

  -- The messages one after another, unless a handler throws or has undefined behaviour.
  unfoldable pub receive_all : Receiver → List JpegEntry → Option Receiver
  receive_all s [] = some s
  receive_all s (entry ∷ entries) = elim (handle_new_incoming_message spirit storage s entry.1) [
    | received s' st ↦ receive_all s' entries
    | throws s' ↦ none
    | is_undefined ↦ none
  ]

  check_gap-consecutive :
      (s : Receiver) (n : ℕ)
      → IsConsecutive n s.jpeg_packet_incoming_buffer
      → n < 65536
      → 50 ≤ length s.jpeg_packet_incoming_buffer
      → check_gap spirit storage s ≡ returns s
  unfolding check_gap
  check_gap-consecutive s n c h l =
      let buffer = s.jpeg_packet_incoming_buffer in
      let place = length buffer - 20 in
      let (next, e, a) = element-IsConsecutive n place buffer c h (omega arith) in
      let (previous, e', b) = element-IsConsecutive n (place - 1) buffer c h (omega arith) in
      ground (arith, e, e', a, b)

  -- A message of the stream to a receiver whose source is valid, or becomes valid with it.
  take_jpeg-Expects :
      (s : Receiver) (u : RtpReceiverSquenceUtility) (entry : JpegEntry)
      → s.jpeg_sequence_utility ≡ some u
      → let number = entry.0.header.sequence_number in
        number < 65536
        → Expects u number
        → take_jpeg_packet spirit storage s entry.0 entry.1
          ≡ shift_buffers spirit storage (pushed s (update_seq u number).0 entry)
  unfolding take_jpeg_packet
  take_jpeg-Expects s u entry e h x =
      let number = entry.0.header.sequence_number in
      let (valid, next) = update_seq-Expects u number h x in rw e (ground (arith, valid))

  -- A receiver in the middle of a stream, whose next number is `n`.
  record Follows (ssrc n : ℕ) (s : Receiver) : Type 0 where
    no_handler : s.statistics_handler ≡ false
    own_ssrc : s.ssrc ≡ ssrc
    source : (u : RtpReceiverSquenceUtility) × (s.jpeg_sequence_utility ≡ some u) × Expects u n
    buffered :
        (m : ℕ) × (m < 65536)
        × IsConsecutive m s.jpeg_packet_incoming_buffer
        × ((m + length s.jpeg_packet_incoming_buffer) % 65536 ≡ n)
    short : length s.jpeg_packet_incoming_buffer ≤ 49
    none_corrected : s.corrected ≡ 0
    none_uncorrectable : s.uncorrectable ≡ 0

  shift_short :
      (s : Receiver)
      → length s.jpeg_packet_incoming_buffer < 50
      → shift_buffers spirit storage s ≡ handled s true
  unfolding shift_buffers
  shift_short s h = ground arith

  shift_full :
      (s : Receiver)
      → 50 ≤ length s.jpeg_packet_incoming_buffer
      → check_gap spirit storage s ≡ returns s
      → shift_buffers spirit storage s ≡ handled (release_front s) true
  unfolding shift_buffers
  shift_full s h e = ground (arith, e)

  handle_jpeg :
      (s : Receiver) (entry : JpegEntry)
      → parse_jpeg_packet spirit default_jpeg_packet entry.1 ≡ succeed [] entry.0
      → entry.0.header.ssrc ≡ s.ssrc
      → 2 ≤ length entry.0.payload
      → handle_new_jpeg_packet spirit storage s entry.1
        ≡ take_jpeg_packet spirit storage s entry.0 entry.1
  unfolding handle_new_jpeg_packet
  handle_jpeg s entry e h l = ground (arith, e, h)

  receive_jpeg :
      (s s' : Receiver) (m : List ℕ)
      → handle_new_jpeg_packet spirit storage s m ≡ handled s' true
      → s'.statistics_handler ≡ false
      → handle_new_incoming_message spirit storage s m ≡ received s' none
  unfolding handle_new_incoming_message report
  receive_jpeg s s' m e h = ground (arith, e, h)

  -- A receiver on the stream, before its oldest packet is released.
  record IsFull (ssrc n : ℕ) (s : Receiver) (entries : List JpegEntry) : Type 0 where
    no_handler : s.statistics_handler ≡ false
    own_ssrc : s.ssrc ≡ ssrc
    source : (u : RtpReceiverSquenceUtility) × (s.jpeg_sequence_utility ≡ some u) × Expects u n
    buffered : (m : ℕ) × (m < 65536) × IsConsecutive m entries × ((m + length entries) % 65536 ≡ n)
    full : length entries ≤ 50
    none_corrected : s.corrected ≡ 0
    none_uncorrectable : s.uncorrectable ≡ 0

  release_from-Follows :
      (ssrc n : ℕ) (s : Receiver) (entries : List JpegEntry)
      → IsFull ssrc n s entries
      → 0 < length entries
      → Follows ssrc n (release_from s entries)
  release_from-Follows ssrc n s [] f l = absurd (omega arith)
  release_from-Follows ssrc n s (entry ∷ entries) f l =
      let (m, h, c, e) = f.buffered in
      record {
        no_handler = f.no_handler;
        own_ssrc = f.own_ssrc;
        source = f.source;
        buffered = ((m + 1) % 65536, omega arith, c.1, omega arith);
        short = omega (arith, f.full);
        none_corrected = f.none_corrected;
        none_uncorrectable = f.none_uncorrectable;
      }

  pushed-IsFull :
      (ssrc n : ℕ) (s : Receiver) (u : RtpReceiverSquenceUtility) (entry : JpegEntry)
      → Follows ssrc n s
      → Expects u ((n + 1) % 65536)
      → entry.0.header.sequence_number ≡ n
      → IsFull ssrc
          ((n + 1) % 65536)
          (pushed s u entry)
          (pushed s u entry).jpeg_packet_incoming_buffer
  pushed-IsFull ssrc n s u entry f x e =
      let (m, h, c, l) = f.buffered in
      let grown = length-append s.jpeg_packet_incoming_buffer (entry ∷ []) in
      record {
        no_handler = f.no_handler;
        own_ssrc = f.own_ssrc;
        source = (u, refl, x);
        buffered = (
          m,
          h,
          IsConsecutive-append m n s.jpeg_packet_incoming_buffer entry c h l e,
          omega (arith, grown),
        );
        full = omega (arith, grown, f.short);
        none_corrected = f.none_corrected;
        none_uncorrectable = f.none_uncorrectable;
      }

  -- The state behind the push goes on to a state of the stream with the same contents.
  shift-Follows :
      (ssrc n : ℕ) (s : Receiver)
      → IsFull ssrc n s s.jpeg_packet_incoming_buffer
      → (s' : Receiver) × (shift_buffers spirit storage s ≡ handled s' true)
        × Follows ssrc n s'
        × (contents s' ≡ contents s)
  shift-Follows ssrc n s f = elim (Bool-cases (ltb (length s.jpeg_packet_incoming_buffer) 50)) [
    | inl h ↦ (
      s,
      shift_short s (ground arith),
      record {
        no_handler = f.no_handler;
        own_ssrc = f.own_ssrc;
        source = f.source;
        buffered = f.buffered;
        short = ground arith;
        none_corrected = f.none_corrected;
        none_uncorrectable = f.none_uncorrectable;
      },
      refl,
    )
    | inr h ↦
        let (m, w, c, e) = f.buffered in
        (
          release_front s,
          shift_full s (ground arith) (check_gap-consecutive s m c w (ground arith)),
          release_from-Follows ssrc n s s.jpeg_packet_incoming_buffer f (ground arith),
          contents-release_from s s.jpeg_packet_incoming_buffer ∙ (unfold contents in refl),
        )
  ]

  -- One message of the stream.
  receive-Follows :
      (ssrc n : ℕ) (s : Receiver) (entry : JpegEntry)
      → n < 65536
      → Follows ssrc n s
      → entry.0.header.sequence_number ≡ n
      → IsStream ssrc (entry ∷ [])
      → (s' : Receiver) × (handle_new_incoming_message spirit storage s entry.1 ≡ received s' none)
        × Follows ssrc ((n + 1) % 65536) s'
        × (contents s' ≡ contents s ++ (entry.0.payload ∷ []))
  receive-Follows ssrc n s entry h f e (parsed, own, long, _) =
      let (u, has, x) = f.source in
      let number = entry.0.header.sequence_number in
      let x' = subst (Expects u) (sym e) x in
      let u' = (update_seq u number).0 in
      let next =
        subst (λ k. Expects u' ((k + 1) % 65536)) e
          (update_seq-Expects u number (omega arith) x').1 in
      let (s', shifted, follows, kept) =
        shift-Follows ssrc ((n + 1) % 65536) (pushed s u' entry)
          (pushed-IsFull ssrc n s u' entry f next e) in
      (
        s',
        receive_jpeg s s' entry.1
            (handle_jpeg s entry parsed (own ∙ sym f.own_ssrc) long
              ∙ take_jpeg-Expects s u entry has (omega arith) x'
              ∙ shifted)
            follows.no_handler,
        follows,
        kept ∙ contents-pushed s u' entry,
      )

  receive_all-cons :
      (s s' : Receiver) (entry : JpegEntry) (entries : List JpegEntry)
      → handle_new_incoming_message spirit storage s entry.1 ≡ received s' none
      → receive_all s (entry ∷ entries) ≡ receive_all s' entries
  unfolding receive_all
  receive_all-cons s s' entry entries e = ground (arith, e)

  receive_all-Follows :
      (ssrc n : ℕ) (s : Receiver) (entries : List JpegEntry)
      → n < 65536
      → Follows ssrc n s
      → IsConsecutive n entries
      → IsStream ssrc entries
      → (s' : Receiver) × (receive_all s entries ≡ some s')
        × (contents s' ≡ contents s ++ frames_in entries)
        × (s'.corrected ≡ 0)
        × (s'.uncorrectable ≡ 0)
  unfolding receive_all
  receive_all-Follows ssrc n s [] h f c w =
      (s, refl, sym (append-nil (contents s)), f.none_corrected, f.none_uncorrectable)
  receive_all-Follows ssrc n s (entry ∷ entries) h f c w =
      let (s1, e, f1, k) = receive-Follows ssrc n s entry h f c.0 (w.0, w.1, w.2, tt) in
      let (s2, e2, k2, a, b) =
        receive_all-Follows ssrc ((n + 1) % 65536) s1 entries (omega arith) f1 c.1 w.3 in
      (
        s2,
        receive_all-cons s s1 entry entries e ∙ e2,
        k2
            ∙ ap (λ q. q ++ frames_in entries) k
            ∙ append_assoc (contents s) (entry.0.payload ∷ []) (frames_in entries),
        a,
        b,
      )

  -- The first packet of a source only makes the receiver expect the next one.
  receive_first :
      (ssrc n : ℕ) (entry : JpegEntry)
      → n < 65535
      → entry.0.header.sequence_number ≡ n
      → IsStream ssrc (entry ∷ [])
      → (s : Receiver) × (handle_new_incoming_message spirit storage (construct ssrc) entry.1
          ≡ received s none)
        × Follows ssrc (n + 1) s
        × (contents s ≡ [])
  unfolding take_jpeg_packet contents
  receive_first ssrc n entry h e (parsed, own, long, _) =
      let s = construct ssrc in
      let number = entry.0.header.sequence_number in
      let (ignored, next) = update_seq-construct storage number (omega arith) in
      let u = (update_seq (rtsp.Rtp.Sequence.construct storage number) number).0 in
      let s' : Receiver = record s { jpeg_sequence_utility = some u } in
      let taken : take_jpeg_packet spirit storage s entry.0 entry.1 ≡ handled s' true =
        ground (arith, ignored) in
      (
        s',
        receive_jpeg s s' entry.1 (handle_jpeg s entry parsed own long ∙ taken) refl,
        record {
          no_handler = refl;
          own_ssrc = refl;
          source = (u, refl, subst (λ k. Expects u (k + 1)) e next);
          buffered = (n + 1, omega arith, tt, omega arith);
          short = omega arith;
          none_corrected = refl;
          none_uncorrectable = refl;
        },
        refl,
      )

  -- A stream of JPEG packets with consecutive sequence numbers modulo 2 ^ 16, from below 65535 on, that
  -- parse, have the SSRC of the receiver and two octets of data at least: no handler throws or has
  -- undefined behaviour, the receiver holds the frames of all packets but the first, in their order, and
  -- counts no packet as corrected or uncorrectable.
  pub receive_all-frames :
      (ssrc n : ℕ) (first : JpegEntry) (entries : List JpegEntry)
      → n < 65535
      → IsConsecutive n (first ∷ entries)
      → IsStream ssrc (first ∷ entries)
      → (s : Receiver) × (receive_all (construct ssrc) (first ∷ entries) ≡ some s)
        × (contents s ≡ frames_in entries)
        × (s.corrected ≡ 0)
        × (s.uncorrectable ≡ 0)
  receive_all-frames ssrc n first entries h c w =
      let (s1, e, f, k) = receive_first ssrc n first h c.0 (w.0, w.1, w.2, tt) in
      let next : IsConsecutive (n + 1) entries =
        subst (λ k. IsConsecutive k entries) (omega arith) c.1 in
      let (s2, e2, k2, a, b) =
        receive_all-Follows ssrc (n + 1) s1 entries (omega arith) f next w.3 in
      (
        s2,
        receive_all-cons (construct ssrc) s1 first entries e ∙ e2,
        k2 ∙ ap (λ q. q ++ frames_in entries) k,
        a,
        b,
      )
