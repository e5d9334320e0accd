-- ===== src/Rtp/Receiver/Buffers.antt =====
-- The buffers of unicast_jpeg_rtp_receiver of rtp_endsystem.cpp over whole runs: the invariant on
-- their sizes.
use rtsp.Common.{
  ℕ, ◌+◌, ◌-◌, ◌%◌, ◌^◌, ◌≤◌, ◌≡◌, refl, sym, ap, subst, inl, inr, true, false, Option, List, [],
  ◌∷◌, length, length-append, length-take, length-drop, take, drop, arith,
}
use rtsp.Rtp.Spirit.{Spirit}
use rtsp.Rtp.Sequence.{RtpReceiverSquenceUtility}
use rtsp.Rtp.Receiver.{JpegEntry, Receiver, Statistics, construct}
use rtsp.Rtp.Receiver.Recovery.{insert_late}
use rtsp.Rtp.Receiver.Handlers.{handled, received, count_corrected, release_from, release_front}
use rtsp.Rtp.Receiver.Effects.{
  JpegStep, entry_of, discarded, buffered, released, recovered, inserted, pushed,
}
use rtsp.Rtp.Receiver.Runs.{
  MessageStep, TimerStep, Ran, started, received_message, idle, displayed, set_handler,
  handle_new_incoming_message-MessageStep, display_next_frame-TimerStep,
}

-- Fifty FEC packets at most, and one JPEG packet more than 49 for every corrected one.
pub record IsBuffered (s : Receiver) : Type 0 where
  pub fec_bound : length s.fec_packet_incoming_buffer ≤ 50
  pub corrected_count : s.corrected ≡ (length s.jpeg_packet_incoming_buffer - 49) % 2 ^ 64

length-release_from :
    (s : Receiver) (entries : List JpegEntry)
    → length (release_from s entries).jpeg_packet_incoming_buffer ≡ length entries - 1
length-release_from s [] = refl
length-release_from s (entry ∷ entries) = omega arith

release_from-corrected :
    (s : Receiver) (entries : List JpegEntry) → (release_from s entries).corrected ≡ s.corrected
release_from-corrected s [] = refl
release_from-corrected s (entry ∷ entries) = refl

release_from-fec :
    (s : Receiver) (entries : List JpegEntry)
    → (release_from s entries).fec_packet_incoming_buffer ≡ s.fec_packet_incoming_buffer
release_from-fec s [] = refl
release_from-fec s (entry ∷ entries) = refl

pub length-insert_late :
    {A : Type 0} (x : A) (xs : List A) → length (insert_late x xs) ≡ length xs + 1
length-insert_late x xs = ground (
  arith,
  length-append (take (length xs - 20) xs) (x ∷ drop (length xs - 20) xs),
  length-take (length xs - 20) xs,
  length-drop (length xs - 20) xs,
)

released-IsBuffered :
    (s s' : Receiver)
    → IsBuffered s
    → 49 ≤ length s.jpeg_packet_incoming_buffer
    → (k : ℕ) → s'.fec_packet_incoming_buffer ≡ s.fec_packet_incoming_buffer
    → length s'.jpeg_packet_incoming_buffer ≡ length s.jpeg_packet_incoming_buffer + 1 + k
    → s'.corrected ≡ (s.corrected + k) % 2 ^ 64
    → IsBuffered (release_front s')
released-IsBuffered s s' w h k f l c = record {
  fec_bound = ground (
    arith,
    release_from-fec s' s'.jpeg_packet_incoming_buffer,
    ap (λ b. length b) f,
    w.fec_bound,
  );
  corrected_count = omega (
    arith,
    length-release_from s' s'.jpeg_packet_incoming_buffer,
    release_from-corrected s' s'.jpeg_packet_incoming_buffer,
    w.corrected_count,
  );
}

module _ (spirit : Spirit) (storage : RtpReceiverSquenceUtility) where
  jpeg-IsBuffered :
      (s : Receiver) (m : List ℕ) (s' : Receiver)
      → IsBuffered s
      → JpegStep spirit s m (handled s' true)
      → IsBuffered s'
  jpeg-IsBuffered s m s' w (discarded utility) = record {
    fec_bound = w.fec_bound;
    corrected_count = w.corrected_count;
  }
  jpeg-IsBuffered s m s' w (buffered utility ok short) = record {
    fec_bound = w.fec_bound;
    corrected_count = omega (
      arith,
      length-append s.jpeg_packet_incoming_buffer (entry_of spirit m ∷ []),
      w.corrected_count,
    );
  }
  jpeg-IsBuffered s m s' w (released utility n ok full) =
      released-IsBuffered s (record (pushed s utility (entry_of spirit m)) { uncorrectable = n }) w
        full 0 refl
        (omega (arith, length-append s.jpeg_packet_incoming_buffer (entry_of spirit m ∷ [])))
        (omega (arith, w.corrected_count))
  jpeg-IsBuffered s m s' w (recovered utility late made ok full) =
      let t = pushed s utility (entry_of spirit m) in
      released-IsBuffered s (count_corrected (inserted t late)) w full 1 refl
        (omega (
          arith,
          length-append s.jpeg_packet_incoming_buffer (entry_of spirit m ∷ []),
          length-insert_late late t.jpeg_packet_incoming_buffer,
        ))
        refl

  message-IsBuffered :
      (s : Receiver) (m : List ℕ) (s' : Receiver) (st : Option Statistics)
      → IsBuffered s
      → MessageStep spirit storage s m (received s' st)
      → IsBuffered s'
  message-IsBuffered s m s' st w (inl j) = jpeg-IsBuffered s m s' w j
  message-IsBuffered s m s' st w (inr (u, entries, e, bound)) =
      subst IsBuffered (sym e)
        (record { fec_bound = bound w.fec_bound; corrected_count = w.corrected_count })

  -- From the construction of a receiver on, over every sequence of messages, timer calls and settings of
  -- the statistics handler in which no handler throws and none has undefined behaviour: the buffer of
  -- FEC packets holds fifty at most; and the buffer of JPEG packets is longer than 49 by exactly the
  -- number of packets that count as corrected, modulo 2 ^ 64, and no packet counts as corrected as long
  -- as it holds 49 at most.
  pub Ran-IsBuffered :
      (ssrc : ℕ) {shown : List (List ℕ)} {s : Receiver}
      → Ran spirit storage (construct ssrc) true shown s
      → IsBuffered s
  Ran-IsBuffered ssrc started = record { fec_bound = omega arith; corrected_count = refl }
  Ran-IsBuffered ssrc (received_message {s' = s'} {s'' = s''} {st = st} r m e) =
      message-IsBuffered s' m s'' st (Ran-IsBuffered ssrc r) (
        subst (MessageStep spirit storage s' m) e
          (handle_new_incoming_message-MessageStep spirit storage s' m))
  Ran-IsBuffered ssrc (idle {s' = s'} r e) =
      subst IsBuffered (sym (subst (TimerStep s') e (display_next_frame-TimerStep false s')))
        (Ran-IsBuffered ssrc r)
  Ran-IsBuffered ssrc (displayed {s' = s'} {s'' = s''} r e) =
      let (packet, same, before) = subst (TimerStep s') e (display_next_frame-TimerStep false s') in
      let w = subst IsBuffered before (Ran-IsBuffered ssrc r) in
      record { fec_bound = w.fec_bound; corrected_count = w.corrected_count }
  Ran-IsBuffered ssrc (set_handler r) =
      let w = Ran-IsBuffered ssrc r in
      record { fec_bound = w.fec_bound; corrected_count = w.corrected_count }
