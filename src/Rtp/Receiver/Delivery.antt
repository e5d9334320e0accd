-- ===== src/Rtp/Receiver/Delivery.antt =====
-- The order in which unicast_jpeg_rtp_receiver of rtp_endsystem.cpp shows frames: it implements a
-- queue of frames, into which a recovered frame is inserted twenty places from the end.
use rtsp.Common.{
  ℕ, ◌≤◌, ◌≡◌, refl, sym, ap, subst, ◌∙◌, inl, inr, Bool, true, false, Option, some, List, [], ◌∷◌,
  ◌++◌, append_assoc, length, length-append, arith,
}
use rtsp.Rtp.Spirit.{Spirit}
use rtsp.Rtp.Sequence.{RtpReceiverSquenceUtility}
use rtsp.Rtp.Packet.{default_jpeg_packet}
use rtsp.Rtp.Packet.Grammar.{parse_jpeg_packet}
use rtsp.Rtp.Receiver.Recovery.{insert_late}
use rtsp.Rtp.Receiver.{JpegEntry, Receiver, Statistics}
use rtsp.Rtp.Receiver.Handlers.{
  displays, set_statistics_handler, count_corrected, handled, received, throws, release_front,
}
use rtsp.Rtp.Receiver.Effects.{
  JpegStep, IsRecovered, entry_of, rejected, discarded, buffered, released, recovered, interrupted,
  pushed, inserted,
}
use rtsp.Rtp.Receiver.Runs.{
  messages, Ran, started, received_message, failed, idle, displayed, set_handler, MessageStep,
  TimerStep, handle_new_incoming_message-MessageStep, display_next_frame-TimerStep,
}
use rtsp.Rtp.Receiver.Contents.{
  Grows, same, unchanged, joined, joined_behind_recovered, frames_of, frames_in, contents,
  length-frames_in, insert_late-append, contents-release_from, contents-pushed, contents-inserted,
}

module _ (spirit : Spirit) (storage : RtpReceiverSquenceUtility) where
  -- The frames that `q` has grown to over the messages `ms` where a receiver has shown `shown` and is in
  -- state `s`.
  abbrev Timeline : List (List ℕ) → List (List ℕ) → List (List ℕ) → Receiver → Type 0
  Timeline q ms shown s = Grows spirit q ms (shown ++ contents s)

  pushed-contents :
      (shown : List (List ℕ)) (s : Receiver) (utility : RtpReceiverSquenceUtility)
      (entry : JpegEntry)
      → shown ++ contents (pushed s utility entry) ≡ (shown ++ contents s) ++ (entry.0.payload ∷ [])
  pushed-contents shown s utility entry =
      ap (λ c. shown ++ c) (contents-pushed s utility entry)
      ∙ sym (append_assoc shown (contents s) (entry.0.payload ∷ []))

  pushed-Grows :
      {q ms : List (List ℕ)} (shown : List (List ℕ)) (s : Receiver) (m : List ℕ)
      (utility : RtpReceiverSquenceUtility)
      → (parse_jpeg_packet spirit default_jpeg_packet m).success ≡ true
      → Timeline q ms shown s
      → Timeline q (m ∷ ms) shown (pushed s utility (entry_of spirit m))
  pushed-Grows shown s m utility ok g =
      subst (Grows spirit _ _) (sym (pushed-contents shown s utility (entry_of spirit m)))
        (joined g m (entry_of spirit m).0.payload (ok, refl))

  contents_long : (s : Receiver) → length s.jpeg_packet_incoming_buffer ≤ length (contents s)
  unfolding contents
  contents_long s = omega (
    arith,
    length-frames_in s.jpeg_packet_incoming_buffer,
    length-append (frames_of s.jpeg_packet_frame_buffer) (frames_in s.jpeg_packet_incoming_buffer),
  )

  inserted-contents :
      (shown : List (List ℕ)) (s : Receiver) (entry : JpegEntry)
      → 20 ≤ length s.jpeg_packet_incoming_buffer
      → shown ++ contents (inserted s entry) ≡ insert_late entry.0.payload (shown ++ contents s)
  inserted-contents shown s entry h =
      let long = contents_long s in
      ap (λ c. shown ++ c) (contents-inserted s entry h)
      ∙ sym (insert_late-append entry.0.payload shown (contents s) (omega arith))

  inserted-Grows :
      {q ms : List (List ℕ)} (shown : List (List ℕ)) (s : Receiver) (m : List ℕ)
      (utility : RtpReceiverSquenceUtility) (late : JpegEntry)
      → IsRecovered spirit late
      → (parse_jpeg_packet spirit default_jpeg_packet m).success ≡ true
      → 49 ≤ length s.jpeg_packet_incoming_buffer
      → Timeline q ms shown s
      → Timeline q (m ∷ ms) shown (inserted (pushed s utility (entry_of spirit m)) late)
  inserted-Grows shown s m utility late made ok h g =
      let entry = entry_of spirit m in
      let t = pushed s utility entry in
      let long = contents_long s in
      let grown = length-append s.jpeg_packet_incoming_buffer (entry ∷ []) in
      let one = length-append shown (contents s) in
      let two = length-append (shown ++ contents s) (entry.0.payload ∷ []) in
      subst (Grows spirit _ _)
        (sym (
          inserted-contents shown t late (omega arith)
          ∙ ap (insert_late late.0.payload) (pushed-contents shown s utility entry)))
        (joined_behind_recovered g m entry.0.payload late.0.payload (ok, refl) (late, made, refl)
          (omega arith))

  contents-release_front : (s : Receiver) → contents (release_front s) ≡ contents s
  contents-release_front s =
      contents-release_from s s.jpeg_packet_incoming_buffer ∙ (unfold contents in refl)

  jpeg-Grows :
      {q ms : List (List ℕ)} (shown : List (List ℕ)) (s : Receiver) (m : List ℕ) (s' : Receiver)
      → Timeline q ms shown s
      → JpegStep spirit s m (handled s' true)
      → Timeline q (m ∷ ms) shown s'
  jpeg-Grows shown s m s' g (discarded utility) = unfold contents in unchanged g m
  jpeg-Grows shown s m s' g (buffered utility ok h) = pushed-Grows shown s m utility ok g
  jpeg-Grows shown s m s' g (released utility n ok h) =
      rw
        (contents-release_front
          (record (pushed s utility (entry_of spirit m)) { uncorrectable = n }))
        (unfold contents in pushed-Grows shown s m utility ok g)
  jpeg-Grows shown s m s' g (recovered utility late made ok h) =
      let t = pushed s utility (entry_of spirit m) in
      rw (contents-release_front (count_corrected (inserted t late)))
        (unfold contents in inserted-Grows shown s m utility late made ok h g)

  failed-Grows :
      {q ms : List (List ℕ)} (shown : List (List ℕ)) (s : Receiver) (m : List ℕ) (s' : Receiver)
      → Timeline q ms shown s
      → MessageStep spirit storage s m (throws s')
      → Timeline q (m ∷ ms) shown s'
  failed-Grows shown s m s' g (inl rejected) = unchanged g m
  failed-Grows shown s m s' g (inl (interrupted utility ok)) = pushed-Grows shown s m utility ok g
  failed-Grows {q} {ms} shown s m s' g (inr e) =
      subst (Timeline q (m ∷ ms) shown) (sym e) (unchanged g m)

  message-Grows :
      {q ms : List (List ℕ)} (shown : List (List ℕ)) (s : Receiver) (m : List ℕ) (s' : Receiver)
      (st : Option Statistics)
      → Timeline q ms shown s
      → MessageStep spirit storage s m (received s' st)
      → Timeline q (m ∷ ms) shown s'
  message-Grows shown s m s' st g (inl j) = jpeg-Grows shown s m s' g j
  message-Grows {q} {ms} shown s m s' st g (inr (u, entries, e, bound)) =
      subst (Timeline q (m ∷ ms) shown) (sym e) (unfold contents in unchanged g m)

  timer-Grows :
      {q ms : List (List ℕ)} (shown : List (List ℕ)) (s s' : Receiver) (frame : List ℕ)
      → Timeline q ms shown s
      → TimerStep s (displays s' (some frame))
      → Timeline q ms (shown ++ (frame ∷ [])) s'
  unfolding contents
  timer-Grows {q} {ms} shown s s' frame g (packet, e, before) =
      rw (append_assoc shown (frame ∷ []) (contents s'), ← e) (subst (Timeline q ms shown) before g)

  with_handler :
      {q ms : List (List ℕ)} (shown : List (List ℕ)) (s : Receiver)
      → Timeline q ms shown s
      → Timeline q ms shown (set_statistics_handler s)
  unfolding contents
  with_handler shown s g = g

  -- For every state of a receiver and every run from it, exceptions included: the frames that the run
  -- has shown, followed by those that the receiver then holds, are what the queue of the frames that
  -- it held at first grows to over the messages of the run. So the timer shows the frames in the order
  -- of the queue, and no message drops or reorders one: each message adds its own frame at the end, as
  -- the parser of JPEG packets reads it, at most once, and with it at most one frame that
  -- fec_reconstruction has made, in front of the last twenty.
  pub Ran-Grows :
      (first : Receiver) {clean : Bool} {shown : List (List ℕ)} {s : Receiver}
      → (run : Ran spirit storage first clean shown s)
      → Grows spirit (contents first) (messages spirit storage run) (shown ++ contents s)
  unfolding messages
  Ran-Grows first started = same
  Ran-Grows first (received_message {shown = shown} {s' = s'} {s'' = s''} {st = st} r m e) =
      message-Grows shown s' m s'' st (Ran-Grows first r) (
        subst (MessageStep spirit storage s' m) e
          (handle_new_incoming_message-MessageStep spirit storage s' m))
  Ran-Grows first (failed {shown = shown} {s' = s'} {s'' = s''} r m e) =
      failed-Grows shown s' m s'' (Ran-Grows first r) (
        subst (MessageStep spirit storage s' m) e
          (handle_new_incoming_message-MessageStep spirit storage s' m))
  Ran-Grows first (idle {shown = shown} {s' = s'} r e) =
      subst (Timeline (contents first) (messages spirit storage r) shown)
        (sym (subst (TimerStep s') e (display_next_frame-TimerStep false s'))) (Ran-Grows first r)
  Ran-Grows first (displayed {shown = shown} {s' = s'} {s'' = s''} {frame = frame} r e) =
      timer-Grows shown s' s'' frame (Ran-Grows first r)
        (subst (TimerStep s') e (display_next_frame-TimerStep false s'))
  Ran-Grows first (set_handler {shown = shown} {s' = s'} r) =
      with_handler shown s' (Ran-Grows first r)
