-- ===== src/Rtp/Receiver/Runs.antt =====
-- The runs of unicast_jpeg_rtp_receiver of rtp_endsystem.cpp: messages, timer calls and settings of the
-- statistics handler, in any order.
use rtsp.Common.{
  ℕ, ◌≡◌, refl, sym, ap, subst, ◌⊎◌, inl, inr, Bool, true, false, if_cases, Option, none, some,
  List, [], ◌∷◌, ◌++◌,
}
use rtsp.Rtp.Spirit.{Spirit}
use rtsp.Rtp.Sequence.{RtpReceiverSquenceUtility}
use rtsp.Rtp.Packet.{CustomJpegPacket}
use rtsp.Rtp.Receiver.{Receiver, Statistics}
use rtsp.Rtp.Receiver.Handlers.{
  Handled, handled, Received, received, throws, is_undefined, Displayed, displays,
  set_statistics_handler, report_by, report, display_front, handle_new_jpeg_packet,
  handle_new_fec_packet, handle_new_incoming_message, display_next_frame_timer_handler,
}
use rtsp.Rtp.Receiver.Effects.{
  JpegStep, unknown, FecStep, handle_new_jpeg_packet-JpegStep, handle_new_fec_packet-FecStep,
}

-- What a message can do: a step of one of the two packet handlers, which may have thrown.
abbrev pub MessageStep : Spirit → RtpReceiverSquenceUtility → Receiver → List ℕ → Received → Type 0
MessageStep spirit storage s m (received s' st) =
    JpegStep spirit s m (handled s' true) ⊎ FecStep spirit storage s (handled s' true)
MessageStep spirit storage s m (throws s') =
    JpegStep spirit s m (Handled.throws s') ⊎ FecStep spirit storage s (Handled.throws s')
MessageStep spirit storage s m is_undefined = Unit

-- The call of the statistics handler returns the state as it is, or is undefined.
abbrev IsReport : Receiver → Received → Type 0
IsReport s (received s' st) = s' ≡ s
IsReport s (throws s') = ⊥
IsReport s is_undefined = Unit

report_by-IsReport :
    (s : Receiver) (utility : Option RtpReceiverSquenceUtility) → IsReport s (report_by s utility)
report_by-IsReport s none = tt
report_by-IsReport s (some utility) = refl

report-IsReport : (s : Receiver) → IsReport s (report s)
unfolding report
report-IsReport s =
    if_cases (IsReport s) s.statistics_handler (λ e. report_by-IsReport s s.jpeg_sequence_utility)
      (λ e. refl)

module _ (spirit : Spirit) (storage : RtpReceiverSquenceUtility) where
  report_step :
      (s s' : Receiver) (m : List ℕ)
      → JpegStep spirit s m (handled s' true) ⊎ FecStep spirit storage s (handled s' true)
      → (r : Received) → IsReport s' r
      → MessageStep spirit storage s m r
  report_step s s' m step (received s'' st) e =
      subst (λ t. JpegStep spirit s m (handled t true) ⊎ FecStep spirit storage s (handled t true))
        (sym e) step
  report_step s s' m step is_undefined e = tt
  report_step s s' m step (throws t) e = absurd e

  fec_case :
      (s : Receiver) (m : List ℕ) (h : Handled)
      → FecStep spirit storage s h
      → MessageStep spirit storage s m (elim h [
        | handled s'' known ↦ report s''
        | Handled.throws s'' ↦ throws s''
        | Handled.is_undefined ↦ is_undefined
      ])
  fec_case s m (handled s' known) f = report_step s s' m (inr f) _ (report-IsReport s')
  fec_case s m (Handled.throws s') f = inr f
  fec_case s m Handled.is_undefined f = tt

  jpeg_case :
      (s : Receiver) (m : List ℕ) (h : Handled)
      → JpegStep spirit s m h
      → MessageStep spirit storage s m (elim h [
        | handled s' true ↦ report s'
        | handled s' false ↦ elim (handle_new_fec_packet spirit storage s' m) [
          | handled s'' known ↦ report s''
          | Handled.throws s'' ↦ throws s''
          | Handled.is_undefined ↦ is_undefined
        ]
        | Handled.throws s' ↦ throws s'
        | Handled.is_undefined ↦ is_undefined
      ])
  jpeg_case s m (handled s' true) j = report_step s s' m (inl j) _ (report-IsReport s')
  jpeg_case s m (handled s' false) unknown =
      fec_case s m (handle_new_fec_packet spirit storage s m)
        (handle_new_fec_packet-FecStep spirit storage s m)
  jpeg_case s m (Handled.throws s') j = inl j
  jpeg_case s m Handled.is_undefined j = tt

  -- Every message is a step of one of the two packet handlers.
  pub handle_new_incoming_message-MessageStep :
      (s : Receiver) (m : List ℕ)
      → MessageStep spirit storage s m (handle_new_incoming_message spirit storage s m)
  unfolding handle_new_incoming_message
  handle_new_incoming_message-MessageStep s m =
      jpeg_case s m (handle_new_jpeg_packet spirit storage s m)
        (handle_new_jpeg_packet-JpegStep spirit storage s m)

-- What the timer does: it takes the first frame of the frame buffer, if there is one.
abbrev pub TimerStep : Receiver → Displayed → Type 0
TimerStep s (displays s' none) = s' ≡ s
TimerStep s (displays s' (some frame)) =
    (packet : CustomJpegPacket) × (packet.payload ≡ frame)
    × (s ≡ record s' { jpeg_packet_frame_buffer = packet ∷ s'.jpeg_packet_frame_buffer })
TimerStep s Displayed.throws = Unit

display_front-TimerStep :
    (s : Receiver) (packets : List CustomJpegPacket)
    → s.jpeg_packet_frame_buffer ≡ packets
    → TimerStep s (display_front s packets)
display_front-TimerStep s [] e = refl
display_front-TimerStep s (packet ∷ packets) e =
    (packet, refl, ap (λ b. record s { jpeg_packet_frame_buffer = b }) e)

pub display_next_frame-TimerStep :
    (error : Bool) (s : Receiver) → TimerStep s (display_next_frame_timer_handler error s)
unfolding display_next_frame_timer_handler
display_next_frame-TimerStep error s =
    if_cases (TimerStep s) error (λ e. tt)
      (λ e. display_front-TimerStep s s.jpeg_packet_frame_buffer refl)

module _ (spirit : Spirit) (storage : RtpReceiverSquenceUtility) where
  -- The runs of a receiver from `s` on: whether no exception has left a handler, the frames that
  -- have been shown, and the state.
  pub data Ran (s : Receiver) : Bool → List (List ℕ) → Receiver → Type 0 where
    started : Ran s true [] s
    received_message :
        {clean : Bool} {shown : List (List ℕ)} {s' s'' : Receiver} {st : Option Statistics}
        → Ran s clean shown s'
        → (m : List ℕ) → handle_new_incoming_message spirit storage s' m ≡ received s'' st
        → Ran s clean shown s''
    failed :
        {clean : Bool} {shown : List (List ℕ)} {s' s'' : Receiver}
        → Ran s clean shown s'
        → (m : List ℕ) → handle_new_incoming_message spirit storage s' m ≡ throws s''
        → Ran s false shown s''
    idle :
        {clean : Bool} {shown : List (List ℕ)} {s' s'' : Receiver}
        → Ran s clean shown s'
        → display_next_frame_timer_handler false s' ≡ displays s'' none
        → Ran s clean shown s''
    displayed :
        {clean : Bool} {shown : List (List ℕ)} {s' s'' : Receiver} {frame : List ℕ}
        → Ran s clean shown s'
        → display_next_frame_timer_handler false s' ≡ displays s'' (some frame)
        → Ran s clean (shown ++ (frame ∷ [])) s''
    set_handler :
        {clean : Bool} {shown : List (List ℕ)} {s' : Receiver}
        → Ran s clean shown s'
        → Ran s clean shown (set_statistics_handler s')

  -- The messages of a run, the last one first.
  unfoldable pub messages :
      {first : Receiver} {clean : Bool} {shown : List (List ℕ)} {s : Receiver}
      → Ran first clean shown s
      → List (List ℕ)
  messages started = []
  messages (received_message r m e) = m ∷ messages r
  messages (failed r m e) = m ∷ messages r
  messages (idle r e) = messages r
  messages (displayed r e) = messages r
  messages (set_handler r) = messages r
