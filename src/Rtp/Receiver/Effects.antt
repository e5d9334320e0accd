-- ===== src/Rtp/Receiver/Effects.antt =====
-- What a packet can do to the state of unicast_jpeg_rtp_receiver of rtp_endsystem.cpp, as relations,
-- with the lemmas that the handlers keep to them.
use rtsp.Common.{
  ℕ, ◌+◌, ◌-◌, ◌≤◌, ◌<◌, ◌≡◌, refl, sym, ap, subst, ◌⊎◌, inl, inr, Bool, true, false, not, value_or,
  Option, none, some, List, [], ◌∷◌, ◌++◌, length, drop, length-append, length-drop, ltb, ◌==◌,
  if◌then◌else◌, if_cases, arith,
}
use rtsp.Rtp.Spirit.{Spirit}
use rtsp.Rtp.Sequence.{RtpReceiverSquenceUtility, update_seq}
use rtsp.Rtp.Packet.{default_jpeg_packet, default_fec_packet}
use rtsp.Rtp.Packet.Grammar.{parse_jpeg_packet, parse_fec_packet}
use rtsp.Rtp.Sequence
use rtsp.Rtp.Receiver.{
  JpegEntry, FecEntry, Receiver, Result, returns, throws, is_undefined, bind, front, element,
  media_packet_delay,
}
use rtsp.Rtp.Receiver.Reconstruction.{fec_reconstruction}
use rtsp.Rtp.Receiver.Recovery.{
  find_media, find_candidate, remove_padding, insert_late, recover_from, recover_packet_by_fec,
}
use rtsp.Rtp.Receiver.Handlers.{
  Handled, handled, count_corrected, count_uncorrectable, release_front, check_gap, shift_buffers,
  take_jpeg_packet, handle_new_jpeg_packet, handle_new_fec_packet,
}

-- A property of a bound call, by the three results of its first part.
pub bind_cases {ℓ} :
    {A B : Type 0} (P : Result B → Type ℓ) (r : Result A) (next : A → Result B)
    → P throws
    → P is_undefined
    → ((a : A) → P (next a))
    → P (bind r next)
bind_cases P (returns a) next t u f = f a
bind_cases P throws next t u f = t
bind_cases P is_undefined next t u f = u

-- The same with the equation for a value.
pub bind_values {ℓ} :
    {A B : Type 0} (P : Result B → Type ℓ) (r : Result A) (next : A → Result B)
    → P throws
    → P is_undefined
    → ((a : A) → r ≡ returns a → P (next a))
    → P (bind r next)
bind_values P (returns a) next t u f = f a refl
bind_values P throws next t u f = t
bind_values P is_undefined next t u f = u

-- The state with the packet inserted where a recovery puts it.
abbrev pub inserted : Receiver → JpegEntry → Receiver
inserted s entry = record s {
  jpeg_packet_incoming_buffer = insert_late entry s.jpeg_packet_incoming_buffer;
}

-- The state with a packet of a valid number behind the others.
abbrev pub pushed : Receiver → RtpReceiverSquenceUtility → JpegEntry → Receiver
pushed s utility entry = record s {
  jpeg_sequence_utility = some utility;
  jpeg_packet_incoming_buffer = s.jpeg_packet_incoming_buffer ++ (entry ∷ []);
}

-- The packet that a JPEG message carries, with the octets of the message.
abbrev pub entry_of : Spirit → List ℕ → JpegEntry
entry_of spirit m = ((parse_jpeg_packet spirit default_jpeg_packet m).attribute, m)

-- A packet that `fec_reconstruction` has made, without its padding.
pub record IsRecovered (spirit : Spirit) (entry : JpegEntry) : Type 0 where
  pub fec_packet : FecEntry
  pub media_packets : List JpegEntry
  pub rebuilt : JpegEntry
  pub reconstructed : fec_reconstruction spirit fec_packet media_packets ≡ returns rebuilt
  pub unpadded : entry ≡ remove_padding rebuilt

-- A recovery inserts one packet and returns true, or leaves the state and returns false.
abbrev pub IsRecovery : Spirit → Receiver → Result (Receiver × Bool) → Type 0
IsRecovery spirit s (returns (s', true)) =
    (entry : JpegEntry) × IsRecovered spirit entry × (s' ≡ inserted s entry)
IsRecovery spirit s (returns (s', false)) = s' ≡ s
IsRecovery spirit s throws = Unit
IsRecovery spirit s is_undefined = Unit

-- The comparison around the delay counts at most one packet, and counts it as corrected exactly
-- when it has inserted one.
abbrev pub IsGapCheck : Spirit → Receiver → Result Receiver → Type 0
IsGapCheck spirit s (returns s') =
    ((n : ℕ) × (s' ≡ record s { uncorrectable = n }))
    ⊎ ((entry : JpegEntry) × IsRecovered spirit entry × (s' ≡ count_corrected (inserted s entry)))
IsGapCheck spirit s throws = Unit
IsGapCheck spirit s is_undefined = Unit

-- What the handler of JPEG packets can return and leave for a message `m`.
pub data JpegStep (spirit : Spirit) (s : Receiver) (m : List ℕ) : Handled → Type 0 where
  unknown : JpegStep spirit s m (handled s false)
  rejected : JpegStep spirit s m (Handled.throws s)
  discarded :
      (utility : RtpReceiverSquenceUtility)
      → JpegStep spirit s m (handled (record s { jpeg_sequence_utility = some utility }) true)
  buffered :
      (utility : RtpReceiverSquenceUtility)
      → (parse_jpeg_packet spirit default_jpeg_packet m).success ≡ true
      → length s.jpeg_packet_incoming_buffer < 49
      → JpegStep spirit s m (handled (pushed s utility (entry_of spirit m)) true)
  released :
      (utility : RtpReceiverSquenceUtility) (n : ℕ)
      → (parse_jpeg_packet spirit default_jpeg_packet m).success ≡ true
      → 49 ≤ length s.jpeg_packet_incoming_buffer
      → JpegStep spirit s m (
          handled
            (release_front (record (pushed s utility (entry_of spirit m)) { uncorrectable = n }))
            true)
  recovered :
      (utility : RtpReceiverSquenceUtility) (late : JpegEntry)
      → IsRecovered spirit late
      → (parse_jpeg_packet spirit default_jpeg_packet m).success ≡ true
      → 49 ≤ length s.jpeg_packet_incoming_buffer
      → JpegStep spirit s m (
          handled
            (release_front (count_corrected (inserted (pushed s utility (entry_of spirit m)) late)))
            true)
  interrupted :
      (utility : RtpReceiverSquenceUtility)
      → (parse_jpeg_packet spirit default_jpeg_packet m).success ≡ true
      → JpegStep spirit s m (Handled.throws (pushed s utility (entry_of spirit m)))
  lost_control : JpegStep spirit s m Handled.is_undefined

module _ (spirit : Spirit) where
  recover_from-IsRecovery :
      (s : Receiver) (number : ℕ) (entry : FecEntry)
      → IsRecovery spirit s (recover_from spirit s number entry)
  unfolding recover_from
  recover_from-IsRecovery s number (fec_packet, octets) =
      bind_cases (IsRecovery spirit s) (front fec_packet.levels) _ tt tt (λ level.
        bind_cases (IsRecovery spirit s) (find_media _ _ _ _) _ tt tt (λ found.
          elim found
            as (λ found. IsRecovery spirit s (elim found [
              | none ↦ returns (s, false)
              | some media_packets ↦
                  bind (fec_reconstruction spirit (fec_packet, octets) media_packets)
                    (λ packet. returns (inserted s (remove_padding packet), true))
            ])) [
              | none ↦ refl
              | some media_packets ↦
                  bind_values (IsRecovery spirit s)
                    (fec_reconstruction spirit (fec_packet, octets) media_packets) _ tt tt
                    (λ packet e. (
                      remove_padding packet,
                      record {
                        fec_packet = (fec_packet, octets);
                        media_packets = media_packets;
                        rebuilt = packet;
                        reconstructed = e;
                        unpadded = refl;
                      },
                      refl,
                    ))
            ]))

  recover_packet_by_fec-IsRecovery :
      (s : Receiver) → IsRecovery spirit s (recover_packet_by_fec spirit s)
  unfolding recover_packet_by_fec
  recover_packet_by_fec-IsRecovery s =
      let buffer = s.jpeg_packet_incoming_buffer in
      bind_cases (IsRecovery spirit s) (element (length buffer - media_packet_delay) buffer) _ tt tt
        (λ next.
          let number = next.0.header.sequence_number in
          bind_cases (IsRecovery spirit s)
            (if number == 0
              then returns none
              else find_candidate (number - 1) s.fec_packet_incoming_buffer)
            _ tt tt
            (λ fec_candidate.
              elim fec_candidate
                as (λ c. IsRecovery spirit s (elim c [
                  | none ↦ returns (s, false)
                  | some fec_packet ↦ recover_from spirit s (number - 1) fec_packet
                ])) [
                  | none ↦ refl
                  | some fec_packet ↦ recover_from-IsRecovery s (number - 1) fec_packet
                ]))

  counted_recovery :
      (s : Receiver) (r : Result (Receiver × Bool))
      → IsRecovery spirit s r
      → IsGapCheck spirit s (
          bind r (λ recovery.
            returns
              (if recovery.1 then count_corrected recovery.0 else count_uncorrectable recovery.0)))
  counted_recovery s (returns (s', true)) h = inr (h.0, h.1, ap count_corrected h.2)
  counted_recovery s (returns (s', false)) h = inl (_, ap count_uncorrectable h)
  counted_recovery s throws h = tt
  counted_recovery s is_undefined h = tt

  check_gap-IsGapCheck :
      (storage : RtpReceiverSquenceUtility) (s : Receiver)
      → IsGapCheck spirit s (check_gap spirit storage s)
  unfolding check_gap
  check_gap-IsGapCheck storage s =
      let buffer = s.jpeg_packet_incoming_buffer in
      let place = length buffer - media_packet_delay in
      bind_cases (IsGapCheck spirit s) (element place buffer) _ tt tt (λ next.
        bind_cases (IsGapCheck spirit s) (element (place - 1) buffer) _ tt tt (λ previous.
          let number = next.0.header.sequence_number in
          let limit = previous.0.header.sequence_number + 2 in
          if_cases (IsGapCheck spirit s) (number == limit)
            (λ e.
              counted_recovery s (recover_packet_by_fec spirit s)
                (recover_packet_by_fec-IsRecovery s))
            (λ e.
              elim (ltb limit number)
                as (λ b. IsGapCheck spirit s (returns (if b then count_uncorrectable s else s))) [
                  | true ↦ inl (_, refl)
                  | false ↦ inl (s.uncorrectable, refl)
                ])))

  module _ (storage : RtpReceiverSquenceUtility) where
    gap_step :
        (s : Receiver) (utility : RtpReceiverSquenceUtility) (m : List ℕ)
        → (parse_jpeg_packet spirit default_jpeg_packet m).success ≡ true
        → 49 ≤ length s.jpeg_packet_incoming_buffer
        → (r : Result Receiver) → IsGapCheck spirit (pushed s utility (entry_of spirit m)) r
        → JpegStep spirit s m (elim r [
          | returns s' ↦ handled (release_front s') true
          | throws ↦ Handled.throws (pushed s utility (entry_of spirit m))
          | is_undefined ↦ Handled.is_undefined
        ])
    gap_step s utility m ok h (returns s') (inl (n, e)) =
        subst (λ t. JpegStep spirit s m (handled (release_front t) true)) (sym e)
          (released utility n ok h)
    gap_step s utility m ok h (returns s') (inr (late, made, e)) =
        subst (λ t. JpegStep spirit s m (handled (release_front t) true)) (sym e)
          (recovered utility late made ok h)
    gap_step s utility m ok h throws g = interrupted utility ok
    gap_step s utility m ok h is_undefined g = lost_control

    shift_buffers-JpegStep :
        (s : Receiver) (utility : RtpReceiverSquenceUtility) (m : List ℕ)
        → (parse_jpeg_packet spirit default_jpeg_packet m).success ≡ true
        → JpegStep spirit s m (shift_buffers spirit storage (pushed s utility (entry_of spirit m)))
    unfolding shift_buffers
    shift_buffers-JpegStep s utility m ok =
        let entry = entry_of spirit m in
        let grown = length-append s.jpeg_packet_incoming_buffer (entry ∷ []) in
        if_cases (JpegStep spirit s m)
          (ltb (length (s.jpeg_packet_incoming_buffer ++ (entry ∷ []))) 50)
          (λ e. buffered utility ok (ground (arith, grown)))
          (λ e.
            gap_step s utility m ok (ground (arith, grown)) _
              (check_gap-IsGapCheck storage (pushed s utility entry)))

    take_jpeg_packet-JpegStep :
        (s : Receiver) (m : List ℕ)
        → (parse_jpeg_packet spirit default_jpeg_packet m).success ≡ true
        → JpegStep spirit s m (take_jpeg_packet spirit storage s (entry_of spirit m).0 m)
    unfolding take_jpeg_packet
    take_jpeg_packet-JpegStep s m ok =
        let number = (entry_of spirit m).0.header.sequence_number in
        let utility =
          update_seq (value_or s.jpeg_sequence_utility (rtsp.Rtp.Sequence.construct storage number))
            number in
        if_cases (JpegStep spirit s m) (utility.1 == 0) (λ e. discarded utility.0)
          (λ e. shift_buffers-JpegStep s utility.0 m ok)

    -- Every outcome of the handler of JPEG packets is one of the relation above.
    pub handle_new_jpeg_packet-JpegStep :
        (s : Receiver) (m : List ℕ)
        → JpegStep spirit s m (handle_new_jpeg_packet spirit storage s m)
    unfolding handle_new_jpeg_packet
    handle_new_jpeg_packet-JpegStep s m =
        let p = parse_jpeg_packet spirit default_jpeg_packet m in
        if_cases (JpegStep spirit s m) (not p.success) (λ e. unknown)
          (λ e.
            if_cases (JpegStep spirit s m) (not (p.attribute.header.ssrc == s.ssrc))
              (λ e'. rejected)
              (λ e'.
                if_cases (JpegStep spirit s m) (ltb (length p.attribute.payload) 2)
                  (λ e''. rejected) (λ e''. take_jpeg_packet-JpegStep s m (ground (arith, e)))))

    -- An FEC packet changes nothing but what is kept of FEC packets, which stay fifty at most.
    abbrev pub FecStep : Receiver → Handled → Type 0
    FecStep s (handled s' known) =
        (utility : Option RtpReceiverSquenceUtility) × (entries : List FecEntry) × (s'
          ≡ record s { fec_sequence_utility = utility; fec_packet_incoming_buffer = entries })
        × (length s.fec_packet_incoming_buffer ≤ 50 → length entries ≤ 50)
    FecStep s (Handled.throws s') = s' ≡ s
    FecStep s Handled.is_undefined = ⊥

    pub handle_new_fec_packet-FecStep :
        (s : Receiver) (message : List ℕ)
        → FecStep s (handle_new_fec_packet spirit storage s message)
    unfolding handle_new_fec_packet
    handle_new_fec_packet-FecStep s message =
        let p = parse_fec_packet spirit default_fec_packet message in
        let number = p.attribute.header.sequence_number in
        let utility =
          update_seq (value_or s.fec_sequence_utility (rtsp.Rtp.Sequence.construct storage number))
            number in
        let buffer = s.fec_packet_incoming_buffer ++ ((p.attribute, message) ∷ []) in
        let grown = length-append s.fec_packet_incoming_buffer ((p.attribute, message) ∷ []) in
        let kept = if ltb 50 (length buffer) then drop 1 buffer else buffer in
        if_cases (FecStep s) (not p.success) (λ e. (_, _, refl, λ h. h))
          (λ e.
            if_cases (FecStep s) (not (p.attribute.header.payload_type_field == 100))
              (λ e. (_, _, refl, λ h. h))
              (λ e.
                if_cases (FecStep s) (not (p.attribute.header.ssrc == s.ssrc)) (λ e. refl)
                  (λ e.
                    if_cases (FecStep s) (utility.1 == 0) (λ e. (_, _, refl, λ h. h))
                      (λ e. (
                        some utility.0,
                        kept,
                        refl,
                        λ h. ground (arith, grown, length-drop 1 buffer),
                      )))))
