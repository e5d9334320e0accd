-- ===== src/Rtp/Receiver/Recovery.antt =====
-- `unicast_jpeg_rtp_receiver::recover_packet_by_fec` of rtp_endsystem.cpp: the search for an FEC
-- packet that covers the lost one, and for the media packets that are left of its block.
use rtsp.Common.{
  ℕ, zero, suc, ◌+◌, ◌-◌, ◌/◌, ◌%◌, ◌^◌, Bool, true, false, ◌&&◌, ◌||◌, Option, none, some, List,
  [], ◌∷◌, ◌++◌, length, take, drop, ltb, ◌==◌, if◌then◌else◌,
}
use rtsp.Rtp.Spirit.{Spirit}
use rtsp.Rtp.Receiver.{
  JpegEntry, FecEntry, Receiver, Result, returns, is_undefined, bind, front, element,
  media_packet_delay,
}
use rtsp.Rtp.Receiver.Reconstruction.{fec_reconstruction}

-- `mask_field.test(bit)`
abbrev pub mask_test : ℕ → ℕ → Bool
mask_test mask_field bit = mask_field / 2 ^ bit % 2 == 1

-- The predicate of `std::find_if`.
unfoldable pub is_candidate : ℕ → FecEntry → Result Bool
is_candidate to_recover_seq_num (fec_packet, octets) =
    let base = fec_packet.header.sn_base_field in
    if ltb to_recover_seq_num base || ltb (base + 48) to_recover_seq_num
    then returns false
    else bind (front fec_packet.levels)
        (λ level. returns (mask_test level.0.mask_field (63 - (to_recover_seq_num - base))))

-- `std::find_if(crbegin, crend, …)`: the last packet that the predicate accepts.
unfoldable pub find_candidate : ℕ → List FecEntry → Result (Option FecEntry)
find_candidate to_recover_seq_num [] = returns none
find_candidate to_recover_seq_num (entry ∷ entries) =
    bind (find_candidate to_recover_seq_num entries) (λ found. elim found [
      | some later ↦ returns (some later)
      | none ↦
          bind (is_candidate to_recover_seq_num entry)
            (λ accepts. returns (if accepts then some entry else none))
    ])

-- What the code has pushed into `media_packets` in front of what it pushes later, unless it returns
-- false there.
abbrev pub push_front_of : List JpegEntry → Option (List JpegEntry) → Option (List JpegEntry)
push_front_of pushed none = none
push_front_of pushed (some entries) = some (pushed ++ entries)

-- The rounds of the two loops that collect the media packets, from `u` on: the packet of mask bit
-- `u` is looked up where `place u` says, and has to have the sequence number `base + u`. The result
-- is none where the code returns false.
unfoldable pub collect_media :
    ℕ → ℕ → (ℕ → Result JpegEntry) → ℕ → ℕ → Result (Option (List JpegEntry))
collect_media mask_field base place zero u = returns (some [])
collect_media mask_field base place (suc rounds) u =
    let rest = collect_media mask_field base place rounds (u + 1) in
    if mask_test mask_field (63 - u)
    then bind (place u) (λ media_it.
      if media_it.0.header.sequence_number == base + u
      then bind rest (λ media. returns (push_front_of (media_it ∷ []) media))
      else returns none)
    else rest

-- `*(end - 20 - seq_i + u)`: the iterator may not pass the begin on the way.
abbrev pub place_before : List JpegEntry → ℕ → ℕ → Result JpegEntry
place_before buffer seq_i u =
    let gap_place = length buffer - media_packet_delay in
    if ltb gap_place seq_i then is_undefined else element (gap_place - seq_i + u) buffer

-- `*(end - 20 + (u - seq_i - 1))`
abbrev pub place_behind : List JpegEntry → ℕ → ℕ → Result JpegEntry
place_behind buffer seq_i u = element (length buffer - media_packet_delay + (u - seq_i - 1)) buffer

-- The loop behind the lost packet, unless the one in front of it has returned false.
abbrev pub find_behind :
    List JpegEntry → ℕ → ℕ → ℕ → Option (List JpegEntry) → Result (Option (List JpegEntry))
find_behind buffer mask_field base seq_i none = returns none
find_behind buffer mask_field base seq_i (some entries) =
    bind (collect_media mask_field base (place_behind buffer seq_i) (63 - seq_i) (seq_i + 1))
      (λ media. returns (push_front_of entries media))

-- The two loops, in front of the lost packet and behind it.
unfoldable pub find_media : List JpegEntry → ℕ → ℕ → ℕ → Result (Option (List JpegEntry))
find_media buffer mask_field base seq_i =
    bind (collect_media mask_field base (place_before buffer seq_i) seq_i 0)
      (find_behind buffer mask_field base seq_i)

abbrev pub starts_with_magic_bytes : List ℕ → Bool
starts_with_magic_bytes (x ∷ y ∷ octets) = x == 0xff && y == 0xd9
starts_with_magic_bytes _ = false

-- `std::find_end`: the octets up to the last FF D9, this included.
unfoldable pub end_of_frame : List ℕ → Option ℕ
end_of_frame [] = none
end_of_frame (x ∷ octets) = elim (end_of_frame octets) [
  | some n ↦ some (suc n)
  | none ↦ if starts_with_magic_bytes (x ∷ octets) then some 2 else none
]

-- What is behind the end of the frame is erased from the data and from the octets.
unfoldable pub remove_padding : JpegEntry → JpegEntry
remove_padding (packet, octets) = elim (end_of_frame packet.payload) [
  | none ↦ (packet, octets)
  | some n ↦ (
    record packet { payload = take n packet.payload },
    take (length octets - (length packet.payload - n)) octets,
  )
]

-- `insert(end - 20, entry)`
abbrev pub insert_late : {A : Type 0} → A → List A → List A
insert_late x xs =
    let place = length xs - media_packet_delay in take place xs ++ (x ∷ drop place xs)

module _ (spirit : Spirit) where
  -- What follows the search for the FEC packet.
  unfoldable pub recover_from : Receiver → ℕ → FecEntry → Result (Receiver × Bool)
  recover_from s to_recover_seq_num (fec_packet, octets) =
      let buffer = s.jpeg_packet_incoming_buffer in
      let base = fec_packet.header.sn_base_field in
      bind (front fec_packet.levels) (λ level.
        bind (find_media buffer level.0.mask_field base (to_recover_seq_num - base)) (λ found.
          elim found [
            | none ↦ returns (s, false)
            | some media_packets ↦
                bind (fec_reconstruction spirit (fec_packet, octets) media_packets) (λ packet.
                  returns (
                    record s {
                      jpeg_packet_incoming_buffer = insert_late (remove_padding packet) buffer;
                    },
                    true,
                  ))
          ]))

  -- `recover_packet_by_fec()`. The number to recover is an `int`: it is -1 in front of sequence
  -- number 0, which no FEC packet covers.
  unfoldable pub recover_packet_by_fec : Receiver → Result (Receiver × Bool)
  recover_packet_by_fec s =
      let buffer = s.jpeg_packet_incoming_buffer in
      bind (element (length buffer - media_packet_delay) buffer) (λ next.
        let number = next.0.header.sequence_number in
        bind
          (if number == 0
            then returns none
            else find_candidate (number - 1) s.fec_packet_incoming_buffer)
          (λ fec_candidate. elim fec_candidate [
            | none ↦ returns (s, false)
            | some fec_packet ↦ recover_from s (number - 1) fec_packet
          ]))
