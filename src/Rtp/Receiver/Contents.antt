-- ===== src/Rtp/Receiver/Contents.antt =====
-- The frames that unicast_jpeg_rtp_receiver of rtp_endsystem.cpp holds, and how its buffers change them.
use rtsp.Common.{
  ℕ, zero, suc, ◌+◌, ◌-◌, ◌≤◌, ◌≡◌, refl, sym, ap, ◌∙◌, true, List, [], ◌∷◌, ◌++◌, append_assoc,
  length, length-append, take, drop, arith,
}
use rtsp.Rtp.Sequence.{RtpReceiverSquenceUtility}
use rtsp.Rtp.Spirit.{Spirit}
use rtsp.Rtp.Packet.{CustomJpegPacket, default_jpeg_packet}
use rtsp.Rtp.Packet.Grammar.{parse_jpeg_packet}
use rtsp.Rtp.Receiver.{JpegEntry, Receiver}
use rtsp.Rtp.Receiver.Recovery.{insert_late}
use rtsp.Rtp.Receiver.Handlers.{release_from}
use rtsp.Rtp.Receiver.Effects.{IsRecovered, pushed, inserted}

-- The data of packets.
abbrev pub frames_of : List CustomJpegPacket → List (List ℕ)
frames_of [] = []
frames_of (packet ∷ packets) = packet.payload ∷ frames_of packets

abbrev pub frames_in : List JpegEntry → List (List ℕ)
frames_in [] = []
frames_in (entry ∷ entries) = entry.0.payload ∷ frames_in entries

-- The frames that a receiver holds, in the order in which it will show them.
unfoldable pub contents : Receiver → List (List ℕ)
contents s = frames_of s.jpeg_packet_frame_buffer ++ frames_in s.jpeg_packet_incoming_buffer

-- The frame of a message that the parser of JPEG packets reads.
abbrev pub IsFrameOf : Spirit → List ℕ → List ℕ → Type 0
IsFrameOf spirit m frame =
    let p = parse_jpeg_packet spirit default_jpeg_packet m in
    (p.success ≡ true) × (p.attribute.payload ≡ frame)

-- A frame that `fec_reconstruction` has made, without its padding.
abbrev pub IsRecoveredFrame : Spirit → List ℕ → Type 0
IsRecoveredFrame spirit late =
    (entry : JpegEntry) × IsRecovered spirit entry × (entry.0.payload ≡ late)

-- The queue over a list of messages, the last one first. Each message leaves the queue as it is, or puts
-- its own frame at the end, once, and behind that may insert one recovered frame in front of the last
-- twenty.
pub data Grows (spirit : Spirit) (q : List (List ℕ)) : List (List ℕ) → List (List ℕ) → Type 0 where
  same : Grows spirit q [] q
  unchanged :
      {ms r : List (List ℕ)} → Grows spirit q ms r → (m : List ℕ) → Grows spirit q (m ∷ ms) r
  joined :
      {ms r : List (List ℕ)}
      → Grows spirit q ms r
      → (m frame : List ℕ) → IsFrameOf spirit m frame
      → Grows spirit q (m ∷ ms) (r ++ (frame ∷ []))
  joined_behind_recovered :
      {ms r : List (List ℕ)}
      → Grows spirit q ms r
      → (m frame late : List ℕ) → IsFrameOf spirit m frame
      → IsRecoveredFrame spirit late
      → 20 ≤ length (r ++ (frame ∷ []))
      → Grows spirit q (m ∷ ms) (insert_late late (r ++ (frame ∷ [])))

frames_of-append :
    (xs ys : List CustomJpegPacket) → frames_of (xs ++ ys) ≡ frames_of xs ++ frames_of ys
frames_of-append [] ys = refl
frames_of-append (x ∷ xs) ys = rw (frames_of-append xs ys)

frames_in-append : (xs ys : List JpegEntry) → frames_in (xs ++ ys) ≡ frames_in xs ++ frames_in ys
frames_in-append [] ys = refl
frames_in-append (x ∷ xs) ys = rw (frames_in-append xs ys)

pub length-frames_in : (xs : List JpegEntry) → length (frames_in xs) ≡ length xs
length-frames_in [] = refl
length-frames_in (x ∷ xs) = ap suc (length-frames_in xs)

frames_in-take : (n : ℕ) (xs : List JpegEntry) → frames_in (take n xs) ≡ take n (frames_in xs)
frames_in-take zero xs = refl
frames_in-take (suc n) [] = refl
frames_in-take (suc n) (x ∷ xs) = rw (frames_in-take n xs)

frames_in-drop : (n : ℕ) (xs : List JpegEntry) → frames_in (drop n xs) ≡ drop n (frames_in xs)
frames_in-drop zero xs = refl
frames_in-drop (suc n) [] = refl
frames_in-drop (suc n) (x ∷ xs) = frames_in-drop n xs

frames_in-insert_late :
    (entry : JpegEntry) (xs : List JpegEntry)
    → frames_in (insert_late entry xs) ≡ insert_late entry.0.payload (frames_in xs)
frames_in-insert_late entry xs =
    let n = length xs - 20 in
    rw (
      length-frames_in xs,
      frames_in-append (take n xs) (entry ∷ drop n xs),
      frames_in-take n xs,
      frames_in-drop n xs,
    )

-- An insertion at a place behind `xs`.
insert-append :
    {A : Type 0} (n : ℕ) (x : A) (xs ys : List A)
    → take (length xs + n) (xs ++ ys) ++ (x ∷ drop (length xs + n) (xs ++ ys))
      ≡ xs ++ (take n ys ++ (x ∷ drop n ys))
insert-append n x [] ys = ap (λ k. take k ys ++ (x ∷ drop k ys)) (omega arith)
insert-append n x (y ∷ xs) ys =
    let zs = y ∷ (xs ++ ys) in
    let e : suc (length xs) + n ≡ suc (length xs + n) = omega arith in
    ap (λ k. take k zs ++ (x ∷ drop k zs)) e ∙ ap (λ r. y ∷ r) (insert-append n x xs ys)

pub insert_late-append :
    {A : Type 0} (x : A) (xs ys : List A)
    → 20 ≤ length ys
    → insert_late x (xs ++ ys) ≡ xs ++ insert_late x ys
insert_late-append x xs ys h =
    let e : length (xs ++ ys) - 20 ≡ length xs + (length ys - 20) =
      omega (arith, length-append xs ys) in
    ap (λ k. take k (xs ++ ys) ++ (x ∷ drop k (xs ++ ys))) e
    ∙ insert-append (length ys - 20) x xs ys

pub contents-release_from :
    (s : Receiver) (entries : List JpegEntry)
    → contents (release_from s entries) ≡ frames_of s.jpeg_packet_frame_buffer ++ frames_in entries
unfolding contents
contents-release_from s [] = refl
contents-release_from s (entry ∷ entries) = rw (
  frames_of-append s.jpeg_packet_frame_buffer (entry.0 ∷ []),
  append_assoc (frames_of s.jpeg_packet_frame_buffer) (entry.0.payload ∷ []) (frames_in entries),
)

pub contents-pushed :
    (s : Receiver) (utility : RtpReceiverSquenceUtility) (entry : JpegEntry)
    → contents (pushed s utility entry) ≡ contents s ++ (entry.0.payload ∷ [])
unfolding contents
contents-pushed s utility entry = rw (
  frames_in-append s.jpeg_packet_incoming_buffer (entry ∷ []),
  append_assoc (frames_of s.jpeg_packet_frame_buffer) (frames_in s.jpeg_packet_incoming_buffer)
      (entry.0.payload ∷ []),
)

pub contents-inserted :
    (s : Receiver) (entry : JpegEntry)
    → 20 ≤ length s.jpeg_packet_incoming_buffer
    → contents (inserted s entry) ≡ insert_late entry.0.payload (contents s)
unfolding contents
contents-inserted s entry h = rw (frames_in-insert_late entry s.jpeg_packet_incoming_buffer) (
    sym (
      insert_late-append entry.0.payload (frames_of s.jpeg_packet_frame_buffer)
        (frames_in s.jpeg_packet_incoming_buffer)
        (omega (arith, length-frames_in s.jpeg_packet_incoming_buffer))))
