-- ===== src/Rtp/Receiver/Numbers.antt =====
-- Packets with consecutive sequence numbers in the buffers of unicast_jpeg_rtp_receiver of
-- rtp_endsystem.cpp.
use rtsp.Common.{ℕ, zero, suc, ◌+◌, ◌%◌, ◌<◌, ◌≡◌, refl, List, [], ◌∷◌, ◌++◌, length, arith}
use rtsp.Rtp.Receiver.{JpegEntry, returns, element}

-- The sequence numbers of the packets go up by one from `n` on, modulo 2 ^ 16.
abbrev pub IsConsecutive : ℕ → List JpegEntry → Type 0
IsConsecutive n [] = Unit
IsConsecutive n (entry ∷ entries) =
    (entry.0.header.sequence_number ≡ n) × IsConsecutive ((n + 1) % 65536) entries

pub IsConsecutive-append :
    (n m : ℕ) (xs : List JpegEntry) (entry : JpegEntry)
    → IsConsecutive n xs
    → n < 65536
    → (n + length xs) % 65536 ≡ m
    → entry.0.header.sequence_number ≡ m
    → IsConsecutive n (xs ++ (entry ∷ []))
IsConsecutive-append n m [] entry c h e s = (omega arith, tt)
IsConsecutive-append n m (x ∷ xs) entry c h e s =
    (c.0, IsConsecutive-append ((n + 1) % 65536) m xs entry c.1 (omega arith) (omega arith) s)

pub element-IsConsecutive :
    (n i : ℕ) (xs : List JpegEntry)
    → IsConsecutive n xs
    → n < 65536
    → i < length xs
    → (entry : JpegEntry) × (element i xs ≡ returns entry)
      × (entry.0.header.sequence_number ≡ (n + i) % 65536)
element-IsConsecutive n i [] c h l = absurd (omega arith)
element-IsConsecutive n zero (x ∷ xs) c h l = (x, refl, omega (arith, c.0))
element-IsConsecutive n (suc i) (x ∷ xs) c h l =
    let (entry, e, s) =
      element-IsConsecutive ((n + 1) % 65536) i xs c.1 (omega arith) (omega arith) in
    (entry, e, omega arith)
