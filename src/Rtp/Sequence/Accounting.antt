-- ===== src/Rtp/Sequence/Accounting.antt =====
-- The counters of rtp_receiver_squence_utility against unbounded extended sequence numbers.
use rtsp.Common.{
  ℕ, ◌+◌, ◌-◌, ◌%◌, ◌^◌, ◌≤◌, ◌<◌, ◌≡◌, refl, List, [], ◌∷◌, ◌++◌, All, length, arith,
}
use rtsp.Common.Bits.{bit_and_word}
use rtsp.Rtp.Sequence.{
  RtpReceiverSquenceUtility, IsValid, construct, update_seq, feed, extended_max, expected, lost,
}

-- Every state that the constructor makes is valid, whatever the storage held.
pub construct-IsValid :
    (storage : RtpReceiverSquenceUtility) (seq : ℕ) → seq < 65536 → IsValid (construct storage seq)
unfolding construct
construct-IsValid storage seq h = omega arith

-- `update_seq` keeps every member in its range and `cycles` a whole number of 16-bit cycles, on
-- every branch.
pub update_seq-IsValid :
    (s : RtpReceiverSquenceUtility) (seq : ℕ)
    → seq < 65536
    → IsValid s
    → IsValid (update_seq s seq).0
unfolding update_seq
update_seq-IsValid s seq h v = ground (arith, bit_and_word (seq + 1))

-- `s` has left probation; `e` is the highest extended sequence number, `b` the first counted one,
-- `r` the number of packets counted since.
pub record Tracks (s : RtpReceiverSquenceUtility) (e b r : ℕ) : Type 0 where
  pub no_probation : s.probation ≡ 0
  pub position : s.cycles + s.max_seq ≡ e
  pub whole_cycles : s.cycles % 65536 ≡ 0
  pub max_word : s.max_seq < 65536
  pub base : s.base_seq ≡ b
  pub count : s.received ≡ r

-- A packet `d` ahead, with `d` below the permitted dropout.
pub update_seq-Tracks :
    (s : RtpReceiverSquenceUtility) (e b r d : ℕ)
    → Tracks s e b r
    → d < 3000
    → e + d < 2 ^ 32
    → r + 1 < 2 ^ 32
    → Tracks (update_seq s ((e + d) % 65536)).0 (e + d) b (r + 1)
      × ((update_seq s ((e + d) % 65536)).1 ≡ 1)
unfolding update_seq
update_seq-Tracks s e b r d t h he hr = ground arith

-- The sequence numbers that a sender at `e` sends with the gaps `ds`.
unfoldable pub sent : ℕ → List ℕ → List ℕ
sent e [] = []
sent e (d ∷ ds) = ((e + d) % 65536) ∷ sent (e + d) ds

-- The packets that did not come: each gap `d` skips `d - 1` of them.
unfoldable pub missing : List ℕ → ℕ
missing [] = 0
missing (d ∷ ds) = (d - 1) + missing ds

-- A gap that the receiver follows: forward, and below the permitted dropout.
abbrev pub IsGap : ℕ → Type 0
IsGap d = (0 < d) × (d < 3000)

feed-Tracks :
    (s : RtpReceiverSquenceUtility) (e b r : ℕ) (ds : List ℕ)
    → Tracks s e b r
    → All IsGap ds
    → e + length ds + missing ds < 2 ^ 32
    → r + length ds < 2 ^ 32
    → Tracks (feed s (sent e ds)) (e + length ds + missing ds) b (r + length ds)
unfolding feed sent missing
feed-Tracks s e b r [] t g he hr = omega (arith, t)
feed-Tracks s e b r (d ∷ ds) t g he hr =
    let (t', _) = update_seq-Tracks s e b r d t g.0.1 (omega arith) (omega arith) in
    omega (
      arith,
      feed-Tracks (update_seq s ((e + d) % 65536)).0 (e + d) b (r + 1) ds t' g.1 (omega arith)
          (omega arith),
    )

Tracks-counts :
    {s : RtpReceiverSquenceUtility} {e b r : ℕ}
    → Tracks s e b r
    → b ≤ e
    → e < 2 ^ 32
    → r ≤ e - b + 1
    → (extended_max s ≡ e) × (expected s ≡ e - b + 1) × (lost s ≡ e - b + 1 - r)
unfolding lost
Tracks-counts t h h' k = ground arith

-- The two packets in sequence that end the probation.
construct-Tracks :
    (storage : RtpReceiverSquenceUtility) (first : ℕ)
    → 0 < first
    → first + 1 < 65536
    → Tracks (feed (construct storage first) (first ∷ (first + 1) ∷ [])) (first + 1) (first + 1) 1
unfolding feed construct update_seq
construct-Tracks storage first h k = ground arith

feed-append :
    (s : RtpReceiverSquenceUtility) (xs ys : List ℕ) → feed s (xs ++ ys) ≡ feed (feed s xs) ys
unfolding feed
feed-append s [] ys = refl
feed-append s (x ∷ xs) ys = feed-append (update_seq s x).0 xs ys

-- A receiver starts at packet `first`, neither 0 nor 65535, gets that packet and the next one, and then
-- packets with the gaps `ds`, each forward and below 3000, while the extended numbers stay below 2^32. Then it has
-- counted all packets from the second one on as received, the highest extended sequence number is
-- the true one, whatever number of times the 16 bits wrapped, and `lost` is the number of packets
-- that the gaps skipped.
pub feed_accounts :
    (storage : RtpReceiverSquenceUtility) (first : ℕ) (ds : List ℕ)
    → 0 < first
    → first + 1 < 65536
    → All IsGap ds
    → first + 1 + length ds + missing ds < 2 ^ 32
    → let s = feed (construct storage first) (first ∷ (first + 1) ∷ sent (first + 1) ds) in
      (s.received ≡ 1 + length ds)
      × (extended_max s ≡ first + 1 + length ds + missing ds)
      × (expected s ≡ 1 + length ds + missing ds)
      × (lost s ≡ missing ds)
feed_accounts storage first ds h k g bound =
    let s0 = feed (construct storage first) (first ∷ (first + 1) ∷ []) in
    let t =
      feed-Tracks s0 (first + 1) (first + 1) 1 ds (construct-Tracks storage first h k) g bound
        (omega arith) in
    let (a, b, c) = Tracks-counts t (omega arith) bound (omega arith) in
    rw (feed-append (construct storage first) (first ∷ (first + 1) ∷ []) (sent (first + 1) ds))
      (omega (arith, t), omega arith, omega arith, omega arith)
