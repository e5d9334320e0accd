-- ===== src/Rtp/Sequence/Validation.antt =====
-- Which packets `update_seq` accepts: probation, the window around the highest sequence number,
-- and the restart of a source.
use rtsp.Common.{
  ℕ, ◌+◌, ◌-◌, ◌%◌, ◌^◌, ◌≤◌, ◌<◌, ◌≡◌, ◌≢◌, ◌↔◌, ◌⊎◌, inl, inr, List, [], ◌∷◌, All, ltb, arith,
  Bool-cases,
}
use rtsp.Common.Bits.{bit_and_word}
use rtsp.Rtp.Sequence.{
  RtpReceiverSquenceUtility, IsValid, init_seq, construct, update_seq, expected, lost,
}
use rtsp.Rtp.Sequence.Accounting.{Tracks}

-- What `update_seq` returns for each packet of a series.
pub verdicts : RtpReceiverSquenceUtility → List ℕ → List ℕ
verdicts s [] = []
verdicts s (seq ∷ seqs) = (update_seq s seq).1 ∷ verdicts (update_seq s seq).0 seqs

-- No packet of the series carries the number after that of the packet before it.
abbrev pub IsScattered : ℕ → List ℕ → Type 0
IsScattered last [] = Unit {0}
IsScattered last (seq ∷ seqs) = (seq ≢ last + 1) × IsScattered seq seqs

abbrev pub IsRejected : ℕ → Type 0
IsRejected verdict = verdict ≡ 0

missed :
    (s : RtpReceiverSquenceUtility) (seq : ℕ)
    → s.probation ≡ 1
    → seq ≢ s.max_seq + 1
    → ((update_seq s seq).1 ≡ 0)
      × ((update_seq s seq).0.probation ≡ 1)
      × ((update_seq s seq).0.max_seq ≡ seq)
unfolding update_seq
missed s seq p h = ground arith

verdicts_one_to_go :
    (s : RtpReceiverSquenceUtility) (seqs : List ℕ)
    → s.probation ≡ 1
    → IsScattered s.max_seq seqs
    → All IsRejected (verdicts s seqs)
unfolding verdicts
verdicts_one_to_go s [] p h = tt
verdicts_one_to_go s (seq ∷ seqs) p h =
    let step : ((update_seq s seq).1 ≡ 0)
        × ((update_seq s seq).0.probation ≡ 1)
        × ((update_seq s seq).0.max_seq ≡ seq) =
      missed s seq p h.0 in
    (step.0, verdicts_one_to_go (update_seq s seq).0 seqs step.1 (rw step.2 h.1))

first_packet :
    (storage : RtpReceiverSquenceUtility) (first : ℕ)
    → first < 65536
    → ((update_seq (construct storage first) first).1 ≡ 0)
      × ((update_seq (construct storage first) first).0.probation ≡ 1)
      × ((update_seq (construct storage first) first).0.max_seq ≡ first)
unfolding construct update_seq
first_packet storage first h = ground arith

-- A source that never sends two packets in sequence is never accepted: from the first packet on,
-- `update_seq` returns 0 for all of them, however many come.
verdicts_scattered :
    (storage : RtpReceiverSquenceUtility) (first : ℕ) (seqs : List ℕ)
    → first < 65536
    → IsScattered first seqs
    → All IsRejected (verdicts (construct storage first) (first ∷ seqs))
unfolding verdicts
verdicts_scattered storage first seqs h k =
    let start = construct storage first in
    let step = first_packet storage first h in
    (step.0, verdicts_one_to_go (update_seq start first).0 seqs step.1 (rw step.2 k))

-- `seq` is less than MAX_DROPOUT ahead of `max`, or less than MAX_MISORDER behind it, on the circle
-- of the 16-bit numbers.
abbrev pub InWindow : ℕ → ℕ → Type 0
InWindow max seq =
    ((d : ℕ) × (d < 3000) × (seq ≡ (max + d) % 65536))
    ⊎ ((d : ℕ) × (0 < d) × (d < 100) × ((seq + d) % 65536 ≡ max))

-- Once a source is off probation, a packet that is not the expected restart is accepted exactly
-- when it lies in the window around the highest number seen.
pub update_seq_window :
    (s : RtpReceiverSquenceUtility) (seq : ℕ)
    → IsValid s
    → s.probation ≡ 0
    → seq < 65536
    → seq ≢ s.bad_seq
    → ((update_seq s seq).1 ≡ 1) ↔ InWindow s.max_seq seq
unfolding update_seq
update_seq_window s seq v p h bad = (accepted_in, in_accepted)
  where
    accepted_in : (update_seq s seq).1 ≡ 1 → InWindow s.max_seq seq
    accepted_in e =
        let d = (seq + 65536 - s.max_seq) % 65536 in
        elim (Bool-cases (ltb d 3000)) [
          | inl ahead ↦ inl (d, ground arith, ground arith)
          | inr not_ahead ↦ inr (65536 - d, ground arith, ground (arith), ground arith)
        ]

    in_accepted : InWindow s.max_seq seq → (update_seq s seq).1 ≡ 1
    in_accepted w = ground arith

-- A jump out of the window is rejected at first and changes nothing but the number that is
-- awaited; if the next packet carries exactly the next number, the counting starts over there.
update_seq_restart :
    (s : RtpReceiverSquenceUtility) (seq : ℕ)
    → IsValid s
    → s.probation ≡ 0
    → seq < 65536
    → seq ≢ s.bad_seq
    → 3000 ≤ (seq + 65536 - s.max_seq) % 65536
    → (seq + 65536 - s.max_seq) % 65536 < 65436
    → let next = (seq + 1) % 65536 in
      (update_seq s seq ≡ (record s { bad_seq = next }, 0))
      × (let (s', verdict) = update_seq (update_seq s seq).0 next in
          (verdict ≡ 1)
          × (s'.base_seq ≡ next)
          × (s'.max_seq ≡ next)
          × (s'.received ≡ 1)
          × (expected s' ≡ 1)
          × (lost s' ≡ 0))
unfolding update_seq init_seq lost expected
update_seq_restart s seq v p h bad lo hi =
    (ground (arith, bit_and_word (seq + 1)), ground (arith, bit_and_word (seq + 1)))

-- A receiver that has lost nothing and gets its last packet once more accepts the copy, and `lost`
-- then wraps around to 2^64 - 1.
lost_duplicate :
    (s : RtpReceiverSquenceUtility) (e b r : ℕ)
    → Tracks s e b r
    → b ≤ e
    → e < 2 ^ 32
    → r ≡ e - b + 1
    → r + 1 < 2 ^ 32
    → ((update_seq s s.max_seq).1 ≡ 1)
      × (lost s ≡ 0)
      × (lost (update_seq s s.max_seq).0 ≡ 2 ^ 64 - 1)
unfolding update_seq lost
lost_duplicate s e b r t h he hr k = ground arith
