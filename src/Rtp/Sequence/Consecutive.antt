-- ===== src/Rtp/Sequence/Consecutive.antt =====
-- rtp_receiver_squence_utility of rtp_endsystem.hpp and rtp_endsystem.cpp on numbers without a gap.
use rtsp.Common.{ℕ, ◌+◌, ◌%◌, ◌<◌, ◌≡◌, ◌⊎◌, inl, inr, arith}
use rtsp.Rtp.Sequence.{
  RtpReceiverSquenceUtility, init_seq, construct, update_on_probation, update_seq,
}

-- The next number is `n`: the source is valid, or becomes valid with this number.
abbrev pub Expects : RtpReceiverSquenceUtility → ℕ → Type 0
Expects u n =
    ((u.probation ≡ 0) × (u.max_seq < 65536) × ((u.max_seq + 1) % 65536 ≡ n))
    ⊎ ((u.probation ≡ 1) × (u.max_seq + 1 ≡ n))

-- The first number of a source never counts, whatever the storage held.
pub update_seq-construct :
    (storage : RtpReceiverSquenceUtility) (seq : ℕ)
    → seq < 65535
    → ((update_seq (construct storage seq) seq).1 ≡ 0)
      × Expects (update_seq (construct storage seq) seq).0 (seq + 1)
unfolding update_seq update_on_probation construct init_seq
update_seq-construct storage seq h = (ground arith, inr (ground arith, ground arith))

pub update_seq-Expects :
    (u : RtpReceiverSquenceUtility) (n : ℕ)
    → n < 65536
    → Expects u n
    → ((update_seq u n).1 ≡ 1) × Expects (update_seq u n).0 ((n + 1) % 65536)
unfolding update_seq update_on_probation init_seq
update_seq-Expects u n h (inl (p, q, e)) =
    (ground arith, inl (ground arith, ground arith, ground arith))
update_seq-Expects u n h (inr (p, e)) =
    (ground arith, inl (ground arith, ground arith, ground arith))
