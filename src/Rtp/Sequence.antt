-- ===== src/Rtp/Sequence.antt =====
-- rtp_receiver_squence_utility of src/streaming_lib/rtp_lib/include/rtp_endsystem.hpp and
-- src/streaming_lib/rtp_lib/src/rtp_endsystem.cpp: validation and counting of sequence numbers.
pub mod Accounting
pub mod Validation
pub mod Consecutive
mod Tests
use rtsp.Common.{
  ℕ, ◌+◌, ◌-◌, ◌%◌, ◌^◌, ◌<◌, ◌≡◌, bit_and, not, List, [], ◌∷◌, ltb, leb, ◌==◌, if◌then◌else◌,
}

-- `uint16_t` and `uint32_t` members; `transit` and `jitter` are declared and never used.
pub record RtpReceiverSquenceUtility : Type 0 where
  pub max_seq : ℕ
  pub cycles : ℕ
  pub base_seq : ℕ
  pub bad_seq : ℕ
  pub probation : ℕ
  pub received : ℕ
  pub expected_prior : ℕ
  pub received_prior : ℕ
  pub transit : ℕ
  pub jitter : ℕ

abbrev pub max_dropout : ℕ
max_dropout = 3000

abbrev pub max_misorder : ℕ
max_misorder = 100

abbrev pub min_sequential : ℕ
min_sequential = 2

abbrev pub rtp_seq_mod : ℕ
rtp_seq_mod = 65536

-- `init_seq(seq)`
pub init_seq : RtpReceiverSquenceUtility → ℕ → RtpReceiverSquenceUtility
init_seq s seq = record s {
  base_seq = seq;
  max_seq = seq;
  bad_seq = rtp_seq_mod + 1;
  cycles = 0;
  received = 0;
  received_prior = 0;
  expected_prior = 0;
}

-- The constructor, over storage with whatever values it holds: `max_seq = seq - 1` wraps at 16 bits.
pub construct : RtpReceiverSquenceUtility → ℕ → RtpReceiverSquenceUtility
unfolding init_seq
construct storage seq = record (init_seq storage seq) {
  max_seq = (seq + 65536 - 1) % 65536;
  probation = min_sequential;
}

-- `received++`, `return 1`
abbrev pub count_received : RtpReceiverSquenceUtility → RtpReceiverSquenceUtility × ℕ
count_received s = (record s { received = (s.received + 1) % 2 ^ 32 }, 1)

-- The branch of `update_seq` for a source on probation. `max_seq + 1` is an `int`, it does not wrap.
pub update_on_probation : RtpReceiverSquenceUtility → ℕ → RtpReceiverSquenceUtility × ℕ
unfolding init_seq
update_on_probation s seq =
    if seq == s.max_seq + 1
    then (let s' = record s { probation = s.probation - 1; max_seq = seq } in
        if s'.probation == 0 then count_received (init_seq s' seq) else (s', 0))
    else (record s { probation = min_sequential - 1; max_seq = seq }, 0)

-- `update_seq(seq)`: the new state and the `int` that is returned.
unfoldable pub update_seq : RtpReceiverSquenceUtility → ℕ → RtpReceiverSquenceUtility × ℕ
unfolding init_seq update_on_probation
update_seq s seq =
    let udelta = (seq + 65536 - s.max_seq) % 65536 in
    if not (s.probation == 0)
    then update_on_probation s seq
    else if ltb udelta max_dropout
    then count_received (record s {
      cycles = if ltb seq s.max_seq then (s.cycles + rtp_seq_mod) % 2 ^ 32 else s.cycles;
      max_seq = seq;
    })
    else if leb udelta (rtp_seq_mod - max_misorder)
    then (if seq == s.bad_seq
        then count_received (init_seq s seq)
        else (record s { bad_seq = bit_and (seq + 1) (rtp_seq_mod - 1) }, 0))
    else count_received s

-- The sum of two `uint32_t` wraps before it is widened.
pub extended_max : RtpReceiverSquenceUtility → ℕ
extended_max s = (s.cycles + s.max_seq) % 2 ^ 32

pub expected : RtpReceiverSquenceUtility → ℕ
unfolding extended_max
expected s = (extended_max s + 2 ^ 64 - s.base_seq + 1) % 2 ^ 64

pub lost : RtpReceiverSquenceUtility → ℕ
unfolding expected
lost s = (expected s + 2 ^ 64 - s.received) % 2 ^ 64

-- The state after a series of packets.
pub feed : RtpReceiverSquenceUtility → List ℕ → RtpReceiverSquenceUtility
feed s [] = s
feed s (seq ∷ seqs) = feed (update_seq s seq).0 seqs

-- The ranges of the members, once the constructor has run.
pub record IsValid (s : RtpReceiverSquenceUtility) : Type 0 where
  pub max_word : s.max_seq < 65536
  pub base_word : s.base_seq < 65536
  pub bad_range : s.bad_seq < 65538
  pub whole_cycles : s.cycles % 65536 ≡ 0
  pub cycles_range : s.cycles < 2 ^ 32
  pub received_range : s.received < 2 ^ 32
  pub probation_range : s.probation < 3
