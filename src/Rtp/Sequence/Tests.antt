-- ===== src/Rtp/Sequence/Tests.antt =====
-- The theorems on rtp_receiver_squence_utility at concrete packets.
use rtsp.Common.{◌≡◌, ◌↔◌, ◌+◌, ◌%◌, refl, [], ◌∷◌, arith}
use rtsp.Rtp.Sequence.{
  RtpReceiverSquenceUtility, IsValid, construct, update_seq, feed, extended_max, expected, lost,
}
use rtsp.Rtp.Sequence.Accounting.{Tracks, sent, missing, feed_accounts, update_seq-Tracks}
use rtsp.Rtp.Sequence.Validation.{InWindow, update_seq_window}

abbrev storage : RtpReceiverSquenceUtility
storage = record {
  max_seq = 7;
  cycles = 7;
  base_seq = 7;
  bad_seq = 7;
  probation = 7;
  received = 7;
  expected_prior = 7;
  received_prior = 7;
  transit = 7;
  jitter = 7;
}

-- Off probation, one cycle completed, 65530 seen last.
abbrev running : RtpReceiverSquenceUtility
running = record {
  max_seq = 65530;
  cycles = 65536;
  base_seq = 100;
  bad_seq = 65537;
  probation = 0;
  received = 130967;
  expected_prior = 0;
  received_prior = 0;
  transit = 0;
  jitter = 0;
}

running-IsValid : IsValid running
running-IsValid = omega arith

running-Tracks : Tracks running 131066 100 130967
running-Tracks = record {
  no_probation = refl;
  position = refl;
  whole_cycles = refl;
  max_word = omega arith;
  base = refl;
  count = refl;
}

-- 65533, 65534, then 65535, 2 (0 and 1 are lost) and 3.
feed_accounts_example :
    let s = feed (construct storage 65533) (65533 ∷ 65534 ∷ sent 65534 (1 ∷ 3 ∷ 1 ∷ [])) in
    (s.received ≡ 4)
    × (extended_max s ≡ 65539)
    × (expected s ≡ 6)
    × (lost s ≡ missing (1 ∷ 3 ∷ 1 ∷ []))
unfolding missing
feed_accounts_example =
    feed_accounts storage 65533 (1 ∷ 3 ∷ 1 ∷ []) (omega arith) (omega arith) (omega arith)
      (omega arith)

update_seq-Tracks_example :
    Tracks (update_seq running ((131066 + 10) % 65536)).0 (131066 + 10) 100 (130967 + 1)
    × ((update_seq running ((131066 + 10) % 65536)).1 ≡ 1)
update_seq-Tracks_example =
    update_seq-Tracks running 131066 100 130967 10 running-Tracks (omega arith) (omega arith)
      (omega arith)

update_seq_window_example : ((update_seq running 4).1 ≡ 1) ↔ InWindow 65530 4
update_seq_window_example =
    update_seq_window running 4 running-IsValid refl (omega arith) (omega arith)
