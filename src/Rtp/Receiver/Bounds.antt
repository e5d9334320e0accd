-- ===== src/Rtp/Receiver/Bounds.antt =====
-- The iterators of recover_packet_by_fec of rtp_endsystem.cpp: where they stay inside the buffer.
use rtsp.Common.{
  ℕ, zero, suc, ◌+◌, ◌-◌, ◌≤◌, ◌<◌, ◌≡◌, refl, sym, ap, ◌∙◌, inl, inr, true, false, Option, none,
  some, List, [], ◌∷◌, length, ltb, ◌==◌, if_cases, Bool-cases, arith,
}
use mathlib.Core.Bool.{true≢false}
use rtsp.Rtp.Receiver.{JpegEntry, Result, returns, throws, is_undefined, bind, element}
use rtsp.Rtp.Receiver.Recovery.{
  mask_test, push_front_of, collect_media, place_before, place_behind, find_behind, find_media,
}

-- The call returns.
abbrev pub Returns : {A : Type 0} → Result A → Type 0
Returns (returns a) = Unit
Returns throws = ⊥
Returns is_undefined = ⊥

bind-Returns :
    {A B : Type 0} (r : Result A) (next : A → Result B)
    → Returns r
    → ((a : A) → Returns (next a))
    → Returns (bind r next)
bind-Returns (returns a) next h f = f a
bind-Returns throws next h f = absurd h
bind-Returns is_undefined next h f = absurd h

element-Returns : {A : Type 0} (n : ℕ) (xs : List A) → n < length xs → Returns (element n xs)
element-Returns n [] h = absurd (omega arith)
element-Returns zero (x ∷ xs) h = tt
element-Returns (suc n) (x ∷ xs) h = element-Returns n xs (omega arith)

-- The loop returns where each place that the mask asks for is in the buffer.
collect_media-Returns :
    (mask_field base : ℕ) (place : ℕ → Result JpegEntry) (rounds u : ℕ)
    → ((v : ℕ) → u ≤ v → v < u + rounds → mask_test mask_field (63 - v) ≡ true → Returns (place v))
    → Returns (collect_media mask_field base place rounds u)
unfolding collect_media
collect_media-Returns mask_field base place zero u h = tt
collect_media-Returns mask_field base place (suc rounds) u h =
    let rest =
      collect_media-Returns mask_field base place rounds (u + 1)
        (λ v l m t. h v (omega arith) (omega arith) t) in
    if_cases Returns (mask_test mask_field (63 - u))
      (λ e. bind-Returns (place u) _ (h u (omega arith) (omega arith) e) (λ media_it.
        if_cases Returns (media_it.0.header.sequence_number == base + u)
          (λ e'. bind-Returns _ _ rest (λ media. tt)) (λ e'. tt)))
      (λ e. rest)

find_behind-Returns :
    (buffer : List JpegEntry) (mask_field base seq_i : ℕ)
    → 50 ≤ length buffer
    → seq_i ≤ 20
    → ((u : ℕ) → 20 < u → u ≤ 63 → mask_test mask_field (63 - u) ≡ false)
    → (before : Option (List JpegEntry)) → Returns (find_behind buffer mask_field base seq_i before)
find_behind-Returns buffer mask_field base seq_i h l clear none = tt
find_behind-Returns buffer mask_field base seq_i h l clear (some entries) =
    let place = length buffer - 20 in
    bind-Returns
      (collect_media mask_field base (place_behind buffer seq_i) (63 - seq_i) (seq_i + 1)) _
      (collect_media-Returns mask_field base (place_behind buffer seq_i) (63 - seq_i) (seq_i + 1)
        (λ v a b t. elim (Bool-cases (ltb 20 v)) [
          | inl late ↦ absurd (true≢false (sym t ∙ clear v (ground arith) (omega arith)))
          | inr early ↦ element-Returns (place + (v - seq_i - 1)) buffer (ground arith)
        ]))
      (λ media. tt)

-- With 50 packets in the buffer at least, a mask that is clear from the 21st bit on, and one of the
-- first 21 packets of its block to recover: the search for the media packets returns, whatever their
-- sequence numbers are.
pub find_media-Returns :
    (buffer : List JpegEntry) (mask_field base seq_i : ℕ)
    → 50 ≤ length buffer
    → seq_i ≤ 20
    → ((u : ℕ) → 20 < u → u ≤ 63 → mask_test mask_field (63 - u) ≡ false)
    → Returns (find_media buffer mask_field base seq_i)
unfolding find_media
find_media-Returns buffer mask_field base seq_i h l clear =
    let place = length buffer - 20 in
    bind-Returns (collect_media mask_field base (place_before buffer seq_i) seq_i 0) _
      (collect_media-Returns mask_field base (place_before buffer seq_i) seq_i 0 (λ v a b t.
        if_cases Returns (ltb place seq_i) (λ e. absurd (ground arith))
          (λ e. element-Returns (place - seq_i + v) buffer (omega arith))))
      (find_behind-Returns buffer mask_field base seq_i h l clear)

-- The loop reaches a place outside the buffer, where all packets before it are as they should be.
collect_media-undefined :
    (mask_field base : ℕ) (place : ℕ → Result JpegEntry) (stop rounds u : ℕ)
    → u ≤ stop
    → stop < u + rounds
    → ((v : ℕ) → u ≤ v → v ≤ stop → mask_test mask_field (63 - v) ≡ true)
    → ((v : ℕ)
        → u ≤ v
        → v < stop
        → (entry : JpegEntry) × (place v ≡ returns entry)
          × (entry.0.header.sequence_number ≡ base + v))
    → place stop ≡ is_undefined
    → collect_media mask_field base place rounds u ≡ is_undefined
unfolding collect_media
collect_media-undefined mask_field base place stop zero u l r m p e = absurd (omega arith)
collect_media-undefined mask_field base place stop (suc rounds) u l r m p e =
    elim (Bool-cases (ltb u stop)) [
      | inl early ↦
          let (entry, at, number) = p u (omega arith) (ground arith) in
          let rest =
            collect_media-undefined mask_field base place stop rounds (u + 1) (ground arith)
              (omega arith) (λ v a b. m v (omega arith) b) (λ v a b. p v (omega arith) b) e in
          ground (arith, m u (omega arith) l, at, number, rest)
      | inr late ↦
          let same : stop ≡ u = ground arith in
          let at : place u ≡ is_undefined = ap place (sym same) ∙ e in
          ground (arith, m u (omega arith) l, at)
    ]

element-behind : {A : Type 0} (n : ℕ) (xs : List A) → length xs ≤ n → element n xs ≡ is_undefined
element-behind n [] h = refl
element-behind zero (x ∷ xs) h = absurd (omega arith)
element-behind (suc n) (x ∷ xs) h = element-behind n xs (omega arith)

-- The first packet of a block of 22 packets or more is lost, and the buffer, of 20 packets at least,
-- ends with the twenty packets that follow it in the block: the search for the media packets reads
-- behind the end of the buffer.
pub find_media-undefined :
    (buffer : List JpegEntry) (mask_field base : ℕ)
    → 20 ≤ length buffer
    → ((u : ℕ) → 1 ≤ u → u ≤ 21 → mask_test mask_field (63 - u) ≡ true)
    → ((i : ℕ)
        → i < 20
        → (entry : JpegEntry) × (element (length buffer - 20 + i) buffer ≡ returns entry)
          × (entry.0.header.sequence_number ≡ base + (i + 1)))
    → find_media buffer mask_field base 0 ≡ is_undefined
unfolding find_media collect_media
find_media-undefined buffer mask_field base h m p =
    let place = length buffer - 20 in
    let behind =
      collect_media-undefined mask_field base (place_behind buffer 0) 21 63 1 (omega arith)
        (omega arith) m
        (λ v a b.
          let (entry, e, n) = p (v - 1) (omega arith) in
          let same : v - 0 - 1 ≡ v - 1 = omega arith in
          let number : v - 1 + 1 ≡ v = omega arith in
          (entry, ap (λ i. element (place + i) buffer) same ∙ e, n ∙ ap (λ i. base + i) number))
        (element-behind (place + (21 - 0 - 1)) buffer (omega arith)) in
    ap (λ r. bind r (λ media. returns (push_front_of [] media))) behind
