-- ===== src/Rtp/Fec/Base.antt =====
-- The sequence number base of a block of fec_generator of rtp_endsystem.cpp.
use rtsp.Common.{
  ℕ, ◌≤◌, ◌≡◌, ◌≢◌, refl, sym, subst, ap, ◌∙◌, ◌⊎◌, inl, inr, min, leb, Bool-cases, ◌==◌, List, [],
  ◌∷◌, ◌++◌, append_assoc, append-nil, All, All-append, arith,
}
use rtsp.Rtp.Fec.{next_seq_base}

-- The calls of a generator: a media packet and its sequence number.
abbrev pub Calls : Type 0
Calls = List (List ℕ × ℕ)

unfoldable pub seq_base : ℕ → Calls → ℕ
seq_base b [] = b
seq_base b ((m, seq) ∷ calls) = seq_base (next_seq_base b seq) calls

abbrev pub IsNumbered : List ℕ × ℕ → Type 0
IsNumbered call = call.1 ≢ 0

abbrev pub IsAmong : ℕ → Calls → Type 0
IsAmong n [] = ⊥
IsAmong n (call ∷ calls) = (n ≡ call.1) ⊎ IsAmong n calls

-- The least number of the calls, 0 for none.
abbrev pub IsLeast : ℕ → Calls → Type 0
IsLeast n [] = n ≡ 0
IsLeast n (call ∷ calls) = IsAmong n (call ∷ calls) × All (λ other. n ≤ other.1) (call ∷ calls)

-- There is no call, or the last one has the number 0.
abbrev pub EndsInZero : Calls → Type 0
EndsInZero calls =
    (calls ≡ []) ⊎ ((before : Calls) × (m : List ℕ) × (calls ≡ before ++ ((m, 0) ∷ [])))

-- The least number of the calls behind the last one with the number 0, or 0 if that is the last call.
pub record IsBase (base : ℕ) (calls : Calls) : Type 0 where
  pub early : Calls
  pub late : Calls
  pub split : calls ≡ early ++ late
  pub early_end : EndsInZero early
  pub late_numbers : All IsNumbered late
  pub least : IsLeast base late

Among-append : (n : ℕ) (xs ys : Calls) → IsAmong n xs → IsAmong n (xs ++ ys)
Among-append n [] ys h = absurd h
Among-append n (x ∷ xs) ys (inl e) = inl e
Among-append n (x ∷ xs) ys (inr a) = inr (Among-append n xs ys a)

Among-last : (m : List ℕ) (seq : ℕ) (xs : Calls) → IsAmong seq (xs ++ ((m, seq) ∷ []))
Among-last m seq [] = inl refl
Among-last m seq (x ∷ xs) = inr (Among-last m seq xs)

lower :
    (n k : ℕ) (xs : Calls) → n ≤ k → All (λ other. k ≤ other.1) xs → All (λ other. n ≤ other.1) xs
lower n k [] l a = tt
lower n k (x ∷ xs) l a = (omega (arith, a.0), lower n k xs l a.1)

Among-IsNumbered : (n : ℕ) (xs : Calls) → IsAmong n xs → All IsNumbered xs → n ≢ 0
Among-IsNumbered n [] h a = absurd h
Among-IsNumbered n (x ∷ xs) (inl e) a = λ z. a.0 (sym e ∙ z)
Among-IsNumbered n (x ∷ xs) (inr h) a = Among-IsNumbered n xs h a.1

min-IsLeast :
    (n seq : ℕ) (m : List ℕ) (x : List ℕ × ℕ) (xs : Calls)
    → IsLeast n (x ∷ xs)
    → IsLeast (min seq n) ((x ∷ xs) ++ ((m, seq) ∷ []))
min-IsLeast n seq m x xs (among, below) = elim (Bool-cases (leb seq n)) [
  | inl low ↦
      let smaller : seq ≤ n = ground (arith, low) in
      let same : min seq n ≡ seq = omega arith in
      subst (λ k. IsLeast k ((x ∷ xs) ++ ((m, seq) ∷ []))) (sym same)
        (
          Among-last m seq (x ∷ xs),
          All-append (λ other. seq ≤ other.1) (x ∷ xs) ((m, seq) ∷ [])
              (lower seq n (x ∷ xs) smaller below) (omega arith, tt),
        )
  | inr high ↦
      let larger : n ≤ seq = ground (arith, high) in
      let same : min seq n ≡ n = omega arith in
      subst (λ k. IsLeast k ((x ∷ xs) ++ ((m, seq) ∷ []))) (sym same)
        (
          Among-append n (x ∷ xs) ((m, seq) ∷ []) among,
          All-append (λ other. n ≤ other.1) (x ∷ xs) ((m, seq) ∷ []) below (larger, tt),
        )
]

next_seq_base-IsLeast :
    (b seq : ℕ) (m : List ℕ) (late : Calls)
    → IsLeast b late
    → All IsNumbered late
    → IsLeast (next_seq_base b seq) (late ++ ((m, seq) ∷ []))
unfolding next_seq_base
next_seq_base-IsLeast b seq m [] least a = rw least (inl refl, (omega arith, tt))
next_seq_base-IsLeast b seq m (x ∷ xs) least a =
    let numbered = Among-IsNumbered b (x ∷ xs) least.0 a in
    let same : next_seq_base b seq ≡ min seq b = ground (arith, numbered) in
    subst (λ k. IsLeast k ((x ∷ xs) ++ ((m, seq) ∷ []))) (sym same) (min-IsLeast b seq m x xs least)

next_seq_base-zero : (b : ℕ) → next_seq_base b 0 ≡ 0
unfolding next_seq_base
next_seq_base-zero b = ground arith

IsBase-step :
    (b : ℕ) (calls : Calls) (m : List ℕ) (seq : ℕ)
    → IsBase b calls
    → IsBase (next_seq_base b seq) (calls ++ ((m, seq) ∷ []))
IsBase-step b calls m seq v = elim (Bool-cases (seq == 0)) [
  | inl none ↦
      let same : seq ≡ 0 = ground (arith, none) in
      rw same (record {
        early = calls ++ ((m, 0) ∷ []);
        late = [];
        split = sym (append-nil (calls ++ ((m, 0) ∷ [])));
        early_end = inr (calls, m, refl);
        late_numbers = tt;
        least = next_seq_base-zero b;
      })
  | inr any ↦ record {
    early = v.early;
    late = v.late ++ ((m, seq) ∷ []);
    split = ap (λ c. c ++ ((m, seq) ∷ [])) v.split ∙ append_assoc v.early v.late ((m, seq) ∷ []);
    early_end = v.early_end;
    late_numbers =
        All-append IsNumbered v.late ((m, seq) ∷ []) v.late_numbers
          ((λ z. ground (arith, any, z)), tt);
    least = next_seq_base-IsLeast b seq m v.late v.least v.late_numbers;
  }
]

seq_base-from :
    (b : ℕ) (done calls : Calls) → IsBase b done → IsBase (seq_base b calls) (done ++ calls)
unfolding seq_base
seq_base-from b done [] v = subst (IsBase b) (sym (append-nil done)) v
seq_base-from b done ((m, seq) ∷ calls) v =
    subst (IsBase (seq_base (next_seq_base b seq) calls)) (append_assoc done ((m, seq) ∷ []) calls)
      (seq_base-from (next_seq_base b seq) (done ++ ((m, seq) ∷ [])) calls
        (IsBase-step b done m seq v))

-- What the generator keeps over a block, from 0 on.
pub seq_base-IsBase : (calls : Calls) → IsBase (seq_base 0 calls) calls
seq_base-IsBase calls = seq_base-from 0 [] calls (record {
  early = [];
  late = [];
  split = refl;
  early_end = inl refl;
  late_numbers = tt;
  least = refl;
})
