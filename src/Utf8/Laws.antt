-- ===== src/Utf8/Laws.antt =====
-- `validUtf8` of src/codec_context.cpp beside the encoding of scalar values.
use rtt_http.Common.{
  ℕ, zero, suc, ◌+◌, ◌*◌, ◌/◌, ◌%◌, ◌<◌, ◌≤◌, ◌⊎◌, inl, inr, List, [], ◌∷◌, ◌++◌, Bytes, ltb,
  if◌then◌else◌, true, some, ◌≡◌, refl, ap, sym, ◌∙◌, arith, length, All, length-append,
  append_assoc, Bool-cases, Option-cases, ◌↔◌, All-append, dec_lt,
}
use rtt_http.Utf8.{lead, continuation, in_range, sequence, scan, valid_utf8}
use rtt_http.Utf8.Scalars.{IsScalar, encode, encode_all}

-- The value that the bytes of a sequence spell.
decoded : ℕ → Bytes → ℕ
decoded first [] = 0
decoded first (a ∷ []) = first % 32 * 64 + a % 64
decoded first (a ∷ b ∷ []) =
    if ltb first 0xe0 then first % 32 * 64 + a % 64 else (first % 16 * 64 + a % 64) * 64 + b % 64
decoded first (a ∷ b ∷ c ∷ text) =
    if ltb first 0xe0
    then first % 32 * 64 + a % 64
    else if ltb first 0xf0
    then (first % 16 * 64 + a % 64) * 64 + b % 64
    else ((first % 8 * 64 + a % 64) * 64 + b % 64) * 64 + c % 64

-- A sequence of bytes that is accepted is the encoding of a scalar value.
sequence_sound :
    (first : ℕ) (text rest : Bytes)
    → 0x80 ≤ first
    → sequence first text ≡ some rest
    → IsScalar (decoded first text) × (first ∷ text ≡ encode (decoded first text) ++ rest)
unfolding sequence lead continuation in_range encode decoded
sequence_sound first [] rest big h = ground arith
sequence_sound first (a ∷ []) rest big h = ground arith
sequence_sound first (a ∷ b ∷ []) rest big h = ground arith
sequence_sound first (a ∷ b ∷ c ∷ text) rest big h = ground arith

encode_ascii : (c : ℕ) → c < 0x80 → encode c ≡ c ∷ []
unfolding encode
encode_ascii c h = ground arith

scan_sound :
    (fuel : ℕ) (text : Bytes)
    → scan fuel text ≡ true
    → (cs : List ℕ) × All IsScalar cs × (text ≡ encode_all cs)
unfolding scan encode_all
scan_sound zero [] h = ([], tt, refl)
scan_sound (suc fuel) [] h = ([], tt, refl)
scan_sound zero (first ∷ text) h = cc
scan_sound (suc fuel) (first ∷ text) h = elim (Bool-cases (ltb first 0x80)) [
  | inl small ↦
      let (cs, valid, e) = scan_sound fuel text (ground arith) in
      (first ∷ cs, (ground arith, valid), rw (encode_ascii first (ground arith), e))
  | inr big ↦ elim (Option-cases (sequence first text)) [
    | inl bad ↦ ground arith
    | inr (rest, good) ↦
        let (cs, valid, e) = scan_sound fuel rest (ground arith) in
        let (scalar, split) = sequence_sound first text rest (ground arith) good in
        (
          decoded first text ∷ cs,
          (scalar, valid),
          split ∙ ap (◌++◌ (encode (decoded first text))) e,
        )
  ]
]

-- A scalar value is read back from its encoding, for each length.
module _ (c : ℕ) (rest : Bytes) where
  sequence_two :
      0x80 ≤ c → c < 0x800 → sequence (0xc0 + c / 64) ((0x80 + c % 64) ∷ rest) ≡ some rest
  unfolding sequence lead continuation in_range
  sequence_two h k = ground arith

  sequence_three :
      0x800 ≤ c
      → c < 0x10000
      → IsScalar c
      → sequence (0xe0 + c / 4096) ((0x80 + c / 64 % 64) ∷ (0x80 + c % 64) ∷ rest) ≡ some rest
  unfolding sequence lead continuation in_range
  sequence_three h k scalar = ground arith

  sequence_four :
      0x10000 ≤ c
      → c ≤ 0x10ffff
      → sequence
          (0xf0 + c / 262144)
          ((0x80 + c / 4096 % 64) ∷ (0x80 + c / 64 % 64) ∷ (0x80 + c % 64) ∷ rest)
        ≡ some rest
  unfolding sequence lead continuation in_range
  sequence_four h k = ground arith

scan_step :
    (first fuel : ℕ) (text rest : Bytes)
    → 0x80 ≤ first
    → sequence first text ≡ some rest
    → scan (suc fuel) (first ∷ text) ≡ scan fuel rest
unfolding scan
scan_step first fuel text rest h e = ground arith

-- How many bytes a scalar value takes.
encode_cases :
    (c : ℕ)
    → IsScalar c
    → ((c < 0x80) × (encode c ≡ c ∷ []))
      ⊎ ((0x80 ≤ c) × (c < 0x800) × (encode c ≡ (0xc0 + c / 64) ∷ (0x80 + c % 64) ∷ []))
      ⊎ ((0x800 ≤ c)
          × (c < 0x10000)
          × (encode c ≡ (0xe0 + c / 4096) ∷ (0x80 + c / 64 % 64) ∷ (0x80 + c % 64) ∷ []))
      ⊎ ((0x10000 ≤ c)
          × (c ≤ 0x10ffff)
          × (encode c
              ≡ (0xf0 + c / 262144)
                ∷ (0x80 + c / 4096 % 64)
                ∷ (0x80 + c / 64 % 64)
                ∷ (0x80 + c % 64)
                ∷ []))
unfolding encode
encode_cases c h = elim (dec_lt c 0x80) [
  | yes p ↦ inl (p, ground arith)
  | no p ↦ elim (dec_lt c 0x800) [
    | yes q ↦ inr (inl (omega arith, q, ground arith))
    | no q ↦ elim (dec_lt c 0x10000) [
      | yes r ↦ inr (inr (inl (omega arith, r, ground arith)))
      | no r ↦ inr (inr (inr (omega arith, omega arith, ground arith)))
    ]
  ]
]

scan-encode :
    (c fuel : ℕ) (rest : Bytes) → IsScalar c → scan (suc fuel) (encode c ++ rest) ≡ scan fuel rest
scan-encode c fuel rest h = elim (encode_cases c h) [
  | inl (p, e) ↦ rw e (unfold scan in ground arith)
  | inr (inl (p, q, e)) ↦ rw e (scan_step _ fuel _ rest (omega arith) (sequence_two c rest p q))
  | inr (inr (inl (p, q, e))) ↦
      rw e (scan_step _ fuel _ rest (omega arith) (sequence_three c rest p q h))
  | inr (inr (inr (p, q, e))) ↦
      rw e (scan_step _ fuel _ rest (omega arith) (sequence_four c rest p q))
]

length-encode_pos : (c : ℕ) → 0 < length (encode c)
unfolding encode
length-encode_pos c = ground arith

scan-encode_all :
    (cs : List ℕ) (fuel : ℕ)
    → All IsScalar cs
    → length (encode_all cs) ≤ fuel
    → scan fuel (encode_all cs) ≡ true
unfolding encode_all
scan-encode_all [] zero h fits = unfold scan in refl
scan-encode_all [] (suc fuel) h fits = unfold scan in refl
scan-encode_all (c ∷ cs) zero h fits =
    absurd (omega (arith, length-append (encode c) (encode_all cs), length-encode_pos c))
scan-encode_all (c ∷ cs) (suc fuel) (hc, hs) fits =
    scan-encode c fuel (encode_all cs) hc
    ∙ scan-encode_all cs fuel hs
        (omega (arith, length-append (encode c) (encode_all cs), length-encode_pos c))

-- `validUtf8` accepts a text exactly when the text is the concatenation of the UTF-8 encodings of
-- some Unicode scalar values (no surrogate, no overlong form, nothing above 0x10ffff).
pub valid_utf8_iff :
    (text : Bytes)
    → (valid_utf8 text ≡ true) ↔ ((cs : List ℕ) × All IsScalar cs × (text ≡ encode_all cs))
unfolding valid_utf8
valid_utf8_iff text = (
  scan_sound (length text) text,
  λ (cs, valid, e). rw e (scan-encode_all cs _ valid (omega arith)),
)

encode_all-append : (cs ds : List ℕ) → encode_all (cs ++ ds) ≡ encode_all cs ++ encode_all ds
unfolding encode_all
encode_all-append [] ds = refl
encode_all-append (c ∷ cs) ds = simp (encode_all-append cs ds, append_assoc)

-- Valid texts may be joined.
pub valid_utf8-append :
    (s t : Bytes) → valid_utf8 s ≡ true → valid_utf8 t ≡ true → valid_utf8 (s ++ t) ≡ true
valid_utf8-append s t hs ht =
    let (cs, vs, es) = (valid_utf8_iff s).0 hs in
    let (ds, vt, et) = (valid_utf8_iff t).0 ht in
    (valid_utf8_iff (s ++ t)).1
      (cs ++ ds, All-append IsScalar cs ds vs vt, rw (es, et) (sym (encode_all-append cs ds)))
