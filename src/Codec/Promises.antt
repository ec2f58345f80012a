-- ===== src/Codec/Promises.antt =====
-- What the conversions of include/rtt/http/typed_codec.hpp promise each other.
use rtt_http.Common.{
  ℕ, ◌-◌, ◌^◌, ◌≤◌, true, Option, none, some, List, [], ◌∷◌, Bytes, ◌==◌, ◌≡◌, subst, ◌&&◌, sym,
  arith, All, Option-cases, Bool-cases, inl, inr,
}
use rtt_http.Common.Int.{ℤ, pos, pos_part, negate, ◌≤ℤ◌}
use rtt_http.Common.Decimal.{from_chars}
use rtt_http.Codec.{
  Json, null, boolean, int64, uint64, double, string, array, object, CodecContext, ok, or_mismatch,
}
use rtt_http.Codec.Integers.{
  JsonConversion, DoubleOps, IsExact, IntType, lowest, greatest, encode_integer, decode_integer,
  decode_number, decode_wide, decode_text, from_chars_int,
}
use rtt_http.Codec.Containers.{encode_vector, decode_vector}
use rtt_http.Codec.Balance.{Kept, IsBalanced, vector-IsBalanced}
use rtt_http.Codec.RoundTrip.{Covers, RoundTrips, InRange, integer-RoundTrips}
use rtt_http.Codec.Sequences.{vector-RoundTrips}

-- An integer that was encoded is decoded to itself in every context with as much budget, whatever
-- the width and the sign of its type.
pub decode-encode_integer :
    (D : Type 0) (ops : DoubleOps D) (t : IntType) (v : ℤ) (c d : CodecContext) (j : Json D)
    (c' : CodecContext)
    → InRange t v
    → encode_integer ops t v c ≡ (ok j, c')
    → Covers c d
    → (d' : CodecContext) × (decode_integer ops t j d ≡ (ok v, d')) × Covers c' d'
decode-encode_integer D ops t = (integer-RoundTrips ops t).back

-- A vector that was encoded is decoded to the same vector in every context with as much budget,
-- when its elements are: in particular its brackets and commas pay for what decoding accounts.
pub decode-encode_vector :
    (D T : Type 0) (element : JsonConversion D T) (P : T → Type 0) (vs : List T)
    (c d : CodecContext) (j : Json D) (c' : CodecContext)
    → RoundTrips element P
    → All P vs
    → encode_vector element vs c ≡ (ok j, c')
    → Covers c d
    → (d' : CodecContext) × (decode_vector element j d ≡ (ok vs, d')) × Covers c' d'
decode-encode_vector D T element P vs c d j c' trips h e covers =
    (vector-RoundTrips element P trips).back vs c d j c' h e covers

-- Encoding and decoding a vector, successful or not, leave the depth and the limits of the context
-- as they were and give no budget back, when its elements do so: every `CodecScope` is left.
pub vector-Kept :
    (D T : Type 0) (element : JsonConversion D T) (vs : List T) (j : Json D) (c : CodecContext)
    → IsBalanced element
    → Kept c (encode_vector element vs c).1 × Kept c (decode_vector element j c).1
vector-Kept D T element vs j c h =
    let b = vector-IsBalanced element h in ((b.encodes vs).at c, (b.decodes j).at c)

module _ (D : Type 0) (ops : DoubleOps D) (exact : IsExact ops) (t : IntType) where
  from_chars-le :
      (limit n : ℕ) (text rest : Bytes) → from_chars limit text ≡ some (n, rest) → n ≤ limit
  unfolding from_chars
  from_chars-le limit n [] rest e = ground arith
  from_chars-le limit n (c ∷ text) rest e = ground arith

  lowest-le : (n : ℕ) → lowest t ≤ℤ pos n
  unfolding lowest
  lowest-le n = ground arith

  decode_number-InRange : (j : Json D) (v : ℤ) → decode_number ops t j ≡ some v → InRange t v
  unfolding decode_number
  decode_number-InRange (int64 w) v e = unfold lowest in ground (arith, lowest-le (pos_part w))
  decode_number-InRange (uint64 n) v e = ground (arith, lowest-le n)
  decode_number-InRange (double d) v e =
      ground (arith, exact.between d (lowest t) (pos (greatest t)))
  decode_number-InRange null v e = ground arith
  decode_number-InRange (boolean b) v e = ground arith
  decode_number-InRange (string s) v e = ground arith
  decode_number-InRange (array xs) v e = ground arith
  decode_number-InRange (object ms) v e = ground arith

  -- The digits behind a minus sign.
  negate-InRange :
      (n : ℕ) (text rest : Bytes)
      → t.is_signed ≡ true
      → from_chars (2 ^ (t.bits - 1)) text ≡ some (n, rest)
      → InRange t (negate n)
  unfolding lowest greatest
  negate-InRange n text rest s e = ground (arith, from_chars-le (2 ^ (t.bits - 1)) n text rest e)

  pos-InRange :
      (n : ℕ) (text rest : Bytes)
      → from_chars (greatest t) text ≡ some (n, rest)
      → InRange t (pos n)
  pos-InRange n text rest e =
      (lowest-le n, ground (arith, from_chars-le (greatest t) n text rest e))

  from_chars_int-InRange :
      (text rest : Bytes) (v : ℤ) → from_chars_int t text ≡ some (v, rest) → InRange t v
  unfolding from_chars_int
  from_chars_int-InRange [] rest v e = ground arith
  from_chars_int-InRange (c ∷ text) rest v e = elim (Bool-cases (t.is_signed && c == b'-')) [
    | inl m ↦ elim (Option-cases (from_chars (2 ^ (t.bits - 1)) text)) [
      | inl f ↦ absurd (ground (arith, f))
      | inr ((n, left), f) ↦
          let w : v ≡ negate n = ground (arith, f) in
          subst (InRange t) (sym w) (negate-InRange n text left (ground arith) f)
    ]
    | inr m ↦ elim (Option-cases (from_chars (greatest t) (c ∷ text))) [
      | inl f ↦ absurd (ground (arith, f))
      | inr ((n, left), f) ↦
          let w : v ≡ pos n = ground (arith, f) in
          subst (InRange t) (sym w) (pos-InRange n (c ∷ text) left f)
    ]
  ]

  decode_text-InRange : (text : Bytes) (v : ℤ) → decode_text ops t text ≡ some v → InRange t v
  unfolding decode_text
  decode_text-InRange text v e = elim (Option-cases (from_chars_int t text)) [
    | inl f ↦ absurd (ground (arith, f))
    | inr ((w, rest), f) ↦ ground (arith, f, from_chars_int-InRange text rest w f)
  ]

  decode_wide-InRange : (j : Json D) (v : ℤ) → decode_wide ops t j ≡ some v → InRange t v
  unfolding decode_wide
  decode_wide-InRange (string text) v e = decode_text-InRange text v e
  decode_wide-InRange null v e = ground arith
  decode_wide-InRange (boolean b) v e = ground arith
  decode_wide-InRange (int64 w) v e = ground arith
  decode_wide-InRange (uint64 n) v e = ground arith
  decode_wide-InRange (double d) v e = ground arith
  decode_wide-InRange (array xs) v e = ground arith
  decode_wide-InRange (object ms) v e = ground arith

  -- Whatever JSON is decoded as an integer, the result is in the range of its type: no text and no
  -- number wraps around. `exact` is what C++ says of the conversion of a `double`.
  pub decode_integer-InRange :
      (j : Json D) (v : ℤ) (c c' : CodecContext)
      → decode_integer ops t j c ≡ (ok v, c')
      → InRange t v
  unfolding decode_integer
  decode_integer-InRange j v c c' e = elim (Bool-cases (t.bits == 64)) [
    | inl w ↦ decode_wide-InRange j v (matched (decode_wide ops t j) (rw w at e))
    | inr w ↦ decode_number-InRange j v (matched (decode_number ops t j) (rw w at e))
  ]
    where
      matched : (o : Option ℤ) → or_mismatch o c ≡ (ok v, c') → o ≡ some v
      matched none e = ground arith
      matched (some w) e = ground arith
