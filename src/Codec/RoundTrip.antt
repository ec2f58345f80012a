-- ===== src/Codec/RoundTrip.antt =====
-- Encoding and decoding in include/rtt/http/typed_codec.hpp, one behind the other: the interface,
-- integers and Booleans.
use rtt_http.Common.{
  ℕ, suc, ◌+◌, ◌-◌, ◌^◌, ◌≤◌, true, false, [], ◌∷◌, ◌==◌, if◌then◌else◌, length, ◌≡◌, arith,
  Bool-cases, inl, inr, some, bytes_eq, bytes_eq_refl,
}
use rtt_http.Common.Int.{ℤ, pos, negsuc, pos_part, ◌≤ℤ◌}
use rtt_http.Common.Decimal.{to_chars, from_chars, from_chars-to_chars, to_chars_start}
use rtt_http.Codec.{Json, boolean, int64, uint64, CodecContext, ok, account, then_return_inv}
use rtt_http.Codec.Integers.{
  JsonConversion, DoubleOps, IntType, encode_integer, decode_integer, encode_bool, decode_bool,
  integer_conversion, bool_conversion, integer_json, decode_wide, decode_number, decode_text,
  to_chars_int, from_chars_int, lowest, greatest,
}

-- As much budget, at the same depth and under the same limits.
pub record Covers (c d : CodecContext) : Type 0 where
  pub limits : d.limits ≡ c.limits
  pub depth : d.depth ≡ c.depth
  pub remaining : c.remaining ≤ d.remaining

abbrev pub Decodes :
    {D T : Type 0} → JsonConversion D T → Json D → T → CodecContext → CodecContext → Type 0
Decodes conv j v c' d = (d' : CodecContext) × (conv.decode j d ≡ (ok v, d')) × Covers c' d'

pub record RoundTrips {D T : Type 0} (conv : JsonConversion D T) (P : T → Type 0) : Type 0 where
  pub back :
      (v : T) (c d : CodecContext) (j : Json D) (c' : CodecContext)
      → P v
      → conv.encode v c ≡ (ok j, c')
      → Covers c d
      → Decodes conv j v c' d

abbrev pub InRange : IntType → ℤ → Type 0
InRange t v = (lowest t ≤ℤ v) × (v ≤ℤ pos (greatest t))

from_chars_start :
    (t : IntType) (n : ℕ) → n ≤ greatest t → from_chars_int t (to_chars n) ≡ some (pos n, [])
from_chars_start t n h =
    let (c, rest, e, digit) = to_chars_start n in
    let r : from_chars (greatest t) (c ∷ rest) ≡ some (n, []) =
      rw (← e) (from_chars-to_chars (greatest t) n h) in
    rw e (unfold from_chars_int in ground arith)

from_chars_minus :
    (t : IntType) (n : ℕ)
    → t.is_signed ≡ true
    → suc n ≤ 2 ^ (t.bits - 1)
    → from_chars_int t (b'-' ∷ to_chars (suc n)) ≡ some (negsuc n, [])
unfolding from_chars_int
from_chars_minus t n s h =
    let r : from_chars (2 ^ (t.bits - 1)) (to_chars (suc n)) ≡ some (suc n, []) =
      from_chars-to_chars (2 ^ (t.bits - 1)) (suc n) h in
    rw (s, r) (ground arith)

from_chars_int-to_chars_int :
    (t : IntType) (v : ℤ) → InRange t v → from_chars_int t (to_chars_int v) ≡ some (v, [])
unfolding to_chars_int
from_chars_int-to_chars_int t (pos n) (l, g) = from_chars_start t n (omega arith)
from_chars_int-to_chars_int t (negsuc n) (l, g) = elim (Bool-cases t.is_signed) [
  | inl s ↦ from_chars_minus t n s (unfold lowest in ground arith)
  | inr u ↦ absurd (unfold lowest in ground arith)
]

module _ {D : Type 0} (ops : DoubleOps D) (t : IntType) (v : ℤ) (h : InRange t v) where
  decode_text_canonical : decode_text ops t (to_chars_int v) ≡ some v
  unfolding decode_text bytes_eq
  decode_text_canonical =
      rw (from_chars_int-to_chars_int t v h, decode_text) (rw (bytes_eq_refl (to_chars_int v)))

  decode_signed : t.is_signed ≡ true → decode_number ops t (int64 v) ≡ some v
  unfolding decode_number
  decode_signed s = ground arith

  decode_unsigned : t.is_signed ≡ false → decode_number ops t (uint64 (pos_part v)) ≡ some v
  unfolding decode_number lowest
  decode_unsigned s = ground arith

  decode_json :
      (if t.bits == 64
        then decode_wide ops t (integer_json ops t v)
        else decode_number ops t (integer_json ops t v))
      ≡ some v
  unfolding integer_json decode_wide
  decode_json = elim (Bool-cases (t.bits == 64)) [
    | inl wide ↦ rw wide decode_text_canonical
    | inr narrow ↦ elim (Bool-cases t.is_signed) [
      | inl s ↦ simp (narrow, s) (decode_signed s)
      | inr u ↦ simp (narrow, u) (decode_unsigned u)
    ]
  ]

account-Covers :
    (bytes : ℕ) (c c' d : CodecContext) → account bytes c ≡ (ok tt, c') → Covers c d → Covers c' d
unfolding account
account-Covers bytes c c' d e h = ground arith

pub integer-RoundTrips :
    {D : Type 0} (ops : DoubleOps D) (t : IntType)
    → RoundTrips (integer_conversion ops t) (InRange t)
unfolding encode_integer decode_integer
integer-RoundTrips ops t = record {
  back = λ v c d j c' h e covers.
      let n = length (to_chars_int v) + (if t.bits == 64 then 2 else 0) in
      let (ej, paid) = then_return_inv (account n) (integer_json ops t v) c e in
      (d, rw (ej, decode_json ops t v h), account-Covers n c c' d paid covers);
}

pub bool-RoundTrips : {D : Type 0} → RoundTrips (bool_conversion {D = D}) (λ b. Unit {0})
unfolding encode_bool decode_bool
bool-RoundTrips = record {
  back = λ v c d j c' h e covers.
      let n : ℕ = if v then 4 else 5 in
      let (ej, paid) = then_return_inv (account n) (boolean v) c e in
      (d, rw (ej, decode_bool), account-Covers n c c' d paid covers);
}
