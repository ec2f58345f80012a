-- ===== src/Codec/Integers.antt =====
-- `JsonConversion` of include/rtt/http/typed_codec.hpp: the interface, and its instances for
-- integers and Booleans. What the code asks of a `double` is a parameter.
use rtt_http.Common.{
  ℕ, suc, ◌+◌, ◌-◌, ◌^◌, Bool, true, false, ◌||◌, not, Option, none, some, [], ◌∷◌, Bytes, ltb,
  ◌==◌, if◌then◌else◌, length, bytes_eq, ◌≡◌,
}
use rtt_http.Common.Int.{ℤ, pos, negsuc, pos_part, negate, ◌≤ℤ◌, ltb_ℤ}
use rtt_http.Common.Decimal.{to_chars, from_chars}
use rtt_http.Codec.{
  Json, boolean, int64, uint64, double, string, Conversion, type_mismatch, ◌>>◌, return, fail,
  account, or_mismatch,
}

-- `JsonConversion<T>`: `encode` returns the value that it writes, `decode` the staged value.
pub record JsonConversion (D T : Type 0) : Type 0 where
  pub encode : T → Conversion (Json D)
  pub decode : Json D → Conversion T

-- `isfinite`, `trunc(d) == d`, the comparisons with the limits of a type, and `static_cast`.
pub record DoubleOps (D : Type 0) : Type 0 where
  pub is_finite : D → Bool
  pub is_integral : D → Bool
  pub less_than : D → ℤ → Bool
  pub greater_than : D → ℤ → Bool
  pub to_integer : D → ℤ

-- A value that passed the tests is cast to an integer between the limits.
pub record IsExact {D : Type 0} (ops : DoubleOps D) : Type 0 where
  pub between :
      (d : D) (low high : ℤ)
      → ops.is_finite d ≡ true
      → ops.is_integral d ≡ true
      → ops.less_than d low ≡ false
      → ops.greater_than d high ≡ false
      → (low ≤ℤ ops.to_integer d) × (ops.to_integer d ≤ℤ high)

-- An integral type: `sizeof(T) * 8` and `is_signed_v<T>`.
pub record IntType : Type 0 where
  pub bits : ℕ
  pub is_signed : Bool

unfoldable pub lowest : IntType → ℤ
lowest t = if t.is_signed then negate (2 ^ (t.bits - 1)) else pos 0

unfoldable pub greatest : IntType → ℕ
greatest t = if t.is_signed then 2 ^ (t.bits - 1) - 1 else 2 ^ t.bits - 1

unfoldable pub to_chars_int : ℤ → Bytes
to_chars_int (pos n) = to_chars n
to_chars_int (negsuc n) = b'-' ∷ to_chars (suc n)

unfoldable pub from_chars_int : IntType → Bytes → Option (ℤ × Bytes)
from_chars_int t [] = none
from_chars_int t (c ∷ text) =
    if t.is_signed
    then (if c == b'-'
        then elim (from_chars (2 ^ (t.bits - 1)) text) [
          | none ↦ none
          | some (n, rest) ↦ some (negate n, rest)
        ]
        else elim (from_chars (greatest t) (c ∷ text)) [
          | none ↦ none
          | some (n, rest) ↦ some (pos n, rest)
        ])
    else elim (from_chars (greatest t) (c ∷ text)) [
      | none ↦ none
      | some (n, rest) ↦ some (pos n, rest)
    ]

module _ {D : Type 0} (ops : DoubleOps D) (t : IntType) where
  unfoldable pub integer_json : ℤ → Json D
  integer_json v =
      if t.bits == 64
      then string (to_chars_int v)
      else if t.is_signed
      then int64 v
      else uint64 (pos_part v)

  unfoldable pub encode_integer : ℤ → Conversion (Json D)
  unfolding integer_json
  encode_integer v = do
    account (length (to_chars_int v) + (if t.bits == 64 then 2 else 0))
    return (integer_json v)

  -- The 64-bit types: the whole text, and in the form that `to_chars` gives it.
  unfoldable pub decode_text : Bytes → Option ℤ
  decode_text text = elim (from_chars_int t text) [
    | none ↦ none
    | some (staged, rest) ↦
        if bytes_eq rest []
        then (if bytes_eq (to_chars_int staged) text then some staged else none)
        else none
  ]

  -- The smaller types.
  unfoldable pub decode_number : Json D → Option ℤ
  unfolding lowest greatest
  decode_number (int64 v) =
      if t.is_signed
      then (if ltb_ℤ v (lowest t) || ltb_ℤ (pos (greatest t)) v then none else some v)
      else (if ltb_ℤ v (pos 0) || ltb_ℤ (pos (greatest t)) v then none else some v)
  decode_number (uint64 n) = if ltb (greatest t) n then none else some (pos n)
  decode_number (double d) =
      if not (ops.is_finite d)
        || (not (ops.is_integral d)
            || (ops.less_than d (lowest t) || ops.greater_than d (pos (greatest t))))
      then none
      else some (ops.to_integer d)
  decode_number _ = none

  unfoldable pub decode_wide : Json D → Option ℤ
  unfolding decode_text
  decode_wide (string text) = decode_text text
  decode_wide _ = none

  unfoldable pub decode_integer : Json D → Conversion ℤ
  unfolding decode_number decode_wide
  decode_integer input =
      or_mismatch (if t.bits == 64 then decode_wide input else decode_number input)

  abbrev pub integer_conversion : JsonConversion D ℤ
  integer_conversion = record { encode = encode_integer; decode = decode_integer }

module _ {D : Type 0} where
  unfoldable pub encode_bool : Bool → Conversion (Json D)
  encode_bool input = do account (if input then 4 else 5); return (boolean input)

  unfoldable pub decode_bool : Json D → Conversion Bool
  decode_bool (boolean b) = return b
  decode_bool _ = fail type_mismatch

  abbrev pub bool_conversion : JsonConversion D Bool
  bool_conversion = record { encode = encode_bool; decode = decode_bool }
