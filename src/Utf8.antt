-- ===== src/Utf8.antt =====
-- `validUtf8` of src/codec_context.cpp. A text is the list of its bytes, and a position in it is
-- what is left to read. Masks and shifts are written as arithmetic: `x & (2 ^ k - 1)` is
-- `x % 2 ^ k`, `(x & 0xc0) == 0x80` is `x / 64 == 2` for a byte, and `(value << 6) | low` is
-- `value * 64 + low`, whose lowest six bits are free.
pub mod Scalars
pub mod Laws
mod Tests
use rtt_http.Common.{
  ℕ, zero, suc, ◌+◌, ◌*◌, ◌/◌, ◌%◌, Bool, true, false, ◌&&◌, ◌||◌, Option, none, some, [], ◌∷◌,
  Bytes, ltb, leb, ◌==◌, if◌then◌else◌, length, codes, ◌≡◌, refl, ◌>>=◌,
}

-- What a lead byte announces: the bits it gives, the bytes that follow, the least value.
pub record Lead : Type 0 where
  pub value : ℕ
  pub count : ℕ
  pub minimum : ℕ

lead : ℕ → Option Lead
lead first =
    if leb 0xc2 first && leb first 0xdf
    then some (record { value = first % 32; count = 1; minimum = 0x80 })
    else if leb 0xe0 first && leb first 0xef
    then some (record { value = first % 16; count = 2; minimum = 0x800 })
    else if leb 0xf0 first && leb first 0xf4
    then some (record { value = first % 8; count = 3; minimum = 0x10000 })
    else none

-- `while (count--)`: the value and the unread bytes, or a byte that does not continue.
continuation : ℕ → ℕ → Bytes → Option (ℕ × Bytes)
continuation zero value text = some (value, text)
continuation (suc count) value [] = none
continuation (suc count) value (next ∷ text) =
    if next / 64 == 2 then continuation count (value * 64 + next % 64) text else none

in_range : ℕ → ℕ → Bool
in_range minimum value =
    if ltb value minimum || (ltb 0x10ffff value || (leb 0xd800 value && leb value 0xdfff))
    then false
    else true

-- What follows a lead byte from 0x80 on: the text behind the sequence, if the sequence is valid.
sequence : ℕ → Bytes → Option Bytes
sequence first text = do
  l ← lead first
  (value, rest) ← if ltb (length text) l.count then none else continuation l.count l.value text
  if in_range l.minimum value then some rest else none

-- The loop; each round reads at least one byte, so the length of the text is fuel enough.
scan : ℕ → Bytes → Bool
scan fuel [] = true
scan zero (first ∷ text) = false
scan (suc fuel) (first ∷ text) = elim (ltb first 0x80) [
  | true ↦ scan fuel text
  | false ↦ elim (sequence first text) [ none ↦ false | some rest ↦ scan fuel rest ]
]

unfoldable pub valid_utf8 : Bytes → Bool
unfolding scan sequence lead continuation in_range
valid_utf8 text = scan (length text) text
