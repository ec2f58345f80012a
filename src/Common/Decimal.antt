-- ===== src/Common/Decimal.antt =====
-- Decimal text of numbers, as `std::to_chars` and `std::to_string` write it and as
-- `std::from_chars` reads it, for unsigned values.
use Prim.Native.Nat.{ℕ, zero, suc, ◌+◌, ◌-◌, ◌*◌, ◌/◌, ◌%◌, ◌≤◌, ◌<◌}
use mathlib.Core.Path.{◌≡◌, refl, ◌∙◌}
use mathlib.Core.Logic.{inl, inr}
use mathlib.Core.Bool.{Bool, ◌&&◌}
use mathlib.Core.Option.{Option, none, some}
use mathlib.Core.List.{[], ◌∷◌}
use native.Mathlib.Omega.{arith}
use rtt_http.Common.Tests.{ltb, leb, if◌then◌else◌, Bool-cases}
use rtt_http.Common.Lists.{Bytes, All}

abbrev pub IsDigit : ℕ → Type 0
IsDigit c = (b'0' ≤ c) × (c ≤ b'9')

unfoldable pub is_digit : ℕ → Bool
is_digit c = leb b'0' c && leb c b'9'

-- The digits of `n` in front of `out`; the value itself is fuel enough.
digits : ℕ → ℕ → Bytes → Bytes
digits zero n out = out
digits (suc fuel) n out =
    let more = digits fuel (n / 10) ((b'0' + n % 10) ∷ out) in
    if ltb n 10 then (b'0' + n) ∷ out else more

unfoldable pub to_chars : ℕ → Bytes
unfolding digits
to_chars n = digits (suc n) n []

-- The longest prefix of digits: its value behind `n`, and what follows it.
unfoldable pub read_digits : ℕ → Bytes → ℕ × Bytes
unfolding is_digit
read_digits n [] = (n, [])
read_digits n (c ∷ text) =
    let more = read_digits (n * 10 + (c - b'0')) text in if is_digit c then more else (n, c ∷ text)

-- `from_chars` into an unsigned type whose greatest value is `greatest`: the value and the unread
-- text, `none` for an error code (no digit, or out of range).
unfoldable pub from_chars : ℕ → Bytes → Option (ℕ × Bytes)
unfolding is_digit
from_chars greatest [] = none
from_chars greatest (c ∷ text) =
    let (n, rest) = read_digits 0 (c ∷ text) in
    if is_digit c then (if leb n greatest then some (n, rest) else none) else none

read-digits :
    (fuel n : ℕ) (out : Bytes) → n < fuel → read_digits 0 (digits fuel n out) ≡ read_digits n out
unfolding digits read_digits is_digit
read-digits zero n out h = absurd (omega arith)
read-digits (suc fuel) n out h = ground (arith, read-digits fuel (n / 10) ((b'0' + n % 10) ∷ out))

-- What is written starts with a digit.
digits_start :
    (fuel n : ℕ) (out : Bytes)
    → n < fuel
    → (c : ℕ) × (rest : Bytes) × (digits fuel n out ≡ c ∷ rest) × IsDigit c
unfolding digits
digits_start zero n out h = absurd (omega arith)
digits_start (suc fuel) n out h = elim (Bool-cases (ltb n 10)) [
  | inl small ↦ (b'0' + n, out, rw small, ground arith)
  | inr big ↦
      let (c, rest, e, d) = digits_start fuel (n / 10) ((b'0' + n % 10) ∷ out) (ground arith) in
      (c, rest, rw big e, d)
]

from_chars-read :
    (greatest n c : ℕ) (text rest : Bytes)
    → IsDigit c
    → read_digits 0 (c ∷ text) ≡ (n, rest)
    → n ≤ greatest
    → from_chars greatest (c ∷ text) ≡ some (n, rest)
unfolding from_chars
from_chars-read greatest n c text rest d e h = ground arith

pub to_chars_start : (n : ℕ) → (c : ℕ) × (rest : Bytes) × (to_chars n ≡ c ∷ rest) × IsDigit c
unfolding to_chars
to_chars_start n = digits_start (suc n) n [] (omega arith)

read_digits-nil : (n : ℕ) → read_digits n [] ≡ (n, [])
unfolding read_digits
read_digits-nil n = refl

digits-All : (fuel n : ℕ) (out : Bytes) → All IsDigit out → All IsDigit (digits fuel n out)
unfolding digits
digits-All zero n out h = h
digits-All (suc fuel) n out h = ground (arith, digits-All fuel (n / 10) ((b'0' + n % 10) ∷ out))

pub to_chars-All : (n : ℕ) → All IsDigit (to_chars n)
unfolding to_chars
to_chars-All n = digits-All (suc n) n [] tt

-- Every number in range is read back from its text, with nothing left.
pub from_chars-to_chars :
    (greatest n : ℕ) → n ≤ greatest → from_chars greatest (to_chars n) ≡ some (n, [])
unfolding to_chars
from_chars-to_chars greatest n h =
    let (c, rest, e, d) = digits_start (suc n) n [] (omega arith) in
    rw e (
      from_chars-read greatest n c rest [] d
        (rw (← e) (read-digits (suc n) n [] (omega arith) ∙ read_digits-nil n)) h)
