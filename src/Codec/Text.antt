-- ===== src/Codec/Text.antt =====
-- `accountJsonString` of src/type_protocol.cpp, and the text in quotes that it counts.
use rtt_http.Common.{
  ℕ, ◌+◌, ◌-◌, ◌/◌, ◌%◌, ◌≤◌, ◌<◌, true, false, ◌||◌, [], ◌∷◌, ◌++◌, Bytes, ltb, ◌==◌,
  if◌then◌else◌, length, ◌≡◌, arith, length-append, inl, inr, Bool-cases, ◌⊎◌, ap, ◌∙◌, dec_le,
}
use rtt_http.Utf8.{valid_utf8}
use rtt_http.Codec.{
  CodecContext, Conversion, ok, err, invalid_utf8, document_limit, ◌>>◌, return, fail, account,
  then_ok, then_err,
}

pub account_fits :
    (bytes : ℕ) (c : CodecContext)
    → bytes ≤ c.remaining
    → account bytes c ≡ (ok tt, record c { remaining = c.remaining - bytes })
unfolding account
account_fits bytes c h = ground arith

pub account_exceeds :
    (bytes : ℕ) (c : CodecContext) → c.remaining < bytes → account bytes c ≡ (err document_limit, c)
unfolding account
account_exceeds bytes c h = ground arith

-- What a character takes between the quotes.
unfoldable pub char_size : ℕ → ℕ
char_size c = if c == b'"' || c == b'\\' then 2 else if ltb c 0x20 then 6 else 1

unfoldable pub account_chars : Bytes → Conversion (Unit {0})
account_chars [] = return tt
account_chars (c ∷ text) = do account (char_size c); account_chars text

unfoldable pub account_json_string : Bytes → Conversion (Unit {0})
unfolding account_chars char_size
account_json_string text =
    if valid_utf8 text then (do account 2; account_chars text) else fail invalid_utf8

-- The text in quotes as the budget counts it: quotes and backslashes behind a backslash, every control
-- character as `\u00` and two digits, also where the serializer writes a shorter escape (`\n`).
hex_digit : ℕ → ℕ
hex_digit i = if ltb i 10 then b'0' + i else b'a' + (i - 10)

quoted_char : ℕ → Bytes
quoted_char c =
    if c == b'"' || c == b'\\'
    then b'\\' ∷ c ∷ []
    else if ltb c 0x20
    then b'\\' ∷ b'u' ∷ b'0' ∷ b'0' ∷ hex_digit (c / 16) ∷ hex_digit (c % 16) ∷ []
    else c ∷ []

quoted_chars : Bytes → Bytes
quoted_chars [] = []
quoted_chars (c ∷ text) = quoted_char c ++ quoted_chars text

unfoldable pub quoted : Bytes → Bytes
unfolding quoted_chars quoted_char hex_digit
quoted text = b'"' ∷ (quoted_chars text ++ b'"' ∷ [])

length-quoted_char : (c : ℕ) → length (quoted_char c) ≡ char_size c
unfolding quoted_char char_size
length-quoted_char c = ground arith

account_chars_fits :
    (text : Bytes) (c : CodecContext)
    → length (quoted_chars text) ≤ c.remaining
    → account_chars text c
      ≡ (ok tt, record c { remaining = c.remaining - length (quoted_chars text) })
unfolding account_chars quoted_chars
account_chars_fits [] c h = ap (λ t. (ok tt, record c { remaining = t })) (omega arith)
account_chars_fits (d ∷ text) c h =
    let e = length-append (quoted_char d) (quoted_chars text) in
    let size = length-quoted_char d in
    let c' : CodecContext = record c { remaining = c.remaining - char_size d } in
    then_ok (account (char_size d)) (account_chars text) c
      (account_fits (char_size d) c (omega arith))
    ∙ account_chars_fits text c' (omega arith)
    ∙ ap (λ t. (ok tt, record c { remaining = t })) (omega arith)

account_chars_exceeds :
    (text : Bytes) (c : CodecContext)
    → c.remaining < length (quoted_chars text)
    → (account_chars text c).0 ≡ err document_limit
unfolding account_chars quoted_chars
account_chars_exceeds [] c h = absurd (omega arith)
account_chars_exceeds (d ∷ text) c h =
    let e = length-append (quoted_char d) (quoted_chars text) in
    let size = length-quoted_char d in
    elim (dec_le (char_size d) c.remaining) [
      | yes fits ↦
          let c' : CodecContext = record c { remaining = c.remaining - char_size d } in
          ap (λ p. p.0)
            (then_ok (account (char_size d)) (account_chars text) c
              (account_fits (char_size d) c fits))
          ∙ account_chars_exceeds text c' (omega arith)
      | no exceeds ↦
          ap (λ p. p.0)
            (then_err (account (char_size d)) (account_chars text) c
              (account_exceeds (char_size d) c (omega arith)))
    ]

length-quoted : (text : Bytes) → length (quoted text) ≡ length (quoted_chars text) + 2
unfolding quoted
length-quoted text = omega (arith, length-append (quoted_chars text) (b'"' ∷ []))

account_valid :
    (text : Bytes) (c : CodecContext)
    → valid_utf8 text ≡ true
    → account_json_string text c ≡ (account 2 >> account_chars text) c
unfolding account_json_string
account_valid text c e = rw e

pub account_json_string_fits :
    (text : Bytes) (c : CodecContext)
    → valid_utf8 text ≡ true
    → length (quoted text) ≤ c.remaining
    → account_json_string text c
      ≡ (ok tt, record c { remaining = c.remaining - length (quoted text) })
account_json_string_fits text c good fits =
    let size = length-quoted text in
    let c' : CodecContext = record c { remaining = c.remaining - 2 } in
    account_valid text c good
    ∙ then_ok (account 2) (account_chars text) c (account_fits 2 c (omega arith))
    ∙ account_chars_fits text c' (omega arith)
    ∙ ap (λ t. (ok tt, record c { remaining = t })) (omega arith)

account_json_string_exceeds :
    (text : Bytes) (c : CodecContext)
    → valid_utf8 text ≡ true
    → c.remaining < length (quoted text)
    → (account_json_string text c).0 ≡ err document_limit
account_json_string_exceeds text c good exceeds =
    let size = length-quoted text in
    ap (λ p. p.0) (account_valid text c good) ∙ elim (dec_le 2 c.remaining) [
      | yes two ↦
          let c' : CodecContext = record c { remaining = c.remaining - 2 } in
          ap (λ p. p.0) (then_ok (account 2) (account_chars text) c (account_fits 2 c two))
          ∙ account_chars_exceeds text c' (omega arith)
      | no none_left ↦
          ap (λ p. p.0)
            (then_err (account 2) (account_chars text) c (account_exceeds 2 c (omega arith)))
    ]

-- `accountJsonString` takes from the budget the length of the text in quotes with every control
-- character spelled as the six bytes `\u00` and two digits, when the text is valid UTF-8 and the
-- budget holds it; otherwise it reports invalid UTF-8 (with the budget untouched), or the document
-- limit. The serializer may write a control character shorter.
pub account_json_string_lem :
    (text : Bytes) (c : CodecContext)
    → ((valid_utf8 text ≡ false) × (account_json_string text c ≡ (err invalid_utf8, c)))
      ⊎ ((valid_utf8 text ≡ true)
          × (length (quoted text) ≤ c.remaining)
          × (account_json_string text c
              ≡ (ok tt, record c { remaining = c.remaining - length (quoted text) })))
      ⊎ ((valid_utf8 text ≡ true)
          × (c.remaining < length (quoted text))
          × ((account_json_string text c).0 ≡ err document_limit))
account_json_string_lem text c = elim (Bool-cases (valid_utf8 text)) [
  | inr bad ↦ inl (bad, unfold account_json_string in rw bad)
  | inl good ↦ elim (dec_le (length (quoted text)) c.remaining) [
    | yes fits ↦ inr (inl (good, fits, account_json_string_fits text c good fits))
    | no exceeds ↦
        let less : c.remaining < length (quoted text) = omega arith in
        inr (inr (good, less, account_json_string_exceeds text c good less))
  ]
]
