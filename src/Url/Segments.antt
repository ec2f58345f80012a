-- ===== src/Url/Segments.antt =====
-- One segment of a path: `encodeSegment` and the decoding loop of `canonicalRequestPath` of
-- src/object_model.cpp.
use rtt_http.Common.{
  ℕ_discrete, false, ℕ, zero, suc, ◌+◌, ◌/◌, ◌%◌, ◌<◌, Bool, true, none, some, [], ◌∷◌, ◌++◌, Bytes,
  ltb, ◌==◌, if◌then◌else◌, ◌>>=◌, ◌≡◌, ◌≢◌, refl, ap, arith, All, IsByte, All-append,
}
use rtt_http.Url.{
  unreserved, hex, digit, encode_char, encode_segment, plain_allowed, escaped, decode_segment,
}

-- Two tables agree on their first entries.
agrees : (f g : ℕ → ℕ) → ℕ → Bool
agrees f g zero = true
agrees f g (suc size) = if f size == g size then agrees f g size else false

agrees_at : (f g : ℕ → ℕ) (size i : ℕ) → i < size → agrees f g size ≡ true → f i ≡ g i
unfolding agrees
agrees_at f g zero i below h = absurd (omega arith)
agrees_at f g (suc size) i below h = elim (ℕ_discrete i size) [
  | yes e ↦ rw e (ground arith)
  | no ne ↦ agrees_at f g size i (omega arith) (ground arith)
]

digit_formula : ℕ → ℕ
digit_formula i = if ltb i 10 then i + 48 else i + 55

digit_lem : (i : ℕ) → i < 16 → digit i ≡ (if ltb i 10 then i + 48 else i + 55)
unfolding digit digit_formula agrees
digit_lem i h = agrees_at digit digit_formula 16 i h refl

hex-digit : (i : ℕ) → i < 16 → hex (digit i) ≡ some i
unfolding hex
hex-digit i h = rw (digit_lem i h) (ground arith)

hex-lt : (c : ℕ) {v : ℕ} → hex c ≡ some v → v < 16
unfolding hex
hex-lt c h = ground arith

escaped-digits : (c : ℕ) → IsByte c → escaped (digit (c / 16)) (digit (c % 16)) ≡ some c
unfolding escaped
escaped-digits c h =
    rw (hex-digit (c / 16) (omega arith), hex-digit (c % 16) (omega arith))
      (ap (λ (t : ℕ). some t) (omega arith))

pub escaped-IsByte : (a b : ℕ) {v : ℕ} → escaped a b ≡ some v → IsByte v
unfolding escaped
escaped-IsByte a b h = grind (arith, hex-lt a, hex-lt b)

-- The two steps of the decoding loop.
pub decode_plain :
    (c : ℕ) (text : Bytes)
    → c ≢ b'%'
    → decode_segment (c ∷ text)
      ≡ (if plain_allowed c then (decode_segment text >>= λ s. some (c ∷ s)) else none)
unfolding decode_segment
decode_plain c [] h = ground arith
decode_plain c (a ∷ []) h = ground arith
decode_plain c (a ∷ b ∷ rest) h = ground arith

pub decode_escape :
    (a b : ℕ) (rest : Bytes)
    → decode_segment (b'%' ∷ a ∷ b ∷ rest)
      ≡ (escaped a b >>= λ v. decode_segment rest >>= λ s. some (v ∷ s))
unfolding decode_segment
decode_escape a b rest = refl

unreserved_plain : (c : ℕ) → unreserved c ≡ true → (c ≢ b'%') × (plain_allowed c ≡ true)
unfolding unreserved plain_allowed
unreserved_plain c h = ground arith

decode-encode_char :
    (c : ℕ) (text : Bytes)
    → IsByte c
    → decode_segment (encode_char c ++ text) ≡ (decode_segment text >>= λ s. some (c ∷ s))
unfolding encode_char
decode-encode_char c text h = ground (
  arith,
  unreserved_plain c,
  decode_plain c text,
  decode_escape (digit (c / 16)) (digit (c % 16)) text,
  escaped-digits c h,
)

-- Decoding undoes encoding, whatever bytes the name holds.
pub decode-encode_segment :
    (name : Bytes) → All IsByte name → decode_segment (encode_segment name) ≡ some name
unfolding encode_segment
decode-encode_segment [] h = unfold decode_segment in refl
decode-encode_segment (c ∷ name) (hc, hs) =
    rw (decode-encode_char c (encode_segment name) hc, decode-encode_segment name hs)

-- A byte that an encoded name may hold: an unreserved character, a percent sign.
abbrev pub IsSafe : ℕ → Type 0
IsSafe c = (c ≢ b'/') × (c ≢ b'?') × (c ≢ b'#')

digit-IsSafe : (i : ℕ) → i < 16 → IsSafe (digit i)
digit-IsSafe i h = rw (digit_lem i h) (ground arith)

encode_char-IsSafe : (c : ℕ) → IsByte c → All IsSafe (encode_char c)
unfolding encode_char unreserved
encode_char-IsSafe c h = ground (arith, digit-IsSafe (c / 16), digit-IsSafe (c % 16))

pub encode_segment-IsSafe : (name : Bytes) → All IsByte name → All IsSafe (encode_segment name)
unfolding encode_segment
encode_segment-IsSafe [] h = tt
encode_segment-IsSafe (c ∷ name) (hc, hs) =
    All-append IsSafe (encode_char c) _ (encode_char-IsSafe c hc) (encode_segment-IsSafe name hs)

digit-IsByte : (i : ℕ) → i < 16 → IsByte (digit i)
digit-IsByte i h = rw (digit_lem i h) (ground arith)

encode_char-IsByte : (c : ℕ) → IsByte c → All IsByte (encode_char c)
unfolding encode_char
encode_char-IsByte c h = ground (arith, digit-IsByte (c / 16), digit-IsByte (c % 16))

pub encode_segment-IsByte : (name : Bytes) → All IsByte name → All IsByte (encode_segment name)
unfolding encode_segment
encode_segment-IsByte [] h = tt
encode_segment-IsByte (c ∷ name) (hc, hs) =
    All-append IsByte (encode_char c) _ (encode_char-IsByte c hc) (encode_segment-IsByte name hs)
