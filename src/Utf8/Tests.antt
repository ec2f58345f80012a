-- ===== src/Utf8/Tests.antt =====
-- `validUtf8` on concrete texts.
use rtt_http.Common.{List, [], ◌∷◌, ◌≡◌, ◌↔◌, true, false, refl, All, ℕ}
use rtt_http.Utf8.{valid_utf8}
use rtt_http.Utf8.Scalars.{IsScalar, encode_all}
use rtt_http.Utf8.Laws.{valid_utf8_iff}

surrogate_test : valid_utf8 (0xed ∷ 0xa0 ∷ 0x80 ∷ []) ≡ false
unfolding valid_utf8
surrogate_test = refl

overlong_test : valid_utf8 (0xc0 ∷ 0xaf ∷ []) ≡ false
unfolding valid_utf8
overlong_test = refl

valid_utf8_iff_example :
    (valid_utf8 (0x41 ∷ 0xc3 ∷ 0xa9 ∷ []) ≡ true)
    ↔ ((cs : List ℕ) × All IsScalar cs × (0x41 ∷ 0xc3 ∷ 0xa9 ∷ [] ≡ encode_all cs))
valid_utf8_iff_example = valid_utf8_iff (0x41 ∷ 0xc3 ∷ 0xa9 ∷ [])
