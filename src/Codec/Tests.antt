-- ===== src/Codec/Tests.antt =====
-- The codecs on concrete values. `ℕ` stands for the doubles.
use rtt_http.Common.{
  ℕ, ◌-◌, ◌≤◌, ◌<◌, ◌⊎◌, Bool, true, false, not, some, leb, if◌then◌else◌, bytes_eq, List, [], ◌∷◌,
  Bytes, codes, ◌≡◌, refl, arith, length,
}
use rtt_http.Common.Int.{pos, negsuc, ltb_ℤ}
use rtt_http.Common.Decimal.{to_chars}
use rtt_http.Utf8.{valid_utf8}
use rtt_http.Codec.{
  Json, nil, cons, string, array, uint64, null, object, member, end, CodecContext, ok, err,
  document_limit, allocation_limit, internal_error, invalid_utf8, type_mismatch, account, enter,
  leave, scope,
}
use rtt_http.Codec.Text.{account_json_string, quoted, account_json_string_lem}
use rtt_http.Codec.Integers.{
  DoubleOps, IsExact, IntType, encode_integer, decode_integer, to_chars_int, lowest, greatest,
}
use rtt_http.Codec.Containers.{string_conversion, encode_vector, decode_vector, encode_string}
use rtt_http.Codec.Balance.{Kept, string-IsBalanced}
use rtt_http.Codec.RoundTrip.{Covers, InRange}
use rtt_http.Codec.Sequences.{string-RoundTrips}
use rtt_http.Codec.Promises.{
  decode-encode_integer, decode-encode_vector, vector-Kept, decode_integer-InRange,
}
use rtt_http.Codec.Parse.{Event, begins, ends, scalar, key_part, key, on_events}
use rtt_http.Codec.Parse.Duplicates.{
  Document, of_null, of_array, of_object, of_nil, of_cons, of_end, of_member, key_parts, scalars,
  repeats, has_key, on_events-repeats,
}
use rtt_http.Codec.Serialize.{serialize_json, concat, serialize_json_lem}
use rtt_http.Codec.Output.{validate_output}
use rtt_http.Codec.Output.Walk.{check, validate_output-check}

abbrev small : CodecContext
small = record {
  limits = record { max_document_bytes = 64; max_depth = 4; max_allocation_bytes = 512 };
  depth = 0;
  remaining = 64;
}

-- Doubles that are natural numbers.
abbrev naturals : DoubleOps ℕ
naturals = record {
  is_finite = λ d. true;
  is_integral = λ d. true;
  less_than = λ d z. ltb_ℤ (pos d) z;
  greater_than = λ d z. ltb_ℤ z (pos d);
  to_integer = pos;
}

naturals-IsExact : IsExact naturals
naturals-IsExact = record { between = λ d low high f i l g. ground arith }

abbrev int64_type : IntType
int64_type = record { bits = 64; is_signed = true }

abbrev uint8_type : IntType
uint8_type = record { bits = 8; is_signed = false }

Covers-small : Covers small small
Covers-small = record { limits = refl; depth = refl; remaining = omega arith }

encoded_integer :
    encode_integer naturals int64_type (negsuc 41) small
    ≡ (ok (string (codes "-42")), record small { remaining = 59 })
unfolding encode_integer to_chars_int to_chars account
encoded_integer = refl

decode-encode_integer_example :
    (d' : CodecContext) × (decode_integer naturals int64_type (string (codes "-42")) small
      ≡ (ok (negsuc 41), d'))
    × Covers (record small { remaining = 59 }) d'
decode-encode_integer_example =
    decode-encode_integer ℕ naturals int64_type (negsuc 41) small small (string (codes "-42"))
      (record small { remaining = 59 }) (unfold lowest greatest in (omega arith, omega arith))
      encoded_integer Covers-small

abbrev words : List Bytes
words = codes "on" ∷ codes "off" ∷ []

abbrev words_json : Json ℕ
words_json = array (cons (string (codes "on")) (cons (string (codes "off")) nil))

encoded_vector :
    encode_vector string_conversion words small ≡ (ok words_json, record small { remaining = 52 })
unfolding encode_vector scope enter leave account encode_string account_json_string valid_utf8
encoded_vector = refl

decode-encode_vector_example :
    (d' : CodecContext) × (decode_vector string_conversion words_json small ≡ (ok words, d'))
    × Covers (record small { remaining = 52 }) d'
decode-encode_vector_example =
    decode-encode_vector ℕ Bytes string_conversion (λ s. Unit {0}) words small small words_json
      (record small { remaining = 52 }) string-RoundTrips (tt, (tt, tt)) encoded_vector Covers-small

vector-Kept_example :
    Kept small (encode_vector {D = ℕ} string_conversion words small).1
    × Kept small (decode_vector string_conversion words_json small).1
vector-Kept_example = vector-Kept ℕ Bytes string_conversion words words_json small string-IsBalanced

decode_integer-InRange_example : InRange uint8_type (pos 255)
decode_integer-InRange_example =
    decode_integer-InRange ℕ naturals naturals-IsExact uint8_type (uint64 255) (pos 255) small small
      (unfold decode_integer in refl)

too_large_test : (decode_integer naturals uint8_type (uint64 256) small).0 ≡ err type_mismatch
unfolding decode_integer
too_large_test = refl

account_json_string_lem_example :
    ((valid_utf8 (codes "a\"b") ≡ false)
      × (account_json_string (codes "a\"b") small ≡ (err invalid_utf8, small)))
    ⊎ ((valid_utf8 (codes "a\"b") ≡ true)
        × (length (quoted (codes "a\"b")) ≤ small.remaining)
        × (account_json_string (codes "a\"b") small ≡ (
          ok tt,
          record small { remaining = small.remaining - length (quoted (codes "a\"b")) },
        )))
    ⊎ ((valid_utf8 (codes "a\"b") ≡ true)
        × (small.remaining < length (quoted (codes "a\"b")))
        × ((account_json_string (codes "a\"b") small).0 ≡ err document_limit))
account_json_string_lem_example = account_json_string_lem (codes "a\"b") small

validate_output-check_example :
    validate_output (λ d. true) 4 words_json ≡ some (check (λ d. true) 4 0 words_json)
validate_output-check_example = validate_output-check (λ d. true) 4 words_json

abbrev twice : Json ℕ
twice = array (cons (object (member (codes "key") null (member (codes "key") null end))) nil)

-- One key comes whole, the other one in two parts.
abbrev twice_events : List Event
twice_events =
    begins
    ∷ begins
    ∷ key (codes "key")
    ∷ scalar
    ∷ key_part (codes "k")
    ∷ key (codes "ey")
    ∷ scalar
    ∷ ends
    ∷ ends
    ∷ []

twice-Document : Document twice twice_events
unfolding key_parts scalars
twice-Document = of_array (
    of_cons
      (of_object (
        of_member (codes "key") [] (codes "key") refl (of_null 1)
          (of_member (codes "key") (codes "k" ∷ []) (codes "ey") refl (of_null 1) of_end)))
      of_nil)

on_events-repeats_example :
    (on_events twice_events (record { frames = []; duplicate = false })).duplicate ≡ repeats twice
on_events-repeats_example = on_events-repeats ℕ twice twice_events twice-Document

duplicate_test : repeats twice ≡ true
unfolding repeats has_key bytes_eq
duplicate_test = refl

abbrev two_parts : Json ℕ → List Bytes × Bool
two_parts j = (codes "[\"on\"," ∷ codes "\"off\"]" ∷ [], true)

serialize_json_lem_example :
    serialize_json (λ d. true) two_parts small.limits true false words_json
    ≡ some (
        if not true
        then err internal_error
        else if false
        then err allocation_limit
        else elim (check (λ d. true) small.limits.max_depth 0 words_json) [
          | err e ↦ err e
          | ok u ↦
              if leb (length (concat (two_parts words_json).0)) small.limits.max_document_bytes
              then (if (two_parts words_json).1
                  then ok (concat (two_parts words_json).0)
                  else err allocation_limit)
              else err document_limit
        ])
serialize_json_lem_example =
    serialize_json_lem ℕ (λ d. true) two_parts small.limits true false words_json

serialize_json_test :
    serialize_json (λ d. true) two_parts small.limits true false words_json
    ≡ some (ok (codes "[\"on\",\"off\"]"))
unfolding serialize_json validate_output valid_utf8
serialize_json_test = refl
