-- ===== src/Codec/Containers.antt =====
-- `JsonConversion` of include/rtt/http/typed_codec.hpp for strings, enumerations, vectors and
-- arrays of a fixed size. A vector is the list of its elements.
use rtt_http.Common.{ℕ, suc, ◌+◌, ◌-◌, List, [], ◌∷◌, Bytes, ltb, ◌==◌, if◌then◌else◌, length}
use rtt_http.Common.Int.{ℤ}
use rtt_http.Codec.{
  Json, Items, nil, cons, string, array, ok, err, Conversion, type_mismatch, document_limit, ◌>>=◌,
  ◌>>◌, return, fail, account, scope,
}
use rtt_http.Codec.Text.{account_json_string}
use rtt_http.Codec.Integers.{JsonConversion}

module _ {D : Type 0} where
  unfoldable pub size : Items D → ℕ
  size nil = 0
  size (cons x xs) = suc (size xs)

  unfoldable pub encode_string : Bytes → Conversion (Json D)
  encode_string input = do account_json_string input; return (string input)

  unfoldable pub decode_string : Json D → Conversion Bytes
  decode_string (string text) = do account_json_string text; return text
  decode_string _ = fail type_mismatch

  abbrev pub string_conversion : JsonConversion D Bytes
  string_conversion = record { encode = encode_string; decode = decode_string }

-- `EnumJsonConversion`, over the casts to and from the underlying type.
module _ {D T : Type 0} (wire : JsonConversion D ℤ) (to_wire : T → ℤ) (from_wire : ℤ → T) where
  unfoldable pub encode_enum : T → Conversion (Json D)
  encode_enum input = wire.encode (to_wire input)

  unfoldable pub decode_enum : Json D → Conversion T
  decode_enum input = do staged ← wire.decode input; return (from_wire staged)

  abbrev pub enum_conversion : JsonConversion D T
  enum_conversion = record { encode = encode_enum; decode = decode_enum }

module _ {D T : Type 0} (element : JsonConversion D T) where
  -- The loop over the elements, with what it appends to the staged array.
  unfoldable pub encode_items : List T → Conversion (Items D)
  encode_items [] = return nil
  encode_items (v ∷ vs) = do
    encoded ← element.encode v
    rest ← encode_items vs
    return (cons encoded rest)

  unfoldable pub decode_items : Items D → Conversion (List T)
  decode_items nil = return []
  decode_items (cons x xs) = do
    decoded ← element.decode x
    rest ← decode_items xs
    return (decoded ∷ rest)

  -- Every array element needs at least one byte.
  unfoldable pub reserve : List T → Conversion (Unit {0})
  reserve input c =
      if ltb c.limits.max_document_bytes (length input) then (err document_limit, c) else (ok tt, c)

  unfoldable pub encode_vector_body : List T → Conversion (Json D)
  unfolding encode_items reserve
  encode_vector_body input = do
    account 2
    account (length input - 1)
    reserve input
    staged ← encode_items input
    return (array staged)

  unfoldable pub encode_vector : List T → Conversion (Json D)
  unfolding encode_vector_body
  encode_vector input = scope (encode_vector_body input)

  unfoldable pub decode_vector_body : Json D → Conversion (List T)
  unfolding decode_items
  decode_vector_body (array xs) = do account (size xs); decode_items xs
  decode_vector_body _ = fail type_mismatch

  unfoldable pub decode_vector : Json D → Conversion (List T)
  unfolding decode_vector_body
  decode_vector input = scope (decode_vector_body input)

  abbrev pub vector_conversion : JsonConversion D (List T)
  vector_conversion = record { encode = encode_vector; decode = decode_vector }

  -- `std::array<T, Size>`.
  module _ (count : ℕ) where
    unfoldable pub encode_array_body : List T → Conversion (Json D)
    unfolding encode_items
    encode_array_body input = do
      account (if count == 0 then 2 else count + 1)
      staged ← encode_items input
      return (array staged)

    unfoldable pub encode_array : List T → Conversion (Json D)
    unfolding encode_array_body
    encode_array input = scope (encode_array_body input)

    unfoldable pub decode_array_body : Json D → Conversion (List T)
    unfolding decode_items size
    decode_array_body (array xs) =
        if size xs == count then (do account count; decode_items xs) else fail type_mismatch
    decode_array_body _ = fail type_mismatch

    unfoldable pub decode_array : Json D → Conversion (List T)
    unfolding decode_array_body
    decode_array input = scope (decode_array_body input)

    abbrev pub array_conversion : JsonConversion D (List T)
    array_conversion = record { encode = encode_array; decode = decode_array }
