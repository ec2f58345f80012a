-- ===== src/Codec/Serialize.antt =====
-- `serializeJson` of src/codec_context.cpp. What Boost's serializer reads out, part by part, is an
-- argument.
use rtt_http.Common.{
  leb, ℕ, ◌+◌, ◌-◌, ◌≤◌, Bool, not, Option, none, some, List, [], ◌∷◌, ◌++◌, append_assoc,
  append-nil, Bytes, ltb, if◌then◌else◌, length, length-append, ◌≡◌, ◌⊎◌, inl, inr, refl, arith,
  Bool-cases,
}
use rtt_http.Codec.{
  Json, JsonLimits, Outcome, ok, err, CodecErrorCode, document_limit, allocation_limit,
  internal_error,
}
use rtt_http.Codec.Output.{validate_output}
use rtt_http.Codec.Output.Walk.{check, validate_output-check}

-- The loop over the parts. The size of `staged` is at most the limit, so that the difference does
-- not wrap around. `ended` says whether the serializer is done behind the last part; if not, its next
-- part exceeds the allocation budget.
unfoldable pub append_parts : ℕ → Bool → List Bytes → Bytes → Outcome Bytes
append_parts max_document_bytes ended [] staged = if ended then ok staged else err allocation_limit
append_parts max_document_bytes ended (part ∷ parts) staged =
    let rest = append_parts max_document_bytes ended parts (staged ++ part) in
    if ltb (max_document_bytes - length staged) (length part) then err document_limit else rest

-- `has_text` is whether there is a place for the text, `exhausted` whether the validation exceeds the
-- allocation budget. `none` if the fuel of the validation runs out.
unfoldable pub serialize_json :
    {D : Type 0}
    → (D → Bool)
    → (Json D → List Bytes × Bool)
    → JsonLimits
    → Bool
    → Bool
    → Json D
    → Option (Outcome Bytes)
unfolding append_parts validate_output
serialize_json is_finite read limits has_text exhausted value =
    if not has_text
    then some (err internal_error)
    else if exhausted
    then some (err allocation_limit)
    else elim (validate_output is_finite limits.max_depth value) [
      | none ↦ none
      | some validated ↦ elim validated [
        | err e ↦ some (err e)
        | ok _ ↦ some (append_parts limits.max_document_bytes (read value).1 (read value).0 [])
      ]
    ]

abbrev pub concat : List Bytes → Bytes
concat [] = []
concat (p ∷ ps) = p ++ concat ps

append_parts_lem :
    (max : ℕ) (ended : Bool) (parts : List Bytes) (staged : Bytes)
    → length staged ≤ max
    → append_parts max ended parts staged ≡ (
        if leb (length staged + length (concat parts)) max
        then (if ended then ok (staged ++ concat parts) else err allocation_limit)
        else err document_limit)
unfolding append_parts
append_parts_lem max ended [] staged h =
    let e : length staged + 0 ≤ max = omega (arith, h) in ground (arith, e, append-nil staged)
append_parts_lem max ended (part ∷ parts) staged h =
    elim (Bool-cases (ltb (max - length staged) (length part))) [
      | inl e ↦ ground (arith, e, length-append part (concat parts), h)
      | inr e ↦
          let within : length (staged ++ part) ≤ max =
            ground (arith, e, length-append staged part, h) in
          ground (
            arith,
            e,
            append_parts_lem max ended parts (staged ++ part) within,
            length-append staged part,
            length-append part (concat parts),
            append_assoc staged part (concat parts),
          )
    ]

check_cases : (o : Outcome (Unit {0})) → ((e : CodecErrorCode) × (o ≡ err e)) ⊎ (o ≡ ok tt)
check_cases (ok u) = inr refl
check_cases (err e) = inl (e, refl)

-- `serializeJson` without a place for the text is an internal error, and the allocation limit where
-- the validation exceeds the budget. Otherwise its error is that of the first check of
-- `validateOutput` that fails; then the document's limit, if what the serializer reads out is longer;
-- then the allocation limit, if the serializer exceeded the budget before it was done. Just in the
-- case that is left it gives the text. The serializer is taken to read out finitely many parts.
pub serialize_json_lem :
    (D : Type 0) (is_finite : D → Bool) (read : Json D → List Bytes × Bool) (limits : JsonLimits)
    (has_text exhausted : Bool) (value : Json D)
    → serialize_json is_finite read limits has_text exhausted value
      ≡ some (
          if not has_text
          then err internal_error
          else if exhausted
          then err allocation_limit
          else elim (check is_finite limits.max_depth 0 value) [
            | err e ↦ err e
            | ok u ↦
                if leb (length (concat (read value).0)) limits.max_document_bytes
                then (if (read value).1 then ok (concat (read value).0) else err allocation_limit)
                else err document_limit
          ])
unfolding serialize_json
serialize_json_lem D is_finite read limits has_text exhausted value =
    elim (check_cases (check is_finite limits.max_depth 0 value)) [
      | inl (e, c) ↦ ground (arith, c, validate_output-check is_finite limits.max_depth value)
      | inr c ↦ ground (
        arith,
        c,
        validate_output-check is_finite limits.max_depth value,
        append_parts_lem limits.max_document_bytes (read value).1 (read value).0 [] (omega arith),
      )
    ]
