-- ===== src/Registry/Descriptor.antt =====
-- `validateRegistration` of src/type_protocol.cpp, and the constructor of `TypeProtocol`. A
-- `std::set` is a map to the unit type.
pub mod Sets
pub mod Fields
pub mod References
use rtt_http.Common.{
  ℕ, Bool, true, false, ◌&&◌, ◌||◌, not, Option, none, some, List, [], ◌∷◌, Bytes, codes, length,
  if◌then◌else◌, bytes_eq, ◌==◌, leb, all, any,
}
use rtt_http.Common.Int.{ℤ, pos, negsuc}
use rtt_http.Common.Map.{Map, find, emplace, bytes_key}
use rtt_http.Utf8.{valid_utf8}
use rtt_http.Codec.{
  Json, Items, Members, null, boolean, int64, uint64, double, string, array, object, nil, cons, end,
  member,
}
use rtt_http.Registry.{TypeRegistration, if_contains}

abbrev pub Set : Type 0
Set = Map Bytes (Unit {0})

pub data RegistrationError : Type 0 where
  invalid_identity missing_kind invalid_width invalid_integer invalid_float : RegistrationError
  invalid_string invalid_enum invalid_array invalid_object invalid_field : RegistrationError
  unsupported_kind dependencies_differ : RegistrationError

-- The references of a descriptor, or an error.
pub data Checked : Type 0 where
  bad : RegistrationError → Checked
  refers : Set → Checked

unfoldable pub valid_name : Bytes → Bool
unfolding valid_utf8
valid_name value =
    not (length value == 0)
    && (leb (length value) 1024 && (valid_utf8 value && not (any (λ c. c == 0) value)))

-- The text under a key, if `hasString`.
unfoldable pub string_at : {D : Type 0} → Bytes → Members D → Option Bytes
unfolding if_contains valid_name
string_at key o = elim (if_contains key o) [
  | some (string text) ↦ if valid_name text then some text else none
  | _ ↦ none
]

unfoldable pub add_reference : {D : Type 0} → Members D → Bytes → Set → Option Set
unfolding string_at emplace
add_reference o field references = elim (string_at field o) [
  | none ↦ none
  | some text ↦ some (emplace text tt references).0
]

-- `operator==` of a value and a text.
abbrev pub is_text : {D : Type 0} → Bytes → Option (Json D) → Bool
is_text text (some (string s)) = bytes_eq s text
is_text text _ = false

abbrev is_boolean : {D : Type 0} → Option (Json D) → Bool
is_boolean (some (boolean b)) = true
is_boolean _ = false

-- `boost::json::array{"NaN", "Infinity", "-Infinity"}`.
abbrev are_special : {D : Type 0} → Option (Json D) → Bool
are_special (some (array (cons a (cons b (cons c nil))))) =
    is_text (codes "NaN") (some a)
    && (is_text (codes "Infinity") (some b) && is_text (codes "-Infinity") (some c))
are_special _ = false

abbrev is_length : {D : Type 0} → Option (Json D) → Bool
is_length (some null) = true
is_length (some (int64 (pos n))) = true
is_length _ = false

unfoldable pub check_integer : {D : Type 0} → ℕ → Members D → Checked
unfolding if_contains
check_integer bits descriptor =
    if not (is_boolean (if_contains (codes "signed") descriptor))
      || not (
          is_text (if bits == 64 then codes "decimalString" else codes "number")
            (if_contains (codes "encoding") descriptor))
    then bad invalid_integer
    else refers []

unfoldable pub check_float : {D : Type 0} → ℕ → Members D → Checked
unfolding if_contains
check_float bits descriptor =
    if (not (bits == 32) && not (bits == 64))
      || not (are_special (if_contains (codes "nonFinite") descriptor))
    then bad invalid_float
    else refers []

-- `is_int64` and the tests of `as_int64`.
unfoldable pub width_of : {D : Type 0} → Option (Json D) → Option ℕ
width_of (some (int64 (pos bits))) =
    if not (bits == 8) && (not (bits == 16) && (not (bits == 32) && not (bits == 64)))
    then none
    else some bits
width_of _ = none

unfoldable pub check_numeric : {D : Type 0} → Bytes → Members D → Checked
unfolding if_contains width_of check_integer check_float
check_numeric kind descriptor = elim (width_of (if_contains (codes "bits") descriptor)) [
  | none ↦ bad invalid_width
  | some bits ↦
      if bytes_eq kind (codes "integer")
      then check_integer bits descriptor
      else check_float bits descriptor
]

unfoldable pub check_enum : {D : Type 0} → Members D → Checked
unfolding add_reference
check_enum descriptor = elim (add_reference descriptor (codes "underlyingType") []) [
  | none ↦ bad invalid_enum
  | some references ↦ refers references
]

unfoldable pub check_array : {D : Type 0} → Members D → Checked
unfolding add_reference if_contains
check_array descriptor = elim (add_reference descriptor (codes "elementType") []) [
  | none ↦ bad invalid_array
  | some references ↦
      if is_length (if_contains (codes "length") descriptor)
      then refers references
      else bad invalid_array
]

-- One field: the references and the names with its own.
unfoldable pub check_field : {D : Type 0} → Json D → Set → Set → Option (Set × Set)
unfolding string_at add_reference emplace
check_field (object field) references names = elim (string_at (codes "name") field) [
  | none ↦ none
  | some name ↦ elim (add_reference field (codes "rttType") references) [
    | none ↦ none
    | some references' ↦
        if (emplace name tt names).1 then some (references', (emplace name tt names).0) else none
  ]
]
check_field _ references names = none

unfoldable pub check_fields : {D : Type 0} → Items D → Set → Set → Option Set
unfolding check_field
check_fields nil references names = some references
check_fields (cons field rest) references names = elim (check_field field references names) [
  | none ↦ none
  | some (references', names') ↦ check_fields rest references' names'
]

unfoldable pub check_object : {D : Type 0} → Members D → Checked
unfolding check_fields if_contains
check_object descriptor = elim (if_contains (codes "fields") descriptor) [
  | some (array fields) ↦ elim (check_fields fields [] []) [
    | none ↦ bad invalid_field
    | some references ↦ refers references
  ]
  | _ ↦ bad invalid_object
]

unfoldable pub check_kind : {D : Type 0} → Bytes → Members D → Checked
unfolding check_numeric check_enum check_array check_object if_contains
check_kind kind descriptor =
    if bytes_eq kind (codes "integer") || bytes_eq kind (codes "float")
    then check_numeric kind descriptor
    else if bytes_eq kind (codes "string")
    then (if is_text (codes "utf8") (if_contains (codes "encoding") descriptor)
        then refers []
        else bad invalid_string)
    else if bytes_eq kind (codes "enum")
    then check_enum descriptor
    else if bytes_eq kind (codes "array")
    then check_array descriptor
    else if bytes_eq kind (codes "object")
    then check_object descriptor
    else if bytes_eq kind (codes "boolean") || bytes_eq kind (codes "void")
    then refers []
    else bad unsupported_kind

unfoldable pub to_set : List Bytes → Set
unfolding emplace
to_set [] = []
to_set (x ∷ xs) = (emplace x tt (to_set xs)).0

unfoldable pub same_sets : Set → Set → Bool
same_sets [] [] = true
same_sets ((a, _) ∷ s) ((b, _) ∷ t) = bytes_eq a b && same_sets s t
same_sets _ _ = false

abbrev identity_parts : {D : Type 0} → TypeRegistration D → List Bytes
identity_parts r =
    r.provider_id ∷ r.provider_version ∷ r.codec_id ∷ r.codec_version ∷ r.rtt_type ∷ []

-- `none` is `true`.
unfoldable pub validate_registration : {D : Type 0} → TypeRegistration D → Option RegistrationError
unfolding check_kind to_set same_sets string_at valid_name
validate_registration r =
    if not (all (λ part. valid_name part) (identity_parts r))
    then some invalid_identity
    else elim (string_at (codes "kind") r.descriptor) [
      | none ↦ some missing_kind
      | some kind ↦ elim (check_kind kind r.descriptor) [
        | bad e ↦ some e
        | refers references ↦
            if same_sets references (to_set r.dependencies) then none else some dependencies_differ
      ]
    ]
