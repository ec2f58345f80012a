-- ===== src/Registry/Canonical.antt =====
-- src/canonical_types.cpp: the table of the protocols of RTT's own types, `registerCanonicalTypeProtocol`,
-- `registerCanonicalTypeProtocols` and `VoidCodec`. `rt_malloc` is the macro `OS_RT_MALLOC`. A codec
-- is known by its address, which the caller gives; the conversion that a type uses is in the table.
pub mod Table
use rtt_http.Common.{
  ℕ, Bool, true, false, ◌&&◌, not, Option, none, some, List, [], ◌∷◌, ◌++◌, Bytes, codes,
  if◌then◌else◌, bytes_eq, ◌==◌, ◌*◌, ◌≡◌, ◌≢◌, ◌⊎◌, inl, inr, refl, sym, ap, ◌∙◌, subst, arith,
  Bool-cases, Option-cases, all,
}
use rtt_http.Common.Int.{pos}
use rtt_http.Common.Map.{Map, bytes_eq_iff}
use rtt_http.Codec.{
  Json, Items, Members, null, boolean, int64, string, array, object, nil, cons, end, member,
  Conversion, fail, return, account, type_mismatch, ◌>>◌,
}
use rtt_http.Registry.{TypeRegistration, TypeProtocol}
use rtt_http.Registry.Identity.{make_type_protocol}
use rtt_http.Registry.Protocols.{
  TypeInfo, Pointer, State, Registered, registered, register_type_protocol,
}

-- `sizeof` and `is_signed_v` are arguments.
abbrev pub integer_descriptor : {D : Type 0} → ℕ → Bool → Members D
integer_descriptor size signed = member (codes "kind") (string (codes "integer")) (
    member (codes "bits") (int64 (pos (size * 8))) (
      member (codes "signed") (boolean signed) (
        member (codes "encoding")
          (string (if size == 8 then codes "decimalString" else codes "number")) end)))

abbrev pub float_descriptor : {D : Type 0} → ℕ → Members D
float_descriptor size = member (codes "kind") (string (codes "float")) (
    member (codes "bits") (int64 (pos (size * 8))) (
      member (codes "nonFinite")
        (array (
          cons (string (codes "NaN"))
            (cons (string (codes "Infinity")) (cons (string (codes "-Infinity")) nil))))
        end))

abbrev pub string_descriptor : {D : Type 0} → Members D
string_descriptor =
    member (codes "kind") (string (codes "string"))
      (member (codes "encoding") (string (codes "utf8")) end)

abbrev pub array_descriptor : {D : Type 0} → Bytes → Members D
array_descriptor element =
    member (codes "kind") (string (codes "array"))
      (member (codes "elementType") (string element) (member (codes "length") null end))

abbrev pub enum_descriptor : {D : Type 0} → Members D
enum_descriptor =
    member (codes "kind") (string (codes "enum"))
      (member (codes "underlyingType") (string (codes "Int32")) end)

abbrev pub kind_descriptor : {D : Type 0} → Bytes → Members D
kind_descriptor kind = member (codes "kind") (string kind) end

-- The conversion of the C++ type.
pub data Codec : Type 0 where
  bool_codec float_codec double_codec string_codec void_codec flow_status write_status task_state :
      Codec
  integer_codec : ℕ → Bool → Codec
  array_codec : Codec → Codec

pub record Canonical (D : Type 0) : Type 0 where
  pub type_name : Bytes
  pub descriptor : Members D
  pub dependencies : List Bytes
  pub conversion : Codec

abbrev plain : {D : Type 0} → Bytes → Members D → Codec → Canonical D
plain name descriptor conversion = record {
  type_name = name;
  descriptor = descriptor;
  dependencies = [];
  conversion = conversion;
}

abbrev with_dependency : {D : Type 0} → Bytes → Members D → Bytes → Codec → Canonical D
with_dependency name descriptor dependency conversion = record {
  type_name = name;
  descriptor = descriptor;
  dependencies = dependency ∷ [];
  conversion = conversion;
}

abbrev integer_type : {D : Type 0} → Bytes → ℕ → Bool → Canonical D
integer_type name size signed =
    plain name (integer_descriptor size signed) (integer_codec size signed)

abbrev enum_type : {D : Type 0} → Bytes → Codec → Canonical D
enum_type name conversion = with_dependency name enum_descriptor (codes "Int32") conversion

abbrev array_type : {D : Type 0} → Bytes → Bytes → Codec → Canonical D
array_type name element conversion =
    with_dependency name (array_descriptor element) element (array_codec conversion)

-- The branches of `canonicalProtocol`; `char_signed` is the signedness of `char`.
abbrev pub canonical_table : {D : Type 0} → Bool → Bool → List (Canonical D)
canonical_table rt_malloc char_signed =
    plain (codes "Bool") (kind_descriptor (codes "boolean")) bool_codec
    ∷ integer_type (codes "Int8") 1 true
    ∷ integer_type (codes "UInt8") 1 false
    ∷ integer_type (codes "Int16") 2 true
    ∷ integer_type (codes "UInt16") 2 false
    ∷ integer_type (codes "Int32") 4 true
    ∷ integer_type (codes "UInt32") 4 false
    ∷ integer_type (codes "Int64") 8 true
    ∷ integer_type (codes "UInt64") 8 false
    ∷ integer_type (codes "Char") 1 char_signed
    ∷ plain (codes "Float32") (float_descriptor 4) float_codec
    ∷ plain (codes "Float64") (float_descriptor 8) double_codec
    ∷ plain (codes "String") string_descriptor string_codec
    ∷ ((if rt_malloc then plain (codes "RtString") string_descriptor string_codec ∷ [] else [])
        ++ (array_type (codes "Float64Array") (codes "Float64") double_codec
            ∷ array_type (codes "Int32Array") (codes "Int32") (integer_codec 4 true)
            ∷ array_type (codes "StringArray") (codes "String") string_codec
            ∷ enum_type (codes "FlowStatus") flow_status
            ∷ enum_type (codes "WriteStatus") write_status
            ∷ enum_type (codes "TaskState") task_state
            ∷ plain (codes "Void") (kind_descriptor (codes "void")) void_codec
            ∷ []))

unfoldable pub find_canonical : {D : Type 0} → Bytes → List (Canonical D) → Option (Canonical D)
find_canonical name [] = none
find_canonical name (c ∷ cs) =
    let rest = find_canonical name cs in if bytes_eq name c.type_name then some c else rest

abbrev pub canonical_registration : {D : Type 0} → Canonical D → TypeRegistration D
canonical_registration c = record {
  provider_id = codes "orocos.rtt.http";
  provider_version = codes "1";
  codec_id = c.type_name;
  codec_version = codes "1";
  rtt_type = c.type_name;
  descriptor = c.descriptor;
  dependencies = c.dependencies;
}

-- `canonicalProtocol`: null, the exception of the constructor, or the protocol.
pub data Made (D : Type 0) : Type 0 where
  no_protocol made_throws : Made D
  made : TypeProtocol D → Made D

-- What the two functions return; `make` throws.
pub data CanonicalAnswer : Type 0 where
  no_canonical construction_throws : CanonicalAnswer
  answered : Registered → CanonicalAnswer

-- The build, and what the caller's allocations and RTT's type system give: the addresses of a type,
-- of its codec and of its protocol.
pub record Platform : Type 0 where
  pub rt_malloc : Bool
  pub char_signed : Bool
  pub type_at : Bytes → ℕ
  pub codec_at : Bytes → ℕ
  pub protocol_at : Bytes → ℕ

module _ {D : Type 0} (serialize : Json D → Option Bytes) (platform : Platform) where
  unfoldable pub canonical_protocol : Bytes → Made D
  unfolding find_canonical make_type_protocol
  canonical_protocol name =
      elim (find_canonical name (canonical_table platform.rt_malloc platform.char_signed)) [
        | none ↦ no_protocol
        | some c ↦
            elim (make_type_protocol serialize (canonical_registration c)
              (platform.codec_at name)) [ none ↦ made_throws | some p ↦ made p ]
      ]

  module _ {R : Type 0} (rtt : TypeInfo R) (heap : ℕ → Option (TypeProtocol D)) where
    unfoldable pub register_canonical_type_protocol :
        Bytes → ℕ → State D → R → CanonicalAnswer × State D × R
    unfolding canonical_protocol register_type_protocol
    register_canonical_type_protocol name type s r = elim (canonical_protocol name) [
      | no_protocol ↦ (no_canonical, s, r)
      | made_throws ↦ (construction_throws, s, r)
      | made p ↦
          let pointer : Pointer D = record { address = platform.protocol_at name; target = p } in
          let (answer, s', r') = register_type_protocol rtt heap type (some pointer) s r in
          (answered answer, s', r')
    ]

    -- The loop stops at the first that is not registered.
    unfoldable pub register_all : List Bytes → State D → R → CanonicalAnswer × State D × R
    unfolding register_canonical_type_protocol
    register_all [] s r = (answered registered, s, r)
    register_all (name ∷ names) s r =
        let (answer, s', r') = register_canonical_type_protocol name (platform.type_at name) s r in
        let rest = register_all names s' r' in
        elim answer [
          | answered a ↦ elim a [ registered ↦ rest | failed ↦ (answered failed, s', r') ]
          | other ↦ (other, s', r')
        ]

    unfoldable pub register_canonical_type_protocols : State D → R → CanonicalAnswer × State D × R
    unfolding register_all
    register_canonical_type_protocols = register_all (
        codes "Bool"
        ∷ codes "Int8"
        ∷ codes "UInt8"
        ∷ codes "Int16"
        ∷ codes "UInt16"
        ∷ codes "Int32"
        ∷ codes "UInt32"
        ∷ codes "Int64"
        ∷ codes "UInt64"
        ∷ codes "Char"
        ∷ codes "Float32"
        ∷ codes "Float64"
        ∷ codes "String"
        ∷ codes "Float64Array"
        ∷ codes "Int32Array"
        ∷ codes "StringArray"
        ∷ codes "FlowStatus"
        ∷ codes "WriteStatus"
        ∷ codes "TaskState"
        ∷ codes "Void"
        ∷ (if platform.rt_malloc then codes "RtString" ∷ [] else []))

-- `VoidCodec::toJson` with a result, `makeDataSource`.
abbrev pub encode_void : {D : Type 0} → Conversion (Json D)
encode_void = account 4 >> return null

abbrev pub decode_void : {A D : Type 0} → Json D → Conversion A
decode_void j = fail type_mismatch
