-- ===== src/Registry/Tests.antt =====
-- Runs of the registry of src/type_protocol.cpp on an integer type and an enumeration.
use rtt_http.Common.{
  ℕ, true, false, not, Option, none, some, List, [], ◌∷◌, Bytes, codes, if◌then◌else◌, bytes_eq,
  ◌==◌, ==_iff, any, all, ◌≡◌, ◌≢◌, ◌↔◌, ◌⊎◌, refl, arith,
}
use rtt_http.Common.Map.{Map, find, bytes_key, address_key, bytes_eq_iff}
use rtt_http.Codec.{Json, Members, string, null, member, end, boolean, array, object, nil, cons}
use rtt_http.Registry.{TypeRegistration, TypeProtocol, TypeBinding, TypeCatalog, Listed}
use rtt_http.Registry.Descriptor.{validate_registration, valid_name}
use rtt_http.Registry.Descriptor.Fields.{Refers}
use rtt_http.Registry.Descriptor.References.{validate_registration-Refers}
use rtt_http.Registry.Canonical.{
  integer_descriptor, enum_descriptor, array_descriptor, Platform, canonical_protocol,
  find_canonical,
}
use rtt_http.Registry.Canonical.Table.{canonical_protocol_accepted}
use rtt_http.Registry.Identity.{identity_json, make_type_protocol}
use rtt_http.Registry.Identity.Order.{
  same_array, same_item, same_object, no_items, kept, swapped, no_members, identity_json-Reordered,
}
use rtt_http.Registry.Freeze.{search_types, recursive_definition, Mark, fault, done, FreezeError}
use rtt_http.Registry.Freeze.Chains.{Grounded, Chain}
use rtt_http.Registry.Freeze.Faults.{Explains, search_types_explained}
use rtt_http.Registry.Protocols.{
  TypeInfo, IsTypeInfo, Added, accepts, rejects, Pointer, State, initial, register_type_protocol,
  freeze_type_catalog, registrations_of, find_name, find_type, Registered, registered, clear,
}
use rtt_http.Registry.Protocols.Staging.{IsBound}
use rtt_http.Registry.Protocols.Registering.{IsUnchanged, register_type_protocol_undone}
use rtt_http.Registry.Protocols.Steps.{
  Steps, stays, goes, registers, freezes, catalog_sound, frozen_for_good, freeze_type_catalog_finds,
}

abbrev registration : Bytes → Members ℕ → List Bytes → TypeRegistration ℕ
registration name descriptor dependencies = record {
  provider_id = codes "p";
  provider_version = codes "1";
  codec_id = name;
  codec_version = codes "1";
  rtt_type = name;
  descriptor = descriptor;
  dependencies = dependencies;
}

abbrev int32 : TypeRegistration ℕ
int32 = registration (codes "Int32") (integer_descriptor 4 true) []

abbrev mode : TypeRegistration ℕ
mode = registration (codes "Mode") enum_descriptor (codes "Int32" ∷ [])

-- An array of itself.
abbrev loop : TypeRegistration ℕ
loop = registration (codes "L") (array_descriptor (codes "L")) (codes "L" ∷ [])

abbrev looping : Map Bytes (TypeRegistration ℕ)
looping = (codes "L", loop) ∷ []

search_types_explained_example :
    ((marks : Bytes → Mark) × (search_types looping ≡ done marks))
    ⊎ ((e : FreezeError) × (search_types looping ≡ fault e) × Explains looping e)
search_types_explained_example =
    search_types_explained ℕ looping (unfold find bytes_eq in (refl, tt))

recursion_test : search_types looping ≡ fault (recursive_definition (codes "L"))
unfolding search_types find bytes_eq
recursion_test = refl

mode_is_valid : validate_registration mode ≡ none
unfolding validate_registration valid_name bytes_eq all any find
mode_is_valid = refl

validate_registration-Refers_example :
    Listed (codes "Int32") (codes "Int32" ∷ []) ↔ Refers {D = ℕ} enum_descriptor (codes "Int32")
validate_registration-Refers_example =
    validate_registration-Refers ℕ mode (codes "Int32") mode_is_valid

-- A structure with one field, whose object is written in two orders.
abbrev field : Members ℕ
field =
    member (codes "name") (string (codes "x")) (member (codes "type") (string (codes "Int32")) end)

abbrev turned_field : Members ℕ
turned_field =
    member (codes "type") (string (codes "Int32")) (member (codes "name") (string (codes "x")) end)

abbrev structure : TypeRegistration ℕ
structure =
    registration (codes "Point") (member (codes "fields") (array (cons (object field) nil)) end)
      (codes "Int32" ∷ [])

abbrev turned : Members ℕ
turned = member (codes "fields") (array (cons (object turned_field) nil)) end

names_differ : codes "name" ≢ codes "type"
unfolding bytes_eq
names_differ e = absurd (ground (arith, bytes_eq_iff (codes "name") (codes "type"), e))

identity_json-Reordered_example :
    identity_json structure ≡ identity_json (record structure { descriptor = turned })
identity_json-Reordered_example = identity_json-Reordered ℕ structure turned (
    kept (codes "fields")
      (same_array (
        same_item
          (same_object (
            swapped (codes "name") (codes "type") (string (codes "x")) (string (codes "Int32")) end
              names_differ))
          no_items))
      no_members)

abbrev platform : Platform
platform = record {
  rt_malloc = true;
  char_signed = true;
  type_at = λ name. 1;
  codec_at = λ name. 5;
  protocol_at = λ name. 6;
}

abbrev written : Json ℕ → Option Bytes
written j = some (codes "text")

abbrev float_array : TypeRegistration ℕ
float_array = record {
  provider_id = codes "orocos.rtt.http";
  provider_version = codes "1";
  codec_id = codes "Float64Array";
  codec_version = codes "1";
  rtt_type = codes "Float64Array";
  descriptor = member (codes "kind") (string (codes "array")) (
      member (codes "elementType") (string (codes "Float64")) (
        member (codes "length") null
          (member (codes "jsonSupported") (boolean true) (member (codes "reason") null end))));
  dependencies = codes "Float64" ∷ [];
}

abbrev float_array_protocol : TypeProtocol ℕ
float_array_protocol = record { registration = float_array; fingerprint = codes "text"; codec = 5 }

canonical_protocol_accepted_example :
    (validate_registration float_array ≡ none) × (float_array.rtt_type ≡ codes "Float64Array")
canonical_protocol_accepted_example =
    canonical_protocol_accepted ℕ written platform (codes "Float64Array") float_array_protocol
      (unfold canonical_protocol find_canonical make_type_protocol bytes_eq in refl)

-- RTT's types 1 and 2, as the function from a type to the protocol in its slot.
abbrev name_at : ℕ → Bytes
name_at t = if t == 1 then codes "Int32" else codes "Mode"

abbrev types_with : Added → TypeInfo (ℕ → ℕ)
types_with answer = record {
  type_name = name_at;
  has_protocol = λ r t. not (r t == 0);
  get_protocol = λ r t. r t;
  add_protocol = λ r t p. (answer, λ u. if u == t then p else r u);
}

types_with-IsTypeInfo : (answer : Added) → IsTypeInfo (types_with answer)
types_with-IsTypeInfo answer = record {
  added = λ r t p h. ground (arith, ==_iff t t);
  other = λ r t p u n. ground (arith, n, ==_iff u t);
}

abbrev no_casts : ℕ → Option (TypeProtocol ℕ)
no_casts address = none

abbrev int32_protocol : TypeProtocol ℕ
int32_protocol = record { registration = int32; fingerprint = codes "i"; codec = 21 }

abbrev mode_protocol : TypeProtocol ℕ
mode_protocol = record { registration = mode; fingerprint = codes "m"; codec = 22 }

abbrev first_pointer : Pointer ℕ
first_pointer = record { address = 11; target = int32_protocol }

abbrev second_pointer : Pointer ℕ
second_pointer = record { address = 12; target = mode_protocol }

abbrev empty_slots : ℕ → ℕ
empty_slots t = 0

abbrev one_slot : ℕ → ℕ
one_slot t = if t == 1 then 11 else 0

abbrev two_slots : ℕ → ℕ
two_slots t = if t == 2 then 12 else one_slot t

abbrev both : State ℕ
both = record {
  frozen = false;
  registrations = (1, first_pointer) ∷ (2, second_pointer) ∷ [];
  catalog = none;
  freeze_error = clear;
}

abbrev first_binding : TypeBinding ℕ
first_binding = record { registration = int32; codec = 21 }

abbrev second_binding : TypeBinding ℕ
second_binding = record { registration = mode; codec = 22 }

abbrev catalog : TypeCatalog ℕ
catalog = record {
  types = (codes "Int32", first_binding) ∷ (codes "Mode", second_binding) ∷ [];
  identities = (1, codes "Int32") ∷ (2, codes "Mode") ∷ [];
}

abbrev with_catalog : State ℕ
with_catalog = record {
  frozen = true;
  registrations = both.registrations;
  catalog = some catalog;
  freeze_error = clear;
}

registers_both : Steps (types_with accepts) no_casts initial empty_slots both two_slots
unfolding register_type_protocol initial bytes_eq any all find
registers_both = goes (registers 1 (some first_pointer) initial empty_slots) (
    goes
      (registers 2 (some second_pointer)
        (record {
          frozen = false;
          registrations = (1, first_pointer) ∷ [];
          catalog = none;
          freeze_error = clear;
        })
        one_slot)
      (stays both two_slots))

registers_all : Steps (types_with accepts) no_casts initial empty_slots with_catalog two_slots
unfolding register_type_protocol initial bytes_eq any all find freeze_type_catalog
registers_all = goes (registers 1 (some first_pointer) initial empty_slots) (
    goes
      (registers 2 (some second_pointer)
        (record {
          frozen = false;
          registrations = (1, first_pointer) ∷ [];
          catalog = none;
          freeze_error = clear;
        })
        one_slot)
      (goes (freezes both two_slots) (stays with_catalog two_slots)))

catalog_sound_example :
    IsBound (codes "Mode") mode 22
    × Grounded (registrations_of catalog.types) (codes "Mode")
    × (¬ Chain (registrations_of catalog.types) (codes "Mode") (codes "Mode"))
catalog_sound_example =
    catalog_sound ℕ (ℕ → ℕ) (types_with accepts) no_casts with_catalog empty_slots two_slots catalog
      (codes "Mode") second_binding registers_all refl (unfold find_name bytes_eq in refl)

abbrev too_late : Registered × State ℕ × (ℕ → ℕ)
too_late =
    register_type_protocol (types_with accepts) no_casts 1 (some first_pointer) with_catalog
      empty_slots

frozen_for_good_example : too_late.1 ≡ with_catalog
frozen_for_good_example =
    frozen_for_good ℕ (ℕ → ℕ) (types_with accepts) no_casts with_catalog too_late.1 empty_slots
      too_late.2 refl
      (goes (registers 1 (some first_pointer) with_catalog empty_slots)
        (stays too_late.1 too_late.2))

freeze_type_catalog_finds_example :
    (two_slots 2 ≡ 12)
    × ((b : TypeBinding ℕ) × (find_type 2 catalog ≡ some b)
        × IsBound (codes "Mode") b.registration b.codec)
freeze_type_catalog_finds_example =
    freeze_type_catalog_finds ℕ (ℕ → ℕ) (types_with accepts) no_casts both empty_slots two_slots
      catalog 2 second_pointer registers_both refl
      (unfold freeze_type_catalog find bytes_eq in refl) (unfold find in refl)

abbrev second_only : State ℕ
second_only = record {
  frozen = false;
  registrations = (2, second_pointer) ∷ [];
  catalog = none;
  freeze_error = clear;
}

abbrev after_refusal : Registered × State ℕ × (ℕ → ℕ)
after_refusal =
    register_type_protocol (types_with rejects) no_casts 1 (some first_pointer) second_only
      empty_slots

is_refused : after_refusal.0 ≢ registered
unfolding register_type_protocol bytes_eq any all find
is_refused e = cc

register_type_protocol_undone_example : IsUnchanged second_only after_refusal.1
register_type_protocol_undone_example =
    register_type_protocol_undone ℕ (ℕ → ℕ) (types_with rejects) no_casts 1 (some first_pointer)
      second_only empty_slots is_refused
