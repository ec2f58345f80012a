-- ===== src/Registry/Protocols.antt =====
-- `registerTypeProtocol`, `registeredTypeCodec`, `typeCatalogFrozen`, `freezeTypeCatalog` and
-- `TypeCatalog::find` of src/type_protocol.cpp. A pointer is an address with
-- the object it points to; an address stands for one object. `heap` is what a `dynamic_cast` finds
-- at the address that RTT has in a slot: a `TypeProtocol`, or none. Each function holds the registry's lock from its first line to its
-- last.
pub mod Staging
pub mod Registering
pub mod Freezing
pub mod Steps
use rtt_http.Common.{
  ℕ, Bool, true, false, ◌&&◌, ◌||◌, not, Option, none, some, List, [], ◌∷◌, Bytes, if◌then◌else◌,
  bytes_eq, ◌==◌, ◌≡◌, ◌≢◌,
}
use rtt_http.Common.Map.{Map, find, emplace, erase_key, bytes_key, address_key}
use rtt_http.Registry.{TypeRegistration, TypeProtocol, TypeBinding, TypeCatalog}
use rtt_http.Registry.Descriptor.{RegistrationError, validate_registration}
use rtt_http.Registry.Freeze.{
  FreezeError, slot_changed, Searched, out_of_fuel, fault, done, search_types,
}

-- What `TypeInfo::addProtocol` does.
pub data Added : Type 0 where
  accepts rejects throws : Added

-- `RTT::types::TypeInfo`, and the state `R` of all of them. A null pointer is 0.
pub record TypeInfo (R : Type 0) : Type 0 where
  pub type_name : ℕ → Bytes
  pub has_protocol : R → ℕ → Bool
  pub get_protocol : R → ℕ → ℕ
  pub add_protocol : R → ℕ → ℕ → Added × R

-- What the registry relies on: a protocol that was added is the one that is got from then on, and
-- adding it changes no other type.
pub record IsTypeInfo {R : Type 0} (rtt : TypeInfo R) : Type 0 where
  pub added :
      (r : R) (type protocol : ℕ)
      → (rtt.add_protocol r type protocol).0 ≡ accepts
      → rtt.get_protocol (rtt.add_protocol r type protocol).1 type ≡ protocol
  pub other :
      (r : R) (type protocol t : ℕ)
      → t ≢ type
      → rtt.get_protocol (rtt.add_protocol r type protocol).1 t ≡ rtt.get_protocol r t

-- `freezeError`: empty, its text when the freezing starts, or that of a fault.
pub data FreezeText : Type 0 where
  clear not_frozen : FreezeText
  failed : FreezeError → FreezeText

-- A pointer to a protocol that is not null.
pub record Pointer (D : Type 0) : Type 0 where
  pub address : ℕ
  pub target : TypeProtocol D

pub record State (D : Type 0) : Type 0 where
  pub frozen : Bool
  pub registrations : Map ℕ (Pointer D)
  pub catalog : Option (TypeCatalog D)
  pub freeze_error : FreezeText

unfoldable pub initial : {D : Type 0} → State D
initial = record { frozen = false; registrations = []; catalog = none; freeze_error = clear }

pub data Refusal : Type 0 where
  invalid_registration conflicting catalog_frozen changed_outside rejected : Refusal
  invalid_descriptor : RegistrationError → Refusal

pub data Registered : Type 0 where
  registered threw : Registered
  refused : Refusal → Registered

module _ {D R : Type 0} (rtt : TypeInfo R) where
  -- From the emplacement on.
  unfoldable pub add_type_protocol : ℕ → Pointer D → State D → R → Registered × State D × R
  unfolding emplace erase_key
  add_type_protocol type protocol s r =
      let (registrations, inserted) = emplace type protocol s.registrations in
      if not inserted
      then (refused changed_outside, s, r)
      else (let (answer, r') = rtt.add_protocol r type protocol.address in
          elim answer [
            | accepts ↦ (registered, record s { registrations = registrations }, r')
            | rejects ↦
                (refused rejected, record s { registrations = erase_key type registrations }, r')
            | throws ↦ (threw, record s { registrations = erase_key type registrations }, r')
          ])

module _ {D R : Type 0} (rtt : TypeInfo R) (heap : ℕ → Option (TypeProtocol D)) where
  -- The slot of the type is the protocol that was registered, and it is the same protocol.
  unfoldable pub is_known : TypeProtocol D → ℕ → State D → R → Bool
  unfolding find
  is_known p type s r = elim (heap (rtt.get_protocol r type)) [
    | none ↦ false
    | some existing ↦
        bytes_eq existing.fingerprint p.fingerprint && (elim (find type s.registrations) [
          | none ↦ false
          | some known ↦ known.address == rtt.get_protocol r type
        ])
  ]

  unfoldable pub register_type_protocol :
      ℕ → Option (Pointer D) → State D → R → Registered × State D × R
  unfolding is_known add_type_protocol validate_registration
  register_type_protocol type none s r = (refused invalid_registration, s, r)
  register_type_protocol type (some protocol) s r =
      let p = protocol.target in
      if type == 0 || (p.codec == 0 || not (bytes_eq (rtt.type_name type) p.registration.rtt_type))
      then (refused invalid_registration, s, r)
      else elim (validate_registration p.registration) [
        | some e ↦ (refused (invalid_descriptor e), s, r)
        | none ↦
            if rtt.has_protocol r type
            then (if is_known p type s r then (registered, s, r) else (refused conflicting, s, r))
            else if s.frozen
            then (refused catalog_frozen, s, r)
            else add_type_protocol rtt type protocol s r
      ]

-- What the search sees of the bindings.
unfoldable pub registrations_of :
    {D : Type 0} → Map Bytes (TypeBinding D) → Map Bytes (TypeRegistration D)
registrations_of [] = []
registrations_of ((name, binding) ∷ rest) = (name, binding.registration) ∷ registrations_of rest

module _ {D R : Type 0} (rtt : TypeInfo R) where
  -- The codec's address; 0 is none.
  unfoldable pub registered_type_codec : ℕ → State D → R → ℕ
  unfolding find
  registered_type_codec type s r = if type == 0 then 0 else elim (find type s.registrations) [
    | none ↦ 0
    | some known ↦ if rtt.get_protocol r type == known.address then known.target.codec else 0
  ]

  -- The loop over the registrations.
  unfoldable pub stage_type : ℕ → TypeProtocol D → TypeCatalog D → TypeCatalog D
  unfolding emplace
  stage_type type p staged = record {
    types =
        (emplace (rtt.type_name type) (record { registration = p.registration; codec = p.codec })
          staged.types).0;
    identities = (emplace type (rtt.type_name type) staged.identities).0;
  }

  unfoldable pub stage_types : R → Map ℕ (Pointer D) → TypeCatalog D → Option (TypeCatalog D)
  unfolding stage_type
  stage_types r [] staged = some staged
  stage_types r ((type, protocol) ∷ rest) staged =
      let more = stage_types r rest (stage_type type protocol.target staged) in
      if rtt.get_protocol r type == protocol.address then more else none

  -- The catalog that is returned, and the state; the error's text is the state's.
  unfoldable pub freeze_type_catalog : State D → R → Option (TypeCatalog D) × State D
  unfolding stage_types search_types registrations_of
  freeze_type_catalog s r =
      if s.frozen
      then (s.catalog, s)
      else (let begun : State D = record s { frozen = true; freeze_error = not_frozen } in
          elim (stage_types r s.registrations (record { types = []; identities = [] })) [
            | none ↦ (none, record begun { freeze_error = failed slot_changed })
            | some staged ↦ elim (search_types (registrations_of staged.types)) [
              | fault e ↦ (none, record begun { freeze_error = failed e })
              | done marks ↦
                  (some staged, record begun { catalog = some staged; freeze_error = clear })
              | out_of_fuel ↦ (none, begun)
            ]
          ])

abbrev pub type_catalog_frozen : {D : Type 0} → State D → Bool
type_catalog_frozen s = s.frozen

-- `TypeCatalog::find`, of a name and of a type.
unfoldable pub find_name : {D : Type 0} → Bytes → TypeCatalog D → Option (TypeBinding D)
unfolding find
find_name name catalog = find name catalog.types

unfoldable pub find_type : {D : Type 0} → ℕ → TypeCatalog D → Option (TypeBinding D)
unfolding find find_name
find_type type catalog = elim (find type catalog.identities) [
  | none ↦ none
  | some name ↦ find_name name catalog
]
