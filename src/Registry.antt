-- ===== src/Registry.antt =====
-- The type protocols: include/rtt/http/type_protocol.hpp and src/type_protocol.cpp. A descriptor is
-- the members of a JSON object; a type and a protocol of RTT are known by their addresses.
pub mod Descriptor
pub mod Identity
pub mod Protocols
pub mod Freeze
pub mod Canonical
mod Tests
use rtt_http.Common.{ℕ, Option, none, some, List, [], ◌∷◌, Bytes, bytes_eq, if◌then◌else◌}
use rtt_http.Common.Map.{Map}
use rtt_http.Codec.{Json, Members, end, member}

pub record TypeRegistration (D : Type 0) : Type 0 where
  pub provider_id : Bytes
  pub provider_version : Bytes
  pub codec_id : Bytes
  pub codec_version : Bytes
  pub rtt_type : Bytes
  pub descriptor : Members D
  pub dependencies : List Bytes

-- A codec is known by its address, and not looked into.
pub record TypeProtocol (D : Type 0) : Type 0 where
  pub registration : TypeRegistration D
  pub fingerprint : Bytes
  pub codec : ℕ

pub record TypeBinding (D : Type 0) : Type 0 where
  pub registration : TypeRegistration D
  pub codec : ℕ

-- `TypeCatalog`: the bindings by name, and the names of the types.
pub record TypeCatalog (D : Type 0) : Type 0 where
  pub types : Map Bytes (TypeBinding D)
  pub identities : Map ℕ Bytes

-- `if_contains`; the first member counts, and a `boost::json::object` has no second one.
unfoldable pub if_contains : {D : Type 0} → Bytes → Members D → Option (Json D)
if_contains key end = none
if_contains key (member k j ms) = if bytes_eq k key then some j else if_contains key ms

-- One of the names.
pub data Listed (d : Bytes) : List Bytes → Type 0 where
  first : {ds : List Bytes} → Listed d (d ∷ ds)
  later : {e : Bytes} {ds : List Bytes} → Listed d ds → Listed d (e ∷ ds)
