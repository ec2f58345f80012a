-- ===== src/Registry/Identity.antt =====
-- The identity of a protocol in src/type_protocol.cpp: `canonicalJson`, `fingerprint` and the
-- constructor of `TypeProtocol`. `serialize` is `serializeJson` in the context of the fingerprint.
pub mod Order
use rtt_http.Common.{
  ℕ, Bool, true, false, ◌&&◌, ◌||◌, not, Option, none, some, List, [], ◌∷◌, Bytes, codes,
  if◌then◌else◌, bytes_eq, ltb, ◌==◌, ==_iff, ◌≡◌, ◌≢◌, ◌⊎◌, inl, inr, refl, sym, ap, ◌∙◌, subst,
  arith, Bool-cases, Option-cases,
}
use rtt_http.Common.Map.{
  Map, find, insert, emplace, bytes_key, bytes_before, bytes_eq_iff, find-insert, emplace_new,
  emplace_old,
}
use rtt_http.Codec.{
  Json, Items, Members, null, boolean, int64, uint64, double, string, array, object, nil, cons, end,
  member,
}
use rtt_http.Registry.{TypeRegistration, TypeProtocol, if_contains}

unfoldable pub to_members : {D : Type 0} → Map Bytes (Json D) → Members D
to_members [] = end
to_members ((k, v) ∷ m) = member k v (to_members m)

unfoldable mutual
  unfolding to_members emplace

  pub canonical_json : {D : Type 0} → Json D → Json D
  canonical_json (array xs) = array (canonical_items xs)
  canonical_json (object ms) = object (to_members (sorted ms []))
  canonical_json null = null
  canonical_json (boolean b) = boolean b
  canonical_json (int64 i) = int64 i
  canonical_json (uint64 n) = uint64 n
  canonical_json (double x) = double x
  canonical_json (string text) = string text

  pub canonical_items : {D : Type 0} → Items D → Items D
  canonical_items nil = nil
  canonical_items (cons x xs) = cons (canonical_json x) (canonical_items xs)

  -- The members, emplaced into a map that is sorted by the keys.
  pub sorted : {D : Type 0} → Members D → Map Bytes (Json D) → Map Bytes (Json D)
  sorted end m = m
  sorted (member k v ms) m = sorted ms (emplace k (canonical_json v) m).0

abbrev pub texts : {D : Type 0} → List Bytes → Items D
texts [] = nil
texts (t ∷ ts) = cons (string t) (texts ts)

abbrev pub listed : {D : Type 0} → List (Json D) → Items D
listed [] = nil
listed (x ∷ xs) = cons x (listed xs)

-- The array of the identity, with the canonical descriptor.
abbrev pub identity_with : {D : Type 0} → TypeRegistration D → Json D → Json D
identity_with r descriptor = array (
    listed (
      string r.provider_id
      ∷ string r.provider_version
      ∷ string r.codec_id
      ∷ string r.codec_version
      ∷ string r.rtt_type
      ∷ descriptor
      ∷ array (texts r.dependencies)
      ∷ []))

unfoldable pub identity_json : {D : Type 0} → TypeRegistration D → Json D
unfolding canonical_json
identity_json r = identity_with r (canonical_json (object r.descriptor))

-- `none` is the exception.
unfoldable pub fingerprint :
    {D : Type 0} → (Json D → Option Bytes) → TypeRegistration D → Option Bytes
unfolding identity_json
fingerprint serialize r = elim (serialize (object r.descriptor)) [
  | none ↦ none
  | some text ↦ serialize (identity_json r)
]

-- `descriptor[key] = value`.
unfoldable pub set_member : {D : Type 0} → Bytes → Json D → Members D → Members D
set_member key value end = member key value end
set_member key value (member k v ms) =
    let rest = set_member key value ms in
    if bytes_eq k key then member k value ms else member k v rest

unfoldable pub sort_insert : Bytes → List Bytes → List Bytes
sort_insert x [] = x ∷ []
sort_insert x (y ∷ ys) =
    let rest = sort_insert x ys in if bytes_before y x then y ∷ rest else x ∷ y ∷ ys

unfoldable pub sort : List Bytes → List Bytes
unfolding sort_insert
sort [] = []
sort (x ∷ xs) = sort_insert x (sort xs)

unfoldable pub unique : List Bytes → List Bytes
unique [] = []
unique (x ∷ xs) = elim (unique xs) [
  | [] ↦ x ∷ []
  | y ∷ ys ↦ if bytes_eq x y then y ∷ ys else x ∷ y ∷ ys
]

-- What the constructor makes of its argument.
unfoldable pub complete_registration : {D : Type 0} → TypeRegistration D → TypeRegistration D
unfolding set_member sort unique
complete_registration registration = record registration {
  dependencies = unique (sort registration.dependencies);
  descriptor =
      set_member (codes "reason") null
        (set_member (codes "jsonSupported") (boolean true) registration.descriptor);
}

unfoldable pub make_type_protocol :
    {D : Type 0} → (Json D → Option Bytes) → TypeRegistration D → ℕ → Option (TypeProtocol D)
unfolding fingerprint complete_registration
make_type_protocol serialize registration codec =
    let r = complete_registration registration in
    elim (fingerprint serialize r) [
      | none ↦ none
      | some print ↦ some (record { registration = r; fingerprint = print; codec = codec })
    ]
