-- ===== src/Registry/Canonical/Table.antt =====
-- The table of src/canonical_types.cpp against the checks of src/type_protocol.cpp.
use rtt_http.Common.{
  ℕ, Bool, true, false, ◌&&◌, Option, none, some, List, [], ◌∷◌, Bytes, bytes_eq, any, ◌≡◌, inl,
  inr, refl, sym, ap, ◌∙◌, subst, arith, Bool-cases, Option-cases, all,
}
use rtt_http.Common.Map.{Map, find, emplace, bytes_key, bytes_eq_iff}
use rtt_http.Codec.{Json}
use rtt_http.Registry.{TypeRegistration, TypeProtocol}
use rtt_http.Registry.Descriptor.{validate_registration, valid_name}
use rtt_http.Registry.Identity.{make_type_protocol, complete_registration, fingerprint}
use rtt_http.Registry.Freeze.{Mark, done, search_types}
use rtt_http.Registry.Canonical.{
  Canonical, canonical_table, canonical_registration, find_canonical, Platform, canonical_protocol,
  made,
}

-- The protocol that is made: its registration as the constructor leaves it.
abbrev pub made_registration : {D : Type 0} → Canonical D → TypeRegistration D
made_registration c = complete_registration (canonical_registration c)

unfoldable pub made_types : {D : Type 0} → List (Canonical D) → Map Bytes (TypeRegistration D)
unfolding complete_registration emplace
made_types [] = []
made_types (c ∷ cs) = (emplace c.type_name (made_registration c) (made_types cs)).0

is_accepted : {D : Type 0} → TypeRegistration D → Bool
is_accepted r = elim (validate_registration r) [ none ↦ true | some e ↦ false ]

table_accepted :
    (D : Type 0) (m s : Bool)
    → all (λ c. is_accepted (made_registration c)) (canonical_table {D = D} m s) ≡ true
unfolding is_accepted validate_registration complete_registration bytes_eq valid_name all any
table_accepted D false false = refl
table_accepted D true false = refl
table_accepted D false true = refl
table_accepted D true true = refl

-- The protocols of the table, in whichever build, pass the search of `freezeTypeCatalog`: each
-- array and enumeration of it refers to a type of the table.
pub canonical_table_freezes :
    (D : Type 0) (rt_malloc char_signed : Bool)
    → (marks : Bytes → Mark) × (search_types
          (made_types (canonical_table {D = D} rt_malloc char_signed))
        ≡ done marks)
unfolding search_types made_types bytes_eq find
canonical_table_freezes D false false = (_, refl)
canonical_table_freezes D true false = (_, refl)
canonical_table_freezes D false true = (_, refl)
canonical_table_freezes D true true = (_, refl)

and_left : (a b : Bool) → (a && b) ≡ true → a ≡ true
and_left a b h = ground (arith, h)

and_right : (a b : Bool) → (a && b) ≡ true → b ≡ true
and_right a b h = ground (arith, h)

one_entry : {D : Type 0} {x c : Canonical D} → some x ≡ some c → x ≡ c
one_entry e = cc

none_accepted :
    {D : Type 0} (r : TypeRegistration D) → is_accepted r ≡ true → validate_registration r ≡ none
unfolding is_accepted
none_accepted r h = ground (arith, h)

same_registration :
    {D : Type 0} (q p : TypeProtocol D) → some q ≡ some p → q.registration ≡ p.registration
same_registration q p e = cc

one_made : {D : Type 0} {q p : TypeProtocol D} → made q ≡ made p → q ≡ p
one_made e = cc

make_type_protocol_inv :
    {D : Type 0} (serialize : Json D → Option Bytes) (r : TypeRegistration D) (codec : ℕ)
    (p : TypeProtocol D)
    → make_type_protocol serialize r codec ≡ some p
    → complete_registration r ≡ p.registration
unfolding make_type_protocol
make_type_protocol_inv serialize r codec p h =
    elim (Option-cases (fingerprint serialize (complete_registration r))) [
      | inl e ↦ absurd (ground (arith, e, h))
      | inr (f, e) ↦
          same_registration
            (record { registration = complete_registration r; fingerprint = f; codec = codec }) p
            (ground (arith, e, h))
    ]

accepted_found :
    {D : Type 0} (name : Bytes) (cs : List (Canonical D)) (c : Canonical D)
    → all (λ c. is_accepted (made_registration c)) cs ≡ true
    → find_canonical name cs ≡ some c
    → (validate_registration (made_registration c) ≡ none) × (c.type_name ≡ name)
unfolding all find_canonical is_accepted
accepted_found name [] c a h = absurd (ground (arith, h))
accepted_found name (x ∷ cs) c a h = elim (Bool-cases (bytes_eq name x.type_name)) [
  | inr e ↦
      accepted_found name cs c
        (and_right (is_accepted (made_registration x))
          (all (λ c. is_accepted (made_registration c)) cs) a)
        (ground (arith, e, h))
  | inl e ↦
      let same : x ≡ c = one_entry (ground (arith, e, h)) in
      (
        none_accepted (made_registration c) (
            subst (λ y. is_accepted (made_registration y) ≡ true) same
              (and_left (is_accepted (made_registration x))
                (all (λ c. is_accepted (made_registration c)) cs) a)),
        sym (ap (λ y. y.type_name) same) ∙ sym ((bytes_eq_iff name x.type_name).0 e),
      )
]

-- A protocol that `canonicalProtocol` makes stands for the type of the name that was asked for, and
-- `validateRegistration` accepts it.
pub canonical_protocol_accepted :
    (D : Type 0) (serialize : Json D → Option Bytes) (platform : Platform) (name : Bytes)
    (p : TypeProtocol D)
    → canonical_protocol serialize platform name ≡ made p
    → (validate_registration p.registration ≡ none) × (p.registration.rtt_type ≡ name)
unfolding canonical_protocol complete_registration
canonical_protocol_accepted D serialize platform name p h =
    let table = canonical_table {D = D} platform.rt_malloc platform.char_signed in
    elim (Option-cases (find_canonical name table)) [
      | inl e ↦ absurd (ground (arith, e, h))
      | inr (c, e) ↦
          elim (Option-cases
            (make_type_protocol serialize (canonical_registration c) (platform.codec_at name))) [
              | inl f ↦ absurd (ground (arith, e, f, h))
              | inr (q, f) ↦
                  let same =
                    make_type_protocol_inv serialize (canonical_registration c)
                      (platform.codec_at name) q f in
                  let (valid, named) =
                    accepted_found name table c
                      (table_accepted D platform.rt_malloc platform.char_signed) e in
                  let is_p : q ≡ p = one_made (ground (arith, e, f, h)) in
                  subst
                    (λ x.
                      (validate_registration x.registration ≡ none)
                      × (x.registration.rtt_type ≡ name))
                    is_p
                    (
                      subst (λ x. validate_registration x ≡ none) same valid,
                      sym (ap (λ x. x.rtt_type) same) ∙ named,
                    )
            ]
    ]
