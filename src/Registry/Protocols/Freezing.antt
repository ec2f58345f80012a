-- ===== src/Registry/Protocols/Freezing.antt =====
-- `freezeTypeCatalog` of src/type_protocol.cpp as a whole.
use rtt_http.Common.{
  true, false, Option, none, some, [], Bytes, ◌≡◌, ◌⊎◌, inl, inr, refl, arith, Bool-cases,
  Option-cases,
}
use rtt_http.Registry.{TypeCatalog}
use rtt_http.Registry.Freeze.{FreezeError, fault, done, search_types, Mark, slot_changed}
use rtt_http.Registry.Freeze.Ends.{Searched-cases, search_types_ends}
use rtt_http.Registry.Protocols.{
  TypeInfo, State, freeze_type_catalog, stage_types, registrations_of, clear, failed,
}

module _ {D R : Type 0} (rtt : TypeInfo R) (s : State D) (r : R) where
  -- What is staged from the registrations.
  abbrev pub staged : Option (TypeCatalog D)
  staged = stage_types rtt r s.registrations (record { types = []; identities = [] })

  abbrev pub freeze_with : TypeCatalog D → State D
  freeze_with c = record {
    frozen = true;
    registrations = s.registrations;
    catalog = some c;
    freeze_error = clear;
  }

  abbrev pub freeze_without : FreezeError → State D
  freeze_without e = record {
    frozen = true;
    registrations = s.registrations;
    catalog = s.catalog;
    freeze_error = failed e;
  }

  -- The catalog that is kept.
  pub record Freezes (c : TypeCatalog D) : Type 0 where
    pub unfrozen : s.frozen ≡ false
    pub staging : staged ≡ some c
    pub marks : Bytes → Mark
    pub search : search_types (registrations_of c.types) ≡ done marks
    pub result : freeze_type_catalog rtt s r ≡ (some c, freeze_with c)

  pub record Fails (e : FreezeError) : Type 0 where
    pub unfrozen : s.frozen ≡ false
    pub reason :
        (staged ≡ none)
        ⊎ ((c : TypeCatalog D) × (staged ≡ some c)
            × (search_types (registrations_of c.types) ≡ fault e))
    pub result : freeze_type_catalog rtt s r ≡ (none, freeze_without e)

  pub freeze_cases :
      ((s.frozen ≡ true) × (freeze_type_catalog rtt s r ≡ (s.catalog, s)))
      ⊎ ((c : TypeCatalog D) × Freezes c)
      ⊎ ((e : FreezeError) × Fails e)
  unfolding freeze_type_catalog
  freeze_cases = elim (Bool-cases s.frozen) [
    | inl f ↦ inl (f, ground (arith, f))
    | inr f ↦ elim (Option-cases staged) [
      | inl g ↦
          inr (inr (slot_changed, record { unfrozen = f; reason = inl g; result = rw (f, g) refl }))
      | inr (c, g) ↦ elim (Searched-cases (search_types (registrations_of c.types))) [
        | inl h ↦ absurd (search_types_ends D (registrations_of c.types) h)
        | inr (inl (e, h)) ↦
            inr
              (inr (e, record { unfrozen = f; reason = inr (c, g, h); result = rw (f, g, h) refl }))
        | inr (inr (m, h)) ↦ inr (
            inl (
              c,
              record {
                unfrozen = f;
                staging = g;
                marks = m;
                search = h;
                result = rw (f, g, h) refl;
              },
            ))
      ]
    ]
  ]
