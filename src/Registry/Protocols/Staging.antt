-- ===== src/Registry/Protocols/Staging.antt =====
-- The catalog that `freezeTypeCatalog` of src/type_protocol.cpp stages.
use rtt_http.Common.{
  ℕ, none, some, [], ◌∷◌, Bytes, ◌==◌, ◌≡◌, ◌≢◌, inl, inr, refl, sym, subst, arith, Bool-cases,
  ==_iff, All, All-imp,
}
use rtt_http.Common.Map.{
  Map, find, emplace, bytes_key, address_key, All-emplace, IsProper, emplace-IsProper,
  find-emplace-some, find-emplace_same, find-All,
}
use rtt_http.Registry.{TypeProtocol, TypeBinding, TypeCatalog, TypeRegistration}
use rtt_http.Registry.Descriptor.{validate_registration}
use rtt_http.Registry.Protocols.{
  TypeInfo, Pointer, stage_type, stage_types, registrations_of, find_type, find_name,
}

-- A binding that stands under its own name, and was validated.
pub record IsBound {D : Type 0} (name : Bytes) (r : TypeRegistration D) (codec : ℕ) : Type 0 where
  pub validated : validate_registration r ≡ none
  pub named : r.rtt_type ≡ name
  pub has_codec : codec ≢ 0

module _ {D R : Type 0} (rtt : TypeInfo R) where
  -- A protocol that may be registered for the type.
  abbrev pub MayRegister : ℕ → TypeProtocol D → Type 0
  MayRegister type p = IsBound (rtt.type_name type) p.registration p.codec

  abbrev Bound : Map Bytes (TypeBinding D) → ℕ × Bytes → Type 0
  Bound types e = (b : TypeBinding D) × (find e.1 types ≡ some b)

  pub record IsStaged (c : TypeCatalog D) : Type 0 where
    pub names : All (λ e. e.1 ≡ rtt.type_name e.0) c.identities
    pub good : All (λ e. IsBound e.0 e.1.registration e.1.codec) c.types
    pub proper : IsProper c.types
    pub bound : All (Bound c.types) c.identities

  Bound-emplace :
      (k : Bytes) (v : TypeBinding D) (types : Map Bytes (TypeBinding D)) (e : ℕ × Bytes)
      → Bound types e
      → Bound (emplace k v types).0 e
  Bound-emplace k v types e (b, f) = (b, find-emplace-some e.1 k v b types f)

  stage_type-IsStaged :
      (type : ℕ) (p : TypeProtocol D) (c : TypeCatalog D)
      → MayRegister type p
      → IsStaged c
      → IsStaged (stage_type rtt type p c)
  unfolding stage_type
  stage_type-IsStaged type p c h s =
      let name = rtt.type_name type in
      let binding : TypeBinding D = record { registration = p.registration; codec = p.codec } in
      let types = (emplace name binding c.types).0 in
      record {
        names = All-emplace (λ e. e.1 ≡ rtt.type_name e.0) type name c.identities refl s.names;
        good =
            All-emplace (λ e. IsBound e.0 e.1.registration e.1.codec) name binding c.types h s.good;
        proper = emplace-IsProper name binding c.types s.proper;
        bound =
            All-emplace (Bound types) type name c.identities
              (find-emplace_same name binding c.types)
              (All-imp (Bound c.types) (Bound types) (Bound-emplace name binding c.types)
                c.identities s.bound);
      }

  stage_types_nil : (r : R) (c c' : TypeCatalog D) → stage_types rtt r [] c ≡ some c' → c ≡ c'
  unfolding stage_types
  stage_types_nil r c c' h = cc

  stage_types_inv :
      (r : R) (type : ℕ) (p : Pointer D) (rest : Map ℕ (Pointer D)) (c c' : TypeCatalog D)
      → stage_types rtt r ((type, p) ∷ rest) c ≡ some c'
      → (rtt.get_protocol r type ≡ p.address)
        × (stage_types rtt r rest (stage_type rtt type p.target c) ≡ some c')
  unfolding stage_types
  stage_types_inv r type p rest c c' h = elim (Bool-cases (rtt.get_protocol r type == p.address)) [
    | inl e ↦ ((==_iff (rtt.get_protocol r type) p.address).0 e, ground (arith, e, h))
    | inr e ↦ absurd (ground (arith, e, h))
  ]

  pub stage_types-IsStaged :
      (r : R) (m : Map ℕ (Pointer D)) (c c' : TypeCatalog D)
      → All (λ e. MayRegister e.0 e.1.target) m
      → IsStaged c
      → stage_types rtt r m c ≡ some c'
      → IsStaged c'
  stage_types-IsStaged r [] c c' a s h = subst IsStaged (stage_types_nil r c c' h) s
  stage_types-IsStaged r ((type, p) ∷ rest) c c' (v, a) s h =
      let (slot, more) = stage_types_inv r type p rest c c' h in
      stage_types-IsStaged r rest (stage_type rtt type p.target c) c' a
        (stage_type-IsStaged type p.target c v s) more

  abbrev pub Identified : ℕ → TypeCatalog D → Type 0
  Identified t c = (n : Bytes) × (find t c.identities ≡ some n)

  stage_types_keeps :
      (r : R) (m : Map ℕ (Pointer D)) (c c' : TypeCatalog D) (t : ℕ)
      → stage_types rtt r m c ≡ some c'
      → Identified t c
      → Identified t c'
  unfolding stage_type
  stage_types_keeps r [] c c' t h f = subst (Identified t) (stage_types_nil r c c' h) f
  stage_types_keeps r ((type, p) ∷ rest) c c' t h (n, f) =
      let (slot, more) = stage_types_inv r type p rest c c' h in
      stage_types_keeps r rest (stage_type rtt type p.target c) c' t more
        (n, find-emplace-some t type (rtt.type_name type) n c.identities f)

  -- A registered type has its protocol in its slot, and is identified.
  pub stage_types_finds :
      (r : R) (m : Map ℕ (Pointer D)) (c c' : TypeCatalog D) (t : ℕ) (p : Pointer D)
      → stage_types rtt r m c ≡ some c'
      → find t m ≡ some p
      → (rtt.get_protocol r t ≡ p.address) × Identified t c'
  unfolding find stage_type
  stage_types_finds r [] c c' t p h f = absurd (ground (arith, f))
  stage_types_finds r ((type, q) ∷ rest) c c' t p h f =
      let (slot, more) = stage_types_inv r type q rest c c' h in
      elim (Bool-cases (t == type)) [
        | inl same ↦ (
          ground (arith, f, same, slot, ==_iff t type),
          subst (λ x. Identified x c') (sym ((==_iff t type).0 same))
              (stage_types_keeps r rest (stage_type rtt type q.target c) c' type more
                (find-emplace_same type (rtt.type_name type) c.identities)),
        )
        | inr other ↦
            stage_types_finds r rest (stage_type rtt type q.target c) c' t p more
              (ground (arith, f, other))
      ]

  pub nothing-IsStaged : IsStaged (record { types = []; identities = [] })
  nothing-IsStaged = record { names = tt; good = tt; proper = tt; bound = tt }

  -- A type that is identified is found, under its own name.
  pub IsStaged-found :
      (c : TypeCatalog D) (t : ℕ)
      → IsStaged c
      → Identified t c
      → (b : TypeBinding D) × (find_type t c ≡ some b)
        × IsBound (rtt.type_name t) b.registration b.codec
  unfolding find_type find_name
  IsStaged-found c t s (n, f) =
      let name = find-All (λ e. e.1 ≡ rtt.type_name e.0) t n c.identities s.names f in
      let (b, g) = find-All (Bound c.types) t n c.identities s.bound f in
      let good = find-All (λ e. IsBound e.0 e.1.registration e.1.codec) n b c.types s.good g in
      (b, ground (arith, f, g), subst (λ x. IsBound x b.registration b.codec) name good)

-- The search sees the registrations of the bindings.
pub registrations_of-find :
    {D : Type 0} (k : Bytes) (m : Map Bytes (TypeBinding D)) (b : TypeBinding D)
    → find k m ≡ some b
    → find k (registrations_of m) ≡ some b.registration
unfolding find registrations_of
registrations_of-find k [] b h = absurd (ground (arith, h))
registrations_of-find k ((j, a) ∷ m) b h = ground (arith, h, registrations_of-find k m b)

module _ {D : Type 0} (all : Map Bytes (TypeBinding D)) where
  registrations_of-All :
      (m : Map Bytes (TypeBinding D))
      → All (λ e. find e.0 all ≡ some e.1) m
      → All (λ e. find e.0 (registrations_of all) ≡ some e.1) (registrations_of m)
  unfolding registrations_of
  registrations_of-All [] a = tt
  registrations_of-All ((name, b) ∷ m) (f, a) =
      (registrations_of-find name all b f, registrations_of-All m a)

pub registrations_of-IsProper :
    {D : Type 0} (m : Map Bytes (TypeBinding D)) → IsProper m → IsProper (registrations_of m)
registrations_of-IsProper m a = registrations_of-All m m a
