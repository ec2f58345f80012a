-- ===== src/Registry/Descriptor/Fields.antt =====
-- The fields in `validateRegistration` of src/type_protocol.cpp, and what a descriptor refers to.
use rtt_http.Common.{
  some, Bytes, codes, ◌≡◌, ◌⊎◌, inl, inr, refl, sym, ap, ◌∙◌, subst, arith, Option-cases,
}
use rtt_http.Common.Map.{emplace, bytes_key}
use rtt_http.Codec.{Json, Items, Members, array, object, nil, cons}
use rtt_http.Registry.{if_contains}
use rtt_http.Registry.Descriptor.{Set, string_at, add_reference, check_field, check_fields}
use rtt_http.Registry.Descriptor.Sets.{In, In-emplace_to, In-emplace_of}

module _ {D : Type 0} where
  -- A field of the list has the type `d`.
  pub data FieldRefers (d : Bytes) : Items D → Type 0 where
    here :
        (field : Members D) (rest : Items D)
        → string_at (codes "rttType") field ≡ some d
        → FieldRefers d (cons (object field) rest)
    there : (j : Json D) (rest : Items D) → FieldRefers d rest → FieldRefers d (cons j rest)

  -- The types that a descriptor refers to.
  pub data Refers (o : Members D) (d : Bytes) : Type 0 where
    underlying :
        string_at (codes "kind") o ≡ some (codes "enum")
        → string_at (codes "underlyingType") o ≡ some d
        → Refers o d
    element :
        string_at (codes "kind") o ≡ some (codes "array")
        → string_at (codes "elementType") o ≡ some d
        → Refers o d
    field_type :
        (fields : Items D)
        → string_at (codes "kind") o ≡ some (codes "object")
        → if_contains (codes "fields") o ≡ some (array fields)
        → FieldRefers d fields
        → Refers o d

  pub add_reference_inv :
      (o : Members D) (key : Bytes) (s s' : Set)
      → add_reference o key s ≡ some s'
      → (t : Bytes) × (string_at key o ≡ some t) × (s' ≡ (emplace t tt s).0)
  unfolding add_reference
  add_reference_inv o key s s' h = elim (Option-cases (string_at key o)) [
    | inl e ↦ absurd (ground (arith, e, h))
    | inr (t, e) ↦ (t, e, ground (arith, e, h))
  ]

  -- A field that is accepted is an object with a name and a type, and adds its type.
  pub check_field_inv :
      (j : Json D) (references names r' n' : Set)
      → check_field j references names ≡ some (r', n')
      → (field : Members D) × (t : Bytes) × (j ≡ object field)
        × (string_at (codes "rttType") field ≡ some t)
        × (r' ≡ (emplace t tt references).0)
  unfolding check_field
  check_field_inv (object field) references names r' n' h =
      elim (Option-cases (string_at (codes "name") field)) [
        | inl e ↦ absurd (ground (arith, e, h))
        | inr (n, e) ↦ elim (Option-cases (add_reference field (codes "rttType") references)) [
          | inl a ↦ absurd (ground (arith, e, a, h))
          | inr (s', a) ↦
              let (t, found, eq) = add_reference_inv field (codes "rttType") references s' a in
              (field, t, refl, found, ground (arith, e, a, eq, h))
        ]
      ]
  check_field_inv _ references names r' n' h = absurd (ground (arith, h))

  pub check_fields_inv :
      (j : Json D) (rest : Items D) (references names refs : Set)
      → check_fields (cons j rest) references names ≡ some refs
      → (r' n' : Set) × (check_field j references names ≡ some (r', n'))
        × (check_fields rest r' n' ≡ some refs)
  unfolding check_fields
  check_fields_inv j rest references names refs h =
      elim (Option-cases (check_field j references names)) [
        | inl e ↦ absurd (ground (arith, e, h))
        | inr ((r', n'), e) ↦ (r', n', e, ground (arith, e, h))
      ]

  pub FieldRefers-inv :
      (d t : Bytes) (field : Members D) (j : Json D) (rest : Items D)
      → FieldRefers d (cons j rest)
      → j ≡ object field
      → string_at (codes "rttType") field ≡ some t
      → (d ≡ t) ⊎ FieldRefers d rest
  FieldRefers-inv d t field _ _ (here f rest e) eq h = inl (ground (arith, e, h, eq))
  FieldRefers-inv d t field _ _ (there j rest r) eq h = inr r

  pub check_fields-In :
      (d : Bytes) (fields : Items D) (references names refs : Set)
      → check_fields fields references names ≡ some refs
      → In d refs
      → In d references ⊎ FieldRefers d fields
  check_fields-In d nil references names refs h i = inl (unfold check_fields in cc)
  check_fields-In d (cons j rest) references names refs h i =
      let (r', n', one, more) = check_fields_inv j rest references names refs h in
      let (field, t, isj, found, eq) = check_field_inv j references names r' n' one in
      elim (check_fields-In d rest r' n' refs more i) [
        | inr f ↦ inr (there j rest f)
        | inl a ↦ elim (In-emplace_to d t references (subst (In d) eq a)) [
          | inr b ↦ inl b
          | inl same ↦ inr (
              subst (λ k. FieldRefers d (cons k rest)) (sym isj)
                (here field rest (found ∙ ap (λ x. some x) (sym same))))
        ]
      ]

  pub FieldRefers-In :
      (d : Bytes) (fields : Items D) (references names refs : Set)
      → check_fields fields references names ≡ some refs
      → In d references ⊎ FieldRefers d fields
      → In d refs
  FieldRefers-In d nil references names refs h (inl i) = unfold check_fields in cc
  FieldRefers-In d nil references names refs h (inr f) = elim f [ ]
  FieldRefers-In d (cons j rest) references names refs h (inl i) =
      let (r', n', one, more) = check_fields_inv j rest references names refs h in
      let (field, t, isj, found, eq) = check_field_inv j references names r' n' one in
      FieldRefers-In d rest r' n' refs more
        (inl (subst (In d) (sym eq) (In-emplace_of d t references (inr i))))
  FieldRefers-In d (cons j rest) references names refs h (inr f) =
      let (r', n', one, more) = check_fields_inv j rest references names refs h in
      let (field, t, isj, found, eq) = check_field_inv j references names r' n' one in
      FieldRefers-In d rest r' n' refs more (elim (FieldRefers-inv d t field j rest f isj found) [
        | inl same ↦ inl (subst (In d) (sym eq) (In-emplace_of d t references (inl same)))
        | inr g ↦ inr g
      ])
