-- ===== src/Registry/Descriptor/References.antt =====
-- The references and the dependencies in `validateRegistration` of src/type_protocol.cpp.
use rtt_http.Common.{
  false, Option, none, some, [], Bytes, codes, bytes_eq, ◌≡◌, ◌≢◌, ◌↔◌, ◌⊎◌, inl, inr, refl, sym,
  ap, ◌∙◌, subst, arith, Bool-cases, Option-cases,
}
use rtt_http.Common.Map.{bytes_key, bytes_eq_iff}
use rtt_http.Codec.{Json, Items, Members, array}
use rtt_http.Registry.{TypeRegistration, if_contains, Listed}
use rtt_http.Registry.Descriptor.{
  Set, bad, refers, string_at, add_reference, check_integer, check_float, check_numeric, check_enum,
  check_array, check_fields, check_object, check_kind, to_set, validate_registration, width_of,
  invalid_field, invalid_object,
}
use rtt_http.Registry.Descriptor.Sets.{
  Checked-cases, In, In-nil, In-emplace_to, In-emplace_of, to_set-Listed, Listed-to_set,
  same_sets_lem,
}
use rtt_http.Registry.Descriptor.Fields.{
  FieldRefers, Refers, underlying, element, field_type, add_reference_inv, check_fields-In,
  FieldRefers-In,
}

module _ {D : Type 0} where
  check_numeric-refers :
      (kind : Bytes) (o : Members D) (refs : Set) → check_numeric kind o ≡ refers refs → refs ≡ []
  unfolding check_numeric check_integer check_float
  check_numeric-refers kind o refs h =
      elim (Option-cases (width_of (if_contains (codes "bits") o))) [
        | inl e ↦ absurd (ground (arith, e, h))
        | inr (bits, e) ↦ ground (arith, e, h)
      ]

  -- The checks of the kinds that refer to other types.
  check_kind-cases :
      (kind : Bytes) (o : Members D) (refs : Set)
      → check_kind kind o ≡ refers refs
      → ((kind ≡ codes "enum") × (check_enum o ≡ refers refs))
        ⊎ ((kind ≡ codes "array") × (check_array o ≡ refers refs))
        ⊎ ((kind ≡ codes "object") × (check_object o ≡ refers refs))
        ⊎ ((refs ≡ []) × (kind ≢ codes "enum") × (kind ≢ codes "array") × (kind ≢ codes "object"))
  unfolding check_kind bytes_eq
  check_kind-cases kind o refs h = elim (Bool-cases (bytes_eq kind (codes "enum"))) [
    | inl e ↦
        let k = (bytes_eq_iff kind (codes "enum")).0 e in
        inl (k, subst (λ x. check_kind x o ≡ refers refs) k h)
    | inr ne ↦ elim (Bool-cases (bytes_eq kind (codes "array"))) [
      | inl e ↦
          let k = (bytes_eq_iff kind (codes "array")).0 e in
          inr (inl (k, subst (λ x. check_kind x o ≡ refers refs) k h))
      | inr na ↦ elim (Bool-cases (bytes_eq kind (codes "object"))) [
        | inl e ↦
            let k = (bytes_eq_iff kind (codes "object")).0 e in
            inr (inr (inl (k, subst (λ x. check_kind x o ≡ refers refs) k h)))
        | inr nj ↦ inr (
            inr (
              inr (
                other refs h ne na nj,
                λ q. ground (arith, bytes_eq_iff kind (codes "enum"), q, ne),
                λ q. ground (arith, bytes_eq_iff kind (codes "array"), q, na),
                λ q. ground (arith, bytes_eq_iff kind (codes "object"), q, nj),
              )))
      ]
    ]
  ]
    where
      other :
          (refs : Set)
          → check_kind kind o ≡ refers refs
          → bytes_eq kind (codes "enum") ≡ false
          → bytes_eq kind (codes "array") ≡ false
          → bytes_eq kind (codes "object") ≡ false
          → refs ≡ []
      other refs h ne na nj = ground (arith, check_numeric-refers kind o refs)

  single_inv :
      (d : Bytes) (o : Members D) (key : Bytes) (refs : Set)
      → add_reference o key [] ≡ some refs
      → In d refs
      → string_at key o ≡ some d
  single_inv d o key refs h i =
      let (t, e, eq) = add_reference_inv o key [] refs h in
      elim (In-emplace_to d t [] (subst (In d) eq i)) [
        | inl same ↦ e ∙ ap (λ x. some x) (sym same)
        | inr n ↦ absurd (In-nil d n)
      ]

  single_of :
      (d : Bytes) (o : Members D) (key : Bytes) (refs : Set)
      → add_reference o key [] ≡ some refs
      → string_at key o ≡ some d
      → In d refs
  single_of d o key refs h f =
      let (t, e, eq) = add_reference_inv o key [] refs h in
      subst (In d) (sym eq) (In-emplace_of d t [] (inl (ground (arith, e, f))))

  check_enum_inv :
      (o : Members D) (refs : Set)
      → check_enum o ≡ refers refs
      → add_reference o (codes "underlyingType") [] ≡ some refs
  unfolding check_enum
  check_enum_inv o refs h = ground (arith, h)

  check_array_inv :
      (o : Members D) (refs : Set)
      → check_array o ≡ refers refs
      → add_reference o (codes "elementType") [] ≡ some refs
  unfolding check_array
  check_array_inv o refs h = ground (arith, h)

  check_object_inv :
      (o : Members D) (refs : Set)
      → check_object o ≡ refers refs
      → (fields : Items D) × (if_contains (codes "fields") o ≡ some (array fields))
        × (check_fields fields [] [] ≡ some refs)
  unfolding check_object
  check_object_inv o refs h = at_fields (if_contains (codes "fields") o) refl h
    where
      at_fields :
          (found : Option (Json D))
          → if_contains (codes "fields") o ≡ found
          → (elim found [
            | some (array fields) ↦ elim (check_fields fields [] []) [
              | none ↦ bad invalid_field
              | some references ↦ refers references
            ]
            | _ ↦ bad invalid_object
          ])
            ≡ refers refs
          → (fields : Items D) × (if_contains (codes "fields") o ≡ some (array fields))
            × (check_fields fields [] [] ≡ some refs)
      at_fields (some (array fields)) e h = (fields, e, ground (arith, h))
      at_fields _ e h = absurd (ground (arith, h))

  one_array : {xs ys : Items D} → some (array xs) ≡ some (array ys) → xs ≡ ys
  one_array e = cc

  check_kind-at :
      (o : Members D) (kind k : Bytes) (refs : Set)
      → string_at (codes "kind") o ≡ some kind
      → string_at (codes "kind") o ≡ some k
      → check_kind kind o ≡ refers refs
      → check_kind k o ≡ refers refs
  check_kind-at o kind k refs e f h =
      subst (λ x. check_kind x o ≡ refers refs) (ground (arith, e, f)) h

  Refers-In :
      (d : Bytes) (o : Members D) (kind : Bytes) (refs : Set)
      → string_at (codes "kind") o ≡ some kind
      → check_kind kind o ≡ refers refs
      → Refers o d
      → In d refs
  unfolding check_kind bytes_eq
  Refers-In d o kind refs k h (underlying e f) =
      single_of d o (codes "underlyingType") refs
        (check_enum_inv o refs (check_kind-at o kind (codes "enum") refs k e h)) f
  Refers-In d o kind refs k h (element e f) =
      single_of d o (codes "elementType") refs
        (check_array_inv o refs (check_kind-at o kind (codes "array") refs k e h)) f
  Refers-In d o kind refs k h (field_type fields e f g) =
      let (fields', f', checked) =
        check_object_inv o refs (check_kind-at o kind (codes "object") refs k e h) in
      FieldRefers-In d fields' [] [] refs checked
        (inr (subst (FieldRefers d) (one_array (sym f ∙ f')) g))

  In-Refers :
      (d : Bytes) (o : Members D) (kind : Bytes) (refs : Set)
      → string_at (codes "kind") o ≡ some kind
      → check_kind kind o ≡ refers refs
      → In d refs
      → Refers o d
  In-Refers d o kind refs k h i = elim (check_kind-cases kind o refs h) [
    | inl (e, c) ↦
        underlying (k ∙ ap (λ x. some x) e)
          (single_inv d o (codes "underlyingType") refs (check_enum_inv o refs c) i)
    | inr (inl (e, c)) ↦
        element (k ∙ ap (λ x. some x) e)
          (single_inv d o (codes "elementType") refs (check_array_inv o refs c) i)
    | inr (inr (inl (e, c))) ↦
        let (fields, f, checked) = check_object_inv o refs c in
        elim (check_fields-In d fields [] [] refs checked i) [
          | inl n ↦ absurd (In-nil d n)
          | inr g ↦ field_type fields (k ∙ ap (λ x. some x) e) f g
        ]
    | inr (inr (inr (e, _, _, _))) ↦ absurd (In-nil d (subst (In d) e i))
  ]

  validate_registration_inv :
      (r : TypeRegistration D)
      → validate_registration r ≡ none
      → (kind : Bytes) × (refs : Set) × (string_at (codes "kind") r.descriptor ≡ some kind)
        × (check_kind kind r.descriptor ≡ refers refs)
        × (refs ≡ to_set r.dependencies)
  unfolding validate_registration
  validate_registration_inv r h = elim (Option-cases (string_at (codes "kind") r.descriptor)) [
    | inl e ↦ absurd (ground (arith, e, h))
    | inr (kind, e) ↦ elim (Checked-cases (check_kind kind r.descriptor)) [
      | inl (x, c) ↦ absurd (ground (arith, e, c, h))
      | inr (refs, c) ↦
          (kind, refs, e, c, same_sets_lem refs (to_set r.dependencies) (ground (arith, e, c, h)))
    ]
  ]

-- The dependencies of a registration that `validateRegistration` accepts are the types that its
-- descriptor refers to: the underlying type of an enumeration, the elements' type of an array, the
-- types of an object's fields, and none for another kind.
pub validate_registration-Refers :
    (D : Type 0) (r : TypeRegistration D) (d : Bytes)
    → validate_registration r ≡ none
    → Listed d r.dependencies ↔ Refers r.descriptor d
validate_registration-Refers D r d h =
    let (kind, refs, k, c, e) = validate_registration_inv r h in
    (
      λ l.
          In-Refers d r.descriptor kind refs k c
            (subst (In d) (sym e) (Listed-to_set d r.dependencies l)),
      λ f.
          to_set-Listed d r.dependencies
            (subst (In d) e (Refers-In d r.descriptor kind refs k c f)),
    )
