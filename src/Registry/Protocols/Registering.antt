-- ===== src/Registry/Protocols/Registering.antt =====
-- The registration of a protocol, `registerTypeProtocol` of src/type_protocol.cpp.
use rtt_http.Common.{
  ℕ, true, false, ◌||◌, not, Option, none, some, ◌==◌, bytes_eq, ◌≡◌, ◌≢◌, ◌⊎◌, inl, inr, refl, sym,
  ap, ◌∙◌, subst, arith, Bool-cases, Option-cases, ==_iff,
}
use rtt_http.Common.Map.{
  Map, find, emplace, erase_key, bytes_key, address_key, bytes_eq_iff, find-erase_key, find-emplace,
}
use rtt_http.Registry.{TypeProtocol}
use rtt_http.Registry.Descriptor.{validate_registration}
use rtt_http.Registry.Protocols.{
  TypeInfo, IsTypeInfo, Added, accepts, rejects, throws, Pointer, State, Registered, Refusal,
  registered, refused, threw, invalid_registration, invalid_descriptor, conflicting, catalog_frozen,
  is_known, add_type_protocol, register_type_protocol, registered_type_codec,
}
use rtt_http.Registry.Protocols.Staging.{MayRegister}

Added-cases : (a : Added) → (a ≡ accepts) ⊎ (a ≡ rejects) ⊎ (a ≡ throws)
Added-cases accepts = inl refl
Added-cases rejects = inr (inl refl)
Added-cases throws = inr (inr refl)

refused-ne : {e : Refusal} → refused e ≢ registered
refused-ne h = cc

threw-ne : threw ≢ registered
threw-ne h = cc

module _ {D : Type 0} (s : State D) where
  -- The registry is the one before, as far as its registrations are found.
  pub record IsUnchanged (s' : State D) : Type 0 where
    pub same_registrations : (t : ℕ) → find t s'.registrations ≡ find t s.registrations
    pub same_frozen : s'.frozen ≡ s.frozen
    pub same_catalog : s'.catalog ≡ s.catalog
    pub same_text : s'.freeze_error ≡ s.freeze_error

  unchanged : IsUnchanged s
  unchanged = record {
    same_registrations = λ t. refl;
    same_frozen = refl;
    same_catalog = refl;
    same_text = refl;
  }

module _ {D R : Type 0} (rtt : TypeInfo R) (type : ℕ) where
  -- What a registered type has.
  pub record IsRegistered (s' : State D) (r' : R) : Type 0 where
    pub pointer : Pointer D
    pub known : find type s'.registrations ≡ some pointer
    pub in_slot : rtt.get_protocol r' type ≡ pointer.address
    pub codec_found : registered_type_codec rtt type s' r' ≡ pointer.target.codec

module _ {D R : Type 0} (rtt : TypeInfo R) (heap : ℕ → Option (TypeProtocol D)) (type : ℕ)
    (s : State D) (r : R) where
  -- What passed the first checks.
  pub record Passes (p : TypeProtocol D) : Type 0 where
    pub not_null : type ≢ 0
    pub may : MayRegister rtt type p

  abbrev pub Kept : Registered × State D × R → Type 0
  Kept q = (e : Refusal) × (q ≡ (refused e, s, r))

  pub register_cases :
      (protocol : Option (Pointer D))
      → Kept (register_type_protocol rtt heap type protocol s r)
        ⊎ ((p : Pointer D) × (protocol ≡ some p)
            × Passes p.target
            × (((is_known rtt heap p.target type s r ≡ true)
                  × (register_type_protocol rtt heap type protocol s r ≡ (registered, s, r)))
                ⊎ ((s.frozen ≡ false)
                    × (register_type_protocol rtt heap type protocol s r
                        ≡ add_type_protocol rtt type p s r))))
  unfolding register_type_protocol
  register_cases none = inl (invalid_registration, refl)
  register_cases (some p) =
      elim (Bool-cases (
        type == 0
        || (p.target.codec == 0
            || not (bytes_eq (rtt.type_name type) p.target.registration.rtt_type)))) [
              | inl e ↦ inl (invalid_registration, ground (arith, e))
              | inr e ↦ elim (Option-cases (validate_registration p.target.registration)) [
                | inr (x, v) ↦ inl (invalid_descriptor x, ground (arith, e, v))
                | inl v ↦
                    let passes : Passes p.target = record {
                      not_null = λ z. ground (arith, e, z);
                      may = record {
                        validated = v;
                        named = sym (
                            (bytes_eq_iff (rtt.type_name type) p.target.registration.rtt_type).0
                              (ground (arith, e)));
                        has_codec = λ z. ground (arith, e, z);
                      };
                    } in
                    elim (Bool-cases (rtt.has_protocol r type)) [
                      | inl h ↦ elim (Bool-cases (is_known rtt heap p.target type s r)) [
                        | inl k ↦ inr (p, refl, passes, inl (k, ground (arith, e, v, h, k)))
                        | inr k ↦ inl (conflicting, ground (arith, e, v, h, k))
                      ]
                      | inr h ↦ elim (Bool-cases s.frozen) [
                        | inl f ↦ inl (catalog_frozen, ground (arith, e, v, h, f))
                        | inr f ↦ inr (p, refl, passes, inr (f, ground (arith, e, v, h, f)))
                      ]
                    ]
              ]
            ]

  -- An entry that was inserted and erased is not found, and was not before.
  erased_same :
      (p : Pointer D) (t : ℕ)
      → (emplace type p s.registrations).1 ≡ true
      → find t (erase_key type (emplace type p s.registrations).0) ≡ find t s.registrations
  unfolding emplace
  erased_same p t h =
      find-erase_key t type (emplace type p s.registrations).0
      ∙ ground (arith, find-emplace t type p s.registrations, h, ==_iff t type)

  abbrev pub with_registrations : Map ℕ (Pointer D) → State D
  with_registrations m = record s { registrations = m }

  pub add_cases :
      (p : Pointer D)
      → ((add_type_protocol rtt type p s r).0 ≢ registered)
          × ((add_type_protocol rtt type p s r).1 ≡ s)
        ⊎ (((emplace type p s.registrations).1 ≡ true)
            × (((rtt.add_protocol r type p.address).0 ≡ accepts)
                  × (add_type_protocol rtt type p s r ≡ (
                    registered,
                    with_registrations (emplace type p s.registrations).0,
                    (rtt.add_protocol r type p.address).1,
                  ))
                ⊎ ((add_type_protocol rtt type p s r).0 ≢ registered)
                  × ((add_type_protocol rtt type p s r).1
                      ≡ with_registrations (erase_key type (emplace type p s.registrations).0))))
  unfolding add_type_protocol
  add_cases p = elim (Bool-cases (emplace type p s.registrations).1) [
    | inr e ↦ inl (rw e refused-ne, rw e refl)
    | inl e ↦ inr (
      e,
      elim (Added-cases (rtt.add_protocol r type p.address).0) [
        | inl a ↦ inl (a, rw (e, a) refl)
        | inr (inl a) ↦ inr (rw (e, a) refused-ne, rw (e, a) refl)
        | inr (inr a) ↦ inr (rw (e, a) threw-ne, rw (e, a) refl)
      ],
    )
  ]

  add_type_protocol-IsUnchanged :
      (p : Pointer D)
      → (add_type_protocol rtt type p s r).0 ≢ registered
      → IsUnchanged s (add_type_protocol rtt type p s r).1
  add_type_protocol-IsUnchanged p h = elim (add_cases p) [
    | inl (_, e) ↦ subst (IsUnchanged s) (sym e) (unchanged s)
    | inr (i, inl (_, e)) ↦ absurd (h (ap (λ q. q.0) e))
    | inr (i, inr (_, e)) ↦ subst (IsUnchanged s) (sym e) (record {
      same_registrations = λ t. erased_same p t i;
      same_frozen = refl;
      same_catalog = refl;
      same_text = refl;
    })
  ]

  to_registered :
      (s' : State D) (r' : R) (p : Pointer D)
      → type ≢ 0
      → find type s'.registrations ≡ some p
      → rtt.get_protocol r' type ≡ p.address
      → IsRegistered rtt type s' r'
  unfolding registered_type_codec
  to_registered s' r' p n f g = record {
    pointer = p;
    known = f;
    in_slot = g;
    codec_found = ground (arith, n, f, g);
  }

  is_known_inv :
      (p : TypeProtocol D)
      → is_known rtt heap p type s r ≡ true
      → (q : Pointer D) × (find type s.registrations ≡ some q)
        × (rtt.get_protocol r type ≡ q.address)
  unfolding is_known
  is_known_inv p h = elim (Option-cases (find type s.registrations)) [
    | inl e ↦ absurd (ground (arith, e, h))
    | inr (q, e) ↦ (q, e, ground (arith, e, h))
  ]

  add_type_protocol-IsRegistered :
      (p : Pointer D)
      → IsTypeInfo rtt
      → type ≢ 0
      → (add_type_protocol rtt type p s r).0 ≡ registered
      → IsRegistered rtt type
          (add_type_protocol rtt type p s r).1
          (add_type_protocol rtt type p s r).2
  add_type_protocol-IsRegistered p info n h = elim (add_cases p) [
    | inl (x, _) ↦ absurd (x h)
    | inr (i, inr (x, _)) ↦ absurd (x h)
    | inr (i, inl (a, e)) ↦
        subst (λ q. IsRegistered rtt type q.1 q.2) (sym e)
          (to_registered (with_registrations (emplace type p s.registrations).0)
            (rtt.add_protocol r type p.address).1 p n
            (ground (arith, find-emplace type type p s.registrations, i, ==_iff type type))
            (info.added r type p.address a))
  ]

-- A registration that is not accepted, with whatever error, leaves the registry as it was, also
-- when RTT refuses the protocol or throws after the entry was made.
pub register_type_protocol_undone :
    (D R : Type 0) (rtt : TypeInfo R) (heap : ℕ → Option (TypeProtocol D)) (type : ℕ)
    (protocol : Option (Pointer D)) (s : State D) (r : R)
    → (register_type_protocol rtt heap type protocol s r).0 ≢ registered
    → IsUnchanged s (register_type_protocol rtt heap type protocol s r).1
register_type_protocol_undone D R rtt heap type protocol s r h =
    elim (register_cases rtt heap type s r protocol) [
      | inl (e, q) ↦ subst (λ q. IsUnchanged s q.1) (sym q) (unchanged s)
      | inr (p, _, ok, inl (_, q)) ↦ absurd (h (ap (λ q. q.0) q))
      | inr (p, _, ok, inr (_, q)) ↦
          subst (λ q. IsUnchanged s q.1) (sym q)
            (add_type_protocol-IsUnchanged rtt heap type s r p (λ x. h (ap (λ q. q.0) q ∙ x)))
    ]

-- After a registration that is accepted, a first one or one of the same protocol again, the type has
-- an entry, its slot holds the entry's protocol, and its codec is the one that is found.
pub register_type_protocol_found :
    (D R : Type 0) (rtt : TypeInfo R) (heap : ℕ → Option (TypeProtocol D)) (type : ℕ)
    (protocol : Option (Pointer D)) (s : State D) (r : R)
    → IsTypeInfo rtt
    → (register_type_protocol rtt heap type protocol s r).0 ≡ registered
    → IsRegistered rtt type
        (register_type_protocol rtt heap type protocol s r).1
        (register_type_protocol rtt heap type protocol s r).2
register_type_protocol_found D R rtt heap type protocol s r info h =
    elim (register_cases rtt heap type s r protocol) [
      | inl (e, q) ↦ absurd (refused-ne (sym (ap (λ q. q.0) q) ∙ h))
      | inr (p, _, ok, inl (k, q)) ↦
          let (known, f, g) = is_known_inv rtt heap type s r p.target k in
          subst (λ q. IsRegistered rtt type q.1 q.2) (sym q)
            (to_registered rtt heap type s r s r known ok.not_null f g)
      | inr (p, _, ok, inr (_, q)) ↦
          subst (λ q. IsRegistered rtt type q.1 q.2) (sym q)
            (add_type_protocol-IsRegistered rtt heap type s r p info ok.not_null
              (sym (ap (λ q. q.0) q) ∙ h))
    ]
