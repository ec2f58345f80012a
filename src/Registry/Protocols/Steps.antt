-- ===== src/Registry/Protocols/Steps.antt =====
-- The registry of src/type_protocol.cpp through any sequence of its calls, and of changes that other
-- code makes to RTT's types.
use rtt_http.Common.{
  ℕ, true, false, Option, some, [], Bytes, ◌≡◌, inl, inr, refl, sym, ap, ◌∙◌, subst, arith, All,
}
use rtt_http.Common.Map.{
  Map, find, emplace, erase_key, bytes_key, address_key, All-emplace, All-erase_key, find-All,
}
use rtt_http.Registry.{TypeProtocol, TypeBinding, TypeCatalog}
use rtt_http.Registry.Freeze.{done, search_types, Mark}
use rtt_http.Registry.Freeze.Chains.{Grounded, Chain}
use rtt_http.Registry.Freeze.Sound.{search_types-Grounded, search_types-acyclic}
use rtt_http.Registry.Protocols.{
  TypeInfo, Pointer, State, initial, register_type_protocol, freeze_type_catalog, registrations_of,
  find_name, find_type, add_type_protocol,
}
use rtt_http.Registry.Protocols.Staging.{
  MayRegister, IsBound, IsStaged, stage_types-IsStaged, stage_types_finds, nothing-IsStaged,
  IsStaged-found, registrations_of-IsProper, registrations_of-find,
}
use rtt_http.Registry.Protocols.Freezing.{freeze_cases, freeze_with, staged}
use rtt_http.Registry.Protocols.Registering.{register_cases, add_cases}

one_catalog : {D : Type 0} {c c' : TypeCatalog D} → some c ≡ some c' → c ≡ c'
one_catalog e = cc

freeze_type_catalog-staged :
    {D R : Type 0} (rtt : TypeInfo R) (s : State D) (r : R) (c : TypeCatalog D)
    → s.frozen ≡ false
    → (freeze_type_catalog rtt s r).0 ≡ some c
    → staged rtt s r ≡ some c
freeze_type_catalog-staged rtt s r c u e = elim (freeze_cases rtt s r) [
  | inl (f, _) ↦ absurd (ground (arith, f, u))
  | inr (inl (c', f)) ↦
      f.staging ∙ ap (λ x. some x) (one_catalog (sym (ap (λ q. q.0) f.result) ∙ e))
  | inr (inr (x, f)) ↦ absurd (ground (arith, sym (ap (λ q. q.0) f.result) ∙ e))
]

module _ {D R : Type 0} (rtt : TypeInfo R) (heap : ℕ → Option (TypeProtocol D)) where
  pub data Step : State D → R → State D → R → Type 0 where
    registers :
        (type : ℕ) (protocol : Option (Pointer D)) (s : State D) (r : R)
        → Step s r
            (register_type_protocol rtt heap type protocol s r).1
            (register_type_protocol rtt heap type protocol s r).2
    freezes : (s : State D) (r : R) → Step s r (freeze_type_catalog rtt s r).1 r
    changes : (s : State D) (r r' : R) → Step s r s r'

  pub data Steps : State D → R → State D → R → Type 0 where
    stays : (s : State D) (r : R) → Steps s r s r
    goes :
        {s s' s'' : State D} {r r' r'' : R}
        → Step s r s' r'
        → Steps s' r' s'' r''
        → Steps s r s'' r''

  -- What a catalog is that clients rely on.
  abbrev IsAccepted : TypeCatalog D → Type 0
  IsAccepted c =
      IsStaged rtt c
      × ((marks : Bytes → Mark) × (search_types (registrations_of c.types) ≡ done marks))

  record Inv (s : State D) : Type 0 where
    may : All (λ e. MayRegister rtt e.0 e.1.target) s.registrations
    accepted : (c : TypeCatalog D) → s.catalog ≡ some c → IsAccepted c

  abbrev MayAll : Map ℕ (Pointer D) → Type 0
  MayAll m = All (λ e. MayRegister rtt e.0 e.1.target) m

  add-Inv :
      (type : ℕ) (p : Pointer D) (s : State D) (r : R)
      → MayRegister rtt type p.target
      → Inv s
      → Inv (add_type_protocol rtt type p s r).1
  add-Inv type p s r v inv =
      let after =
        All-emplace (λ e. MayRegister rtt e.0 e.1.target) type p s.registrations v inv.may in
      let with_may = λ (m : Map ℕ (Pointer D)) (a : MayAll m). keep m a in
      elim (add_cases rtt heap type s r p) [
        | inl (_, e) ↦ subst Inv (sym e) inv
        | inr (i, inl (_, e)) ↦
            subst (λ q. Inv q.1) (sym e) (with_may (emplace type p s.registrations).0 after)
        | inr (i, inr (_, e)) ↦ subst Inv (sym e) (
            with_may (erase_key type (emplace type p s.registrations).0) (
              All-erase_key (λ e. MayRegister rtt e.0 e.1.target) type
                (emplace type p s.registrations).0 after))
      ]
    where
      keep : (m : Map ℕ (Pointer D)) → MayAll m → Inv (record s { registrations = m })
      keep m a = record { may = a; accepted = inv.accepted }

  register-Inv :
      (type : ℕ) (protocol : Option (Pointer D)) (s : State D) (r : R)
      → Inv s
      → Inv (register_type_protocol rtt heap type protocol s r).1
  register-Inv type protocol s r inv = elim (register_cases rtt heap type s r protocol) [
    | inl (e, q) ↦ subst (λ q. Inv q.1) (sym q) inv
    | inr (p, _, ok, inl (k, q)) ↦ subst (λ q. Inv q.1) (sym q) inv
    | inr (p, _, ok, inr (_, q)) ↦ subst (λ q. Inv q.1) (sym q) (add-Inv type p s r ok.may inv)
  ]

  freeze-Inv : (s : State D) (r : R) → Inv s → Inv (freeze_type_catalog rtt s r).1
  freeze-Inv s r inv = elim (freeze_cases rtt s r) [
    | inl (_, q) ↦ subst (λ q. Inv q.1) (sym q) inv
    | inr (inl (c, f)) ↦
        let staged =
          stage_types-IsStaged rtt r s.registrations (record { types = []; identities = [] }) c
            inv.may (nothing-IsStaged rtt) f.staging in
        subst (λ q. Inv q.1) (sym f.result) (accepts_it c (staged, (f.marks, f.search)))
    | inr (inr (e, f)) ↦
        subst (λ q. Inv q.1) (sym f.result) (record { may = inv.may; accepted = inv.accepted })
  ]
    where
      accepts_it : (c : TypeCatalog D) → IsAccepted c → Inv (freeze_with rtt s r c)
      accepts_it c a = record {
        may = inv.may;
        accepted = λ c' e. subst IsAccepted (one_catalog e) a;
      }

  Step-Inv : {s : State D} {r r' : R} {s' : State D} → Step s r s' r' → Inv s → Inv s'
  Step-Inv (registers type protocol s r) inv = register-Inv type protocol s r inv
  Step-Inv (freezes s r) inv = freeze-Inv s r inv
  Step-Inv (changes s r r') inv = inv

  Steps-Inv : {s s' : State D} {r r' : R} → Steps s r s' r' → Inv s → Inv s'
  Steps-Inv (stays s r) inv = inv
  Steps-Inv (goes step steps) inv = Steps-Inv steps (Step-Inv step inv)

  initial-Inv : Inv initial
  unfolding initial
  initial-Inv = record { may = tt; accepted = λ c e. absurd (ground (arith, e)) }

  -- A frozen registry is not changed by a step.
  register_frozen :
      (type : ℕ) (protocol : Option (Pointer D)) (s : State D) (r : R)
      → s.frozen ≡ true
      → (register_type_protocol rtt heap type protocol s r).1 ≡ s
  register_frozen type protocol s r f = elim (register_cases rtt heap type s r protocol) [
    | inl (e, q) ↦ ap (λ q. q.1) q
    | inr (p, _, ok, inl (k, q)) ↦ ap (λ q. q.1) q
    | inr (p, _, ok, inr (u, q)) ↦ absurd (ground (arith, u, f))
  ]

  Step-frozen : {s : State D} {r r' : R} {s' : State D} → Step s r s' r' → s.frozen ≡ true → s' ≡ s
  Step-frozen (registers type protocol s r) f = register_frozen type protocol s r f
  Step-frozen (freezes s r) f = elim (freeze_cases rtt s r) [
    | inl (_, q) ↦ ap (λ q. q.1) q
    | inr (inl (c, z)) ↦ absurd (ground (arith, f, z.unfrozen))
    | inr (inr (e, z)) ↦ absurd (ground (arith, f, z.unfrozen))
  ]
  Step-frozen (changes s r r') f = refl

  Steps-frozen : {s s' : State D} {r r' : R} → Steps s r s' r' → s.frozen ≡ true → s' ≡ s
  Steps-frozen (stays s r) f = refl
  Steps-frozen (goes {s = s} {s' = s'} {s'' = s''} step steps) f =
      let e = Step-frozen step f in Steps-frozen steps (ap (λ x. x.frozen) e ∙ f) ∙ e

-- Once `freezeTypeCatalog` was called, the registry never changes again: neither its registrations,
-- nor the catalog or the error that was kept, by whatever registrations, freezes and changes of RTT.
pub frozen_for_good :
    (D R : Type 0) (rtt : TypeInfo R) (heap : ℕ → Option (TypeProtocol D)) (s s' : State D)
    (r r' : R)
    → s.frozen ≡ true
    → Steps rtt heap s r s' r'
    → s' ≡ s
frozen_for_good D R rtt heap s s' r r' f steps = Steps-frozen rtt heap steps f

-- Whatever was registered and in whatever order, every type of a catalog that the registry has is
-- bound under its own name to a codec and to a registration that `validateRegistration` accepts, its
-- dependencies are types of the catalog down to types without any, and it does not depend on itself.
pub catalog_sound :
    (D R : Type 0) (rtt : TypeInfo R) (heap : ℕ → Option (TypeProtocol D)) (s : State D) (r r' : R)
    (c : TypeCatalog D) (name : Bytes) (b : TypeBinding D)
    → Steps rtt heap initial r s r'
    → s.catalog ≡ some c
    → find_name name c ≡ some b
    → IsBound name b.registration b.codec
      × Grounded (registrations_of c.types) name
      × (¬ Chain (registrations_of c.types) name name)
unfolding find_name
catalog_sound D R rtt heap s r r' c name b steps e f =
    let inv = Steps-Inv rtt heap steps (initial-Inv rtt heap) in
    let (staged, (marks, search)) = inv.accepted c e in
    let types = registrations_of c.types in
    let proper = registrations_of-IsProper c.types staged.proper in
    let found = registrations_of-find name c.types b f in
    (
      find-All (λ e. IsBound e.0 e.1.registration e.1.codec) name b c.types staged.good f,
      search_types-Grounded D types marks name b.registration proper search found,
      search_types-acyclic D types marks name b.registration proper search found,
    )

-- A catalog that `freezeTypeCatalog` makes has every type that was registered, under the type's own
-- name with a registration that was validated, and the type's slot was the one registered.
pub freeze_type_catalog_finds :
    (D R : Type 0) (rtt : TypeInfo R) (heap : ℕ → Option (TypeProtocol D)) (s : State D) (r r' : R)
    (c : TypeCatalog D) (type : ℕ) (p : Pointer D)
    → Steps rtt heap initial r s r'
    → s.frozen ≡ false
    → (freeze_type_catalog rtt s r').0 ≡ some c
    → find type s.registrations ≡ some p
    → (rtt.get_protocol r' type ≡ p.address)
      × ((b : TypeBinding D) × (find_type type c ≡ some b)
          × IsBound (rtt.type_name type) b.registration b.codec)
freeze_type_catalog_finds D R rtt heap s r r' c type p steps u e f =
    let inv = Steps-Inv rtt heap steps (initial-Inv rtt heap) in
    let staging = freeze_type_catalog-staged rtt s r' c u e in
    let nothing : TypeCatalog D = record { types = []; identities = [] } in
    let staged =
      stage_types-IsStaged rtt r' s.registrations nothing c inv.may (nothing-IsStaged rtt)
        staging in
    let (slot, found) = stage_types_finds rtt r' s.registrations nothing c type p staging f in
    (slot, IsStaged-found rtt c type staged found)
