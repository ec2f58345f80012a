-- ===== src/Publication/Types/Reach.antt =====
-- What `ObjectModel::types` of src/object_model.cpp describes.
use rtt_http.Common.{
  ℕ, zero, suc, ◌+◌, none, some, List, [], ◌∷◌, Bytes, length, bytes_eq, ◌≡◌, ◌↔◌, ◌⊎◌, inl, inr,
  refl, sym, ap, ◌∙◌, subst, arith, Bool-cases,
}
use rtt_http.Common.Map.{Map, find, bytes_key, bytes_eq_iff}
use rtt_http.Codec.{Json, Members, end}
use rtt_http.Registry.{TypeBinding, if_contains, Listed, first, later}
use rtt_http.Publication.Types.{
  append_member, push_all, dependency_count, describe_type, visit_type, types_from, describe_types,
}
use rtt_http.Publication.Types.Ends.{
  visit_type_cases, if_contains-append_member, describe_types_ends,
}

first_moves :
    (n d : Bytes) (ds pending : List Bytes)
    → Listed n (d ∷ pending)
    → Listed n (d ∷ ds) ⊎ Listed n pending
first_moves n _ ds pending first = inl first
first_moves n d ds pending (later l) = inr l

push_all_to :
    (n : Bytes) (ds pending : List Bytes)
    → Listed n (push_all ds pending)
    → Listed n ds ⊎ Listed n pending
unfolding push_all
push_all_to n [] pending l = inr l
push_all_to n (d ∷ ds) pending l = elim (push_all_to n ds (d ∷ pending) l) [
  | inl a ↦ inl (later a)
  | inr b ↦ first_moves n d ds pending b
]

push_all_rest :
    (n : Bytes) (ds pending : List Bytes) → Listed n pending → Listed n (push_all ds pending)
unfolding push_all
push_all_rest n [] pending l = l
push_all_rest n (d ∷ ds) pending l = push_all_rest n ds (d ∷ pending) (later l)

push_all_first :
    (n : Bytes) (ds pending : List Bytes) → Listed n ds → Listed n (push_all ds pending)
unfolding push_all
push_all_first n [] pending l = elim l [ ]
push_all_first n (_ ∷ ds) pending first = push_all_rest n ds (n ∷ pending) first
push_all_first n (d ∷ ds) pending (later l) = push_all_first n ds (d ∷ pending) l

module _ {D : Type 0} (catalog : Map Bytes (TypeBinding D)) (references : List Bytes) where
  -- The references, and the dependencies of what is reached.
  pub data Reaches : Bytes → Type 0 where
    reference : (n : Bytes) → Listed n references → Reaches n
    dependency :
        (m n : Bytes) (b : TypeBinding D)
        → Reaches m
        → find m catalog ≡ some b
        → Listed n b.registration.dependencies
        → Reaches n

  abbrev Has : Bytes → Members D → Type 0
  Has n result = (j : Json D) × (if_contains n result ≡ some j)

  abbrev Covers : Bytes → List Bytes → Members D → Type 0
  Covers n pending result = Listed n pending ⊎ Has n result

  module _ (diagnostics : Map Bytes Bytes) where
    record Inv (pending : List Bytes) (result : Members D) : Type 0 where
      waiting : (n : Bytes) → Listed n pending → Reaches n
      described :
          (n : Bytes) (j : Json D)
          → if_contains n result ≡ some j
          → Reaches n × (j ≡ describe_type catalog diagnostics n)
      started : (n : Bytes) → Listed n references → Covers n pending result
      closed :
          (m n : Bytes) (b : TypeBinding D)
          → Has m result
          → find m catalog ≡ some b
          → Listed n b.registration.dependencies
          → Covers n pending result

    Covers-present :
        (name n : Bytes) (pending : List Bytes) (result : Members D)
        → Has name result
        → Covers n (name ∷ pending) result
        → Covers n pending result
    Covers-present name n pending result h (inl first) = inr h
    Covers-present name n pending result h (inl (later l)) = inl l
    Covers-present name n pending result h (inr i) = inr i

    Has-append :
        (name n : Bytes) (j : Json D) (result : Members D)
        → if_contains name result ≡ none
        → (n ≡ name) ⊎ Has n result
        → Has n (append_member result name j)
    Has-append name n j result e (inl s) =
        (j, ground (arith, if_contains-append_member n name j result, e, s, bytes_eq_iff n name))
    Has-append name n j result e (inr (k, h)) =
        (k, ground (arith, if_contains-append_member n name j result, e, h, bytes_eq_iff n name))

    append-Has :
        (name n : Bytes) (j k : Json D) (result : Members D)
        → if_contains name result ≡ none
        → if_contains n (append_member result name j) ≡ some k
        → ((n ≡ name) × (k ≡ j)) ⊎ (if_contains n result ≡ some k)
    append-Has name n j k result e h = elim (Bool-cases (bytes_eq n name)) [
      | inl s ↦ inl (
        (bytes_eq_iff n name).0 s,
        ground (arith, if_contains-append_member n name j result, e, s, h),
      )
      | inr s ↦ inr (ground (arith, if_contains-append_member n name j result, e, s, h))
    ]

    Covers-append :
        (name n : Bytes) (j : Json D) (pending after : List Bytes) (result : Members D)
        → if_contains name result ≡ none
        → ((k : Bytes) → Listed k pending → Listed k after)
        → Covers n (name ∷ pending) result
        → Covers n after (append_member result name j)
    Covers-append name n j pending after result e keeps (inl first) =
        inr (Has-append name n j result e (inl refl))
    Covers-append name n j pending after result e keeps (inl (later l)) = inl (keeps n l)
    Covers-append name n j pending after result e keeps (inr h) =
        inr (Has-append name n j result e (inr h))

    -- A name that is described for the first time; `after` has its dependencies.
    Inv-append :
        (name : Bytes) (pending after : List Bytes) (result : Members D)
        → if_contains name result ≡ none
        → Inv (name ∷ pending) result
        → ((k : Bytes) → Listed k pending → Listed k after)
        → ((k : Bytes) → Listed k after → Reaches k)
        → ((k : Bytes) (b : TypeBinding D)
            → find name catalog ≡ some b
            → Listed k b.registration.dependencies
            → Listed k after)
        → Inv after (append_member result name (describe_type catalog diagnostics name))
    Inv-append name pending after result e inv keeps reaches new =
        let d = describe_type catalog diagnostics name in
        record {
          waiting = reaches;
          described = λ n k h. elim (append-Has name n d k result e h) [
            | inl (s, t) ↦ (
              subst Reaches (sym s) (inv.waiting name first),
              t ∙ ap (describe_type catalog diagnostics) (sym s),
            )
            | inr i ↦ inv.described n k i
          ];
          started = λ n l. Covers-append name n d pending after result e keeps (inv.started n l);
          closed = λ m n b h f l. elim (append-Has name m d h.0 result e h.1) [
            | inl (s, t) ↦ inl (new n b (subst (λ x. find x catalog ≡ some b) s f) l)
            | inr i ↦
                Covers-append name n d pending after result e keeps (inv.closed m n b (h.0, i) f l)
          ];
        }

    visit_type-Inv :
        (name : Bytes) (pending : List Bytes) (result : Members D)
        → Inv (name ∷ pending) result
        → Inv
            (visit_type catalog diagnostics name pending result).0
            (visit_type catalog diagnostics name pending result).1
    visit_type-Inv name pending result inv =
        let goal = λ (q : List Bytes × Members D). Inv q.0 q.1 in
        elim (visit_type_cases catalog diagnostics name pending result) [
          | inl (j, e, q) ↦ subst goal (sym q) (record {
            waiting = λ n l. inv.waiting n (later l);
            described = inv.described;
            started = λ n l. Covers-present name n pending result (j, e) (inv.started n l);
            closed =
                λ m n b h f l. Covers-present name n pending result (j, e) (inv.closed m n b h f l);
          })
          | inr (e, inl (f, q)) ↦ subst goal (sym q) (
              Inv-append name pending pending result e inv (λ k l. l)
                (λ k l. inv.waiting k (later l)) (λ k b g l. absurd (ground (arith, f, g))))
          | inr (e, inr (b, f, q)) ↦
              let ds = b.registration.dependencies in
              subst goal (sym q) (
                Inv-append name pending (push_all ds pending) result e inv
                  (λ k l. push_all_rest k ds pending l)
                  (λ k l. elim (push_all_to k ds pending l) [
                    | inl a ↦ dependency name k b (inv.waiting name first) f a
                    | inr o ↦ inv.waiting k (later o)
                  ])
                  (λ k c g l. push_all_first k ds pending (
                    subst (λ x. Listed k x.registration.dependencies) (one_binding name c b g f)
                      l)))
        ]
      where
        one_binding :
            (k : Bytes) (c b : TypeBinding D)
            → find k catalog ≡ some c
            → find k catalog ≡ some b
            → c ≡ b
        one_binding k c b g f = cc

    types_from-Inv :
        (fuel : ℕ) (pending : List Bytes) (result r : Members D)
        → Inv pending result
        → types_from catalog diagnostics fuel pending result ≡ some r
        → Inv [] r
    unfolding types_from
    types_from-Inv zero pending result r inv h = absurd (ground (arith, h))
    types_from-Inv (suc fuel) [] result r inv h = subst (Inv []) (same_result h) inv
      where
        same_result : some result ≡ some r → result ≡ r
        same_result e = cc
    types_from-Inv (suc fuel) (name ∷ pending) result r inv h =
        types_from-Inv fuel (visit_type catalog diagnostics name pending result).0
          (visit_type catalog diagnostics name pending result).1 r
          (visit_type-Inv name pending result inv) h

    Covers-nil : (n : Bytes) (r : Members D) → Covers n [] r → Has n r
    Covers-nil n r (inl l) = elim l [ ]
    Covers-nil n r (inr h) = h

    Reaches-Has : (r : Members D) → Inv [] r → {n : Bytes} → Reaches n → Has n r
    Reaches-Has r inv (reference n l) = Covers-nil n r (inv.started n l)
    Reaches-Has r inv (dependency m n b reaches f l) =
        Covers-nil n r (inv.closed m n b (Reaches-Has r inv reaches) f l)

    start-Inv : Inv (push_all references []) end
    unfolding if_contains
    start-Inv = record {
      waiting = λ n l. elim (push_all_to n references [] l) [
        | inl a ↦ reference n a
        | inr o ↦ elim o [ ]
      ];
      described = λ n j h. absurd (ground (arith, h));
      started = λ n l. inl (push_all_first n references [] l);
      closed = λ m n b h f l. absurd (ground (arith, h.1));
    }

-- `ObjectModel::types` comes to its end, also where types depend on each other in a circle, and what
-- it describes are the types that the references reach through the dependencies in the catalog, each
-- with the descriptor of its binding, or as unsupported with the reason if it has none.
pub describe_types_iff :
    (D : Type 0) (catalog : Map Bytes (TypeBinding D)) (diagnostics : Map Bytes Bytes)
    (references : List Bytes) (n : Bytes) (j : Json D)
    → (r : Members D) × (describe_types catalog diagnostics references ≡ some r)
      × ((if_contains n r ≡ some j)
          ↔ (Reaches catalog references n × (j ≡ describe_type catalog diagnostics n)))
unfolding describe_types
describe_types_iff D catalog diagnostics references n j =
    let (r, h) = describe_types_ends D catalog diagnostics references in
    let fuel = suc (length references + dependency_count catalog) in
    let inv =
      types_from-Inv catalog references diagnostics fuel (push_all references []) end r
        (start-Inv catalog references diagnostics) h in
    (
      r,
      h,
      (
        inv.described n j,
        λ p.
            let (k, f) = Reaches-Has catalog references diagnostics r inv p.0 in
            f ∙ ap (λ x. some x) ((inv.described n k f).1 ∙ sym p.1),
      ),
    )
