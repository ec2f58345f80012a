-- ===== src/Publication/Types/Ends.antt =====
-- The loop of `ObjectModel::types` of src/object_model.cpp: what is left falls.
use rtt_http.Common.{
  ℕ, zero, suc, ◌+◌, ◌<◌, ◌≤◌, none, some, List, [], ◌∷◌, Bytes, length, if◌then◌else◌, bytes_eq,
  ◌≡◌, ◌⊎◌, inl, inr, refl, sym, subst, arith, Option-cases,
}
use rtt_http.Common.Map.{Map, find, bytes_key, bytes_eq_iff}
use rtt_http.Codec.{Json, Members, end, member}
use rtt_http.Registry.{TypeBinding, if_contains}
use rtt_http.Publication.Types.{
  append_member, push_all, dependency_count, describe_type, visit_type, types_from, describe_types,
}

pub if_contains-append_member :
    {D : Type 0} (k name : Bytes) (j : Json D) (ms : Members D)
    → if_contains name ms ≡ none
    → if_contains k (append_member ms name j)
      ≡ (if bytes_eq k name then some j else if_contains k ms)
unfolding if_contains append_member
if_contains-append_member k name j end h = ground (arith, bytes_eq_iff k name, bytes_eq_iff name k)
if_contains-append_member k name j (member o v ms) h = ground (
  arith,
  h,
  bytes_eq_iff k name,
  bytes_eq_iff o k,
  bytes_eq_iff o name,
  if_contains-append_member k name j ms,
)

pub length-push_all :
    (ds pending : List Bytes) → length (push_all ds pending) ≡ length ds + length pending
unfolding push_all
length-push_all [] pending = omega arith
length-push_all (d ∷ ds) pending = omega (arith, length-push_all ds (d ∷ pending))

-- The dependencies of the types that are not described yet.
left_over : {D : Type 0} → Members D → Map Bytes (TypeBinding D) → ℕ
left_over result [] = 0
left_over result ((name, b) ∷ rest) =
    (elim (if_contains name result) [ none ↦ length b.registration.dependencies | some j ↦ 0 ])
    + left_over result rest

left_over-append :
    {D : Type 0} (name : Bytes) (j : Json D) (result : Members D) (m : Map Bytes (TypeBinding D))
    → if_contains name result ≡ none
    → left_over (append_member result name j) m ≤ left_over result m
unfolding left_over
left_over-append name j result [] h = omega arith
left_over-append name j result ((k, b) ∷ m) h =
    ground (arith, h, if_contains-append_member k name j result, left_over-append name j result m)

left_over-found :
    {D : Type 0} (name : Bytes) (j : Json D) (result : Members D) (m : Map Bytes (TypeBinding D))
    (b : TypeBinding D)
    → if_contains name result ≡ none
    → find name m ≡ some b
    → left_over (append_member result name j) m + length b.registration.dependencies
      ≤ left_over result m
unfolding left_over find
left_over-found name j result [] b h f = absurd (ground (arith, f))
left_over-found name j result ((k, c) ∷ m) b h f = ground (
  arith,
  h,
  f,
  bytes_eq_iff name k,
  bytes_eq_iff k name,
  if_contains-append_member k name j result,
  left_over-append name j result m,
  left_over-found name j result m b,
)

left_over-end : {D : Type 0} (m : Map Bytes (TypeBinding D)) → left_over end m ≡ dependency_count m
unfolding left_over dependency_count if_contains
left_over-end [] = refl
left_over-end ((k, b) ∷ m) = omega (arith, left_over-end m)

module _ {D : Type 0} (catalog : Map Bytes (TypeBinding D)) (diagnostics : Map Bytes Bytes) where
  pub visit_type_cases :
      (name : Bytes) (pending : List Bytes) (result : Members D)
      → ((j : Json D) × (if_contains name result ≡ some j)
          × (visit_type catalog diagnostics name pending result ≡ (pending, result)))
        ⊎ ((if_contains name result ≡ none)
            × ((find name catalog ≡ none)
                  × (visit_type catalog diagnostics name pending result ≡ (
                    pending,
                    append_member result name (describe_type catalog diagnostics name),
                  ))
                ⊎ ((b : TypeBinding D) × (find name catalog ≡ some b)
                    × (visit_type catalog diagnostics name pending result ≡ (
                      push_all b.registration.dependencies pending,
                      append_member result name (describe_type catalog diagnostics name),
                    )))))
  unfolding visit_type
  visit_type_cases name pending result = elim (Option-cases (if_contains name result)) [
    | inr (j, e) ↦ inl (j, e, ground (arith, e))
    | inl e ↦ inr (
      e,
      elim (Option-cases (find name catalog)) [
        | inl f ↦ inl (f, ground (arith, e, f))
        | inr (b, f) ↦ inr (b, f, ground (arith, e, f))
      ],
    )
  ]

  visit_type-le :
      (name : Bytes) (pending : List Bytes) (result : Members D)
      → length (visit_type catalog diagnostics name pending result).0
          + left_over (visit_type catalog diagnostics name pending result).1 catalog
        ≤ length pending + left_over result catalog
  visit_type-le name pending result =
      let j = describe_type catalog diagnostics name in
      let le = λ (q : List Bytes × Members D).
        length q.0 + left_over q.1 catalog ≤ length pending + left_over result catalog in
      elim (visit_type_cases name pending result) [
        | inl (k, e, q) ↦ subst le (sym q) (omega arith)
        | inr (e, inl (f, q)) ↦
            subst le (sym q) (omega (arith, left_over-append name j result catalog e))
        | inr (e, inr (b, f, q)) ↦ subst le (sym q) (
            omega (
              arith,
              left_over-found name j result catalog b e f,
              length-push_all b.registration.dependencies pending,
            ))
      ]

  types_from_ends :
      (fuel : ℕ) (pending : List Bytes) (result : Members D)
      → length pending + left_over result catalog < fuel
      → (r : Members D) × (types_from catalog diagnostics fuel pending result ≡ some r)
  unfolding types_from
  types_from_ends zero pending result h = absurd (omega arith)
  types_from_ends (suc fuel) [] result h = (result, refl)
  types_from_ends (suc fuel) (name ∷ pending) result h =
      types_from_ends fuel (visit_type catalog diagnostics name pending result).0
        (visit_type catalog diagnostics name pending result).1
        (omega (arith, visit_type-le name pending result))

-- The loop over the references and their dependencies comes to its end, also where types depend on
-- each other in a circle.
pub describe_types_ends :
    (D : Type 0) (catalog : Map Bytes (TypeBinding D)) (diagnostics : Map Bytes Bytes)
    (references : List Bytes)
    → (r : Members D) × (describe_types catalog diagnostics references ≡ some r)
unfolding describe_types
describe_types_ends D catalog diagnostics references =
    types_from_ends catalog diagnostics (suc (length references + dependency_count catalog))
      (push_all references []) end
      (omega (arith, length-push_all references [], left_over-end catalog))
