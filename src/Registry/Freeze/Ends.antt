-- ===== src/Registry/Freeze/Ends.antt =====
-- The search of `freezeTypeCatalog` of src/type_protocol.cpp: the work that is left falls.
use rtt_http.Common.{
  ℕ, zero, suc, ◌+◌, ◌<◌, ◌≤◌, some, List, [], ◌∷◌, Bytes, length, ap, ◌≡◌, ◌≢◌, ◌⊎◌, inl, inr,
  refl, arith,
}
use rtt_http.Common.Map.{Map, find, bytes_key, bytes_eq_iff}
use rtt_http.Registry.{TypeRegistration}
use rtt_http.Registry.Freeze.{
  Mark, fresh, active, finished, Frame, Searched, out_of_fuel, fault, done, mark, weight,
  search_from, search_all, search_types, Next, entered, FreezeError,
}
use rtt_http.Registry.Freeze.Rounds.{
  Round, closes, misses, mistypes, recurs, passes, enters, round-Round, resume, search_from-resume,
}

-- The types that were not met yet, with their dependencies.
fresh_weight : {D : Type 0} → (Bytes → Mark) → Map Bytes (TypeRegistration D) → ℕ
fresh_weight marks [] = 0
fresh_weight marks ((name, r) ∷ rest) =
    (elim (marks name) [ fresh ↦ suc (length r.dependencies) | _ ↦ 0 ]) + fresh_weight marks rest

stack_weight : {D : Type 0} → List (Frame D) → ℕ
stack_weight [] = 0
stack_weight (f ∷ fs) = suc (length f.left) + stack_weight fs

fresh_weight-le :
    {D : Type 0} (marks : Bytes → Mark) (m : Map Bytes (TypeRegistration D))
    → fresh_weight marks m ≤ weight m
unfolding fresh_weight weight
fresh_weight-le marks [] = omega arith
fresh_weight-le marks ((name, r) ∷ rest) = ground (arith, fresh_weight-le marks rest)

module _ {D : Type 0} (marks : Bytes → Mark) (d : Bytes) (to : Mark) (met : to ≢ fresh) where
  fresh_weight-mark :
      (m : Map Bytes (TypeRegistration D)) → fresh_weight (mark marks d to) m ≤ fresh_weight marks m
  unfolding fresh_weight mark
  fresh_weight-mark [] = omega arith
  fresh_weight-mark ((name, r) ∷ rest) = ground (arith, fresh_weight-mark rest)

  fresh_weight-mark_fresh :
      (m : Map Bytes (TypeRegistration D)) (r : TypeRegistration D)
      → find d m ≡ some r
      → marks d ≡ fresh
      → fresh_weight (mark marks d to) m + suc (length r.dependencies) ≤ fresh_weight marks m
  unfolding fresh_weight mark find
  fresh_weight-mark_fresh [] r e h = ground arith
  fresh_weight-mark_fresh ((name, s) ∷ rest) r e h =
      ground (arith, bytes_eq_iff d name, fresh_weight-mark rest, fresh_weight-mark_fresh rest r)

finished-ne-fresh : finished ≢ fresh
finished-ne-fresh e = cc

active-ne-fresh : active ≢ fresh
active-ne-fresh e = cc

pub Searched-cases :
    (s : Searched)
    → (s ≡ out_of_fuel)
      ⊎ ((e : FreezeError) × (s ≡ fault e))
      ⊎ ((marks : Bytes → Mark) × (s ≡ done marks))
Searched-cases out_of_fuel = inl refl
Searched-cases (fault e) = inr (inl (e, refl))
Searched-cases (done marks) = inr (inr (marks, refl))

module _ {D : Type 0} (types : Map Bytes (TypeRegistration D)) where
  abbrev Ends : ℕ → Type 0
  Ends fuel =
      (marks : Bytes → Mark) (stack : List (Frame D))
      → stack_weight stack + fresh_weight marks types < fuel
      → search_from types fuel marks stack ≢ out_of_fuel

  resume-Ends :
      (fuel : ℕ) (marks : Bytes → Mark) (frame : Frame D) (stack : List (Frame D)) {n : Next D}
      → Round types marks frame stack n
      → Ends fuel
      → stack_weight (frame ∷ stack) + fresh_weight marks types < suc fuel
      → resume types fuel n ≢ out_of_fuel
  unfolding stack_weight
  resume-Ends fuel marks frame stack (closes e) ends h =
      ends (mark marks frame.name finished) stack
        (omega (arith, fresh_weight-mark marks frame.name finished finished-ne-fresh types))
  resume-Ends fuel marks frame stack (misses d left e f) ends h = λ g. cc
  resume-Ends fuel marks frame stack (mistypes d left r e f g) ends h = λ g. cc
  resume-Ends fuel marks frame stack (recurs d left r e f g) ends h = λ g. cc
  resume-Ends fuel marks frame stack (passes d left r e f g k) ends h =
      ends marks (record frame { left = left } ∷ stack) (omega (arith, ap (λ xs. length xs) e))
  resume-Ends fuel marks frame stack (enters d left r e f g k) ends h =
      ends (mark marks d active) (entered d r ∷ record frame { left = left } ∷ stack) (
        omega (
          arith,
          ap (λ xs. length xs) e,
          fresh_weight-mark_fresh marks d active active-ne-fresh types r f k,
        ))

  search_from-Ends : (fuel : ℕ) → Ends fuel
  search_from-Ends zero marks stack h = absurd (omega arith)
  search_from-Ends (suc fuel) marks [] h = unfold search_from in λ e. cc
  search_from-Ends (suc fuel) marks (frame ∷ stack) h =
      rw (search_from-resume types fuel marks frame stack) (
        resume-Ends fuel marks frame stack (round-Round types marks frame stack)
          (search_from-Ends fuel) h)

  search_all_ends :
      (rest : Map Bytes (TypeRegistration D)) (marks : Bytes → Mark)
      → weight rest ≤ weight types
      → search_all types (suc (weight types + weight types)) marks rest ≢ out_of_fuel
  unfolding search_all weight
  search_all_ends [] marks h = λ e. cc
  search_all_ends ((name, r) ∷ rest) marks h =
      let marks' = mark marks name active in
      let stack : List (Frame D) = entered name r ∷ [] in
      let fuel : ℕ = suc (weight types + weight types) in
      let within : stack_weight stack + fresh_weight marks' types < fuel =
        unfold stack_weight in omega (arith, fresh_weight-le marks' types) in
      elim (Searched-cases (search_from types fuel marks' stack)) [
        | inl e ↦ absurd (search_from-Ends fuel marks' stack within e)
        | inr (inl (e, f)) ↦ λ g. ground (arith, f, search_all_ends rest marks (omega arith))
        | inr (inr (m, f)) ↦ λ g. ground (
          arith,
          f,
          search_all_ends rest m (omega arith),
          search_all_ends rest marks (omega arith),
        )
      ]

-- The search of `freezeTypeCatalog` comes to its end, whatever the types refer to, cycles and
-- missing names included.
pub search_types_ends :
    (D : Type 0) (types : Map Bytes (TypeRegistration D)) → search_types types ≢ out_of_fuel
unfolding search_types
search_types_ends D types = search_all_ends types types (λ name. fresh) (omega arith)
