-- ===== src/Registry/Freeze/Rounds.antt =====
-- The rounds of the search of `freezeTypeCatalog` of src/type_protocol.cpp, case by case.
use rtt_http.Common.{
  ℕ, suc, true, false, none, some, List, [], ◌∷◌, Bytes, ◌≡◌, inl, inr, refl, sym, subst,
  Bool-cases, Option-cases,
}
use rtt_http.Common.Map.{Map, find, bytes_key}
use rtt_http.Registry.{TypeRegistration}
use rtt_http.Registry.Freeze.{
  Mark, fresh, active, finished, Frame, missing_dependency, enum_not_integer, recursive_definition,
  Next, go, stop, mark, enum_fault, entered, round, Searched, fault, search_from,
}

module _ {D : Type 0} (types : Map Bytes (TypeRegistration D)) (marks : Bytes → Mark)
    (frame : Frame D) (stack : List (Frame D)) where
  abbrev behind : List Bytes → List (Frame D)
  behind left = record frame { left = left } ∷ stack

  pub data Round : Next D → Type 0 where
    closes : frame.left ≡ [] → Round (go (mark marks frame.name finished) stack)
    misses :
        (d : Bytes) (left : List Bytes)
        → frame.left ≡ d ∷ left
        → find d types ≡ none
        → Round (stop (missing_dependency d))
    mistypes :
        (d : Bytes) (left : List Bytes) (r : TypeRegistration D)
        → frame.left ≡ d ∷ left
        → find d types ≡ some r
        → enum_fault frame.definition r ≡ true
        → Round (stop enum_not_integer)
    recurs :
        (d : Bytes) (left : List Bytes) (r : TypeRegistration D)
        → frame.left ≡ d ∷ left
        → find d types ≡ some r
        → marks d ≡ active
        → Round (stop (recursive_definition d))
    passes :
        (d : Bytes) (left : List Bytes) (r : TypeRegistration D)
        → frame.left ≡ d ∷ left
        → find d types ≡ some r
        → enum_fault frame.definition r ≡ false
        → marks d ≡ finished
        → Round (go marks (behind left))
    enters :
        (d : Bytes) (left : List Bytes) (r : TypeRegistration D)
        → frame.left ≡ d ∷ left
        → find d types ≡ some r
        → enum_fault frame.definition r ≡ false
        → marks d ≡ fresh
        → Round (go (mark marks d active) (entered d r ∷ behind left))

  at_next :
      (n : Next D)
      → round types marks frame stack ≡ n
      → Round n
      → Round (round types marks frame stack)
  at_next n e h = subst Round (sym e) h

  round_marked :
      (d : Bytes) (left : List Bytes) (r : TypeRegistration D) (m : Mark)
      → frame.left ≡ d ∷ left
      → find d types ≡ some r
      → enum_fault frame.definition r ≡ false
      → marks d ≡ m
      → Round (round types marks frame stack)
  unfolding round
  round_marked d left r active e f g h = at_next _ (rw (e, f, g, h, round)) (recurs d left r e f h)
  round_marked d left r finished e f g h =
      at_next _ (rw (e, f, g, h, round)) (passes d left r e f g h)
  round_marked d left r fresh e f g h = at_next _ (rw (e, f, g, h, round)) (enters d left r e f g h)

  round_left : (left : List Bytes) → frame.left ≡ left → Round (round types marks frame stack)
  unfolding round
  round_left [] e = at_next _ (rw (e, round)) (closes e)
  round_left (d ∷ left) e = elim (Option-cases (find d types)) [
    | inl f ↦ at_next _ (rw (e, f, round)) (misses d left e f)
    | inr (r, f) ↦ elim (Bool-cases (enum_fault frame.definition r)) [
      | inl g ↦ at_next _ (rw (e, f, g, round)) (mistypes d left r e f g)
      | inr g ↦ round_marked d left r (marks d) e f g refl
    ]
  ]

  pub round-Round : Round (round types marks frame stack)
  round-Round = round_left frame.left refl

-- What follows a round.
abbrev pub resume : {D : Type 0} → Map Bytes (TypeRegistration D) → ℕ → Next D → Searched
resume types fuel (go marks stack) = search_from types fuel marks stack
resume types fuel (stop e) = fault e

pub search_from-resume :
    {D : Type 0} (types : Map Bytes (TypeRegistration D)) (fuel : ℕ) (marks : Bytes → Mark)
    (frame : Frame D) (stack : List (Frame D))
    → search_from types (suc fuel) marks (frame ∷ stack)
      ≡ resume types fuel (round types marks frame stack)
unfolding search_from
search_from-resume types fuel marks frame stack =
    elim (round types marks frame stack)
      as (λ n.
        (elim n [ go m s ↦ search_from types fuel m s | stop e ↦ fault e ]) ≡ resume types fuel n) [
          | go m s ↦ refl
          | stop e ↦ refl
        ]
