-- ===== src/Registry/Freeze/Faults.antt =====
-- The faults that `freezeTypeCatalog` of src/type_protocol.cpp reports.
use rtt_http.Common.{
  ℕ, zero, suc, ◌+◌, true, none, some, List, [], ◌∷◌, Bytes, bytes_eq, ◌≡◌, ◌⊎◌, inl, inr, sym, ◌∙◌,
  subst, arith, Bool-cases, All,
}
use rtt_http.Common.Map.{Map, find, bytes_key, bytes_eq_iff}
use rtt_http.Registry.{TypeRegistration, Listed, first, later}
use rtt_http.Registry.Freeze.{
  Mark, fresh, active, finished, Frame, FreezeError, fault, done, mark, enum_fault, search_from,
  search_all, search_types, weight, Next, entered, missing_dependency, recursive_definition,
  enum_not_integer, slot_changed,
}
use rtt_http.Registry.Freeze.Rounds.{
  Round, closes, misses, mistypes, recurs, passes, enters, round-Round, resume, search_from-resume,
}
use rtt_http.Registry.Freeze.Ends.{Searched-cases, search_types_ends}
use rtt_http.Registry.Freeze.Sound.{search_from_nil}
use rtt_http.Registry.Freeze.Chains.{Depends, depends, Chain, link, Chain-Depends, Mark-cases}

fault-injective : {a b : FreezeError} → fault a ≡ fault b → a ≡ b
fault-injective e = cc

module _ {D : Type 0} (types : Map Bytes (TypeRegistration D)) where
  -- What a fault says of the types.
  abbrev pub Explains : FreezeError → Type 0
  Explains slot_changed = ⊥
  Explains (missing_dependency d) = (name : Bytes) × Depends types name d × (find d types ≡ none)
  Explains (recursive_definition d) = Chain types d d
  Explains enum_not_integer =
      (name d : Bytes) × (r t : TypeRegistration D) × (find name types ≡ some r)
      × Listed d r.dependencies
      × (find d types ≡ some t)
      × (enum_fault r t ≡ true)

  record Known (f : Frame D) : Type 0 where
    found : find f.name types ≡ some f.definition
    left_listed : (d : Bytes) → Listed d f.left → Listed d f.definition.dependencies

  -- Each frame depends on the one above it.
  Below : Bytes → List (Frame D) → Type 0
  Below child [] = Unit
  Below child (f ∷ fs) = Depends types f.name child × Known f × Below f.name fs

  Linked : List (Frame D) → Type 0
  Linked [] = Unit
  Linked (f ∷ fs) = Known f × Below f.name fs

  Standing : Bytes → List (Frame D) → Type 0
  Standing n [] = ⊥
  Standing n (f ∷ fs) = (n ≡ f.name) ⊎ Standing n fs

  abbrev Active : (Bytes → Mark) → List (Frame D) → Type 0
  Active marks stack = (n : Bytes) → marks n ≡ active → Standing n stack

  Standing-Chain :
      (n child : Bytes) (fs : List (Frame D)) → Below child fs → Standing n fs → Chain types n child
  unfolding Below Standing
  Standing-Chain n child [] b s = elim s [ ]
  Standing-Chain n child (f ∷ fs) (d, k, b) (inl e) =
      subst (λ m. Chain types m child) (sym e) (link d)
  Standing-Chain n child (f ∷ fs) (d, k, b) (inr s) =
      Chain-Depends types (Standing-Chain n f.name fs b s) d

  next-Depends :
      (f : Frame D) (d : Bytes) (left : List Bytes)
      → Known f
      → f.left ≡ d ∷ left
      → Depends types f.name d
  next-Depends f d left k e =
      depends f.name d f.definition k.found (k.left_listed d (subst (Listed d) (sym e) first))

  Known-passed :
      (f : Frame D) (d : Bytes) (left : List Bytes)
      → Known f
      → f.left ≡ d ∷ left
      → Known (record f { left = left })
  Known-passed f d left k e = record {
    found = k.found;
    left_listed = λ c l. k.left_listed c (subst (Listed c) (sym e) (later l));
  }

  Below-Linked : (child : Bytes) (fs : List (Frame D)) → Below child fs → Linked fs
  unfolding Below Linked
  Below-Linked child [] b = tt
  Below-Linked child (f ∷ fs) (d, k, b) = (k, b)

  abbrev Explained : ℕ → Type 0
  Explained fuel =
      (marks : Bytes → Mark) (stack : List (Frame D)) (e : FreezeError)
      → Linked stack
      → Active marks stack
      → search_from types fuel marks stack ≡ fault e
      → Explains e

  Active-close :
      (marks : Bytes → Mark) (f : Frame D) (fs : List (Frame D))
      → Active marks (f ∷ fs)
      → Active (mark marks f.name finished) fs
  unfolding Standing mark
  Active-close marks f fs h n e = elim (Bool-cases (bytes_eq f.name n)) [
    | inl same ↦ absurd (ground (arith, rw same at e))
    | inr other ↦ ground (arith, h n (rw other at e), bytes_eq_iff f.name n)
  ]

  Active-enter :
      (marks : Bytes → Mark) (d : Bytes) (t : TypeRegistration D) (f : Frame D) (left : List Bytes)
      (fs : List (Frame D))
      → Active marks (f ∷ fs)
      → Active (mark marks d active) (entered d t ∷ record f { left = left } ∷ fs)
  unfolding Standing mark
  Active-enter marks d t f left fs h n e = elim (Bool-cases (bytes_eq d n)) [
    | inl same ↦ inl (sym ((bytes_eq_iff d n).0 same))
    | inr other ↦ inr (h n (rw other at e))
  ]

  back_to :
      (f : Frame D) (fs : List (Frame D)) (d : Bytes)
      → Depends types f.name d
      → Below f.name fs
      → Standing d (f ∷ fs)
      → Chain types d d
  unfolding Standing
  back_to f fs d dep b (inl e) = subst (λ n. Chain types n d) (sym e) (link dep)
  back_to f fs d dep b (inr s) = Chain-Depends types (Standing-Chain d f.name fs b s) dep

  Active-passed :
      (marks : Bytes → Mark) (f : Frame D) (left : List Bytes) (fs : List (Frame D))
      → Active marks (f ∷ fs)
      → Active marks (record f { left = left } ∷ fs)
  unfolding Standing
  Active-passed marks f left fs a n e = a n e

  resume-Explained :
      (fuel : ℕ) (marks : Bytes → Mark) (frame : Frame D) (stack : List (Frame D)) {n : Next D}
      (e : FreezeError)
      → Round types marks frame stack n
      → Explained fuel
      → Linked (frame ∷ stack)
      → Active marks (frame ∷ stack)
      → resume types fuel n ≡ fault e
      → Explains e
  unfolding Linked
  resume-Explained fuel marks frame stack x (closes e) ih (k, b) a r =
      ih (mark marks frame.name finished) stack x (Below-Linked frame.name stack b)
        (Active-close marks frame stack a) r
  resume-Explained fuel marks frame stack x (misses d left e f) ih (k, b) a r =
      subst Explains (fault-injective r) (frame.name, next-Depends frame d left k e, f)
  resume-Explained fuel marks frame stack x (mistypes d left t e f g) ih (k, b) a r =
      subst Explains (fault-injective r) (
        frame.name,
        d,
        frame.definition,
        t,
        k.found,
        k.left_listed d (subst (Listed d) (sym e) first),
        f,
        g,
      )
  resume-Explained fuel marks frame stack x (recurs d left t e f g) ih (k, b) a r =
      subst Explains (fault-injective r)
        (back_to frame stack d (next-Depends frame d left k e) b (a d g))
  resume-Explained fuel marks frame stack x (passes d left t e f g h) ih (k, b) a r =
      ih marks (record frame { left = left } ∷ stack) x (Known-passed frame d left k e, b)
        (Active-passed marks frame left stack a) r
  resume-Explained fuel marks frame stack x (enters d left t e f g h) ih (k, b) a r =
      ih (mark marks d active) (entered d t ∷ record frame { left = left } ∷ stack) x
        (
          record { found = f; left_listed = λ c l. l },
          unfold Below in (next-Depends frame d left k e, Known-passed frame d left k e, b),
        )
        (Active-enter marks d t frame left stack a) r

  search_from-Explained : (fuel : ℕ) → Explained fuel
  search_from-Explained zero marks stack e l a r = absurd (unfold search_from in cc)
  search_from-Explained (suc fuel) marks [] e l a r = absurd (unfold search_from in cc)
  search_from-Explained (suc fuel) marks (frame ∷ stack) e l a r =
      resume-Explained fuel marks frame stack e (round-Round types marks frame stack)
        (search_from-Explained fuel) l a (sym (search_from-resume types fuel marks frame stack) ∙ r)

  -- A search that comes to its end leaves no type active.
  abbrev Closed : ℕ → Type 0
  Closed fuel =
      (marks : Bytes → Mark) (stack : List (Frame D)) (marks' : Bytes → Mark)
      → Active marks stack
      → search_from types fuel marks stack ≡ done marks'
      → Active marks' []

  resume-Closed :
      (fuel : ℕ) (marks : Bytes → Mark) (frame : Frame D) (stack : List (Frame D)) {n : Next D}
      (marks' : Bytes → Mark)
      → Round types marks frame stack n
      → Closed fuel
      → Active marks (frame ∷ stack)
      → resume types fuel n ≡ done marks'
      → Active marks' []
  resume-Closed fuel marks frame stack marks' (closes e) ih a r =
      ih (mark marks frame.name finished) stack marks' (Active-close marks frame stack a) r
  resume-Closed fuel marks frame stack marks' (misses d left e f) ih a r =
      absurd (ground (arith, r))
  resume-Closed fuel marks frame stack marks' (mistypes d left t e f g) ih a r =
      absurd (ground (arith, r))
  resume-Closed fuel marks frame stack marks' (recurs d left t e f g) ih a r =
      absurd (ground (arith, r))
  resume-Closed fuel marks frame stack marks' (passes d left t e f g h) ih a r =
      ih marks (record frame { left = left } ∷ stack) marks'
        (Active-passed marks frame left stack a) r
  resume-Closed fuel marks frame stack marks' (enters d left t e f g h) ih a r =
      ih (mark marks d active) (entered d t ∷ record frame { left = left } ∷ stack) marks'
        (Active-enter marks d t frame left stack a) r

  search_from-Closed : (fuel : ℕ) → Closed fuel
  search_from-Closed zero marks stack marks' a r = absurd (unfold search_from in ground (arith, r))
  search_from-Closed (suc fuel) marks [] marks' a r =
      subst (λ m. Active m []) (search_from_nil types fuel marks marks' r) a
  search_from-Closed (suc fuel) marks (frame ∷ stack) marks' a r =
      resume-Closed fuel marks frame stack marks' (round-Round types marks frame stack)
        (search_from-Closed fuel) a (sym (search_from-resume types fuel marks frame stack) ∙ r)

  -- The start of a search from a type.
  Active-start :
      (marks : Bytes → Mark) (name : Bytes) (t : TypeRegistration D)
      → Active marks []
      → Active (mark marks name active) (entered name t ∷ [])
  unfolding Standing mark
  Active-start marks name t a n e = elim (Bool-cases (bytes_eq name n)) [
    | inl same ↦ inl (sym ((bytes_eq_iff name n).0 same))
    | inr other ↦ absurd (a n (rw other at e))
  ]

  search_all-Explained :
      (fuel : ℕ) (rest : Map Bytes (TypeRegistration D)) (marks : Bytes → Mark) (e : FreezeError)
      → All (λ e. find e.0 types ≡ some e.1) rest
      → Active marks []
      → search_all types fuel marks rest ≡ fault e
      → Explains e
  unfolding search_all Linked Below
  search_all-Explained fuel [] marks e all a r = absurd (ground (arith, r))
  search_all-Explained fuel ((name, t) ∷ rest) marks e (found, all) a r =
      elim (Mark-cases (marks name)) [
        | inl f ↦ search_all-Explained fuel rest marks e all a (ground (arith, f, r))
        | inr nf ↦
            elim (Searched-cases
              (search_from types fuel (mark marks name active) (entered name t ∷ []))) [
                | inl s ↦ absurd (ground (arith, s, r, nf))
                | inr (inl (x, s)) ↦
                    search_from-Explained fuel (mark marks name active) (entered name t ∷ []) e
                      (record { found = found; left_listed = λ d l. l }, tt)
                      (Active-start marks name t a) (ground (arith, s, r, nf))
                | inr (inr (between, s)) ↦
                    search_all-Explained fuel rest between e all
                      (search_from-Closed fuel (mark marks name active) (entered name t ∷ [])
                        between (Active-start marks name t a) s)
                      (ground (arith, s, r, nf))
              ]
      ]

fault_explained :
    {D : Type 0} (types : Map Bytes (TypeRegistration D)) (e : FreezeError)
    → All (λ e. find e.0 types ≡ some e.1) types
    → search_types types ≡ fault e
    → Explains types e
unfolding search_types
fault_explained types e all r =
    search_all-Explained types (suc (weight types + weight types)) types (λ n. fresh) e all
      (λ n a. absurd (ground (arith, a))) r

-- The search of `freezeTypeCatalog` comes to its end, and either it finds no fault, or the fault that
-- it reports is one the types have: the missing dependency is a dependency of some type and not a type
-- itself, the type of a recursive definition depends on itself through a chain, and the enumeration
-- has a dependency that is not an integer. `types` is a map: each entry is the one found under its
-- name.
pub search_types_explained :
    (D : Type 0) (types : Map Bytes (TypeRegistration D))
    → All (λ e. find e.0 types ≡ some e.1) types
    → ((marks : Bytes → Mark) × (search_types types ≡ done marks))
      ⊎ ((e : FreezeError) × (search_types types ≡ fault e) × Explains types e)
search_types_explained D types all = elim (Searched-cases (search_types types)) [
  | inl r ↦ absurd (search_types_ends D types r)
  | inr (inl (e, r)) ↦ inr (e, r, fault_explained types e all r)
  | inr (inr (marks, r)) ↦ inl (marks, r)
]
