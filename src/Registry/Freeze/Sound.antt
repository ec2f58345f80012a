-- ===== src/Registry/Freeze/Sound.antt =====
-- What a catalog is that `freezeTypeCatalog` of src/type_protocol.cpp accepts.
use rtt_http.Common.{
  ℕ, zero, suc, ◌+◌, some, List, [], ◌∷◌, ◌++◌, append_assoc, append-nil, Bytes, bytes_eq, ◌≡◌, ◌≢◌,
  ◌⊎◌, inl, inr, refl, sym, ◌∙◌, subst, arith, Bool-cases, All,
}
use rtt_http.Common.Map.{Map, find, find-All, bytes_key, bytes_eq_iff}
use rtt_http.Registry.{TypeRegistration}
use rtt_http.Registry.Freeze.{
  Mark, fresh, active, finished, Frame, done, mark, search_from, search_all, search_types, weight,
  Next, entered,
}
use rtt_http.Registry.Freeze.Rounds.{
  Round, closes, misses, mistypes, recurs, passes, enters, round-Round, resume, search_from-resume,
}
use rtt_http.Registry.Freeze.Ends.{Searched-cases}
use rtt_http.Registry.Freeze.Chains.{
  Mark-cases, Resolves, Grounded, grounded, AllGrounded, none_left, Chain, AllGrounded-concat,
  Grounded-acyclic,
}
use rtt_http.Registry.Freeze.Finished.{mark_active, entered-OnStack, search_from-Finishes}

module _ {D : Type 0} (types : Map Bytes (TypeRegistration D)) where
  -- A frame has done the first dependencies of its definition.
  record Entered (f : Frame D) (left : List Bytes) : Type 0 where
    passed : List Bytes
    split : f.definition.dependencies ≡ passed ++ left
    all : AllGrounded types f.definition passed
    found : find f.name types ≡ some f.definition

  -- The frames below the top wait for the one above them.
  Waits : Bytes → List (Frame D) → Type 0
  Waits child [] = Unit
  Waits child (f ∷ fs) =
      Entered f (child ∷ f.left) × Resolves types f.definition child × Waits f.name fs

  Stacked : List (Frame D) → Type 0
  Stacked [] = Unit
  Stacked (f ∷ fs) = Entered f f.left × Waits f.name fs

  abbrev Settled : (Bytes → Mark) → Type 0
  Settled marks = (n : Bytes) → marks n ≡ finished → Grounded types n

  -- The child of the top is grounded: the top goes on.
  Entered-passed :
      (f : Frame D) (d : Bytes) (left : List Bytes)
      → Entered f (d ∷ left)
      → Resolves types f.definition d
      → Grounded types d
      → Entered (record f { left = left }) left
  Entered-passed f d left e s g = record {
    passed = e.passed ++ d ∷ [];
    split = e.split ∙ sym (append_assoc e.passed (d ∷ []) left);
    all = AllGrounded-concat types f.definition e.passed d e.all s g;
    found = e.found;
  }

  Entered-Grounded : (f : Frame D) → Entered f [] → Grounded types f.name
  Entered-Grounded f e =
      grounded f.name f.definition e.found
        (subst (AllGrounded types f.definition) (sym (e.split ∙ append-nil e.passed)) e.all)

  Waits-Stacked :
      (child : Bytes) (fs : List (Frame D)) → Grounded types child → Waits child fs → Stacked fs
  unfolding Waits Stacked
  Waits-Stacked child [] g w = tt
  Waits-Stacked child (f ∷ fs) g (e, s, w) = (Entered-passed f child f.left e s g, w)

  Settled-mark :
      (marks : Bytes → Mark) (d : Bytes) (m : Mark)
      → Settled marks
      → (m ≡ finished → Grounded types d)
      → Settled (mark marks d m)
  unfolding mark
  Settled-mark marks d m h g n e = elim (Bool-cases (bytes_eq d n)) [
    | inl same ↦ subst (Grounded types) ((bytes_eq_iff d n).0 same) (g (rw same at e))
    | inr other ↦ h n (rw other at e)
  ]

  module _ (fuel : ℕ) where
    abbrev Safe : Type 0
    Safe =
        (marks : Bytes → Mark) (stack : List (Frame D)) (marks' : Bytes → Mark)
        → Settled marks
        → Stacked stack
        → search_from types fuel marks stack ≡ done marks'
        → Settled marks'

  resume-Settled :
      (fuel : ℕ) (marks : Bytes → Mark) (frame : Frame D) (stack : List (Frame D)) {n : Next D}
      (marks' : Bytes → Mark)
      → Round types marks frame stack n
      → Safe fuel
      → Settled marks
      → Stacked (frame ∷ stack)
      → resume types fuel n ≡ done marks'
      → Settled marks'
  unfolding Stacked
  resume-Settled fuel marks frame stack marks' (closes e) safe h (top, below) r =
      let g = Entered-Grounded frame (subst (Entered frame) e top) in
      safe (mark marks frame.name finished) stack marks'
        (Settled-mark marks frame.name finished h (λ _. g)) (Waits-Stacked frame.name stack g below)
        r
  resume-Settled fuel marks frame stack marks' (misses d left e f) safe h w r =
      absurd (ground (arith, r))
  resume-Settled fuel marks frame stack marks' (mistypes d left t e f g) safe h w r =
      absurd (ground (arith, r))
  resume-Settled fuel marks frame stack marks' (recurs d left t e f g) safe h w r =
      absurd (ground (arith, r))
  resume-Settled fuel marks frame stack marks' (passes d left t e f k m) safe h (top, below) r =
      let s : Resolves types frame.definition d = record { target = t; found = f; kinds = k } in
      safe marks (record frame { left = left } ∷ stack) marks' h
        (Entered-passed frame d left (subst (Entered frame) e top) s (h d m), below) r
  resume-Settled fuel marks frame stack marks' (enters d left t e f k m) safe h (top, below) r =
      let s : Resolves types frame.definition d = record { target = t; found = f; kinds = k } in
      let waiting : Waits d (record frame { left = left } ∷ stack) =
        unfold Waits in (moved (subst (Entered frame) e top), s, below) in
      safe (mark marks d active) (entered d t ∷ record frame { left = left } ∷ stack) marks'
        (Settled-mark marks d active h (λ x. absurd (ground (arith, x))))
        (fresh_frame d t f, waiting) r
    where
      moved :
          {f : Frame D} {ds left : List Bytes}
          → Entered f ds
          → Entered (record f { left = left }) ds
      moved e = record { passed = e.passed; split = e.split; all = e.all; found = e.found }

      fresh_frame :
          (d : Bytes) (t : TypeRegistration D)
          → find d types ≡ some t
          → Entered (entered d t) t.dependencies
      fresh_frame d t f = record { passed = []; split = refl; all = none_left t; found = f }

  search_all_nil :
      (fuel : ℕ) (marks marks' : Bytes → Mark)
      → search_all types fuel marks [] ≡ done marks'
      → marks ≡ marks'
  unfolding search_all
  search_all_nil fuel marks marks' r = cc

  pub search_from_nil :
      (fuel : ℕ) (marks marks' : Bytes → Mark)
      → search_from types (suc fuel) marks [] ≡ done marks'
      → marks ≡ marks'
  unfolding search_from
  search_from_nil fuel marks marks' r = cc

  search_from-Settled : (fuel : ℕ) → Safe fuel
  search_from-Settled zero marks stack marks' h w r =
      absurd (unfold search_from in ground (arith, r))
  search_from-Settled (suc fuel) marks [] marks' h w r =
      subst Settled (search_from_nil fuel marks marks' r) h
  search_from-Settled (suc fuel) marks (frame ∷ stack) marks' h w r =
      resume-Settled fuel marks frame stack marks' (round-Round types marks frame stack)
        (search_from-Settled fuel) h w (sym (search_from-resume types fuel marks frame stack) ∙ r)

  -- A type that was finished is passed over; any other is searched from.
  search_all_inv :
      (fuel : ℕ) (name : Bytes) (t : TypeRegistration D) (rest : Map Bytes (TypeRegistration D))
      (marks marks' : Bytes → Mark)
      → search_all types fuel marks ((name, t) ∷ rest) ≡ done marks'
      → ((marks name ≡ finished) × (search_all types fuel marks rest ≡ done marks'))
        ⊎ ((marks name ≢ finished)
            × ((between : Bytes → Mark) × (search_from types fuel
                    (mark marks name active)
                    (entered name t ∷ [])
                  ≡ done between)
                × (search_all types fuel between rest ≡ done marks')))
  unfolding search_all
  search_all_inv fuel name t rest marks marks' r = elim (Mark-cases (marks name)) [
    | inl f ↦ inl (f, ground (arith, f, r))
    | inr nf ↦
        elim (Searched-cases
          (search_from types fuel (mark marks name active) (entered name t ∷ []))) [
            | inl e ↦ absurd (ground (arith, e, r, nf))
            | inr (inl (x, e)) ↦ absurd (ground (arith, e, r, nf))
            | inr (inr (between, e)) ↦ inr (nf, (between, e, ground (arith, e, r, nf)))
          ]
  ]

  search_all-Settled :
      (fuel : ℕ) (rest : Map Bytes (TypeRegistration D)) (marks marks' : Bytes → Mark)
      → All (λ e. find e.0 types ≡ some e.1) rest
      → Settled marks
      → search_all types fuel marks rest ≡ done marks'
      → Settled marks'
        × ((n : Bytes) → marks n ≡ finished → marks' n ≡ finished)
        × All (λ e. marks' e.0 ≡ finished) rest
  unfolding Stacked Waits
  search_all-Settled fuel [] marks marks' a h r =
      let e = search_all_nil fuel marks marks' r in
      (subst Settled e h, λ n f. subst (λ m. m n ≡ finished) e f, tt)
  search_all-Settled fuel ((name, t) ∷ rest) marks marks' (found, a) h r =
      elim (search_all_inv fuel name t rest marks marks' r) [
        | inl (f, r') ↦
            let (settled, keeps, rests) = search_all-Settled fuel rest marks marks' a h r' in
            (settled, keeps, (keeps name f, rests))
        | inr (nf, (between, s, r')) ↦
            let start : Stacked (entered name t ∷ []) = bottom name t found in
            let settled_between =
              search_from-Settled fuel (mark marks name active) (entered name t ∷ []) between
                (Settled-mark marks name active h (λ x. absurd (ground (arith, x)))) start s in
            let finishes = λ (n : Bytes).
              search_from-Finishes types fuel n (mark marks name active) (entered name t ∷ [])
                between in
            let (settled, keeps, rests) =
              search_all-Settled fuel rest between marks' a settled_between r' in
            (
              settled,
              λ n f. keeps n (finishes n (inl (mark_active types marks name n f nf)) s),
              (keeps name (finishes name (inr (entered-OnStack types name t)) s), rests),
            )
      ]
    where
      bottom :
          (name : Bytes) (t : TypeRegistration D)
          → find name types ≡ some t
          → Stacked (entered name t ∷ [])
      bottom name t found =
          (record { passed = []; split = refl; all = none_left t; found = found }, tt)

-- When the search of `freezeTypeCatalog` finds no fault, every type is grounded: its dependencies
-- are types, an enumeration's is an integer, and so on down, without end nowhere. `types` is a map:
-- each entry is the one found under its name.
pub search_types-Grounded :
    (D : Type 0) (types : Map Bytes (TypeRegistration D)) (marks : Bytes → Mark) (name : Bytes)
    (r : TypeRegistration D)
    → All (λ e. find e.0 types ≡ some e.1) types
    → search_types types ≡ done marks
    → find name types ≡ some r
    → Grounded types name
unfolding search_types
search_types-Grounded D types marks name r a s f =
    let (settled, keeps, all) =
      search_all-Settled types (suc (weight types + weight types)) types (λ n. fresh) marks a
        (λ n e. absurd (ground (arith, e))) s in
    settled name (find-All (λ e. marks e.0 ≡ finished) name r types all f)

-- No type of an accepted catalog depends on itself, through whatever chain.
pub search_types-acyclic :
    (D : Type 0) (types : Map Bytes (TypeRegistration D)) (marks : Bytes → Mark) (name : Bytes)
    (r : TypeRegistration D)
    → All (λ e. find e.0 types ≡ some e.1) types
    → search_types types ≡ done marks
    → find name types ≡ some r
    → ¬ Chain types name name
search_types-acyclic D types marks name r a s f cycle =
    Grounded-acyclic types (search_types-Grounded D types marks name r a s f) cycle
