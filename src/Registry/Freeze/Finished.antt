-- ===== src/Registry/Freeze/Finished.antt =====
-- The search of `freezeTypeCatalog` of src/type_protocol.cpp: what is met is finished.
use rtt_http.Common.{
  ℕ, zero, suc, List, [], ◌∷◌, Bytes, ◌≡◌, ◌≢◌, ◌⊎◌, inl, inr, refl, sym, ◌∙◌, subst, arith,
}
use rtt_http.Common.Map.{Map, bytes_key, bytes_eq_iff}
use rtt_http.Registry.{TypeRegistration}
use rtt_http.Registry.Freeze.{Mark, active, finished, Frame, done, mark, search_from, Next, entered}
use rtt_http.Registry.Freeze.Rounds.{
  Round, closes, misses, mistypes, recurs, passes, enters, round-Round, resume, search_from-resume,
}

module _ {D : Type 0} (types : Map Bytes (TypeRegistration D)) where
  -- A type that is finished, or is being worked on.
  pub OnStack : Bytes → List (Frame D) → Type 0
  OnStack n [] = ⊥
  OnStack n (f ∷ fs) = (n ≡ f.name) ⊎ OnStack n fs

  abbrev pub Met : Bytes → (Bytes → Mark) → List (Frame D) → Type 0
  Met n marks stack = (marks n ≡ finished) ⊎ OnStack n stack

  abbrev pub Finishes : ℕ → Type 0
  Finishes fuel =
      (n : Bytes) (marks : Bytes → Mark) (stack : List (Frame D)) (marks' : Bytes → Mark)
      → Met n marks stack
      → search_from types fuel marks stack ≡ done marks'
      → marks' n ≡ finished

  mark_same : (marks : Bytes → Mark) (d : Bytes) (m : Mark) → mark marks d m d ≡ m
  unfolding mark
  mark_same marks d m = rw ((bytes_eq_iff d d).1 refl)

  mark-finished :
      (marks : Bytes → Mark) (d n : Bytes) → marks n ≡ finished → mark marks d finished n ≡ finished
  unfolding mark
  mark-finished marks d n h = ground arith

  pub mark_active :
      (marks : Bytes → Mark) (d n : Bytes)
      → marks n ≡ finished
      → marks d ≢ finished
      → mark marks d active n ≡ finished
  unfolding mark
  mark_active marks d n h f = ground (arith, bytes_eq_iff d n)

  resume-Finishes :
      (fuel : ℕ) (n : Bytes) (marks : Bytes → Mark) (frame : Frame D) (stack : List (Frame D))
      {next : Next D} (marks' : Bytes → Mark)
      → Round types marks frame stack next
      → Finishes fuel
      → Met n marks (frame ∷ stack)
      → resume types fuel next ≡ done marks'
      → marks' n ≡ finished
  unfolding OnStack
  resume-Finishes fuel n marks frame stack marks' (closes e) keeps (inl h) r =
      keeps n _ stack marks' (inl (mark-finished marks frame.name n h)) r
  resume-Finishes fuel n marks frame stack marks' (closes e) keeps (inr (inl h)) r =
      keeps n _ stack marks'
        (inl (
          subst (λ k. mark marks frame.name finished k ≡ finished) (sym h)
            (mark_same marks frame.name finished)))
        r
  resume-Finishes fuel n marks frame stack marks' (closes e) keeps (inr (inr h)) r =
      keeps n _ stack marks' (inr h) r
  resume-Finishes fuel n marks frame stack marks' (misses d left e f) keeps h r =
      absurd (ground (arith, r))
  resume-Finishes fuel n marks frame stack marks' (mistypes d left t e f g) keeps h r =
      absurd (ground (arith, r))
  resume-Finishes fuel n marks frame stack marks' (recurs d left t e f g) keeps h r =
      absurd (ground (arith, r))
  resume-Finishes fuel n marks frame stack marks' (passes d left t e f k m) keeps h r =
      keeps n marks (record frame { left = left } ∷ stack) marks' h r
  resume-Finishes fuel n marks frame stack marks' (enters d left t e f k m) keeps (inl h) r =
      keeps n _ (entered d t ∷ record frame { left = left } ∷ stack) marks'
        (inl (mark_active marks d n h (λ x. absurd (ground (arith, x, m))))) r
  resume-Finishes fuel n marks frame stack marks' (enters d left t e f k m) keeps (inr h) r =
      keeps n _ (entered d t ∷ record frame { left = left } ∷ stack) marks' (inr (inr h)) r

  pub search_from-Finishes : (fuel : ℕ) → Finishes fuel
  search_from-Finishes zero n marks stack marks' h r =
      absurd (unfold search_from in ground (arith, r))
  search_from-Finishes (suc fuel) n marks [] marks' h r =
      unfold search_from OnStack in ground (arith, r)
  search_from-Finishes (suc fuel) n marks (frame ∷ stack) marks' h r =
      resume-Finishes fuel n marks frame stack marks' (round-Round types marks frame stack)
        (search_from-Finishes fuel) h (sym (search_from-resume types fuel marks frame stack) ∙ r)

  pub entered-OnStack : (name : Bytes) (t : TypeRegistration D) → OnStack name (entered name t ∷ [])
  unfolding OnStack
  entered-OnStack name t = inl refl
