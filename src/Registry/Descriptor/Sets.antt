-- ===== src/Registry/Descriptor/Sets.antt =====
-- The sets of `validateRegistration` of src/type_protocol.cpp.
use rtt_http.Common.{
  true, some, List, [], ◌∷◌, Bytes, bytes_eq, ◌≡◌, ◌⊎◌, inl, inr, refl, subst, arith, Bool-cases,
  Option-cases,
}
use rtt_http.Common.Map.{find, emplace, bytes_key, bytes_eq_iff, find-emplace}
use rtt_http.Registry.{Listed, first, later}
use rtt_http.Registry.Descriptor.{Set, Checked, RegistrationError, bad, refers, to_set, same_sets}

pub Checked-cases :
    (c : Checked) → ((e : RegistrationError) × (c ≡ bad e)) ⊎ ((refs : Set) × (c ≡ refers refs))
Checked-cases (bad e) = inl (e, refl)
Checked-cases (refers refs) = inr (refs, refl)

abbrev pub In : Bytes → Set → Type 0
In d s = find d s ≡ some tt

pub In-nil : (d : Bytes) → In d [] → ⊥
In-nil d h = unfold find in ground (arith, h)

pub In-emplace_to : (d t : Bytes) (s : Set) → In d (emplace t tt s).0 → (d ≡ t) ⊎ In d s
unfolding emplace
In-emplace_to d t s h = elim (Bool-cases (bytes_eq d t)) [
  | inl e ↦ inl ((bytes_eq_iff d t).0 e)
  | inr e ↦ inr (ground (arith, find-emplace d t tt s, h, e))
]

pub In-emplace_of : (d t : Bytes) (s : Set) → (d ≡ t) ⊎ In d s → In d (emplace t tt s).0
unfolding emplace
In-emplace_of d t s h = elim (Option-cases (find t s)) [
  | inl e ↦ ground (arith, find-emplace d t tt s, h, e, bytes_eq_iff d t)
  | inr (u, e) ↦ ground (arith, find-emplace d t tt s, h, e)
]

pub to_set-Listed : (d : Bytes) (xs : List Bytes) → In d (to_set xs) → Listed d xs
unfolding to_set
to_set-Listed d [] h = absurd (unfold find in ground (arith, h))
to_set-Listed d (x ∷ xs) h = elim (In-emplace_to d x (to_set xs) h) [
  | inl e ↦ subst (λ y. Listed d (y ∷ xs)) e first
  | inr i ↦ later (to_set-Listed d xs i)
]

pub Listed-to_set : (d : Bytes) (xs : List Bytes) → Listed d xs → In d (to_set xs)
unfolding to_set
Listed-to_set d [] l = elim l [ ]
Listed-to_set d (_ ∷ xs) first = In-emplace_of d d (to_set xs) (inl refl)
Listed-to_set d (x ∷ xs) (later l) = In-emplace_of d x (to_set xs) (inr (Listed-to_set d xs l))

pub same_sets_lem : (s t : Set) → same_sets s t ≡ true → s ≡ t
unfolding same_sets
same_sets_lem [] [] h = refl
same_sets_lem [] (b ∷ t) h = absurd (ground (arith, h))
same_sets_lem (a ∷ s) [] h = absurd (ground (arith, h))
same_sets_lem ((a, _) ∷ s) ((b, _) ∷ t) h = ground (arith, bytes_eq_iff a b, same_sets_lem s t)
