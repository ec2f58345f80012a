-- ===== src/Publication/Commit.antt =====
-- What a commit in src/object_model.cpp does to the routes.
use rtt_http.Common.{
  ℕ, true, false, Option, none, some, [], ◌∷◌, Bytes, bytes_eq, ◌==◌, ◌≡◌, ◌≢◌, ◌⊎◌, inl, inr, refl,
  sym, ap, ◌∙◌, arith, Bool-cases, Option-cases, ==_iff,
}
use rtt_http.Common.Map.{find, insert, bytes_key, bytes_eq_iff}
use rtt_http.Http.{Resource}
use rtt_http.Publication.{
  Publication, Publications, route, root, commit, resolve_route, resolve, contains,
}

module _ {D : Type 0} (path : Bytes) where
  -- A new publication takes the paths that nothing else has.
  resolve_route-insert :
      (name : Bytes) (p : Publication D) (m : Publications D)
      → (find path p.routes ≡ none) ⊎ (resolve_route path m ≡ none)
      → resolve_route path (insert name p m)
        ≡ (elim (find path p.routes) [ some x ↦ some x | none ↦ resolve_route path m ])
  unfolding resolve_route insert
  resolve_route-insert name p [] h = refl
  resolve_route-insert name p ((j, q) ∷ m) h = ground (arith, h, resolve_route-insert name p m)

pub contains-find :
    {D : Type 0} (name : Bytes) (q : Publication D) (m : Publications D)
    → find name m ≡ some q
    → contains q.component m ≡ true
unfolding find contains
contains-find name q [] h = absurd (ground (arith, h))
contains-find name q ((j, o) ∷ m) h =
    ground (arith, h, ==_iff o.component q.component, contains-find name q m)

module _ {D : Type 0} (name_of : ℕ → Bytes) (p : Publication D) (m : Publications D) where
  -- The entry is new, or it is the component's own, or another component's.
  pub commit_cases :
      ((find (name_of p.component) m ≡ none)
        × (commit name_of p m ≡ (true, insert (name_of p.component) p m)))
      ⊎ ((q : Publication D) × (find (name_of p.component) m ≡ some q)
          × ((q.component ≡ p.component) × (commit name_of p m ≡ (true, m))
              ⊎ (q.component ≢ p.component) × (commit name_of p m ≡ (false, m))))
  unfolding commit
  commit_cases = elim (Option-cases (find (name_of p.component) m)) [
    | inl e ↦ inl (e, ground (arith, e))
    | inr (q, e) ↦ inr (
      q,
      e,
      elim (Bool-cases (q.component == p.component)) [
        | inl s ↦ inl ((==_iff q.component p.component).0 s, ground (arith, e, s))
        | inr s ↦ inr (λ x. ground (arith, s, x), ground (arith, e, s))
      ],
    )
  ]

resolve_other :
    {D : Type 0} (path : Bytes) (m : Publications D)
    → path ≢ root
    → resolve path m ≡ (elim (resolve_route path m) [ none ↦ none | some x ↦ some (route x) ])
unfolding resolve
resolve_other path m n = elim (Bool-cases (bytes_eq path root)) [
  | inl e ↦ absurd (n ((bytes_eq_iff path root).0 e))
  | inr e ↦ ground (arith, e)
]

no_route :
    {D : Type 0} (o : Option (Resource D))
    → (elim o [ none ↦ none | some x ↦ some (route x) ]) ≡ none
    → o ≡ none
no_route none h = refl
no_route (some x) h = absurd (ground (arith, h))

routes_union :
    {D : Type 0} (new old both : Option (Resource D))
    → both ≡ (elim new [ some x ↦ some x | none ↦ old ])
    → (elim both [ none ↦ none | some x ↦ some (route x) ]) ≡ (elim new [
      | some x ↦ some (route x)
      | none ↦ (elim old [ none ↦ none | some x ↦ some (route x) ])
    ])
routes_union none old both e = rw e refl
routes_union (some x) old both e = rw e refl

-- A commit that succeeds adds the routes of a component that was not published, and changes no
-- other: each path leads where the new component routes it, and otherwise where it led. The new
-- routes are paths that led nowhere, and the path is not that of the collection.
pub commit_resolves :
    (D : Type 0) (name_of : ℕ → Bytes) (p : Publication D) (m : Publications D) (path : Bytes)
    → contains p.component m ≡ false
    → (commit name_of p m).0 ≡ true
    → (find path p.routes ≡ none) ⊎ (resolve path m ≡ none)
    → path ≢ root
    → resolve path (commit name_of p m).1
      ≡ (elim (find path p.routes) [ some x ↦ some (route x) | none ↦ resolve path m ])
commit_resolves D name_of p m path c h d n = elim (commit_cases name_of p m) [
  | inl (e, q) ↦
      let name = name_of p.component in
      let led : (find path p.routes ≡ none) ⊎ (resolve_route path m ≡ none) = elim d [
        | inl a ↦ inl a
        | inr a ↦ inr (no_route (resolve_route path m) (sym (resolve_other path m n) ∙ a))
      ] in
      let union =
        routes_union (find path p.routes) (resolve_route path m)
          (resolve_route path (insert name p m)) (resolve_route-insert path name p m led) in
      ap (λ x. resolve path x.1) q
      ∙ resolve_other path (insert name p m) n
      ∙ union
      ∙ sym (
          ap (λ o. elim (find path p.routes) [ some x ↦ some (route x) | none ↦ o ])
            (resolve_other path m n))
  | inr (q, e, inl (s, _)) ↦
      absurd (ground (arith, c, s, contains-find (name_of p.component) q m e))
  | inr (q, e, inr (_, f)) ↦ absurd (ground (arith, h, ap (λ x. x.0) f))
]
