-- ===== src/Publication/Published.antt =====
-- The published components through any sequence of calls of `publishComponent` of src/server.cpp on
-- one model.
use rtt_http.Common.{
  ℕ, true, false, none, some, List, [], ◌∷◌, Bytes, ◌==◌, ◌≡◌, ◌≢◌, ◌↔◌, ◌⊎◌, inl, inr, refl, sym,
  ap, ◌∙◌, subst, arith, Bool-cases, ==_iff, All,
}
use rtt_http.Common.Map.{
  Map, find, insert, bytes_key, All-insert, IsProper, emplace-IsProper, emplace_new, find-insert,
  bytes_eq_iff,
}
use rtt_http.Codec.{Json}
use rtt_http.Http.{Resource}
use rtt_http.Publication.{
  Publication, Publications, Gate, Staging, staged, throws, PublishAnswer, published, not_running,
  stopped_meanwhile, other_instance, staging_failed, shut, publication, contains, publish_component,
  is_published,
}
use rtt_http.Publication.Commit.{contains-find, commit_cases}

not_running-ne : not_running ≢ published
not_running-ne h = cc

stopped_meanwhile-ne : stopped_meanwhile ≢ published
stopped_meanwhile-ne h = cc

other_instance-ne : other_instance ≢ published
other_instance-ne h = cc

staging_failed-ne : staging_failed ≢ published
staging_failed-ne h = cc

module _ {D : Type 0} (name_of : ℕ → Bytes) where
  -- The models that the calls lead to.
  pub data Reached : Publications D → Type 0 where
    nothing_yet : Reached []
    publishes :
        {m : Publications D} (component : ℕ) (before : Gate) (staging : Staging D) (after : Gate)
        → Reached m
        → Reached (publish_component name_of component before staging after m).1

  module _ (component : ℕ) (before : Gate) (staging : Staging D) (after : Gate)
      (m : Publications D) where
    abbrev result : PublishAnswer × Publications D
    result = publish_component name_of component before staging after m

    -- The component and its name are new.
    record Adds : Type 0 where
      summary : Json D
      routes : Map Bytes (Resource D)
      messages : List Bytes
      new_name : find (name_of component) m ≡ none
      added : result ≡ (
        published,
        insert (name_of component) (publication component summary routes messages) m,
      )

    publish_cases :
        ((result.0 ≢ published) × (result.1 ≡ m))
        ⊎ ((contains component m ≡ true) × (result ≡ (published, m)))
        ⊎ Adds
    unfolding publish_component
    publish_cases = elim (Bool-cases (shut before)) [
      | inl b ↦ inl (rw b not_running-ne, rw b refl)
      | inr b ↦ elim (Bool-cases (contains component m)) [
        | inl c ↦ inr (inl (c, rw (b, c) refl))
        | inr c ↦ by_staging staging refl b c
      ]
    ]
      where
        by_staging :
            (st : Staging D)
            → staging ≡ st
            → shut before ≡ false
            → contains component m ≡ false
            → ((result.0 ≢ published) × (result.1 ≡ m))
              ⊎ ((contains component m ≡ true) × (result ≡ (published, m)))
              ⊎ Adds
        by_staging throws e b c = inl (rw (b, c, e) staging_failed-ne, rw (b, c, e) refl)
        by_staging (staged summary routes messages) e b c =
            let p = publication component summary routes messages in
            elim (Bool-cases (shut after)) [
              | inl a ↦ inl (rw (b, c, e, a) stopped_meanwhile-ne, rw (b, c, e, a) refl)
              | inr a ↦ elim (commit_cases name_of p m) [
                | inl (n, q) ↦ inr (
                    inr (record {
                      summary = summary;
                      routes = routes;
                      messages = messages;
                      new_name = n;
                      added = rw (b, c, e, a, q) refl;
                    }))
                | inr (q, f, inl (s, z)) ↦
                    absurd (ground (arith, c, s, contains-find (name_of component) q m f))
                | inr (q, f, inr (s, z)) ↦
                    inl (rw (b, c, e, a, z) other_instance-ne, rw (b, c, e, a, z) refl)
              ]
            ]

  -- Each publication stands under the name of its component.
  record Named (m : Publications D) : Type 0 where
    names : All (λ e. e.0 ≡ name_of e.1.component) m
    proper : IsProper m

  insert-Named :
      (p : Publication D) (m : Publications D)
      → find (name_of p.component) m ≡ none
      → Named m
      → Named (insert (name_of p.component) p m)
  insert-Named p m n h = record {
    names = All-insert (λ e. e.0 ≡ name_of e.1.component) (name_of p.component) p m refl h.names;
    proper =
        subst IsProper (emplace_new (name_of p.component) p m n)
          (emplace-IsProper (name_of p.component) p m h.proper);
  }

  Reached-Named : {m : Publications D} → Reached m → Named m
  Reached-Named nothing_yet = record { names = tt; proper = tt }
  Reached-Named (publishes {m = m} component before staging after reached) =
      let h = Reached-Named reached in
      elim (publish_cases component before staging after m) [
        | inl (_, e) ↦ subst Named (sym e) h
        | inr (inl (_, e)) ↦ subst (λ x. Named x.1) (sym e) h
        | inr (inr a) ↦
            subst (λ x. Named x.1) (sym a.added)
              (insert-Named (publication component a.summary a.routes a.messages) m a.new_name h)
      ]

  abbrev Own : ℕ → Publications D → Type 0
  Own component m =
      (p : Publication D) × (find (name_of component) m ≡ some p) × (p.component ≡ component)

  contains-Own :
      (component : ℕ) (all m : Publications D)
      → All (λ e. e.0 ≡ name_of e.1.component) m
      → All (λ e. find e.0 all ≡ some e.1) m
      → contains component m ≡ true
      → Own component all
  unfolding contains
  contains-Own component all [] n a h = absurd (ground (arith, h))
  contains-Own component all ((name, p) ∷ m) (e, n) (f, a) h =
      elim (Bool-cases (p.component == component)) [
        | inl s ↦
            let same = (==_iff p.component component).0 s in
            (p, subst (λ k. find k all ≡ some p) (e ∙ ap name_of same) f, same)
        | inr s ↦ contains-Own component all m n a (ground (arith, h, s))
      ]

-- On a model that any calls of `publishComponent` made, `isPublished` of a component is true just
-- if the publication under the component's name is its own.
pub is_published_iff :
    (D : Type 0) (name_of : ℕ → Bytes) (m : Publications D) (component : ℕ)
    → Reached name_of m
    → (is_published component (some m) ≡ true)
      ↔ ((p : Publication D) × (find (name_of component) m ≡ some p) × (p.component ≡ component))
unfolding is_published
is_published_iff D name_of m component reached =
    let h = Reached-Named name_of reached in
    (
      contains-Own name_of component m m h.names h.proper,
      λ own.
          subst (λ c. contains c m ≡ true) own.2 (contains-find (name_of component) own.0 m own.1),
    )

-- After `publishComponent` succeeds the component is published; when it fails, for whatever reason,
-- nothing has changed.
pub publish_component_lem :
    (D : Type 0) (name_of : ℕ → Bytes) (component : ℕ) (before : Gate) (staging : Staging D)
    (after : Gate) (m : Publications D)
    → let (answer, m') = publish_component name_of component before staging after m in
      ((answer ≡ published) × (contains component m' ≡ true)) ⊎ ((answer ≢ published) × (m' ≡ m))
publish_component_lem D name_of component before staging after m =
    elim (publish_cases name_of component before staging after m) [
      | inl (n, e) ↦ inr (n, e)
      | inr (inl (c, e)) ↦ inl (ap (λ x. x.0) e, ap (λ x. contains component x.1) e ∙ c)
      | inr (inr a) ↦
          let p = publication component a.summary a.routes a.messages in
          let there = contains-find (name_of component) p (insert (name_of component) p m) (
            ground (
              arith,
              find-insert (name_of component) (name_of component) p m,
              a.new_name,
              bytes_eq_iff (name_of component) (name_of component),
            )) in
          inl (ap (λ x. x.0) a.added, ap (λ x. contains component x.1) a.added ∙ there)
    ]

-- A publication stays under its name whatever is published later.
pub publications_stay :
    (D : Type 0) (name_of : ℕ → Bytes) (component : ℕ) (before : Gate) (staging : Staging D)
    (after : Gate) (m : Publications D) (name : Bytes) (p : Publication D)
    → find name m ≡ some p
    → find name (publish_component name_of component before staging after m).1 ≡ some p
publications_stay D name_of component before staging after m name p f =
    elim (publish_cases name_of component before staging after m) [
      | inl (_, e) ↦ ap (find name) e ∙ f
      | inr (inl (_, e)) ↦ ap (λ x. find name x.1) e ∙ f
      | inr (inr a) ↦
          let q = publication component a.summary a.routes a.messages in
          ap (λ x. find name x.1) a.added
          ∙ ground (
            arith,
            find-insert name (name_of component) q m,
            a.new_name,
            f,
            bytes_eq_iff name (name_of component),
          )
    ]
