-- ===== src/Publication.antt =====
-- The published components: `commit`, `resolve`, `contains` and `diagnostics` of `ObjectModel` in
-- src/object_model.cpp, and `publishComponent`, `isPublished` and `publicationDiagnostics` of
-- src/server.cpp. A component is known by its address, `name_of` is `getName` of RTT; what `stage`
-- makes is an argument, and so is what the server is when its mutex is taken. `publishComponent`
-- holds the control mutex throughout, and nothing else commits.
pub mod Commit
pub mod Published
pub mod Types
mod Tests
use rtt_http.Common.{
  ℕ, Bool, true, false, ◌&&◌, ◌||◌, not, Option, none, some, List, [], ◌∷◌, Bytes, codes,
  if◌then◌else◌, bytes_eq, ◌==◌, any,
}
use rtt_http.Common.Map.{Map, find, emplace, bytes_key}
use rtt_http.Codec.{Json}
use rtt_http.Http.{Resource}

pub record Publication (D : Type 0) : Type 0 where
  pub component : ℕ
  pub summary : Json D
  pub routes : Map Bytes (Resource D)
  pub diagnostics : List Bytes

-- `publications_`.
abbrev pub Publications : Type 0 → Type 0
Publications D = Map Bytes (Publication D)

-- `root`.
abbrev pub root : Bytes
root = codes "/api/v1/components"

-- What `resolve` finds: the collection with its items, or the resource of a route.
pub data Found (D : Type 0) : Type 0 where
  collection : List (Json D) → Found D
  route : Resource D → Found D

unfoldable pub commit :
    {D : Type 0} → (ℕ → Bytes) → Publication D → Publications D → Bool × Publications D
unfolding emplace find
commit name_of p m =
    let name = name_of p.component in
    let (m', inserted) = emplace name p m in
    if inserted then (true, m') else elim (find name m') [
      | some existing ↦ if existing.component == p.component then (true, m') else (false, m')
      | none ↦ (true, m')
    ]

unfoldable pub summaries : {D : Type 0} → Publications D → List (Json D)
summaries [] = []
summaries ((name, p) ∷ m) = p.summary ∷ summaries m

-- The loop over the publications.
unfoldable pub resolve_route : {D : Type 0} → Bytes → Publications D → Option (Resource D)
unfolding find
resolve_route path [] = none
resolve_route path ((name, p) ∷ m) = elim (find path p.routes) [
  | some resource ↦ some resource
  | none ↦ resolve_route path m
]

unfoldable pub resolve : {D : Type 0} → Bytes → Publications D → Option (Found D)
unfolding summaries resolve_route
resolve path m =
    if bytes_eq path root
    then some (collection (summaries m))
    else elim (resolve_route path m) [ none ↦ none | some resource ↦ some (route resource) ]

unfoldable pub contains : {D : Type 0} → ℕ → Publications D → Bool
contains component [] = false
contains component ((name, p) ∷ m) = p.component == component || contains component m

unfoldable pub diagnostics : {D : Type 0} → Bytes → Publications D → List Bytes
unfolding find
diagnostics name m = elim (find name m) [ none ↦ [] | some p ↦ p.diagnostics ]

abbrev pub publication :
    {D : Type 0} → ℕ → Json D → Map Bytes (Resource D) → List Bytes → Publication D
publication component summary routes messages = record {
  component = component;
  summary = summary;
  routes = routes;
  diagnostics = messages;
}

-- `state` and `finalShutdown` when the mutex is taken.
pub record Gate : Type 0 where
  pub running : Bool
  pub final_shutdown : Bool

-- What the staging comes to: the summary, the routes and the diagnostics of the component, or an
-- exception.
pub data Staging (D : Type 0) : Type 0 where
  staged : Json D → Map Bytes (Resource D) → List Bytes → Staging D
  throws : Staging D

pub data PublishAnswer : Type 0 where
  published not_running stopped_meanwhile other_instance staging_failed : PublishAnswer

-- The first section's guard, and the second one's.
abbrev pub shut : Gate → Bool
shut g = not g.running || g.final_shutdown

unfoldable pub publish_component :
    {D : Type 0}
    → (ℕ → Bytes)
    → ℕ
    → Gate
    → Staging D
    → Gate
    → Publications D
    → PublishAnswer × Publications D
unfolding contains commit
publish_component name_of component before staging after m =
    if shut before
    then (not_running, m)
    else if contains component m
    then (published, m)
    else elim staging [
      | throws ↦ (staging_failed, m)
      | staged summary routes messages ↦
          if shut after
          then (stopped_meanwhile, m)
          else (let (committed, m') =
                commit name_of (publication component summary routes messages) m in
              if committed then (published, m') else (other_instance, m'))
    ]

-- `none` is the server without a model.
unfoldable pub is_published : {D : Type 0} → ℕ → Option (Publications D) → Bool
unfolding contains
is_published component none = false
is_published component (some m) = contains component m

unfoldable pub publication_diagnostics : {D : Type 0} → Bytes → Option (Publications D) → List Bytes
unfolding diagnostics
publication_diagnostics name none = []
publication_diagnostics name (some m) = diagnostics name m
