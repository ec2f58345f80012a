-- ===== src/Publication/Tests.antt =====
-- Runs of the publications of src/object_model.cpp and src/server.cpp.
use rtt_http.Common.{
  ℕ, true, false, some, List, [], ◌∷◌, Bytes, codes, bytes_eq, if◌then◌else◌, ◌==◌, ◌≡◌, ◌≢◌, ◌↔◌,
  ◌⊎◌, inr, refl,
}
use rtt_http.Common.Map.{Map, find, bytes_key}
use rtt_http.Codec.{Members, null, end}
use rtt_http.Http.{Resource, description}
use rtt_http.Registry.{TypeRegistration, TypeBinding, if_contains}
use rtt_http.Publication.{
  Publication, Publications, Gate, staged, PublishAnswer, published, publication, commit, contains,
  publish_component, is_published, resolve, route, root,
}
use rtt_http.Publication.Commit.{commit_resolves}
use rtt_http.Publication.Published.{nothing_yet, publishes, is_published_iff, publish_component_lem}
use rtt_http.Publication.Types.{describe_types, describe_type}
use rtt_http.Publication.Types.Reach.{Reaches, describe_types_iff}

abbrev name_of : ℕ → Bytes
name_of c = if c == 1 then codes "arm" else codes "cam"

abbrev resource : Resource ℕ
resource = record {
  kind = description;
  allow = codes "GET";
  description = null;
  supported = true;
  arguments = 0;
  has_result = false;
}

abbrev arm_path : Bytes
arm_path = codes "/api/v1/components/arm"

abbrev arm : Publication ℕ
arm = publication 1 null ((arm_path, resource) ∷ []) []

abbrev cam : Publication ℕ
cam = publication 2 null ((codes "/api/v1/components/cam", resource) ∷ []) []

abbrev with_cam : Publications ℕ
with_cam = (codes "cam", cam) ∷ []

not_root : arm_path ≢ root
not_root e = cc

commit_resolves_example : resolve arm_path (commit name_of arm with_cam).1 ≡ some (route resource)
unfolding find bytes_eq
commit_resolves_example =
    commit_resolves ℕ name_of arm with_cam arm_path (unfold contains in refl)
      (unfold commit bytes_eq find in refl) (inr (unfold resolve bytes_eq find in refl)) not_root

abbrev running : Gate
running = record { running = true; final_shutdown = false }

abbrev one_published : PublishAnswer × Publications ℕ
one_published =
    publish_component name_of 1 running (staged null ((arm_path, resource) ∷ []) []) running []

is_published_iff_example :
    (is_published 1 (some one_published.1) ≡ true)
    ↔ ((p : Publication ℕ) × (find (codes "arm") one_published.1 ≡ some p) × (p.component ≡ 1))
is_published_iff_example =
    is_published_iff ℕ name_of one_published.1 1
      (publishes 1 running (staged null ((arm_path, resource) ∷ []) []) running nothing_yet)

publish_component_lem_example :
    ((one_published.0 ≡ published) × (contains 1 one_published.1 ≡ true))
    ⊎ ((one_published.0 ≢ published) × (one_published.1 ≡ []))
publish_component_lem_example =
    publish_component_lem ℕ name_of 1 running (staged null ((arm_path, resource) ∷ []) []) running
      []

abbrev registration : Bytes → List Bytes → TypeRegistration ℕ
registration name dependencies = record {
  provider_id = codes "p";
  provider_version = codes "1";
  codec_id = name;
  codec_version = codes "1";
  rtt_type = name;
  descriptor = end;
  dependencies = dependencies;
}

-- Two types in a circle, and one that is not there.
abbrev circle : Map Bytes (TypeBinding ℕ)
circle =
    (codes "A", record { registration = registration (codes "A") (codes "B" ∷ []); codec = 1 })
    ∷ (
      codes "B",
      record { registration = registration (codes "B") (codes "A" ∷ codes "C" ∷ []); codec = 2 },
    )
    ∷ []

describe_types_iff_example :
    (r : Members ℕ) × (describe_types circle [] (codes "A" ∷ []) ≡ some r)
    × ((if_contains (codes "C") r ≡ some null) ↔ (
        Reaches circle (codes "A" ∷ []) (codes "C") × (null ≡ describe_type circle [] (codes "C"))))
describe_types_iff_example = describe_types_iff ℕ circle [] (codes "A" ∷ []) (codes "C") null
