-- ===== src/Url/Tests.antt =====
-- `canonicalRequestPath` and `childPath` on concrete targets.
use rtt_http.Common.{
  none, some, List, [], ◌∷◌, ◌++◌, Bytes, codes, ◌≡◌, ◌≢◌, refl, arith, All, IsByte,
}
use rtt_http.Url.{
  canonical_request_path, child_path, encode_segment, decode_segment, valid_name,
  canonical_segments, segments, before_query,
}
use rtt_http.Url.Routes.{IsName, route, names_of, canonical_request_path-child_path}
use rtt_http.Url.Canonical.{canonical_request_path_sound, canonical_request_path-injective}
use rtt_http.Utf8.{valid_utf8}

abbrev target : Bytes
target = codes "/a/b%20c"

lower_case_test : canonical_request_path (codes "/%c3%a9") ≡ some (codes "/%C3%A9")
unfolding canonical_request_path canonical_segments segments before_query decode_segment valid_name
    valid_utf8 encode_segment
lower_case_test = refl

dots_test : canonical_request_path (codes "/a/../b") ≡ none
unfolding canonical_request_path canonical_segments segments before_query decode_segment valid_name
    valid_utf8 encode_segment
dots_test = refl

resolved : canonical_request_path target ≡ some target
unfolding canonical_request_path canonical_segments segments before_query decode_segment valid_name
    valid_utf8 encode_segment
resolved = refl

resolved_query : canonical_request_path (target ++ codes "?n=1") ≡ some target
unfolding canonical_request_path canonical_segments segments before_query decode_segment valid_name
    valid_utf8 encode_segment
resolved_query = refl

target-IsByte : All IsByte target
target-IsByte = ground arith

target_query-IsByte : All IsByte (target ++ codes "?n=1")
target_query-IsByte = ground arith

canonical_request_path_sound_example :
    (names : List Bytes) × (names ≢ [])
    × All IsName names
    × (names_of target ≡ some names)
    × (target ≡ route names)
canonical_request_path_sound_example =
    canonical_request_path_sound target target target-IsByte resolved

canonical_request_path-injective_example : names_of target ≡ names_of (target ++ codes "?n=1")
canonical_request_path-injective_example =
    canonical_request_path-injective target (target ++ codes "?n=1") target target-IsByte
      target_query-IsByte resolved resolved_query

plant : IsName (codes "plant")
unfolding valid_name valid_utf8 encode_segment
plant = record { bytes = ground arith; valid = refl }

built : child_path (route (codes "plant" ∷ [])) (codes "x/y") ≡ some (codes "/plant/x%2Fy")
unfolding child_path route encode_segment valid_name valid_utf8
built = refl

canonical_request_path-child_path_example :
    (canonical_request_path (codes "/plant/x%2Fy") ≡ some (codes "/plant/x%2Fy"))
    × (names_of (codes "/plant/x%2Fy") ≡ some ((codes "plant" ∷ []) ++ codes "x/y" ∷ []))
canonical_request_path-child_path_example =
    canonical_request_path-child_path (codes "plant" ∷ []) (codes "x/y") (codes "/plant/x%2Fy")
      (plant, tt) (ground arith) built
