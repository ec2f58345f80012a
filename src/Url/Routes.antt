-- ===== src/Url/Routes.antt =====
-- Resource paths of src/object_model.cpp: what `childPath` builds from names.
use rtt_http.Common.{
  append_assoc, sym, Option, none, ◌>>=◌, map, ℕ, ◌≤◌, true, false, some, List, [], ◌∷◌, ◌++◌,
  Bytes, ◌≡◌, ◌≢◌, refl, ap, ◌∙◌, arith, All, IsByte, All-append, append-nil, length, any, All-imp,
}
use rtt_http.Url.{
  contains, valid_name, encode_segment, decode_segment, before_query, push_char, segments,
  canonical_segments, canonical_request_path, child_path,
}
use rtt_http.Url.Segments.{IsSafe, decode-encode_segment, encode_segment-IsSafe}

-- A name under which a resource is published.
pub record IsName (name : Bytes) : Type 0 where
  pub bytes : All IsByte name
  pub valid : valid_name name ≡ true

-- The path that `childPath` builds from the empty parent, name by name.
unfoldable pub route : List Bytes → Bytes
route [] = []
route (name ∷ names) = b'/' ∷ (encode_segment name ++ route names)

abbrev Lacks : ℕ → Bytes → Type 0
Lacks c = All (λ d. d ≢ c)

pub segments-ne-nil : (s : Bytes) → segments s ≢ []
unfolding segments push_char
segments-ne-nil [] = λ e. cc
segments-ne-nil (c ∷ s) = ground (arith, segments-ne-nil s)

push_all : Bytes → List Bytes → List Bytes
push_all [] ss = ss
push_all (c ∷ s) ss = push_char c (push_all s ss)

segments-append : (s t : Bytes) → Lacks b'/' s → segments (s ++ t) ≡ push_all s (segments t)
unfolding segments push_all
segments-append [] t h = refl
segments-append (c ∷ s) t (hc, hs) = ground (arith, segments-append s t hs)

push_all-cons : (s u : Bytes) (ss : List Bytes) → push_all s (u ∷ ss) ≡ (s ++ u) ∷ ss
unfolding push_all push_char
push_all-cons [] u ss = refl
push_all-cons (c ∷ s) u ss = rw (push_all-cons s u ss)

segments_end : (s : Bytes) → Lacks b'/' s → segments (s ++ []) ≡ s ∷ []
segments_end s h =
    segments-append s [] h ∙ unfold segments in rw (push_all-cons s [] [], append-nil)

segments_slash : (s t : Bytes) → Lacks b'/' s → segments (s ++ b'/' ∷ t) ≡ s ∷ segments t
segments_slash s t h =
    segments-append s (b'/' ∷ t) h
    ∙ unfold segments in rw (push_all-cons s [] (segments t), append-nil)

encode_segment-Lacks : (name : Bytes) → All IsByte name → Lacks b'/' (encode_segment name)
encode_segment-Lacks name h = All-imp IsSafe _ (λ c s. s.0) _ (encode_segment-IsSafe name h)

-- The segments of a route behind its first slash are the encoded names.
segments-route :
    (name : Bytes) (names : List Bytes)
    → IsName name
    → All IsName names
    → segments (encode_segment name ++ route names) ≡ map encode_segment (name ∷ names)
unfolding route
segments-route name [] h hs = segments_end _ (encode_segment-Lacks name h.bytes)
segments-route name (next ∷ names) h (hn, hs) =
    segments_slash _ (encode_segment next ++ route names) (encode_segment-Lacks name h.bytes)
    ∙ ap (◌∷◌ (encode_segment name)) (segments-route next names hn hs)

canonical_segments-map :
    (names : List Bytes)
    → All IsName names
    → canonical_segments (map encode_segment names) ≡ some (route names)
unfolding route canonical_segments
canonical_segments-map [] h = refl
canonical_segments-map (name ∷ names) (h, hs) =
    rw (decode-encode_segment name h.bytes, h.valid, canonical_segments-map names hs)

-- The names that a request target spells: its segments before the query, decoded.
unfoldable pub decode_all : List Bytes → Option (List Bytes)
decode_all [] = some []
decode_all (s ∷ ss) = do name ← decode_segment s; names ← decode_all ss; some (name ∷ names)

unfoldable pub names_of : Bytes → Option (List Bytes)
names_of [] = none
names_of (c ∷ text) = decode_all (segments (before_query text))

decode_all-map :
    (names : List Bytes) → All IsName names → decode_all (map encode_segment names) ≡ some names
unfolding decode_all
decode_all-map [] h = refl
decode_all-map (name ∷ names) (h, hs) =
    rw (decode-encode_segment name h.bytes, decode_all-map names hs)

route-IsSafe :
    (names : List Bytes) → All IsName names → All (λ c. (c ≢ b'?') × (c ≢ b'#')) (route names)
unfolding route
route-IsSafe [] h = tt
route-IsSafe (name ∷ names) (hn, hs) = (
  omega arith,
  All-append _ (encode_segment name) (route names)
      (All-imp IsSafe _ (λ c s. (s.1, s.2)) _ (encode_segment-IsSafe name hn.bytes))
      (route-IsSafe names hs),
)

pub before_query_plain : (s : Bytes) → All (λ c. (c ≢ b'?') × (c ≢ b'#')) s → before_query s ≡ s
unfolding before_query
before_query_plain [] h = refl
before_query_plain (c ∷ s) (hc, hs) = ground (arith, before_query_plain s hs)

contains_plain : (s : Bytes) → All (λ c. (c ≢ b'?') × (c ≢ b'#')) s → contains b'#' s ≡ false
unfolding contains any
contains_plain [] h = refl
contains_plain (c ∷ s) (hc, hs) = ground (arith, contains_plain s hs)

canonical_slash :
    (text : Bytes)
    → length (b'/' ∷ text) ≤ 8192
    → contains b'#' (b'/' ∷ text) ≡ false
    → canonical_request_path (b'/' ∷ text) ≡ canonical_segments (segments (before_query text))
unfolding canonical_request_path
canonical_slash text short plain = ground arith

-- A request for the path of a published resource (one to many valid names, at most 8192 bytes) is
-- resolved to that same path, byte for byte.
pub canonical_request_path-route :
    (name : Bytes) (names : List Bytes)
    → IsName name
    → All IsName names
    → length (route (name ∷ names)) ≤ 8192
    → canonical_request_path (route (name ∷ names)) ≡ some (route (name ∷ names))
unfolding route
canonical_request_path-route name names h hs short =
    let safe = route-IsSafe (name ∷ names) (h, hs) in
    canonical_slash (encode_segment name ++ route names) short (contains_plain _ safe)
    ∙ ap (λ t. canonical_segments (segments t)) (before_query_plain _ safe.1)
    ∙ ap canonical_segments (segments-route name names h hs)
    ∙ canonical_segments-map (name ∷ names) (h, hs)

-- A route spells the names that it was built from.
pub names_of-route :
    (name : Bytes) (names : List Bytes)
    → IsName name
    → All IsName names
    → names_of (route (name ∷ names)) ≡ some (name ∷ names)
unfolding names_of route
names_of-route name names h hs =
    ap (λ t. decode_all (segments t)) (before_query_plain _ (route-IsSafe (name ∷ names) (h, hs)).1)
    ∙ ap decode_all (segments-route name names h hs)
    ∙ decode_all-map (name ∷ names) (h, hs)

route-append :
    (names : List Bytes) (name : Bytes)
    → route (names ++ name ∷ []) ≡ route names ++ b'/' ∷ encode_segment name
unfolding route
route-append [] name = rw append-nil
route-append (n ∷ names) name =
    ap (λ t. b'/' ∷ (encode_segment n ++ t)) (route-append names name)
    ∙ ap (◌∷◌ b'/') (sym (append_assoc (encode_segment n) (route names) _))

All-snoc :
    (names : List Bytes) (name : Bytes)
    → All IsName names
    → IsName name
    → All IsName (names ++ name ∷ [])
All-snoc names name hs h = All-append IsName names (name ∷ []) hs (h, tt)

child_path_sound :
    (parent name path : Bytes)
    → child_path parent name ≡ some path
    → (path ≡ parent ++ b'/' ∷ encode_segment name)
      × (length path ≤ 4096)
      × (valid_name name ≡ true)
unfolding child_path
child_path_sound parent name path e = ground arith

-- Every reference that `childPath` builds below a path of valid names is a request target that
-- resolves to itself; the name it was built with is valid.
pub canonical_request_path-child_path :
    (names : List Bytes) (name path : Bytes)
    → All IsName names
    → All IsByte name
    → child_path (route names) name ≡ some path
    → (canonical_request_path path ≡ some path) × (names_of path ≡ some (names ++ name ∷ []))
canonical_request_path-child_path names name path hs h e =
    let (ep, short, valid) = child_path_sound (route names) name path e in
    found names path hs (record { bytes = h; valid = valid }) (ep ∙ sym (route-append names name))
      short
  where
    found :
        (ns : List Bytes) (path : Bytes)
        → All IsName ns
        → IsName name
        → path ≡ route (ns ++ name ∷ [])
        → length path ≤ 4096
        → (canonical_request_path path ≡ some path) × (names_of path ≡ some (ns ++ name ∷ []))
    found [] path hs h e short = rw e (
      canonical_request_path-route name [] h tt (omega (arith, ap length e)),
      names_of-route name [] h tt,
    )
    found (n ∷ ns) path (hn, hs) h e short =
        let all_names = All-snoc ns name hs h in
        rw e (
          canonical_request_path-route n (ns ++ name ∷ []) hn all_names
              (omega (arith, ap length e)),
          names_of-route n (ns ++ name ∷ []) hn all_names,
        )
