-- ===== src/Url/Canonical.antt =====
-- What `canonicalRequestPath` of src/object_model.cpp returns for an arbitrary request target.
use rtt_http.Common.{
  ℕ, ◌≤◌, true, false, ◌||◌, none, some, List, [], ◌∷◌, ◌++◌, Bytes, ◌==◌, if◌then◌else◌,
  >>=-eq-some, ◌≡◌, ◌≢◌, refl, sym, ap, ◌∙◌, arith, All, IsByte, length, length-append, any,
  Bool-cases, Option-cases, inl, inr, ℕ_discrete,
}
use rtt_http.Url.{
  contains, valid_name, decode_segment, escaped, before_query, push_char, segments,
  canonical_segments, canonical_request_path,
}
use rtt_http.Url.Segments.{decode_plain, decode_escape, escaped-IsByte}
use rtt_http.Url.Routes.{
  names_of, decode_all, names_of-route, IsName, route, segments-ne-nil,
  canonical_request_path-route,
}

before_query-IsByte : (s : Bytes) → All IsByte s → All IsByte (before_query s)
unfolding before_query
before_query-IsByte [] h = tt
before_query-IsByte (c ∷ s) (hc, hs) = ground (arith, before_query-IsByte s hs)

push_char-IsByte :
    (c : ℕ) (ss : List Bytes) → IsByte c → All (All IsByte) ss → All (All IsByte) (push_char c ss)
unfolding push_char
push_char-IsByte c [] hc h = ((hc, tt), tt)
push_char-IsByte c (s ∷ ss) hc (hs, h) = ((hc, hs), h)

segments-IsByte : (s : Bytes) → All IsByte s → All (All IsByte) (segments s)
unfolding segments
segments-IsByte [] h = (tt, tt)
segments-IsByte (c ∷ s) (hc, hs) = elim (Bool-cases (c == b'/')) [
  | inl e ↦ rw e (tt, segments-IsByte s hs)
  | inr e ↦ rw e (push_char-IsByte c (segments s) hc (segments-IsByte s hs))
]

plain_first :
    (c : ℕ) (text : Bytes) (name : Bytes)
    → c ≢ b'%'
    → decode_segment (c ∷ text) ≡ some name
    → (rest : Bytes) × (decode_segment text ≡ some rest) × (name ≡ c ∷ rest)
plain_first c text name h e = elim (Option-cases (decode_segment text)) [
  | inl bad ↦ ground (arith, decode_plain c text h)
  | inr (rest, good) ↦ (rest, good, ground (arith, decode_plain c text h))
]

escaped_first :
    (a b : ℕ) (text : Bytes) (name : Bytes)
    → decode_segment (b'%' ∷ a ∷ b ∷ text) ≡ some name
    → (v : ℕ) × (rest : Bytes) × (escaped a b ≡ some v)
      × (decode_segment text ≡ some rest)
      × (name ≡ v ∷ rest)
escaped_first a b text name e =
    let (v, ev, e') = >>=-eq-some (escaped a b) _ (sym (decode_escape a b text) ∙ e) in
    let (rest, er, e'') = >>=-eq-some (decode_segment text) _ e' in (v, rest, ev, er, cc)

decode_segment-IsByte :
    (s name : Bytes) → All IsByte s → decode_segment s ≡ some name → All IsByte name
decode_segment-IsByte [] name h e = unfold decode_segment in ground arith
decode_segment-IsByte (c ∷ []) name (hc, hs) e = unfold decode_segment in ground arith
decode_segment-IsByte (c ∷ a ∷ []) name (hc, hs) e = elim (ℕ_discrete c b'%') [
  | yes p ↦ unfold decode_segment in ground arith
  | no p ↦
      let (rest, er, en) = plain_first c (a ∷ []) name p e in
      rw en (hc, decode_segment-IsByte (a ∷ []) rest hs er)
]
decode_segment-IsByte (c ∷ a ∷ b ∷ text) name (hc, (ha, (hb, hs))) e = elim (ℕ_discrete c b'%') [
  | yes p ↦
      let (v, rest, ev, er, en) = escaped_first a b text name (rw (← p) e) in
      rw en (escaped-IsByte a b ev, decode_segment-IsByte text rest hs er)
  | no p ↦
      let (rest, er, en) = plain_first c (a ∷ b ∷ text) name p e in
      rw en (hc, decode_segment-IsByte (a ∷ b ∷ text) rest (ha, (hb, hs)) er)
]

-- What the loop over the segments returns.
canonical_segments_sound :
    (ss : List Bytes) (path : Bytes)
    → All (All IsByte) ss
    → canonical_segments ss ≡ some path
    → (names : List Bytes) × All IsName names × (path ≡ route names) × (decode_all ss ≡ some names)
unfolding canonical_segments route decode_all
canonical_segments_sound [] path h e = ([], tt, ground arith, refl)
canonical_segments_sound (s ∷ ss) path (hs, h) e =
    let (name, en, e') = >>=-eq-some (decode_segment s) _ e in
    let (tail, et, e'') =
      >>=-eq-some (if valid_name name then canonical_segments ss else none) _ e' in
    let ok : valid_name name ≡ true = ground arith in
    let (names, all_names, er, ed) = canonical_segments_sound ss tail h (ground arith) in
    (
      name ∷ names,
      (record { bytes = decode_segment-IsByte s name hs en; valid = ok }, all_names),
      cc,
      rw (en, ed),
    )

contains-append : (s t : Bytes) → contains b'#' (s ++ t) ≡ (contains b'#' s || contains b'#' t)
unfolding contains any
contains-append [] t = refl
contains-append (c ∷ s) t = ground (arith, contains-append s t)

contains_mark : (t : Bytes) → contains b'#' (b'?' ∷ t) ≡ contains b'#' t
unfolding contains any
contains_mark t = refl

before_query-append : (s t : Bytes) → before_query (s ++ b'?' ∷ t) ≡ before_query s
unfolding before_query
before_query-append [] t = refl
before_query-append (c ∷ s) t = ground (arith, before_query-append s t)

canonical_slash_sound :
    (c : ℕ) (text path : Bytes)
    → canonical_request_path (c ∷ text) ≡ some path
    → canonical_segments (segments (before_query text)) ≡ some path
unfolding canonical_request_path
canonical_slash_sound c text path e = ground arith

canonical_segments-ne-nil :
    (ss : List Bytes) (names : List Bytes) → ss ≢ [] → decode_all ss ≡ some names → names ≢ []
unfolding decode_all
canonical_segments-ne-nil [] names h e = absurd (h refl)
canonical_segments-ne-nil (s ∷ ss) names h e =
    let (name, en, e') = >>=-eq-some (decode_segment s) _ e in
    let (rest, er, e'') = >>=-eq-some (decode_all ss) _ e' in cc

-- A request target that is accepted spells one or more valid names (decoded: no empty name, no dot
-- name, no NUL, valid UTF-8, at most 1024 bytes each), and the path returned is the route of just
-- these names.
pub canonical_request_path_sound :
    (target path : Bytes)
    → All IsByte target
    → canonical_request_path target ≡ some path
    → (names : List Bytes) × (names ≢ [])
      × All IsName names
      × (names_of target ≡ some names)
      × (path ≡ route names)
unfolding names_of
canonical_request_path_sound [] path h e = unfold canonical_request_path in ground arith
canonical_request_path_sound (c ∷ text) path (hc, h) e =
    let (names, good, er, ed) =
      canonical_segments_sound (segments (before_query text)) path
        (segments-IsByte (before_query text) (before_query-IsByte text h))
        (canonical_slash_sound c text path e) in
    (
      names,
      canonical_segments-ne-nil _ names (segments-ne-nil (before_query text)) ed,
      good,
      ed,
      er,
    )

-- A path that is accepted is a fixed point, if it is no longer than a request target may be.
pub canonical_request_path_idem :
    (target path : Bytes)
    → All IsByte target
    → canonical_request_path target ≡ some path
    → length path ≤ 8192
    → canonical_request_path path ≡ some path
canonical_request_path_idem target path h e short =
    let (names, some_name, good, ed, er) = canonical_request_path_sound target path h e in
    fixed names some_name good er
  where
    fixed :
        (names : List Bytes)
        → names ≢ []
        → All IsName names
        → path ≡ route names
        → canonical_request_path path ≡ some path
    fixed [] n g er = absurd (n refl)
    fixed (name ∷ names) n (g, gs) er =
        rw er (canonical_request_path-route name names g gs (rw er at short))

-- Two targets share a path only if they spell the same names: no two resources collide.
pub canonical_request_path-injective :
    (target other path : Bytes)
    → All IsByte target
    → All IsByte other
    → canonical_request_path target ≡ some path
    → canonical_request_path other ≡ some path
    → names_of target ≡ names_of other
canonical_request_path-injective target other path h k e f =
    let (names, some_names, good, ed, er) = canonical_request_path_sound target path h e in
    let (others, some_others, goods, fd, fr) = canonical_request_path_sound other path k f in
    ed ∙ same names others some_names some_others good goods (sym er ∙ fr) ∙ sym fd
  where
    same :
        (names others : List Bytes)
        → names ≢ []
        → others ≢ []
        → All IsName names
        → All IsName others
        → route names ≡ route others
        → some names ≡ some others
    same [] others n m g k e = absurd (n refl)
    same (name ∷ names) [] n m g k e = absurd (m refl)
    same (name ∷ names) (other ∷ others) n m (g, gs) (k, ks) e =
        sym (names_of-route name names g gs) ∙ ap names_of e ∙ names_of-route other others k ks

-- What stands behind the first question mark selects no resource.
pub canonical_request_path_query :
    (target query : Bytes)
    → length (target ++ b'?' ∷ query) ≤ 8192
    → contains b'#' query ≡ false
    → target ≢ []
    → canonical_request_path (target ++ b'?' ∷ query) ≡ canonical_request_path target
unfolding canonical_request_path
canonical_request_path_query [] query fits plain n = absurd (n refl)
canonical_request_path_query (c ∷ text) query fits plain n = ground (
  arith,
  length-append text (b'?' ∷ query),
  contains-append (c ∷ text) (b'?' ∷ query),
  contains_mark query,
  before_query-append text query,
)
