-- ===== src/Url.antt =====
-- The resource identities of src/object_model.cpp: `validName`, `unreserved`, `hex`,
-- `encodeSegment`, `childPath` and `canonicalRequestPath`. A text is the list of its bytes; a
-- result written through a pointer beside a Boolean is an `Option`, `none` where the code returns
-- false, and so is the -1 of `hex`. An exception of `childPath` is `none`.
pub mod Segments
pub mod Routes
pub mod Canonical
mod Tests
use rtt_http.Common.{
  ℕ, zero, suc, ◌+◌, ◌-◌, ◌*◌, ◌/◌, ◌%◌, Bool, true, false, ◌&&◌, ◌||◌, not, Option, none, some,
  List, [], ◌∷◌, ◌++◌, Bytes, ltb, leb, ◌==◌, if◌then◌else◌, length, codes, any, bytes_eq, ◌>>=◌,
  get_or,
}
use rtt_http.Utf8.{valid_utf8}

-- `text.find(c) != npos`.
unfoldable pub contains : ℕ → Bytes → Bool
unfolding any
contains c text = any (λ d. d == c) text

unfoldable pub valid_name : Bytes → Bool
unfolding contains bytes_eq
valid_name name =
    not (bytes_eq name [])
    && (leb (length name) 1024
        && (not (bytes_eq name (codes "."))
            && (not (bytes_eq name (codes "..")) && (not (contains 0 name) && valid_utf8 name))))

unfoldable pub unreserved : ℕ → Bool
unreserved c =
    leb b'A' c && leb c b'Z'
    || (leb b'a' c && leb c b'z'
        || (leb b'0' c && leb c b'9' || (c == b'-' || (c == b'.' || (c == b'_' || c == b'~')))))

unfoldable pub hex : ℕ → Option ℕ
hex c =
    if leb b'0' c && leb c b'9'
    then some (c - b'0')
    else if leb b'A' c && leb c b'F'
    then some (c - b'A' + 10)
    else if leb b'a' c && leb c b'f'
    then some (c - b'a' + 10)
    else none

-- `digits[i]`.
unfoldable pub digit : ℕ → ℕ
digit i = get_or (codes "0123456789ABCDEF") i 0

-- What one round of `encodeSegment` appends.
unfoldable pub encode_char : ℕ → Bytes
unfolding unreserved digit
encode_char c = if unreserved c then c ∷ [] else b'%' ∷ digit (c / 16) ∷ digit (c % 16) ∷ []

unfoldable pub encode_segment : Bytes → Bytes
unfolding encode_char
encode_segment [] = []
encode_segment (c ∷ name) = encode_char c ++ encode_segment name

-- A byte that a request target may hold undecoded.
unfoldable pub plain_allowed : ℕ → Bool
plain_allowed c = not (leb c 0x20 || (c == 0x7f || c == b'\\'))

-- The two digits behind a percent sign.
unfoldable pub escaped : ℕ → ℕ → Option ℕ
unfolding hex
escaped a b = do high ← hex a; low ← hex b; some (high * 16 + low)

-- The bytes `target[begin] .. target[end - 1]`, decoded.
unfoldable pub decode_segment : Bytes → Option Bytes
unfolding plain_allowed escaped
decode_segment [] = some []
decode_segment (c ∷ []) =
    if c == b'%' then none else if plain_allowed c then some (c ∷ []) else none
decode_segment (c ∷ a ∷ []) =
    let plain = decode_segment (a ∷ []) in
    if c == b'%' then none else if plain_allowed c then (do s ← plain; some (c ∷ s)) else none
decode_segment (c ∷ a ∷ b ∷ rest) =
    let behind = decode_segment rest in
    let plain = decode_segment (a ∷ b ∷ rest) in
    if c == b'%'
    then (do v ← escaped a b; s ← behind; some (v ∷ s))
    else if plain_allowed c
    then (do s ← plain; some (c ∷ s))
    else none

-- `target.substr(0, target.find('?'))`.
unfoldable pub before_query : Bytes → Bytes
before_query [] = []
before_query (c ∷ text) = let rest = before_query text in if c == b'?' then [] else c ∷ rest

-- The pieces between the slashes: the `begin` and `end` of each round of the loop. There is
-- always one, and a slash at the end is followed by an empty one.
push_char : ℕ → List Bytes → List Bytes
push_char c [] = (c ∷ []) ∷ []
push_char c (s ∷ ss) = (c ∷ s) ∷ ss

unfoldable pub segments : Bytes → List Bytes
unfolding push_char
segments [] = [] ∷ []
segments (c ∷ text) = let rest = segments text in if c == b'/' then [] ∷ rest else push_char c rest

-- The loop over the segments, with what it appends to the path.
unfoldable pub canonical_segments : List Bytes → Option Bytes
canonical_segments [] = some []
canonical_segments (s ∷ ss) = do
  decoded ← decode_segment s
  path ← if valid_name decoded then canonical_segments ss else none
  some (b'/' ∷ (encode_segment decoded ++ path))

unfoldable pub canonical_request_path : Bytes → Option Bytes
unfolding contains
canonical_request_path [] = none
canonical_request_path (c ∷ text) =
    if not (c == b'/') || (ltb 8192 (length (c ∷ text)) || contains b'#' (c ∷ text))
    then none
    else canonical_segments (segments (before_query text))

unfoldable pub child_path : Bytes → Bytes → Option Bytes
child_path parent name =
    let result = parent ++ b'/' ∷ encode_segment name in
    if valid_name name then (if ltb 4096 (length result) then none else some result) else none
