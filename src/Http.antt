-- ===== src/Http.antt =====
-- The HTTP requests of src/server.cpp: `lowerTrim`, `jsonMediaType`, `suffixFor`, `problem`,
-- `methodAllowed`, `responseOverflow` and `preflight`; Http/Handle.antt has `handle`. A request is
-- what cpp-httplib answers about it. What other parts of the server answer while a request is
-- handled is an argument.
pub mod Handle
pub mod Preflight
pub mod Admission
mod Tests
use rtt_http.Common.{
  ℕ, ◌+◌, ◌-◌, ◌^◌, Bool, true, false, ◌&&◌, ◌||◌, not, Option, none, some, List, [], ◌∷◌, ◌++◌,
  Bytes, codes, ltb, leb, ◌==◌, if◌then◌else◌, length, bytes_eq, map,
}
use rtt_http.Common.Decimal.{from_chars}
use rtt_http.Url.{canonical_request_path}
use rtt_http.Utf8.{valid_utf8}
use rtt_http.Codec.{CodecErrorCode, document_limit, allocation_limit, Json}

pub record Request : Type 0 where
  pub method : Bytes
  pub target : Bytes
  pub content_types : List Bytes
  pub content_encoding : Bool
  -- The first value of that header.
  pub content_length : Option Bytes

pub data Content (D : Type 0) : Type 0 where
  empty : Content D
  -- The members `type` behind its prefix, `status` and `instance`.
  problem_document : Bytes → ℕ → Option Bytes → Content D
  -- The text that stands in for a document that does not fit its reserve.
  fixed_problem : Content D
  document : Json D → Content D

pub record Response (D : Type 0) : Type 0 where
  pub status : ℕ
  pub allow : Option Bytes
  pub content : Content D

pub data ResourceKind : Type 0 where
  description value operation latest samples : ResourceKind

pub record Resource (D : Type 0) : Type 0 where
  pub kind : ResourceKind
  pub allow : Bytes
  pub description : Json D
  pub supported : Bool
  -- Of an operation: the number of its arguments, and whether it has a result.
  pub arguments : ℕ
  pub has_result : Bool

abbrev is_blank : ℕ → Bool
is_blank c = c == b' ' || c == b'\t'

unfoldable pub trim_front : Bytes → Bytes
trim_front [] = []
trim_front (c ∷ text) = let rest = trim_front text in if is_blank c then rest else c ∷ text

-- `remove_suffix` of blanks.
unfoldable pub trim_back : Bytes → Bytes
trim_back [] = []
trim_back (c ∷ text) = elim (trim_back text) [
  | [] ↦ if is_blank c then [] else c ∷ []
  | d ∷ rest ↦ c ∷ d ∷ rest
]

abbrev lower : ℕ → ℕ
lower c = if leb b'A' c && leb c b'Z' then c + 32 else c

unfoldable pub lower_trim : Bytes → Bytes
unfolding trim_front trim_back
lower_trim text = map lower (trim_back (trim_front text))

-- `find` of a character: what stands before it and behind it.
unfoldable pub split_at : ℕ → Bytes → Option (Bytes × Bytes)
split_at c [] = none
split_at c (d ∷ text) =
    let rest = split_at c text in
    if d == c then some ([], text) else elim rest [ none ↦ none | some p ↦ some (d ∷ p.0, p.1) ]

unfoldable pub utf8_parameter : Bytes → Bool
unfolding split_at lower_trim
utf8_parameter parameter = elim (split_at b'=' parameter) [
  | none ↦ false
  | some p ↦
      bytes_eq (lower_trim p.0) (codes "charset")
      && (bytes_eq (lower_trim p.1) (codes "utf-8")
          || bytes_eq (lower_trim p.1) (b'"' ∷ (codes "utf-8" ++ b'"' ∷ [])))
]

unfoldable pub media_type : Bytes → Bool
unfolding split_at lower_trim utf8_parameter
media_type raw = elim (split_at b';' raw) [
  | none ↦ bytes_eq (lower_trim raw) (codes "application/json")
  | some p ↦ bytes_eq (lower_trim p.0) (codes "application/json") && utf8_parameter (lower_trim p.1)
]

unfoldable pub json_media_type : Request → Bool
unfolding media_type
json_media_type request = elim request.content_types [
  | raw ∷ [] ↦ not request.content_encoding && media_type raw
  | _ ↦ false
]

unfoldable pub suffix_for : ℕ → Bytes
suffix_for status =
    if status == 400
    then codes "invalid-request"
    else if status == 404
    then codes "not-found"
    else if status == 405
    then codes "method-not-allowed"
    else if status == 413
    then codes "request-too-large"
    else if status == 415
    then codes "unsupported-media-type"
    else if status == 422
    then codes "type-mismatch"
    else if status == 501
    then codes "json-unsupported"
    else if status == 503
    then codes "dispatch-unavailable"
    else if status == 504
    then codes "operation-timeout"
    else codes "internal-error"

-- `target.substr(0, target.find('?'))`.
unfoldable pub target_path : Bytes → Bytes
unfolding split_at
target_path target = elim (split_at b'?' target) [ none ↦ target | some p ↦ p.0 ]

unfoldable pub shown_path : Bytes → Option Bytes
unfolding target_path
shown_path target =
    let path = target_path target in
    if leb (length path) 512 && valid_utf8 path then some path else none

-- `fits` says whether `serializeJson` writes a problem within its reserve.
unfoldable pub problem_with :
    {D : Type 0} → (Content D → Bool) → Request → Response D → ℕ → Bytes → Response D
unfolding shown_path
problem_with fits request response status suffix =
    let body = problem_document suffix status (shown_path request.target) in
    if fits body
    then record response { status = status; content = body }
    else record response { status = 500; content = fixed_problem }

unfoldable pub problem : {D : Type 0} → (Content D → Bool) → Request → Response D → ℕ → Response D
unfolding problem_with suffix_for
problem fits request response status = problem_with fits request response status (suffix_for status)

-- `starts_with` and `find`.
unfoldable pub starts_with : Bytes → Bytes → Bool
starts_with text [] = true
starts_with [] (c ∷ start) = false
starts_with (d ∷ text) (c ∷ start) = c == d && starts_with text start

unfoldable pub has_text : Bytes → Bytes → Bool
unfolding starts_with
has_text [] part = starts_with [] part
has_text (c ∷ text) part = starts_with (c ∷ text) part || has_text text part

unfoldable pub method_allowed : Bytes → Bytes → Bool
unfolding starts_with has_text
method_allowed allow method =
    if bytes_eq method (codes "OPTIONS")
    then true
    else if bytes_eq method (codes "GET") || bytes_eq method (codes "HEAD")
    then starts_with allow (codes "GET")
    else if bytes_eq method (codes "PUT")
    then has_text allow (codes "PUT")
    else bytes_eq method (codes "POST") && starts_with allow (codes "POST")

unfoldable pub response_overflow : CodecErrorCode → Bool
response_overflow document_limit = true
response_overflow allocation_limit = true
response_overflow _ = false

abbrev pub is_mutation : Request → Bool
is_mutation request =
    bytes_eq request.method (codes "PUT") || bytes_eq request.method (codes "POST")

abbrev pub size_max : ℕ
size_max = 2 ^ 64 - 1

-- The check of `Content-Length`: the status of the refusal.
unfoldable pub length_refusal : ℕ → Option Bytes → Option ℕ
length_refusal limit none = none
length_refusal limit (some text) = elim (from_chars size_max text) [
  | some (declared, []) ↦ if ltb limit declared then some 413 else none
  | _ ↦ some 400
]

-- What the server is, as `preflight` sees it: `running` is its answer under `mutex`.
pub record Site (D : Type 0) : Type 0 where
  pub running : Bool
  pub resolve : Bytes → Option (Resource D)
  pub max_request_body_bytes : ℕ
  pub fits : Content D → Bool

-- The checks behind the resolution.
unfoldable pub preflight_resource :
    {D : Type 0} → Site D → Resource D → Request → Response D → Bool × Response D
unfolding problem method_allowed json_media_type length_refusal
preflight_resource site resource request response =
    if not (method_allowed resource.allow request.method)
    then (false, problem site.fits request (record response { allow = some resource.allow }) 405)
    else if bytes_eq request.method (codes "OPTIONS")
    then (false, record response { status = 204; allow = some resource.allow })
    else if request.content_encoding || (is_mutation request && not (json_media_type request))
    then (false, problem site.fits request response 415)
    else elim (length_refusal site.max_request_body_bytes request.content_length) [
      | some status ↦ (false, problem site.fits request response status)
      | none ↦ (true, response)
    ]

unfoldable pub preflight : {D : Type 0} → Site D → Request → Response D → Bool × Response D
unfolding problem preflight_resource
preflight site request response = elim (canonical_request_path request.target) [
  | none ↦ (false, problem site.fits request response 400)
  | some path ↦
      if not site.running
      then (false, problem site.fits request response 503)
      else elim (site.resolve path) [
        | none ↦ (false, problem site.fits request response 404)
        | some resource ↦ preflight_resource site resource request response
      ]
]
