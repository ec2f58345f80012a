-- ===== src/Http/Tests.antt =====
-- Requests to the server of src/server.cpp, on concrete inputs.
use rtt_http.Common.{
  ℕ, true, false, Option, none, some, List, [], ◌∷◌, Bytes, codes, ◌≡◌, ◌↔◌, inl, refl, inr, arith,
}
use rtt_http.Common.{bytes_eq}
use rtt_http.Common.Decimal.{from_chars, read_digits}
use rtt_http.Url.{
  canonical_request_path, canonical_segments, segments, before_query, decode_segment, valid_name,
}
use rtt_http.Utf8.{valid_utf8}
use rtt_http.Codec.{null, object, array, nil, member, end, ok}
use rtt_http.Http.{
  Request, Response, Resource, Site, empty, value, operation, problem, preflight, json_media_type,
}
use rtt_http.Http.Preflight.{IsAdmitted, preflight_iff}
use rtt_http.Http.Handle.{Answers, Effect, assigned, dispatched, handle, Poll, success, no_sample}
use rtt_http.Http.Admission.{IsAuthorised, IsEnd, handle-IsAuthorised, handle-ends}

abbrev attribute : Resource ℕ
attribute = record {
  kind = value;
  allow = codes "GET, HEAD, PUT, OPTIONS";
  description = null;
  supported = true;
  arguments = 0;
  has_result = false;
}

abbrev find : Bytes → Option (Resource ℕ)
find path = some attribute

abbrev site : Site ℕ
site = record { running = true; resolve = find; max_request_body_bytes = 1024; fits = λ c. true }

abbrev put : Request
put = record {
  method = codes "PUT";
  target = codes "/a?x";
  content_types = codes " Application/JSON; charset=UTF-8" ∷ [];
  content_encoding = false;
  content_length = some (codes "17");
}

abbrev blank : Response ℕ
blank = record { status = 0; allow = none; content = empty }

-- A turn of a wait at which nothing has happened, and one that comes too late.
abbrev turn : Poll
turn = record { complete = false; grace_expired = false; now = 0; connection_closed = some false }

abbrev late : Poll
late = record turn { now = 30000; connection_closed = none }

abbrev answers : Answers ℕ
answers = record {
  resolve_again = find;
  parsed = ok (object (member (codes "value") null end));
  makes_source = true;
  prepared = ok tt;
  running = true;
  admitted = true;
  assigns = true;
  reads = ok null;
  port = no_sample;
  writes = success;
  deadline = 30000;
  polls = turn ∷ late ∷ [];
  invocation_status = 200;
  collected = [];
  serialized = λ j. ok (codes "{}");
}

media_type_test : json_media_type put ≡ true
unfolding json_media_type bytes_eq
media_type_test = refl

preflight_test : preflight site put blank ≡ (true, blank)
unfolding preflight canonical_request_path canonical_segments segments before_query decode_segment
    valid_name valid_utf8 from_chars read_digits bytes_eq
preflight_test = refl

preflight_iff_example : ((preflight site put blank).0 ≡ true) ↔ IsAdmitted site put
preflight_iff_example = preflight_iff site put blank

handle_test : handle site put blank answers ≡ some (record blank { status = 204 }, assigned ∷ [])
unfolding handle canonical_request_path canonical_segments segments before_query decode_segment
    valid_name valid_utf8 from_chars read_digits bytes_eq
handle_test = refl

handle-IsAuthorised_example : IsAuthorised site put answers assigned [] 204
handle-IsAuthorised_example =
    handle-IsAuthorised site put blank answers (record blank { status = 204 }) assigned []
      handle_test

-- A call of an operation without arguments, which is not complete at the deadline.
abbrev method : Resource ℕ
method = record attribute { kind = operation; allow = codes "POST, OPTIONS" }

abbrev find_method : Bytes → Option (Resource ℕ)
find_method path = some method

abbrev method_site : Site ℕ
method_site = record site { resolve = find_method }

abbrev post : Request
post = record put { method = codes "POST" }

abbrev call : Answers ℕ
call = record answers {
  resolve_again = find_method;
  parsed = ok (object (member (codes "arguments") (array nil) end));
}

cut_off_test :
    (r : Response ℕ) × (handle method_site post blank call ≡ some (r, dispatched ∷ []))
    × (r.status ≡ 504)
unfolding handle canonical_request_path canonical_segments segments before_query decode_segment
    valid_name valid_utf8 from_chars read_digits bytes_eq
cut_off_test = (problem (λ c. true) post blank 504, refl, refl)

handle-ends_example :
    (result : Response ℕ × List Effect) × (handle method_site post blank call ≡ some result)
handle-ends_example =
    handle-ends method_site post blank call (turn ∷ []) [] late refl
      (unfold IsEnd in inr (inr (inl (omega arith))))
