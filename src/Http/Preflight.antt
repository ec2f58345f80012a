-- ===== src/Http/Preflight.antt =====
-- The conditions of `preflight` of src/server.cpp.
use rtt_http.Common.{
  Bool-cases, ℕ, ◌≤◌, Bool, true, false, ◌&&◌, ◌||◌, not, Option, none, some, [], ◌∷◌, Bytes, codes,
  if◌then◌else◌, bytes_eq, ◌≡◌, ◌↔◌, ◌⊎◌, refl, inl, inr, ap, arith, Option-cases,
}
use rtt_http.Common.Decimal.{from_chars}
use rtt_http.Url.{canonical_request_path}
use rtt_http.Http.{
  Request, Response, Resource, Site, preflight, preflight_resource, method_allowed, json_media_type,
  length_refusal, is_mutation, size_max,
}

-- A declared length, if there is one, is a number within the limit, with nothing behind it.
abbrev pub IsDeclared : ℕ → Option Bytes → Type 0
IsDeclared limit length =
    (length ≡ none)
    ⊎ ((text : Bytes) × (n : ℕ) × (length ≡ some text)
        × (from_chars size_max text ≡ some (n, []))
        × (n ≤ limit))

length_refusal-IsDeclared :
    (limit : ℕ) (length : Option Bytes)
    → length_refusal limit length ≡ none
    → IsDeclared limit length
unfolding length_refusal
length_refusal-IsDeclared limit none h = inl refl
length_refusal-IsDeclared limit (some text) h = elim (Option-cases (from_chars size_max text)) [
  | inl e ↦ absurd (ground (arith, e))
  | inr ((n, []), e) ↦ inr (text, n, refl, e, ground (arith, e))
  | inr ((n, c ∷ rest), e) ↦ absurd (ground (arith, e))
]

IsDeclared-length_refusal :
    (limit : ℕ) (length : Option Bytes)
    → IsDeclared limit length
    → length_refusal limit length ≡ none
unfolding length_refusal
IsDeclared-length_refusal limit length (inl e) = rw e refl
IsDeclared-length_refusal limit length (inr (text, n, e, f, le)) = rw e (ground (arith, f))

-- The conditions on a request for a resource.
pub record IsAcceptable {D : Type 0} (site : Site D) (resource : Resource D) (request : Request)
    : Type 0 where
  pub allowed : method_allowed resource.allow request.method ≡ true
  pub no_options : bytes_eq request.method (codes "OPTIONS") ≡ false
  pub plain : request.content_encoding ≡ false
  pub json : (is_mutation request ≡ false) ⊎ (json_media_type request ≡ true)
  pub declared : IsDeclared site.max_request_body_bytes request.content_length

pub record IsAdmitted {D : Type 0} (site : Site D) (request : Request) : Type 0 where
  pub path : Bytes
  pub canonical : canonical_request_path request.target ≡ some path
  pub running : site.running ≡ true
  pub resource : Resource D
  pub resolved : site.resolve path ≡ some resource
  pub acceptable : IsAcceptable site resource request

abbrev checks_in_order :
    {D : Type 0}
    → Bool
    → Bool
    → Bool
    → Option ℕ
    → (x y z r : Response D) → (ℕ → Response D)
    → Bool × Response D
checks_in_order allowed options refused length x y z r w =
    if not allowed
    then (false, x)
    else if options
    then (false, y)
    else if refused
    then (false, z)
    else elim length [ some status ↦ (false, w status) | none ↦ (true, r) ]

-- The last of the checks, whatever the others are.
last_check :
    {D : Type 0} (allowed options refused : Bool) (length : Option ℕ) (x y z r : Response D)
    (w : ℕ → Response D)
    → (checks_in_order allowed options refused length x y z r w).0 ≡ true
    → length ≡ none
last_check allowed options refused length x y z r w h = ground arith

module _ {D : Type 0} (site : Site D) (request : Request) (response : Response D) where
  preflight_resource_sound :
      (resource : Resource D)
      → (preflight_resource site resource request response).0 ≡ true
      → IsAcceptable site resource request
  unfolding preflight_resource
  preflight_resource_sound resource h = record {
    allowed = ground arith;
    no_options = ground arith;
    plain = ground arith;
    json = elim (Bool-cases (is_mutation request)) [
      | inr reads ↦ inl reads
      | inl changes ↦ inr (ground (arith, changes))
    ];
    declared = length_refusal-IsDeclared site.max_request_body_bytes request.content_length (
        last_check (method_allowed resource.allow request.method)
          (bytes_eq request.method (codes "OPTIONS"))
          (request.content_encoding || (is_mutation request && not (json_media_type request)))
          (length_refusal site.max_request_body_bytes request.content_length) _ _ _ response _ h);
  }

  preflight_resource_complete :
      (resource : Resource D)
      → IsAcceptable site resource request
      → preflight_resource site resource request response ≡ (true, response)
  unfolding preflight_resource
  preflight_resource_complete resource a =
      let d =
        IsDeclared-length_refusal site.max_request_body_bytes request.content_length a.declared in
      ground (arith, d, a.allowed, a.no_options, a.plain, a.json)

  -- `preflight` lets a request through exactly when its target is canonical, the server runs, the
  -- path resolves, the resource allows the method, which is not OPTIONS, the body is not encoded and
  -- is JSON where there is to be one, and the declared length is a number within the limit. It leaves
  -- the response alone then.
  pub preflight_iff : ((preflight site request response).0 ≡ true) ↔ IsAdmitted site request
  unfolding preflight
  preflight_iff = (sound, λ a. ap (λ p. p.0) (complete a))
    where
      sound : (preflight site request response).0 ≡ true → IsAdmitted site request
      sound h = elim (Option-cases (canonical_request_path request.target)) [
        | inl e ↦ absurd (ground (arith, e))
        | inr (path, e) ↦ elim (Option-cases (site.resolve path)) [
          | inl f ↦ absurd (ground (arith, e, f))
          | inr (resource, f) ↦ record {
            path = path;
            canonical = e;
            running = ground (arith, e);
            resource = resource;
            resolved = f;
            acceptable = preflight_resource_sound resource (ground (arith, e, f));
          }
        ]
      ]

      complete : IsAdmitted site request → preflight site request response ≡ (true, response)
      complete a = ground (
        arith,
        a.canonical,
        a.running,
        a.resolved,
        preflight_resource_complete a.resource a.acceptable,
      )
