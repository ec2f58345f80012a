-- ===== src/Http/Handle.antt =====
-- `handle` of src/server.cpp, without its handlers of C++ exceptions. `Answers` has what the other
-- parts answer during the one request: the parsed body, the staged value, the invocation, the
-- state at the admission boundary, and what RTT says behind it.
use rtt_http.Common.{
  ℕ, suc, Bool, true, false, ◌&&◌, ◌||◌, not, Option, none, some, List, [], ◌∷◌, Bytes, codes, ◌==◌,
  if◌then◌else◌, bytes_eq, leb,
}
use rtt_http.Url.{canonical_request_path}
use rtt_http.Codec.{
  Json, null, boolean, array, object, Items, nil, cons, end, member, CodecErrorCode, duplicate_key,
  unavailable, Outcome, ok, err,
}
use rtt_http.Http.{
  Request, Response, Resource, ResourceKind, description, value, operation, latest, samples, Site,
  document, problem, problem_with, preflight, response_overflow, is_mutation,
}

-- A change of the RTT application: an attribute assigned, a sample written, an operation admitted.
pub data Effect : Type 0 where
  assigned sampled dispatched : Effect

pub data PortAnswer (D : Type 0) : Type 0 where
  no_sample : PortAnswer D
  sample : Json D → PortAnswer D
  port_failure : CodecErrorCode → PortAnswer D

-- `port->write`; the port may not be an output port.
pub data WriteAnswer : Type 0 where
  no_port success not_connected failure other : WriteAnswer

-- What one turn of the wait for an operation reads. `request.is_connection_closed` may be an empty
-- function, which is `none`.
pub record Poll : Type 0 where
  pub complete : Bool
  pub grace_expired : Bool
  pub now : ℕ
  pub connection_closed : Option Bool

pub record Answers (D : Type 0) : Type 0 where
  -- `model->resolve` behind `preflight`.
  pub resolve_again : Bytes → Option (Resource D)
  pub parsed : Outcome (Json D)
  pub makes_source : Bool
  pub prepared : Outcome (Unit {0})
  pub running : Bool
  pub admitted : Bool
  pub assigns : Bool
  pub reads : Outcome (Json D)
  pub port : PortAnswer D
  pub writes : WriteAnswer
  -- `invocation->deadline`.
  pub deadline : ℕ
  pub polls : List Poll
  pub invocation_status : ℕ
  pub collected : List (Outcome (Json D))
  pub serialized : Json D → Outcome Bytes

unfoldable pub is_operation : ResourceKind → Bool
is_operation operation = true
is_operation _ = false

unfoldable pub item_count : {D : Type 0} → Items D → ℕ
item_count nil = 0
item_count (cons j js) = suc (item_count js)

-- The only member of an object, if its name is `field`.
unfoldable pub only_member : {D : Type 0} → Bytes → Json D → Option (Json D)
only_member field (object (member name j end)) = if bytes_eq name field then some j else none
only_member field _ = none

unfoldable pub is_array_of : {D : Type 0} → ℕ → Json D → Bool
unfolding item_count
is_array_of n (array js) = item_count js == n
is_array_of n _ = false

unfoldable pub parse_refusal : CodecErrorCode → ℕ
unfolding response_overflow
parse_refusal duplicate_key = 422
parse_refusal code = if response_overflow code then 413 else 400

-- The checks of a body: the status of the refusal.
unfoldable pub body_refusal : {D : Type 0} → Resource D → Outcome (Json D) → Option ℕ
unfolding only_member is_array_of is_operation parse_refusal
body_refusal resource (err code) = some (parse_refusal code)
body_refusal resource (ok body) =
    if is_operation resource.kind
    then elim (only_member (codes "arguments") body) [
      | none ↦ some 422
      | some arguments ↦ if is_array_of resource.arguments arguments then none else some 422
    ]
    else elim (only_member (codes "value") body) [ none ↦ some 422 | some j ↦ none ]

-- The value or the invocation that is made before the admission boundary.
unfoldable pub staging_refusal : {D : Type 0} → Answers D → Resource D → Bool → Option ℕ
unfolding is_operation
staging_refusal answers resource mutation =
    if mutation && not (is_operation resource.kind)
    then (if answers.makes_source then none else some 422)
    else if is_operation resource.kind
    then elim answers.prepared [ ok _ ↦ none | err unavailable ↦ some 503 | err _ ↦ some 422 ]
    else none

-- Everything in front of the boundary, behind the resolution.
unfoldable pub refusal : {D : Type 0} → Answers D → Resource D → Bool → Option ℕ
unfolding body_refusal staging_refusal
refusal answers resource mutation =
    let body = if mutation then body_refusal resource answers.parsed else none in
    elim body [
      | some status ↦ some status
      | none ↦
          if not resource.supported then some 501 else staging_refusal answers resource mutation
    ]

-- The client is gone.
unfoldable pub is_closed : Option Bool → Bool
is_closed none = false
is_closed (some closed) = closed

-- `none` while the wait goes on; whether the invocation is complete.
unfoldable pub await_completion : ℕ → List Poll → Option Bool
unfolding is_closed
await_completion deadline [] = none
await_completion deadline (poll ∷ polls) =
    let rest = await_completion deadline polls in
    if poll.complete
    then some true
    else if poll.grace_expired || (leb deadline poll.now || is_closed poll.connection_closed)
    then some false
    else rest

-- The members `result` and `outputs`; an error where a value is not representable.
unfoldable pub collect_outputs : {D : Type 0} → List (Outcome (Json D)) → Outcome (Items D)
collect_outputs [] = ok nil
collect_outputs (err code ∷ rest) = err code
collect_outputs (ok j ∷ rest) = elim (collect_outputs rest) [
  | ok js ↦ ok (cons j js)
  | err code ↦ err code
]

abbrev operation_result : {D : Type 0} → Json D → Items D → Json D
operation_result result outputs =
    object (member (codes "result") result (member (codes "outputs") (array outputs) end))

unfoldable pub collect : {D : Type 0} → Bool → List (Outcome (Json D)) → Outcome (Json D)
unfolding collect_outputs
collect has_result values = elim (collect_outputs values) [
  | err code ↦ err code
  | ok (cons j js) ↦
      if has_result then ok (operation_result j js) else ok (operation_result null (cons j js))
  | ok nil ↦ ok (operation_result null nil)
]

abbrev Handled : Type 0 → Type 0
Handled D = Response D × List Effect

module _ {D : Type 0} (site : Site D) (request : Request) (response : Response D)
    (answers : Answers D) where
  -- A value that cannot be shown.
  unfoldable pub unrepresentable : CodecErrorCode → Response D
  unfolding response_overflow problem_with
  unrepresentable code = problem_with site.fits request response 500 (
      if response_overflow code
      then codes "response-too-large"
      else codes "value-not-json-representable")

  unfoldable pub respond : Json D → Response D
  unfolding unrepresentable
  respond result = elim (answers.serialized result) [
    | err code ↦ unrepresentable code
    | ok text ↦ record response { status = 200; content = document result }
  ]

  unfoldable pub handle_value : Bool → Handled D
  unfolding unrepresentable respond problem
  handle_value mutation =
      if mutation
      then (if answers.assigns
          then (record response { status = 204 }, assigned ∷ [])
          else (problem site.fits request response 500, []))
      else elim answers.reads [
        | err code ↦ (unrepresentable code, [])
        | ok j ↦ (respond (object (member (codes "value") j end)), [])
      ]

  abbrev latest_sample : Bool → Json D → Json D
  latest_sample has_sample j =
      object (member (codes "hasSample") (boolean has_sample) (member (codes "value") j end))

  unfoldable pub handle_latest : Response D
  unfolding unrepresentable respond
  handle_latest = elim answers.port [
    | port_failure code ↦ unrepresentable code
    | sample j ↦ respond (latest_sample true j)
    | no_sample ↦ respond (latest_sample false null)
  ]

  unfoldable pub handle_samples : Handled D
  unfolding problem problem_with
  handle_samples = elim answers.writes [
    | no_port ↦ (problem site.fits request response 500, [])
    | success ↦ (record response { status = 204 }, sampled ∷ [])
    | not_connected ↦ (problem_with site.fits request response 503 (codes "port-not-connected"), [])
    | failure ↦ (problem_with site.fits request response 503 (codes "port-write-failed"), [])
    | other ↦ (problem site.fits request response 500, [])
  ]

  -- `none` while the wait goes on.
  unfoldable pub handle_operation : Bool → Option (Response D)
  unfolding await_completion problem collect respond unrepresentable
  handle_operation has_result = elim (await_completion answers.deadline answers.polls) [
    | none ↦ none
    | some false ↦ some (problem site.fits request response 504)
    | some true ↦
        if not (answers.invocation_status == 200)
        then some (problem site.fits request response answers.invocation_status)
        else elim (collect has_result answers.collected) [
          | err code ↦ some (unrepresentable code)
          | ok result ↦ some (respond result)
        ]
  ]

  unfoldable pub perform : Resource D → Bool → Option (Handled D)
  unfolding respond handle_value handle_latest handle_samples handle_operation
  perform resource mutation = elim resource.kind [
    | description ↦ some (respond resource.description, [])
    | value ↦ some (handle_value mutation)
    | latest ↦ some (handle_latest, [])
    | samples ↦ some handle_samples
    | operation ↦ elim (handle_operation resource.has_result) [
      | none ↦ none
      | some r ↦ some (r, dispatched ∷ [])
    ]
  ]

  -- The admission boundary, and what follows.
  unfoldable pub admission : Resource D → Bool → Option (Handled D)
  unfolding is_operation problem problem_with perform
  admission resource mutation =
      if not answers.running
      then some (problem site.fits request response 503, [])
      else if is_operation resource.kind && not answers.admitted
      then some
          (problem_with site.fits request response 503 (codes "operation-capacity-exhausted"), [])
      else perform resource mutation

  unfoldable pub handle_resource : Resource D → Option (Handled D)
  unfolding refusal problem admission
  handle_resource resource = elim (refusal answers resource (is_mutation request)) [
    | some status ↦ some (problem site.fits request response status, [])
    | none ↦ admission resource (is_mutation request)
  ]

-- What `canonicalRequestPath` leaves in the empty text `path`.
unfoldable pub path_of : Bytes → Bytes
path_of target = elim (canonical_request_path target) [ none ↦ [] | some path ↦ path ]

-- `preflight` again, and the resolution again. `none` while the wait for an operation goes on.
unfoldable pub handle :
    {D : Type 0} → Site D → Request → Response D → Answers D → Option (Response D × List Effect)
unfolding preflight problem handle_resource path_of
handle site request response answers =
    let passed = preflight site request response in
    if not passed.0
    then some (passed.1, [])
    else elim (answers.resolve_again (path_of request.target)) [
      | none ↦ some (problem site.fits request passed.1 404, [])
      | some resource ↦ handle_resource site request passed.1 answers resource
    ]
