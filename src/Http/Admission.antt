-- ===== src/Http/Admission.antt =====
-- `handle` of src/server.cpp: the change of the RTT application, and the wait for an operation.
use rtt_http.Common.{
  ℕ, Bool, true, false, not, none, some, List, [], ◌∷◌, ◌++◌, if◌then◌else◌, ◌≡◌, ◌⊎◌, refl, inl,
  inr, arith, Bool-cases, Option-cases, Bytes, codes, bytes_eq, ==_iff, ◌≤◌, ap, ◌∙◌,
}
use rtt_http.Common.Map.{bytes_eq_iff}
use rtt_http.Codec.{
  Json, null, boolean, int64, uint64, double, string, array, object, Items, end, member, Outcome,
  ok, err,
}
use rtt_http.Http.{
  Request, Response, Resource, ResourceKind, description, value, operation, latest, samples, Site,
  preflight, is_mutation, problem,
}
use rtt_http.Http.Preflight.{IsAdmitted, preflight_iff}
use rtt_http.Http.Handle.{
  Answers, Effect, assigned, sampled, dispatched, Poll, await_completion, refusal, body_refusal,
  staging_refusal, only_member, is_array_of, item_count, handle, handle_resource, admission,
  perform, handle_value, handle_samples, handle_operation, path_of, is_operation,
}

-- The effect that a request to a resource of each kind may have.
unfoldable pub effects_of : ResourceKind → List Effect
effects_of description = []
effects_of value = assigned ∷ []
effects_of operation = dispatched ∷ []
effects_of latest = []
effects_of samples = sampled ∷ []

module _ {D : Type 0} (site : Site D) (request : Request) (response : Response D)
    (answers : Answers D) where
  perform_effects :
      (resource : Resource D) (mutation : Bool) (r : Response D) (effects : List Effect)
      → perform site request response answers resource mutation ≡ some (r, effects)
      → (effects ≡ []) ⊎ (effects ≡ effects_of resource.kind)
  unfolding perform effects_of handle_value handle_samples
  perform_effects resource mutation r effects h = ground arith

  perform_status :
      (resource : Resource D) (mutation : Bool) (r : Response D) (e : Effect) (es : List Effect)
      → perform site request response answers resource mutation ≡ some (r, e ∷ es)
      → is_operation resource.kind ≡ false
      → r.status ≡ 204
  unfolding perform handle_value handle_samples is_operation
  perform_status resource mutation r e es h = ground arith

  admission_effects :
      (resource : Resource D) (mutation : Bool) (r : Response D) (e : Effect) (es : List Effect)
      → admission site request response answers resource mutation ≡ some (r, e ∷ es)
      → (answers.running ≡ true)
        × (e ∷ es ≡ effects_of resource.kind)
        × ((is_operation resource.kind ≡ false) ⊎ (answers.admitted ≡ true))
        × ((is_operation resource.kind ≡ true) ⊎ (r.status ≡ 204))
  unfolding admission
  admission_effects resource mutation r e es h =
      ground (
        arith,
        perform_effects resource mutation r (e ∷ es),
        perform_status resource mutation r e es,
      )

  handle_resource_effects :
      (resource : Resource D) (r : Response D) (e : Effect) (es : List Effect)
      → handle_resource site request response answers resource ≡ some (r, e ∷ es)
      → (refusal answers resource (is_mutation request) ≡ none)
        × (admission site request response answers resource (is_mutation request)
            ≡ some (r, e ∷ es))
  unfolding handle_resource
  handle_resource_effects resource r e es h =
      elim (Option-cases (refusal answers resource (is_mutation request))) [
        | inl f ↦ (f, ground (arith, f))
        | inr (status, f) ↦ absurd (ground (arith, f))
      ]

-- The body of a call: the one member `arguments`, with as many items as the operation has arguments.
unfoldable pub IsCall : {D : Type 0} → ℕ → Json D → Type 0
IsCall {D} arguments body =
    (items : Items D) × (body ≡ object (member (codes "arguments") (array items) end))
    × (item_count items ≡ arguments)

-- The body of an assignment or a sample: the one member `value`.
unfoldable pub IsValue : {D : Type 0} → Json D → Type 0
IsValue {D} body = (j : Json D) × (body ≡ object (member (codes "value") j end))

only_member_lem :
    {D : Type 0} (field : Bytes) (body j : Json D)
    → only_member field body ≡ some j
    → body ≡ object (member field j end)
unfolding only_member
only_member_lem field (object (member name v end)) j h = elim (Bool-cases (bytes_eq name field)) [
  | inl e ↦ ground (arith, e, h, (bytes_eq_iff name field).0 e)
  | inr e ↦ absurd (ground (arith, e, h))
]
only_member_lem field (object (member name v (member k w ms))) j h = absurd (ground (arith, h))
only_member_lem field (object end) j h = absurd (ground (arith, h))
only_member_lem field (array xs) j h = absurd (ground (arith, h))
only_member_lem field null j h = absurd (ground (arith, h))
only_member_lem field (boolean b) j h = absurd (ground (arith, h))
only_member_lem field (int64 i) j h = absurd (ground (arith, h))
only_member_lem field (uint64 n) j h = absurd (ground (arith, h))
only_member_lem field (double x) j h = absurd (ground (arith, h))
only_member_lem field (string text) j h = absurd (ground (arith, h))

is_array_of_lem :
    {D : Type 0} (n : ℕ) (j : Json D)
    → is_array_of n j ≡ true
    → (items : Items D) × (j ≡ array items) × (item_count items ≡ n)
unfolding is_array_of
is_array_of_lem n (array js) h = (js, refl, (==_iff (item_count js) n).0 h)
is_array_of_lem n (object ms) h = absurd (ground (arith, h))
is_array_of_lem n null h = absurd (ground (arith, h))
is_array_of_lem n (boolean b) h = absurd (ground (arith, h))
is_array_of_lem n (int64 i) h = absurd (ground (arith, h))
is_array_of_lem n (uint64 k) h = absurd (ground (arith, h))
is_array_of_lem n (double x) h = absurd (ground (arith, h))
is_array_of_lem n (string text) h = absurd (ground (arith, h))

-- The body has the form that the resource asks for.
unfoldable pub HasForm : {D : Type 0} → Resource D → Json D → Type 0
HasForm resource body =
    ((is_operation resource.kind ≡ true) × IsCall resource.arguments body)
    ⊎ ((is_operation resource.kind ≡ false) × IsValue body)

body_refusal_lem :
    {D : Type 0} (resource : Resource D) (parsed : Outcome (Json D))
    → body_refusal resource parsed ≡ none
    → (body : Json D) × (parsed ≡ ok body) × HasForm resource body
unfolding body_refusal HasForm IsCall IsValue
body_refusal_lem resource (err code) h = absurd (ground (arith, h))
body_refusal_lem resource (ok body) h = (
  body,
  refl,
  elim (Bool-cases (is_operation resource.kind)) [
    | inl o ↦ inl (
      o,
      elim (Option-cases (only_member (codes "arguments") body)) [
        | inl e ↦ absurd (ground (arith, h, o, e))
        | inr (j, e) ↦ elim (Bool-cases (is_array_of resource.arguments j)) [
          | inr f ↦ absurd (ground (arith, h, o, e, f))
          | inl f ↦
              let (items, g, n) = is_array_of_lem resource.arguments j f in
              (
                items,
                only_member_lem (codes "arguments") body j e
                    ∙ ap (λ x. object (member (codes "arguments") x end)) g,
                n,
              )
        ]
      ],
    )
    | inr o ↦ inr (
      o,
      elim (Option-cases (only_member (codes "value") body)) [
        | inl e ↦ absurd (ground (arith, h, o, e))
        | inr (j, e) ↦ (j, only_member_lem (codes "value") body j e)
      ],
    )
  ],
)

refusal-supported :
    {D : Type 0} (answers : Answers D) (resource : Resource D) (mutation : Bool)
    → refusal answers resource mutation ≡ none
    → resource.supported ≡ true
unfolding refusal
refusal-supported answers resource mutation h = ground arith

refusal-body :
    {D : Type 0} (answers : Answers D) (resource : Resource D) (mutation : Bool)
    → refusal answers resource mutation ≡ none
    → (mutation ≡ false) ⊎ ((body : Json D) × (answers.parsed ≡ ok body) × HasForm resource body)
unfolding refusal
refusal-body answers resource false h = inl refl
refusal-body answers resource true h = elim (Option-cases (body_refusal resource answers.parsed)) [
  | inl e ↦ inr (body_refusal_lem resource answers.parsed e)
  | inr (status, e) ↦ absurd (ground (arith, h, e))
]

refusal-staging :
    {D : Type 0} (answers : Answers D) (resource : Resource D) (mutation : Bool)
    → refusal answers resource mutation ≡ none
    → staging_refusal answers resource mutation ≡ none
unfolding refusal
refusal-staging answers resource mutation h = ground arith

staging_refusal-source :
    {D : Type 0} (answers : Answers D) (resource : Resource D) (mutation : Bool)
    → staging_refusal answers resource mutation ≡ none
    → (mutation ≡ false) ⊎ (is_operation resource.kind ≡ true) ⊎ (answers.makes_source ≡ true)
unfolding staging_refusal
staging_refusal-source answers resource mutation h = ground arith

staging_refusal-prepared :
    {D : Type 0} (answers : Answers D) (resource : Resource D) (mutation : Bool)
    → staging_refusal answers resource mutation ≡ none
    → (is_operation resource.kind ≡ false) ⊎ (answers.prepared ≡ ok tt)
unfolding staging_refusal
staging_refusal-prepared answers resource mutation h = ground arith

-- What held when the RTT application was touched.
pub record IsAuthorised {D : Type 0} (site : Site D) (request : Request) (answers : Answers D)
    (e : Effect) (es : List Effect) (status : ℕ) : Type 0 where
  pub passed : IsAdmitted site request
  pub resource : Resource D
  pub resolved : answers.resolve_again (path_of request.target) ≡ some resource
  pub body :
      (is_mutation request ≡ false) ⊎ ((j : Json D) × (answers.parsed ≡ ok j) × HasForm resource j)
  pub staged :
      (is_mutation request ≡ false)
      ⊎ (is_operation resource.kind ≡ true)
      ⊎ (answers.makes_source ≡ true)
  pub prepared : (is_operation resource.kind ≡ false) ⊎ (answers.prepared ≡ ok tt)
  pub supported : resource.supported ≡ true
  pub running : answers.running ≡ true
  pub admitted : (is_operation resource.kind ≡ false) ⊎ (answers.admitted ≡ true)
  pub single : e ∷ es ≡ effects_of resource.kind
  pub reported : (is_operation resource.kind ≡ true) ⊎ (status ≡ 204)

module _ {D : Type 0} (site : Site D) (request : Request) (response : Response D)
    (answers : Answers D) where
  -- A request that changes the RTT application passed `preflight` and its target resolved. If it is a
  -- mutation, its body parsed and has one member: `arguments`, an array with an item for every
  -- argument of the operation, or `value` for another resource, from which the value was staged. The
  -- resource is supported; an operation's invocation was prepared and admitted; the server ran at the
  -- admission boundary. The change is the one of the resource's kind, once, and the status of an
  -- assignment or a written sample is 204.
  pub handle-IsAuthorised :
      (r : Response D) (e : Effect) (es : List Effect)
      → handle site request response answers ≡ some (r, e ∷ es)
      → IsAuthorised site request answers e es r.status
  unfolding handle
  handle-IsAuthorised r e es h = elim (Bool-cases (preflight site request response).0) [
    | inr p ↦ absurd (ground (arith, p))
    | inl p ↦ elim (Option-cases (answers.resolve_again (path_of request.target))) [
      | inl f ↦ absurd (ground (arith, p, f))
      | inr (resource, f) ↦
          let (g, k) =
            handle_resource_effects site request (preflight site request response).1 answers
              resource r e es (ground (arith, p, f)) in
          let s = refusal-staging answers resource (is_mutation request) g in
          let (run, single, adm, rep) =
            admission_effects site request (preflight site request response).1 answers resource
              (is_mutation request) r e es k in
          record {
            passed = (preflight_iff site request response).0 p;
            resource = resource;
            resolved = f;
            body = refusal-body answers resource (is_mutation request) g;
            staged = staging_refusal-source answers resource (is_mutation request) s;
            prepared = staging_refusal-prepared answers resource (is_mutation request) s;
            supported = refusal-supported answers resource (is_mutation request) g;
            running = run;
            admitted = adm;
            single = single;
            reported = rep;
          }
    ]
  ]

-- A turn at which the wait ends: the operation is complete, the grace period or the deadline is over,
-- or the client is gone.
unfoldable pub IsEnd : ℕ → Poll → Type 0
IsEnd deadline poll =
    (poll.complete ≡ true)
    ⊎ (poll.grace_expired ≡ true)
    ⊎ (deadline ≤ poll.now)
    ⊎ (poll.connection_closed ≡ some true)

await_ends :
    (deadline : ℕ) (polls rest : List Poll) (p : Poll)
    → IsEnd deadline p
    → (b : Bool) × (await_completion deadline (polls ++ p ∷ rest) ≡ some b)
unfolding await_completion IsEnd
await_ends deadline [] rest p h = elim (Option-cases (await_completion deadline (p ∷ rest))) [
  | inr (b, e) ↦ (b, e)
  | inl e ↦ absurd (ground (arith, e, h))
]
await_ends deadline (q ∷ polls) rest p h =
    let (b, e) = await_ends deadline polls rest p h in
    elim (Option-cases (await_completion deadline (q ∷ polls ++ p ∷ rest))) [
      | inr (c, f) ↦ (c, f)
      | inl f ↦ absurd (ground (arith, e, f))
    ]

module _ {D : Type 0} (site : Site D) (request : Request) (response : Response D)
    (answers : Answers D) where
  perform_ends :
      (resource : Resource D) (mutation b : Bool)
      → await_completion answers.deadline answers.polls ≡ some b
      → (result : Response D × List Effect) × (perform site request response answers resource
            mutation
          ≡ some result)
  unfolding perform handle_operation
  perform_ends resource mutation b h =
      elim (Option-cases (perform site request response answers resource mutation)) [
        | inr (result, e) ↦ (result, e)
        | inl e ↦ absurd (ground (arith, e, h))
      ]

  handle_resource_ends :
      (resource : Resource D) (b : Bool)
      → await_completion answers.deadline answers.polls ≡ some b
      → (result : Response D × List Effect) × (handle_resource site request response answers
            resource
          ≡ some result)
  unfolding handle_resource admission
  handle_resource_ends resource b h =
      let (result, p) = perform_ends resource (is_mutation request) b h in
      elim (Option-cases (handle_resource site request response answers resource)) [
        | inr (other, e) ↦ (other, e)
        | inl e ↦ absurd (ground (arith, e, p))
      ]

module _ {D : Type 0} (site : Site D) (request : Request) (response : Response D)
    (answers : Answers D) where
  -- A request is answered if one turn of its wait finds the operation complete, the grace period
  -- over, the deadline reached or the connection closed, whatever the other parts answer.
  pub handle-ends :
      (polls rest : List Poll) (p : Poll)
      → answers.polls ≡ polls ++ p ∷ rest
      → IsEnd answers.deadline p
      → (result : Response D × List Effect) × (handle site request response answers ≡ some result)
  unfolding handle
  handle-ends polls rest p e h =
      let (b, a) = await_ends answers.deadline polls rest p h in
      elim (answers.resolve_again (path_of request.target))
        as (λ x.
          (result : Response D × List Effect) × ((if not (preflight site request response).0
              then some ((preflight site request response).1, [])
              else elim x [
                | none ↦
                    some (problem site.fits request (preflight site request response).1 404, [])
                | some resource ↦
                    handle_resource site request (preflight site request response).1 answers
                      resource
              ])
            ≡ some result)) [
              | none ↦ elim (Bool-cases (preflight site request response).0) [
                | inl q ↦ (
                  (problem site.fits request (preflight site request response).1 404, []),
                  ground (arith, q),
                )
                | inr q ↦ (((preflight site request response).1, []), ground (arith, q))
              ]
              | some resource ↦
                  let (result, k) =
                    handle_resource_ends site request (preflight site request response).1 answers
                      resource b (rw e a) in
                  elim (Bool-cases (preflight site request response).0) [
                    | inl q ↦ (result, ground (arith, q, k))
                    | inr q ↦ (((preflight site request response).1, []), ground (arith, q))
                  ]
            ]
