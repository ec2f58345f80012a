-- ===== src/Preparation/Outputs.antt =====
-- The values that `prepareInvocation` of src/operation_executor.cpp collects the results in.
use rtt_http.Common.{
  ℕ, zero, suc, ◌+◌, ◌-◌, false, ◌&&◌, not, Option, none, some, List, [], ◌∷◌, length, get_elem?,
  ◌==◌, if◌then◌else◌, ◌≡◌, ◌⊎◌, inl, inr, refl, sym, ap, ◌∙◌, subst, arith, Bool-cases,
  Option-cases,
}
use rtt_http.Codec.{Json, CodecContext, CodecErrorCode}
use rtt_http.Options.{ServerOptions}
use rtt_http.Preparation.{
  Operation, Bindings, Prepared, Attempt, refused, good, decode_arguments, argument_value,
  output_value, output_values, budget, bind_outputs, prepare_invocation, first_value,
}

Attempt-cases :
    {A : Type 0} (x : Attempt A)
    → ((e : Option CodecErrorCode) × (x ≡ refused e)) ⊎ ((a : A) × (x ≡ good a))
Attempt-cases (refused e) = inl (e, refl)
Attempt-cases (good a) = inr (a, refl)

one_value : {v w : ℕ} → some v ≡ some w → v ≡ w
one_value e = cc

one_prepared : {p q : Prepared} → good p ≡ good q → p ≡ q
one_prepared e = cc

none_there : {vs : List ℕ} {v : ℕ} (j : ℕ) → [] ≡ vs → get_elem? vs j ≡ some v → ⊥
none_there {v = v} j e g = absurd (ground (arith, subst (λ x. get_elem? x j ≡ some v) (sym e) g))

-- The argument that an output is.
abbrev pub IsArgument : Operation → List ℕ → ℕ → ℕ → Type 0
IsArgument schema arguments i value =
    (o : ℕ) × (get_elem? schema.outputs (i - (if schema.has_result then 1 else 0)) ≡ some o)
    × (get_elem? arguments o ≡ some value)

module _ {D : Type 0} (bindings : Bindings D) (schema : Operation) (arguments : List ℕ) where
  argument_value_inv :
      (i value : ℕ)
      → argument_value bindings schema arguments i ≡ good value
      → IsArgument schema arguments i value
  unfolding argument_value
  argument_value_inv i value h =
      elim (Option-cases (get_elem? schema.outputs (i - (if schema.has_result then 1 else 0)))) [
        | inl e ↦ absurd (ground (arith, e, h))
        | inr (o, e) ↦ elim (Option-cases (get_elem? arguments o)) [
          | inl f ↦ absurd (ground (arith, e, f, h))
          | inr (v, f) ↦ (o, e, ground (arith, e, f, h))
        ]
      ]

  output_values_inv :
      (send i type codec : ℕ) (types codecs : List ℕ) (c : CodecContext) (vs : List ℕ)
      → output_values bindings schema send arguments i (type ∷ types) (codec ∷ codecs) c ≡ good vs
      → (v : ℕ) × (rest : List ℕ) × (c' : CodecContext) × (vs ≡ v ∷ rest)
        × ((output_value bindings schema send arguments i type codec c).0 ≡ good v)
        × (output_values bindings schema send arguments (suc i) types codecs c' ≡ good rest)
  unfolding output_values
  output_values_inv send i type codec types codecs c vs h =
      let one = output_value bindings schema send arguments i type codec c in
      elim (Attempt-cases one.0) [
        | inl (e, f) ↦ absurd (ground (arith, f, h))
        | inr (v, f) ↦
            elim (Attempt-cases
              (output_values bindings schema send arguments (suc i) types codecs one.1)) [
                | inl (e, g) ↦ absurd (ground (arith, f, g, h))
                | inr (rest, g) ↦ (v, rest, one.1, ground (arith, f, g, h), f, g)
              ]
      ]

  output_value_in_place :
      (i type codec value : ℕ) (c : CodecContext)
      → (schema.has_result && (i == 0)) ≡ false
      → (output_value bindings schema 0 arguments i type codec c).0 ≡ good value
      → IsArgument schema arguments i value
  unfolding output_value
  output_value_in_place i type codec value c n h = argument_value_inv i value (ground (arith, n, h))

  -- The value at `j`, of the index `k` in all.
  output_values_in_place :
      (i j k value : ℕ) (types codecs : List ℕ) (c : CodecContext) (vs : List ℕ)
      → k ≡ i + j
      → output_values bindings schema 0 arguments i types codecs c ≡ good vs
      → get_elem? vs j ≡ some value
      → (schema.has_result && (k == 0)) ≡ false
      → IsArgument schema arguments k value
  unfolding output_values
  output_values_in_place i j k value [] codecs c vs e h g n =
      absurd (none_there j (ground (arith, h)) g)
  output_values_in_place i j k value (type ∷ types) [] c vs e h g n =
      absurd (none_there j (ground (arith, h)) g)
  output_values_in_place i zero k value (type ∷ types) (codec ∷ codecs) c vs e h g n =
      let (v, rest, c', split, one, more) = output_values_inv 0 i type codec types codecs c vs h in
      let same : i ≡ k = omega (arith, e) in
      let v_is : v ≡ value = one_value (subst (λ x. get_elem? x 0 ≡ some value) split g) in
      subst (λ x. IsArgument schema arguments x value) same
        (output_value_in_place i type codec value c
          (subst (λ x. (schema.has_result && (x == 0)) ≡ false) (sym same) n)
          (one ∙ ap (λ x. good x) v_is))
  output_values_in_place i (suc j) k value (type ∷ types) (codec ∷ codecs) c vs e h g n =
      let (v, rest, c', split, one, more) = output_values_inv 0 i type codec types codecs c vs h in
      output_values_in_place (suc i) j k value types codecs c' rest (omega (arith, e)) more
        (subst (λ x. get_elem? x (suc j) ≡ some value) split g) n

  bind_outputs_inv :
      (send : ℕ) (output : CodecContext) (p : Prepared)
      → bind_outputs bindings schema arguments send output ≡ good p
      → (output_values bindings schema send arguments 0 schema.collect_types schema.collect_codecs
            output
          ≡ good p.values)
        × (p.send ≡ send)
        × (p.arguments ≡ arguments)
  unfolding bind_outputs
  bind_outputs_inv send output p h =
      elim (Bool-cases (not (send == 0) && not bindings.send_assignable)) [
        | inl a ↦ absurd (ground (arith, a, h))
        | inr a ↦
            elim (Attempt-cases (
              output_values bindings schema send arguments 0 schema.collect_types
                schema.collect_codecs output)) [
                  | inl (e, b) ↦ absurd (ground (arith, a, b, h))
                  | inr (vs, b) ↦
                      elim (Bool-cases (not (send == 0) && not bindings.collector_ready)) [
                        | inl d ↦ absurd (ground (arith, a, b, d, h))
                        | inr d ↦
                            let made : Prepared = record {
                              arguments = arguments;
                              send = send;
                              values = vs;
                              collected = if send == 0 then [] else vs;
                              returned =
                                  if (send == 0) && schema.has_result then first_value vs else none;
                            } in
                            let result : good made ≡ good p = ground (arith, a, b, d, h) in
                            let same = one_prepared result in
                            (
                              b ∙ ap (λ x. good x.values) same,
                              sym (ap (λ x. x.send) same),
                              sym (ap (λ x. x.arguments) same),
                            )
                      ]
                ]
      ]

prepare_invocation_inv :
    {D : Type 0} (bindings : Bindings D) (schema : Operation) (arguments : List (Json D))
    (options : ServerOptions) (p : Prepared)
    → prepare_invocation bindings schema arguments options ≡ some (good p)
    → (values : List ℕ) × (send : ℕ) × (output : CodecContext) × (bind_outputs bindings schema
          values send output
        ≡ good p)
unfolding prepare_invocation
prepare_invocation_inv bindings schema arguments options p h =
    elim (Bool-cases (length arguments == length schema.arguments)) [
      | inr e ↦ absurd (ground (arith, e, h))
      | inl e ↦ elim (Option-cases (budget options.max_request_body_bytes options.max_json_depth)) [
        | inl a ↦ absurd (ground (arith, e, a, h))
        | inr (input, a) ↦
            elim (Attempt-cases (decode_arguments bindings schema.arguments arguments input)) [
              | inl (x, b) ↦ absurd (ground (arith, e, a, b, h))
              | inr (values, b) ↦ elim (Bool-cases bindings.caller_ready) [
                | inr d ↦ absurd (ground (arith, e, a, b, d, h))
                | inl d ↦
                    elim (Option-cases
                      (budget options.max_response_body_bytes options.max_json_depth)) [
                        | inl f ↦ absurd (ground (arith, e, a, b, d, f, h))
                        | inr (output, f) ↦ (
                          values,
                          (if schema.own_thread then bindings.send_data_source else 0),
                          output,
                          ground (arith, e, a, b, d, f, h),
                        )
                      ]
              ]
            ]
      ]
    ]

-- The values of an invocation without a sender, that of the operation's result apart, are no copies:
-- each is the data source of the argument that the output comes in with, so that the call writes
-- what is reported.
pub prepare_invocation_in_place :
    (D : Type 0) (bindings : Bindings D) (schema : Operation) (arguments : List (Json D))
    (options : ServerOptions) (p : Prepared) (i value : ℕ)
    → prepare_invocation bindings schema arguments options ≡ some (good p)
    → p.send ≡ 0
    → get_elem? p.values i ≡ some value
    → (schema.has_result && (i == 0)) ≡ false
    → IsArgument schema p.arguments i value
prepare_invocation_in_place D bindings schema arguments options p i value h s g n =
    let (values, send, output, e) = prepare_invocation_inv bindings schema arguments options p h in
    let (outs, sends, same) = bind_outputs_inv bindings schema values send output p e in
    let in_place =
      output_values_in_place bindings schema values 0 i i value schema.collect_types
        schema.collect_codecs output p.values (omega arith)
        (subst
          (λ x.
            output_values bindings schema x values 0 schema.collect_types schema.collect_codecs
              output
            ≡ good p.values)
          (sym sends ∙ s) outs)
        g n in
    subst (λ x. IsArgument schema x i value) (sym same) in_place
