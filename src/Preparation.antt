-- ===== src/Preparation.antt =====
-- `prepareInvocation` of src/operation_executor.cpp: the arguments of an operation are decoded and
-- bound, and the values that its results go to are found. A data source is known by its address, 0
-- is null. What the codecs and RTT answer are arguments.
pub mod Outputs
mod Tests
use rtt_http.Common.{
  ℕ, suc, ◌+◌, ◌-◌, ◌*◌, Bool, true, false, ◌&&◌, not, Option, none, some, List, [], ◌∷◌, length,
  get_elem?, ◌==◌, if◌then◌else◌,
}
use rtt_http.Codec.{
  Json, CodecContext, CodecErrorCode, Conversion, Outcome, ok, err, make_context, type_mismatch,
  unavailable,
}
use rtt_http.Options.{ServerOptions}

-- `Operation`, with the codecs of its arguments and of what is collected by their addresses.
pub record Operation : Type 0 where
  pub arguments : List ℕ
  pub collect_types : List ℕ
  pub collect_codecs : List ℕ
  pub has_result : Bool
  pub own_thread : Bool
  pub outputs : List ℕ

-- What the codecs and RTT answer.
pub record Bindings (D : Type 0) : Type 0 where
  pub make_data_source : ℕ → Json D → Conversion ℕ
  pub to_json : ℕ → ℕ → Conversion (Json D)
  pub build_value : ℕ → ℕ
  pub caller_ready : Bool
  pub send_data_source : ℕ
  pub send_assignable : Bool
  pub collector_ready : Bool

-- The parts of the invocation: `collected` is bound to the collector, `returned` to the caller.
pub record Prepared : Type 0 where
  pub arguments : List ℕ
  pub send : ℕ
  pub values : List ℕ
  pub collected : List ℕ
  pub returned : Option ℕ

-- A null result, with the error code if one is set.
pub data Attempt (A : Type 0) : Type 0 where
  refused : Option CodecErrorCode → Attempt A
  good : A → Attempt A

-- A null data source is returned as it is.
abbrev pub not_null : Outcome ℕ → Attempt ℕ
not_null (err e) = refused (some e)
not_null (ok value) = if value == 0 then refused none else good value

abbrev pub first_value : List ℕ → Option ℕ
first_value [] = none
first_value (v ∷ vs) = some v

abbrev pub budget : ℕ → ℕ → Option CodecContext
budget bytes depth =
    make_context
      (record { max_document_bytes = bytes; max_depth = depth; max_allocation_bytes = bytes * 8 })

module _ {D : Type 0} (bindings : Bindings D) where
  -- The loop over the arguments.
  unfoldable pub decode_arguments : List ℕ → List (Json D) → CodecContext → Attempt (List ℕ)
  decode_arguments (codec ∷ codecs) (a ∷ arguments) c =
      elim (not_null (bindings.make_data_source codec a c).0) [
        | refused e ↦ refused e
        | good value ↦
            elim (decode_arguments codecs arguments (bindings.make_data_source codec a c).1) [
              | refused e ↦ refused e
              | good values ↦ good (value ∷ values)
            ]
      ]
  decode_arguments [] _ c = good []
  decode_arguments (codec ∷ codecs) [] c = good []

  -- A value of the codec's own storage.
  unfoldable pub fresh_value : ℕ → ℕ → CodecContext → Attempt ℕ × CodecContext
  fresh_value type codec c =
      if bindings.build_value type == 0
      then (refused none, c)
      else (let (initial, c') = bindings.to_json codec (bindings.build_value type) c in
          elim initial [
            | err e ↦ (refused (some e), c')
            | ok json ↦
                let (value, c'') = bindings.make_data_source codec json c' in (not_null value, c'')
          ])

  -- An output that the caller writes in place, which is the argument itself. An index that is out of
  -- range is undefined in the code; `describeService` makes none.
  unfoldable pub argument_value : Operation → List ℕ → ℕ → Attempt ℕ
  argument_value schema arguments i =
      elim (get_elem? schema.outputs (i - (if schema.has_result then 1 else 0))) [
        | none ↦ refused none
        | some o ↦ elim (get_elem? arguments o) [
          | none ↦ refused none
          | some value ↦ not_null (ok value)
        ]
      ]

  unfoldable pub output_value :
      Operation → ℕ → List ℕ → ℕ → ℕ → ℕ → CodecContext → Attempt ℕ × CodecContext
  unfolding fresh_value argument_value
  output_value schema send arguments i type codec c =
      if (send == 0) && not (schema.has_result && (i == 0))
      then (argument_value schema arguments i, c)
      else fresh_value type codec c

  -- The loop over the types that are collected, from the index `i`.
  unfoldable pub output_values :
      Operation → ℕ → List ℕ → ℕ → List ℕ → List ℕ → CodecContext → Attempt (List ℕ)
  unfolding output_value
  output_values schema send arguments i (type ∷ types) (codec ∷ codecs) c =
      elim (output_value schema send arguments i type codec c).0 [
        | refused e ↦ refused e
        | good value ↦
            elim (output_values schema send arguments (suc i) types codecs
              (output_value schema send arguments i type codec c).1) [
                | refused e ↦ refused e
                | good values ↦ good (value ∷ values)
              ]
      ]
  output_values schema send arguments i [] _ c = good []
  output_values schema send arguments i (type ∷ types) [] c = good []

  -- Behind the decoded arguments; `send` is the sender's data source, or null.
  unfoldable pub bind_outputs : Operation → List ℕ → ℕ → CodecContext → Attempt Prepared
  unfolding output_values
  bind_outputs schema arguments send output =
      if not (send == 0) && not bindings.send_assignable
      then refused (some unavailable)
      else elim (output_values schema send arguments 0 schema.collect_types schema.collect_codecs
          output) [
            | refused e ↦ refused e
            | good values ↦
                if not (send == 0) && not bindings.collector_ready
                then refused (some unavailable)
                else good (record {
                  arguments = arguments;
                  send = send;
                  values = values;
                  collected = if send == 0 then [] else values;
                  returned = if (send == 0) && schema.has_result then first_value values else none;
                })
          ]

  -- `none` is the exception of a context without a limit.
  unfoldable pub prepare_invocation :
      Operation → List (Json D) → ServerOptions → Option (Attempt Prepared)
  unfolding decode_arguments bind_outputs make_context
  prepare_invocation schema arguments options =
      if not (length arguments == length schema.arguments)
      then some (refused (some type_mismatch))
      else elim (budget options.max_request_body_bytes options.max_json_depth) [
        | none ↦ none
        | some input ↦ elim (decode_arguments schema.arguments arguments input) [
          | refused e ↦ some (refused e)
          | good values ↦
              if not bindings.caller_ready
              then some (refused (some unavailable))
              else elim (budget options.max_response_body_bytes options.max_json_depth) [
                | none ↦ none
                | some output ↦ some (
                    bind_outputs schema values
                      (if schema.own_thread then bindings.send_data_source else 0) output)
              ]
        ]
      ]
