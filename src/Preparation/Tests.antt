-- ===== src/Preparation/Tests.antt =====
-- A run of `prepareInvocation` of src/operation_executor.cpp: an operation with a result, and a second
-- argument that it writes.
use rtt_http.Common.{ℕ, true, false, some, [], ◌∷◌, refl}
use rtt_http.Codec.{null, ok}
use rtt_http.Options.{default_options}
use rtt_http.Preparation.{Operation, Bindings, Prepared, prepare_invocation}
use rtt_http.Preparation.Outputs.{IsArgument, prepare_invocation_in_place}

abbrev schema : Operation
schema = record {
  arguments = 1 ∷ 2 ∷ [];
  collect_types = 3 ∷ 4 ∷ [];
  collect_codecs = 3 ∷ 2 ∷ [];
  has_result = true;
  own_thread = false;
  outputs = 1 ∷ [];
}

abbrev bindings : Bindings ℕ
bindings = record {
  make_data_source = λ codec json c. (ok codec, c);
  to_json = λ codec value c. (ok null, c);
  build_value = λ type. type;
  caller_ready = true;
  send_data_source = 0;
  send_assignable = false;
  collector_ready = false;
}

abbrev prepared : Prepared
prepared = record {
  arguments = 1 ∷ 2 ∷ [];
  send = 0;
  values = 3 ∷ 2 ∷ [];
  collected = [];
  returned = some 3;
}

prepare_invocation_in_place_example : IsArgument schema prepared.arguments 1 2
prepare_invocation_in_place_example =
    prepare_invocation_in_place ℕ bindings schema (null ∷ null ∷ []) default_options prepared 1 2
      (unfold prepare_invocation in refl) refl refl refl
