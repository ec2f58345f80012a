-- ===== src/Options/Laws.antt =====
-- The configurations of `validateOptions` of src/server.cpp.
use rtt_http.Common.{
  ◌+◌, ◌*◌, ◌%◌, ◌≤◌, ◌<◌, Bool, true, false, none, [], ◌∷◌, Bytes, length, ◌≡◌, ◌≢◌, ◌↔◌, ◌⊎◌, inl,
  inr, refl, arith, All, any, bytes_eq, Bool-cases,
}
use rtt_http.Options.{
  ServerOptions, int_max, memory_max, pointer_size, positive, first_zero, has_nul, empty,
  check_limits, check_tls, validate_options,
}

-- A text that can be handed to the system as a C string.
pub record IsText (text : Bytes) : Type 0 where
  pub some_text : text ≢ []
  pub no_nul : All (λ c. c ≢ 0) text

pub record IsPositive (o : ServerOptions) : Type 0 where
  pub threads : 0 < o.worker_threads
  pub queued : 0 < o.max_queued_connections
  pub operations : 0 < o.max_pending_operations
  pub timeout : 0 < o.operation_timeout_ms
  pub request : 0 < o.max_request_body_bytes
  pub response : 0 < o.max_response_body_bytes
  pub depth : 0 < o.max_json_depth
  pub reads : 0 < o.socket_read_timeout_ms
  pub writes : 0 < o.socket_write_timeout_ms
  pub keeps : 0 < o.keep_alive_timeout_ms
  pub requests : 0 < o.keep_alive_max_requests
  pub grace : 0 < o.shutdown_grace_ms

pub record IsLimited (o : ServerOptions) : Type 0 where
  pub threads : o.worker_threads ≤ 1024
  pub reads : o.socket_read_timeout_ms ≤ int_max
  pub writes : o.socket_write_timeout_ms ≤ int_max
  pub keeps : o.keep_alive_timeout_ms ≤ int_max
  pub whole_seconds : o.keep_alive_timeout_ms % 1000 ≡ 0
  pub request : o.max_request_body_bytes * 8 ≤ memory_max
  pub response : o.max_response_body_bytes * 8 ≤ memory_max
  pub connections : (o.worker_threads + o.max_queued_connections + 1) * pointer_size ≤ memory_max

-- TLS is off, or the build has OpenSSL and both files have usable names.
abbrev pub IsSecured : Bool → ServerOptions → Type 0
IsSecured openssl o =
    (o.tls_enabled ≡ false)
    ⊎ ((openssl ≡ true) × IsText o.certificate_file × IsText o.private_key_file)

-- The documented configuration: every limit is positive and within its range.
pub record IsConfigured (openssl : Bool) (o : ServerOptions) : Type 0 where
  pub address : IsText o.bind_address
  pub address_short : length o.bind_address ≤ 1024
  pub port : (0 < o.port) × (o.port ≤ 65535)
  pub positive : IsPositive o
  pub limited : IsLimited o
  pub secured : IsSecured openssl o

has_nul_iff : (text : Bytes) → (has_nul text ≡ false) ↔ All (λ c. c ≢ 0) text
unfolding has_nul any
has_nul_iff [] = (λ h. tt, λ h. refl)
has_nul_iff (c ∷ text) = ground (arith, (has_nul_iff text).0, (has_nul_iff text).1)

empty_iff : (text : Bytes) → (empty text ≡ false) ↔ (text ≢ [])
unfolding empty bytes_eq
empty_iff [] = ground arith
empty_iff (c ∷ text) = ground arith

IsText-sound : (text : Bytes) → empty text ≡ false → has_nul text ≡ false → IsText text
IsText-sound text e n = record { some_text = (empty_iff text).0 e; no_nul = (has_nul_iff text).0 n }

text_complete : (text : Bytes) → IsText text → (empty text ≡ false) × (has_nul text ≡ false)
text_complete text h = ((empty_iff text).1 h.some_text, (has_nul_iff text).1 h.no_nul)

module _ (openssl : Bool) (o : ServerOptions) where
  first_zero_iff : (first_zero (positive o) ≡ none) ↔ IsPositive o
  unfolding first_zero
  first_zero_iff = (λ h. ground arith, λ h. ground arith)

  tls_tests :
      check_tls openssl o ≡ none
      → (o.tls_enabled ≡ false)
        ⊎ ((openssl ≡ true)
            × ((empty o.certificate_file ≡ false) × (has_nul o.certificate_file ≡ false))
            × ((empty o.private_key_file ≡ false) × (has_nul o.private_key_file ≡ false)))
  unfolding check_tls
  tls_tests h = elim (Bool-cases o.tls_enabled) [ inl e ↦ inr (ground arith) | inr e ↦ inl e ]

  check_tls_sound : check_tls openssl o ≡ none → IsSecured openssl o
  check_tls_sound h = elim (tls_tests h) [
    | inl off ↦ inl off
    | inr (ssl, (a, b), (c, d)) ↦
        inr (ssl, IsText-sound o.certificate_file a b, IsText-sound o.private_key_file c d)
  ]

  check_tls_complete : IsSecured openssl o → check_tls openssl o ≡ none
  unfolding check_tls
  check_tls_complete (inl off) = ground arith
  check_tls_complete (inr (ssl, cert, key)) =
      ground (arith, text_complete o.certificate_file cert, text_complete o.private_key_file key)

  check_limits_iff : (check_limits openssl o ≡ none) ↔ (IsLimited o × (check_tls openssl o ≡ none))
  unfolding check_limits
  check_limits_iff = (λ h. (ground arith, ground arith), λ h. ground arith)

  validate_options_tests : (validate_options openssl o ≡ none) ↔ (
      (empty o.bind_address ≡ false)
      × (has_nul o.bind_address ≡ false)
      × (length o.bind_address ≤ 1024)
      × (0 < o.port)
      × (o.port ≤ 65535)
      × (first_zero (positive o) ≡ none)
      × (check_limits openssl o ≡ none))
  unfolding validate_options
  validate_options_tests = (λ h. ground arith, λ h. ground arith)

  -- `validateOptions` accepts exactly the documented configurations: all limits positive, port,
  -- threads, timeouts and memory within their ranges (the products and sums that later code forms
  -- stay within the address space), whole seconds of keep-alive, a usable address, and under TLS a
  -- build with OpenSSL and two usable file names.
  pub validate_options_iff : (validate_options openssl o ≡ none) ↔ IsConfigured openssl o
  validate_options_iff = (
    λ h.
        let (e, n, short, p, q, z, l) = validate_options_tests.0 h in
        let (limited, tls) = check_limits_iff.0 l in
        record {
          address = IsText-sound o.bind_address e n;
          address_short = short;
          port = (p, q);
          positive = first_zero_iff.0 z;
          limited = limited;
          secured = check_tls_sound tls;
        },
    λ h.
        let (e, n) = text_complete o.bind_address h.address in
        validate_options_tests.1 (
          e,
          n,
          h.address_short,
          h.port.0,
          h.port.1,
          first_zero_iff.1 h.positive,
          check_limits_iff.1 (h.limited, check_tls_complete h.secured),
        ),
  )
