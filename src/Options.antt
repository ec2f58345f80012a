-- ===== src/Options.antt =====
-- `ServerOptions` of include/rtt/http/server_options.hpp, and `validateOptions` and `endpointUrl` of
-- src/server.cpp. The result of `validateOptions` is the message of the error, `none` for true. The
-- build's `CPPHTTPLIB_OPENSSL_SUPPORT` is an argument; `size_t` has 64 bits and a `shared_ptr` 16
-- bytes.
pub mod Laws
mod Tests
use rtt_http.Common.{
  ℕ, ◌+◌, ◌-◌, ◌/◌, ◌%◌, ◌^◌, Bool, true, false, ◌&&◌, ◌||◌, not, Option, none, some, List, [], ◌∷◌,
  ◌++◌, Bytes, codes, ltb, leb, ◌==◌, if◌then◌else◌, length, any, bytes_eq,
}
use rtt_http.Common.Decimal.{to_chars}

pub record ServerOptions : Type 0 where
  pub bind_address : Bytes
  pub port : ℕ
  pub tls_enabled : Bool
  pub certificate_file : Bytes
  pub private_key_file : Bytes
  pub worker_threads : ℕ
  pub max_queued_connections : ℕ
  pub max_pending_operations : ℕ
  pub operation_timeout_ms : ℕ
  pub max_request_body_bytes : ℕ
  pub max_response_body_bytes : ℕ
  pub max_json_depth : ℕ
  pub socket_read_timeout_ms : ℕ
  pub socket_write_timeout_ms : ℕ
  pub keep_alive_timeout_ms : ℕ
  pub keep_alive_max_requests : ℕ
  pub shutdown_grace_ms : ℕ

-- `ServerOptions{}`.
abbrev pub default_options : ServerOptions
default_options = record {
  bind_address = codes "127.0.0.1";
  port = 8080;
  tls_enabled = false;
  certificate_file = [];
  private_key_file = [];
  worker_threads = 4;
  max_queued_connections = 64;
  max_pending_operations = 32;
  operation_timeout_ms = 5000;
  max_request_body_bytes = 1048576;
  max_response_body_bytes = 8388608;
  max_json_depth = 64;
  socket_read_timeout_ms = 5000;
  socket_write_timeout_ms = 5000;
  keep_alive_timeout_ms = 5000;
  keep_alive_max_requests = 100;
  shutdown_grace_ms = 10000;
}

abbrev pub int_max : ℕ
int_max = 2 ^ 31 - 1

-- `memoryMax`.
abbrev pub memory_max : ℕ
memory_max = 2 ^ 64 - 1

abbrev pub pointer_size : ℕ
pointer_size = 16

-- The table `positive`, in the order in which it is checked.
abbrev positive : ServerOptions → List (Bytes × ℕ)
positive o =
    (codes "workerThreads", o.worker_threads)
    ∷ (codes "maxQueuedConnections", o.max_queued_connections)
    ∷ (codes "maxPendingOperations", o.max_pending_operations)
    ∷ (codes "operationTimeoutMs", o.operation_timeout_ms)
    ∷ (codes "maxRequestBodyBytes", o.max_request_body_bytes)
    ∷ (codes "maxResponseBodyBytes", o.max_response_body_bytes)
    ∷ (codes "maxJsonDepth", o.max_json_depth)
    ∷ (codes "socketReadTimeoutMs", o.socket_read_timeout_ms)
    ∷ (codes "socketWriteTimeoutMs", o.socket_write_timeout_ms)
    ∷ (codes "keepAliveTimeoutMs", o.keep_alive_timeout_ms)
    ∷ (codes "keepAliveMaxRequests", o.keep_alive_max_requests)
    ∷ (codes "shutdownGraceMs", o.shutdown_grace_ms)
    ∷ []

first_zero : List (Bytes × ℕ) → Option Bytes
first_zero [] = none
first_zero ((name, value) ∷ rest) =
    let more = first_zero rest in
    if value == 0 then some (name ++ codes " must be positive") else more

has_nul : Bytes → Bool
unfolding any
has_nul text = any (λ c. c == 0) text

empty : Bytes → Bool
unfolding bytes_eq
empty text = bytes_eq text []

-- The checks of TLS, which come last.
check_tls : Bool → ServerOptions → Option Bytes
unfolding has_nul empty
check_tls openssl o =
    if o.tls_enabled
      && (empty o.certificate_file
          || (empty o.private_key_file
              || (has_nul o.certificate_file || has_nul o.private_key_file)))
    then some (codes "certificateFile and privateKeyFile are required for TLS")
    else if not openssl && o.tls_enabled
    then some (codes "tlsEnabled requires an HTTP SDK built with OpenSSL")
    else none

-- The checks behind the table.
check_limits : Bool → ServerOptions → Option Bytes
unfolding check_tls
check_limits openssl o =
    if ltb 1024 o.worker_threads
    then some (codes "workerThreads exceeds the supported thread capacity (1024)")
    else if ltb int_max o.socket_read_timeout_ms
        || (ltb int_max o.socket_write_timeout_ms || ltb int_max o.keep_alive_timeout_ms)
    then some (codes "socket and keep-alive timeouts exceed the native polling range")
    else if not (o.keep_alive_timeout_ms % 1000 == 0)
    then some (codes "keepAliveTimeoutMs must be a whole number of seconds for cpp-httplib")
    else if ltb (memory_max / 8) o.max_request_body_bytes
        || (ltb (memory_max / 8) o.max_response_body_bytes
            || ltb (memory_max / pointer_size - o.worker_threads - 1) o.max_queued_connections)
    then some (codes "configured payload or connection capacity exceeds addressable storage")
    else check_tls openssl o

unfoldable pub validate_options : Bool → ServerOptions → Option Bytes
unfolding first_zero check_limits
validate_options openssl o =
    if empty o.bind_address || (ltb 1024 (length o.bind_address) || has_nul o.bind_address)
    then some (codes "bindAddress must be a nonempty host or IP address")
    else if o.port == 0 || ltb 65535 o.port
    then some (codes "port must be in 1..65535")
    else elim (first_zero (positive o)) [
      | some message ↦ some message
      | none ↦ check_limits openssl o
    ]

starts_with_bracket : Bytes → Bool
starts_with_bracket [] = false
starts_with_bracket (c ∷ text) = c == b'['

unfoldable pub endpoint_url : ServerOptions → Bytes
unfolding any starts_with_bracket to_chars
endpoint_url o =
    let host =
      if any (λ c. c == b':') o.bind_address && not (starts_with_bracket o.bind_address)
      then b'[' ∷ (o.bind_address ++ b']' ∷ [])
      else o.bind_address in
    (if o.tls_enabled then codes "https://" else codes "http://")
    ++ (host ++ b':' ∷ to_chars o.port)
