-- ===== src/Lifecycle/Steps.antt =====
-- The interleavings of the threads that use a server: the critical sections of src/server.cpp as a
-- step relation. `caller` keeps the sections of the functions that hold `control` in their order,
-- `thread` those of the network thread; the others may come at any time.
use rtt_http.Common.{ℕ, Bool, true, some, ◌≡◌, ◌⊎◌, Bytes}
use rtt_http.Options.{ServerOptions, default_options}
use rtt_http.Lifecycle.{
  Impl, setup, listening, serving, shutting, returned, cleaned, free, checked, configured, dropped,
  prepared, launching, waiting, joining, draining, is_over, request_stop, expire_grace, accept,
  admit_operation, finish_operation, run_throws, run_binds, forget_stop, start_handler, run_shuts,
  run_returns, run_cleans, run_ends, start_check, start_configure, start_drop, start_prepare,
  start_throws, start_launch, start_spawn, start_wakes, stop_control, stop_joins, begin_shutdown,
  release_executor, release_model, initial,
}

pub data Step (openssl : Bool) : Impl → Impl → Type 0 where
  -- Any thread, at any time.
  asks : (s : Impl) (active : ℕ → Bool) (now : ℕ) → Step openssl s (request_stop active now s)
  forbids : (s : Impl) (active : ℕ → Bool) (now : ℕ) → Step openssl s (begin_shutdown active now s)
  expires : (s : Impl) (now : ℕ) → Step openssl s (expire_grace now s)
  accepts : (s : Impl) (closed : ℕ → Bool) (c : ℕ) → Step openssl s (accept closed c s)
  admits : (s : Impl) → Step openssl s (admit_operation s)
  finishes : (s : Impl) → Step openssl s (finish_operation s)
  -- The network thread.
  binds : (s : Impl) → s.thread ≡ setup → Step openssl s (run_binds s)
  fails_setup :
      (s : Impl) (active : ℕ → Bool) (now : ℕ) (message : Bytes)
      → s.thread ≡ setup
      → Step openssl s (run_throws active now message s)
  -- The watchdog's creation, or `listen_after_bind`, throws.
  fails_listening :
      (s : Impl) (active : ℕ → Bool) (now : ℕ) (message : Bytes)
      → (s.thread ≡ listening) ⊎ (s.thread ≡ shutting)
      → Step openssl s (run_throws active now message s)
  -- `listen_after_bind` gives up before it makes a task queue.
  returns_early :
      (s : Impl) (listened : Bool) → s.thread ≡ listening → Step openssl s (run_returns listened s)
  -- It calls the start handler, and accepts connections.
  starts :
      (s : Impl)
      → s.thread ≡ listening
      → Step openssl s (start_handler (record s { listener = forget_stop s.listener }))
  -- The accept loop ends since `stop()` was called, or on an error of its own, and the task queue is
  -- shut down.
  quits :
      (s : Impl) (active : ℕ → Bool) (now : ℕ)
      → s.thread ≡ serving
      → s.listener ≡ some true
      → Step openssl s (run_shuts active now s)
  breaks :
      (s : Impl) (active : ℕ → Bool) (now : ℕ)
      → (s.thread ≡ listening) ⊎ (s.thread ≡ serving)
      → Step openssl s (run_shuts active now s)
  -- `listen_after_bind` returns behind the shutdown of its task queue.
  returns :
      (s : Impl) (listened : Bool) → s.thread ≡ shutting → Step openssl s (run_returns listened s)
  cleans : (s : Impl) → s.thread ≡ returned → Step openssl s (run_cleans s)
  ends : (s : Impl) → s.thread ≡ cleaned → Step openssl s (run_ends s)
  -- `start`.
  checks : (s : Impl) → s.caller ≡ free → Step openssl s (start_check s).0
  configures :
      (s : Impl) (o : ServerOptions)
      → s.caller ≡ checked
      → is_over s.thread ≡ true
      → Step openssl s (start_configure openssl o s).0
  drops : (s : Impl) → s.caller ≡ configured → Step openssl s (start_drop s)
  prepares : (s : Impl) → s.caller ≡ dropped → Step openssl s (start_prepare s)
  launches : (s : Impl) → s.caller ≡ prepared → Step openssl s (start_launch s).0
  spawns : (s : Impl) → s.caller ≡ launching → Step openssl s (start_spawn s)
  throws_configured :
      (s : Impl) (message : Bytes)
      → s.caller ≡ configured
      → Step openssl s (start_throws message s).0
  throws_dropped :
      (s : Impl) (message : Bytes) → s.caller ≡ dropped → Step openssl s (start_throws message s).0
  throws_prepared :
      (s : Impl) (message : Bytes) → s.caller ≡ prepared → Step openssl s (start_throws message s).0
  throws_launching :
      (s : Impl) (message : Bytes)
      → s.caller ≡ launching
      → Step openssl s (start_throws message s).0
  wakes : (s : Impl) → s.caller ≡ waiting → Step openssl s (start_wakes s).0
  -- `stop`, and `finishShutdown` behind it.
  controls :
      (s : Impl) (active : ℕ → Bool) (now : ℕ)
      → s.caller ≡ free
      → Step openssl s (stop_control active now s)
  joins : (s : Impl) → s.caller ≡ joining → is_over s.thread ≡ true → Step openssl s (stop_joins s)
  releases : (s : Impl) → s.caller ≡ free → s.finishing ≡ true → Step openssl s (release_executor s)
  forgets : (s : Impl) → s.caller ≡ draining → Step openssl s (release_model s)

pub data Reachable (openssl : Bool) : Impl → Type 0 where
  built : Reachable openssl (initial default_options)
  next : {s t : Impl} → Reachable openssl s → Step openssl s t → Reachable openssl t

pub data Steps (openssl : Bool) (s : Impl) : Impl → Type 0 where
  here : Steps openssl s s
  after : {t u : Impl} → Steps openssl s t → Step openssl t u → Steps openssl s u

pub Reachable-Steps :
    {openssl : Bool} {s t : Impl} → Reachable openssl s → Steps openssl s t → Reachable openssl t
Reachable-Steps r here = r
Reachable-Steps r (after st step) = next (Reachable-Steps r st) step
