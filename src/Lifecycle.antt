-- ===== src/Lifecycle.antt =====
-- `Server::Impl` of src/server.cpp as far as it starts and stops: the state under `mutex`, and one
-- function for each critical section of `start`, `requestStop`, `stop`, `beginShutdown`,
-- `finishShutdown`, of the network thread (`run`, the handlers that it installs) and of
-- `watchGrace`. Lifecycle/Steps.antt has their interleavings. The executor is seen as its width and
-- its number of pending operations, the object model as present or not. What cpp-httplib and the
-- clock answer is an argument.
pub mod Steps
pub mod Invariant
pub mod Guarantees
pub mod Retention
pub mod Stop
mod Tests
use rtt_http.Common.{
  ℕ, suc, ◌+◌, ◌-◌, Bool, true, false, ◌&&◌, ◌||◌, not, Option, none, some, List, [], ◌∷◌, ◌++◌,
  Bytes, codes, ltb, leb, ◌==◌, if◌then◌else◌, length,
}
use rtt_http.Options.{ServerOptions, validate_options}

pub data State : Type 0 where
  stopped starting running stopping : State

-- Where the network thread is: not there or joined, before the bind, in `listen_after_bind` in front
-- of the start handler, in the accept loop behind it, behind the shutdown of the task queue, behind
-- `listen_after_bind`, behind the section that clears `listener`, and at its end but not joined.
pub data Thread : Type 0 where
  absent setup listening serving shutting returned cleaned ended : Thread

-- What the holder of `control` is at: nobody holds it; in `start`, behind its first check, behind
-- the section that sets the options, with the old executor dropped, with model and executor in
-- place, before the thread is made, waiting for it; in `stop`, joining the thread; in
-- `finishShutdown`, with the executor moved out.
pub data Caller : Type 0 where
  free checked configured dropped prepared launching waiting joining draining : Caller

pub record Pool : Type 0 where
  pub width : ℕ
  pub pending : ℕ

pub record Impl : Type 0 where
  pub state : State
  pub final_shutdown : Bool
  pub network_done : Bool
  pub grace_expired : Bool
  pub grace_deadline : ℕ
  pub options : ServerOptions
  pub error : Bytes
  pub model : Bool
  pub executor : Option Pool
  -- Some while `listener` is not null; true when its `stop()` was called.
  pub listener : Option Bool
  pub connections : List ℕ
  pub capacity : ℕ
  pub cancelled : List ℕ
  pub thread : Thread
  pub caller : Caller
  -- `finishShutdown` has come back from `stop`.
  pub finishing : Bool

unfoldable pub is_stopped : State → Bool
is_stopped stopped = true
is_stopped _ = false

unfoldable pub is_starting : State → Bool
is_starting starting = true
is_starting _ = false

unfoldable pub is_running : State → Bool
is_running running = true
is_running _ = false

unfoldable pub is_stopping : State → Bool
is_stopping stopping = true
is_stopping _ = false

unfoldable pub joinable : Thread → Bool
joinable absent = false
joinable _ = true

-- `join` returns.
unfoldable pub is_over : Thread → Bool
is_over absent = true
is_over ended = true
is_over _ = false

unfoldable pub drop_if : (ℕ → Bool) → List ℕ → List ℕ
drop_if p [] = []
drop_if p (c ∷ cs) = let rest = drop_if p cs in if p c then rest else c ∷ rest

unfoldable pub stop_listener : Option Bool → Option Bool
stop_listener none = none
stop_listener (some b) = some true

-- `requestStopLocked`; `active` is `is_active()` of each connection.
unfoldable pub request_stop : (ℕ → Bool) → ℕ → Impl → Impl
unfolding is_stopped is_stopping stop_listener drop_if
request_stop active now s = if is_stopped s.state || is_stopping s.state then s else record s {
  state = stopping;
  grace_deadline = now + s.options.shutdown_grace_ms;
  listener = stop_listener s.listener;
  cancelled = drop_if active s.connections ++ s.cancelled;
}

-- `watchGrace`, when its second wait ends without `networkDone`.
unfoldable pub expire_grace : ℕ → Impl → Impl
unfolding is_stopping
expire_grace now s =
    if not s.network_done && (is_stopping s.state && leb s.grace_deadline now)
    then record s { grace_expired = true; cancelled = s.connections ++ s.cancelled }
    else s

-- The connection handler; `closed` is `is_closed()`.
unfoldable pub accept : (ℕ → Bool) → ℕ → Impl → Impl
unfolding drop_if is_running
accept closed connection s =
    let kept = drop_if closed s.connections in
    if not (is_running s.state) || leb s.capacity (length kept)
    then record s { connections = kept; cancelled = connection ∷ s.cancelled }
    else record s { connections = kept ++ connection ∷ [] }

-- The admission boundary of `handle`, for an operation.
unfoldable pub admit_operation : Impl → Impl
unfolding is_running
admit_operation s = if not (is_running s.state) || s.final_shutdown then s else elim s.executor [
  | none ↦ s
  | some e ↦
      if leb s.options.max_pending_operations e.pending
      then s
      else record s { executor = some (record e { pending = suc e.pending }) }
]

unfoldable pub finish_operation : Impl → Impl
finish_operation s = elim s.executor [
  | none ↦ s
  | some e ↦ record s { executor = some (record e { pending = e.pending - 1 }) }
]

-- `run`: an exception of the setup, of the bind, or of the watchdog's creation.
unfoldable pub run_throws : (ℕ → Bool) → ℕ → Bytes → Impl → Impl
unfolding request_stop
run_throws active now message s = record (request_stop active now (record s { error = message })) {
  thread = returned;
}

-- The bind succeeded, and the listener is published.
unfoldable pub run_binds : Impl → Impl
unfolding is_starting
run_binds s = record s {
  listener = some (not (is_starting s.state) || s.final_shutdown);
  thread = listening;
}

-- Nothing is built on a `stop()` that was called in front of the accept loop.
unfoldable pub forget_stop : Option Bool → Option Bool
forget_stop none = none
forget_stop (some b) = some false

-- The start handler.
unfoldable pub start_handler : Impl → Impl
unfolding is_starting stop_listener
start_handler s =
    if is_starting s.state && not s.final_shutdown
    then record s { state = running; thread = serving }
    else record s { listener = stop_listener s.listener; thread = serving }

-- The callback that `new_task_queue` gives to `NetworkPool`, which its `shutdown` calls.
unfoldable pub run_shuts : (ℕ → Bool) → ℕ → Impl → Impl
unfolding request_stop
run_shuts active now s = record (request_stop active now s) { thread = shutting }

-- `listen_after_bind` returns.
unfoldable pub run_returns : Bool → Impl → Impl
run_returns listened s = record s {
  error = if listened then s.error else codes "HTTP listener failed during startup or serving";
  thread = returned;
}

-- The last two critical sections of `run`.
unfoldable pub run_cleans : Impl → Impl
run_cleans s = record s { listener = none; network_done = true; connections = []; thread = cleaned }

unfoldable pub run_ends : Impl → Impl
run_ends s = record s { state = stopped; thread = ended }

-- What `start` returns; `none` while it is not through.
pub data Result : Type 0 where
  succeeded : Result
  failed : Bytes → Result
  pending : Result

-- `start`, the first section.
unfoldable pub start_check : Impl → Impl × Result
unfolding is_running is_stopped
start_check s =
    if s.final_shutdown
    then (s, failed (codes "HTTP deployment is shutting down"))
    else if is_running s.state
    then (s, succeeded)
    else if not (is_stopped s.state)
    then (s, failed (codes "HTTP network cleanup is not complete"))
    else (record s { caller = checked }, pending)

unfoldable pub pending_count : Option Pool → ℕ
pending_count none = 0
pending_count (some e) = e.pending

-- `!executor || executor->width() != workerThreads`.
unfoldable pub width_differs : Option Pool → ℕ → Bool
width_differs none threads = true
width_differs (some e) threads = not (e.width == threads)

-- `start`, from the join to the section that sets the options. The join has returned.
unfoldable pub start_configure : Bool → ServerOptions → Impl → Impl × Result
unfolding pending_count width_differs
start_configure openssl o s =
    let t : Impl = record s { thread = absent } in
    elim (validate_options openssl o) [
      | some message ↦ (record t { caller = free }, failed message)
      | none ↦
          if ltb o.max_pending_operations (pending_count t.executor)
          then (
            record t { caller = free },
            failed (codes "maxPendingOperations is below retained HTTP operation count"),
          )
          else if not (pending_count t.executor == 0) && width_differs t.executor o.worker_threads
          then (
            record t { caller = free },
            failed (codes "workerThreads cannot change while HTTP operations remain unfinished"),
          )
          else (
            record t {
              options = o;
              error = [];
              state = starting;
              grace_expired = false;
              caller = configured;
            },
            pending,
          )
    ]

-- `start`, the model, and the section that moves an executor of another width out.
unfoldable pub start_drop : Impl → Impl
unfolding width_differs
start_drop s = record s {
  model = true;
  executor = if width_differs s.executor s.options.worker_threads then none else s.executor;
  caller = dropped;
}

-- The executor that takes the place of none.
unfoldable pub renewed : ℕ → Option Pool → Option Pool
renewed threads none = some (record { width = threads; pending = 0 })
renewed threads (some e) = some e

unfoldable pub start_prepare : Impl → Impl
unfolding renewed
start_prepare s = record s {
  executor = renewed s.options.worker_threads s.executor;
  caller = prepared;
}

-- The handler of an exception in `start`: of the catalog, of the executor, of the thread.
unfoldable pub start_throws : Bytes → Impl → Impl × Result
start_throws message s =
    (record s { state = stopped; network_done = true; caller = free }, failed message)

-- `start`, the section before the thread is made.
-- What `reserve` leaves: it never shrinks a vector.
unfoldable pub larger : ℕ → ℕ → ℕ
larger a b = if leb b a then a else b

unfoldable pub start_launch : Impl → Impl × Result
unfolding is_starting larger
start_launch s =
    if not (is_starting s.state) || s.final_shutdown
    then (
      record s { state = stopped; caller = free },
      failed (codes "HTTP start was stopped before binding"),
    )
    else (
      record s {
        capacity =
            larger s.capacity (s.options.worker_threads + s.options.max_queued_connections + 1);
        network_done = false;
        caller = launching;
      },
      pending,
    )

unfoldable pub start_spawn : Impl → Impl
start_spawn s = record s { thread = setup; caller = waiting }

-- `start`, the end of its wait.
unfoldable pub start_wakes : Impl → Impl × Result
unfolding is_running is_stopped
start_wakes s = elim s.state [
  | running ↦ (record s { caller = free }, succeeded)
  | stopped ↦ (
    record s { caller = free },
    failed (elim s.error [ [] ↦ codes "HTTP startup was interrupted" | c ∷ cs ↦ c ∷ cs ]),
  )
  | _ ↦ (s, pending)
]

-- `stop` with `control` held, up to the join, and behind it.
unfoldable pub stop_control : (ℕ → Bool) → ℕ → Impl → Impl
unfolding request_stop
stop_control active now s = record (request_stop active now s) { caller = joining }

unfoldable pub stop_joins : Impl → Impl
stop_joins s = record s { thread = absent; caller = free; finishing = s.final_shutdown }

unfoldable pub begin_shutdown : (ℕ → Bool) → ℕ → Impl → Impl
unfolding request_stop
begin_shutdown active now s = request_stop active now (record s { final_shutdown = true })

-- `finishShutdown` behind its call of `stop`: the executor is moved out, to be drained and released,
-- then the model.
unfoldable pub release_executor : Impl → Impl
release_executor s = record s { executor = none; caller = draining }

unfoldable pub release_model : Impl → Impl
release_model s = record s { model = false; caller = free }

-- What `Impl` starts as.
unfoldable pub initial : ServerOptions → Impl
initial o = record {
  state = stopped;
  final_shutdown = false;
  network_done = true;
  grace_expired = false;
  grace_deadline = 0;
  options = o;
  error = [];
  model = false;
  executor = none;
  listener = none;
  connections = [];
  capacity = 0;
  cancelled = [];
  thread = absent;
  caller = free;
  finishing = false;
}

-- `isRunning` and `pendingOperationCount`.
unfoldable pub server_runs : Impl → Bool
unfolding is_running
server_runs s = is_running s.state && not s.final_shutdown

unfoldable pub pending_operation_count : Impl → ℕ
unfolding pending_count
pending_operation_count s = pending_count s.executor
