-- ===== src/Lifecycle/Guarantees.antt =====
-- What follows from the invariant of `Server::Impl` of src/server.cpp in one state.
use rtt_http.Common.{◌≤◌, Bool, true, false, [], ◌≡◌, ◌⊎◌, arith, length, none, some}
use rtt_http.Lifecycle.{
  Impl, stopped, serving, joining, is_over, is_running, stop_joins, is_stopping,
}
use rtt_http.Lifecycle.{pending_operation_count}
use rtt_http.Lifecycle.Invariant.{
  together, needs, of_width, may_listen, quiet, vacant, told, Reachable-IsSound,
}
use rtt_http.Lifecycle.Steps.{Reachable}

-- In every reachable state that serves, no final shutdown has begun, the network thread is in the
-- accept loop and its task queue is not shut down, the object model is there, and so is an executor
-- of the configured width.
pub running-IsEquipped :
    (openssl : Bool) (s : Impl)
    → Reachable openssl s
    → is_running s.state ≡ true
    → (s.final_shutdown ≡ false)
      × (s.thread ≡ serving)
      × (s.model ≡ true)
      × (of_width s.options.worker_threads s.executor ≡ true)
unfolding together needs is_running
running-IsEquipped openssl s r run = let h = Reachable-IsSound r in ground arith

-- In every reachable state the pending operations are within the `maxPendingOperations` of the
-- options in force, and the connections within the space that was reserved.
pub pending-le-max :
    (openssl : Bool) (s : Impl)
    → Reachable openssl s
    → (pending_operation_count s ≤ s.options.max_pending_operations)
      × (length s.connections ≤ s.capacity)
unfolding pending_operation_count
pending-le-max openssl s r = let h = Reachable-IsSound r in ground arith

-- A listener that is published while the server is stopping was told to stop, whether the request
-- came before or after the bind.
pub stopping-told :
    (openssl : Bool) (s : Impl)
    → Reachable openssl s
    → is_stopping s.state ≡ true
    → (s.listener ≡ none) ⊎ (s.listener ≡ some true)
unfolding told
stopping-told openssl s r e = let h = Reachable-IsSound r in ground arith

-- When the join of `stop` returns, the server is stopped, nothing listens, and no connection is
-- left.
pub stop_joins-stopped :
    (openssl : Bool) (s : Impl)
    → Reachable openssl s
    → s.caller ≡ joining
    → is_over s.thread ≡ true
    → ((stop_joins s).state ≡ stopped)
      × ((stop_joins s).listener ≡ none)
      × ((stop_joins s).connections ≡ [])
unfolding stop_joins together is_over may_listen quiet vacant
stop_joins-stopped openssl s r e o = let h = Reachable-IsSound r in ground arith
