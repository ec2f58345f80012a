-- ===== src/Lifecycle/Retention.antt =====
-- The operations that RTT did not finish, in the steps of src/server.cpp.
use rtt_http.Common.{◌≤◌, Bool, true, false, ◌≡◌, ◌⊎◌, arith, ◌==◌, Option, some}
use rtt_http.Lifecycle.{
  Impl, stopped, absent, is_over, is_running, request_stop, expire_grace, accept, admit_operation,
  finish_operation, run_throws, run_binds, forget_stop, start_handler, run_shuts, run_returns,
  run_cleans, run_ends, start_check, start_configure, start_drop, start_prepare, start_throws,
  start_launch, start_spawn, start_wakes, stop_control, stop_joins, begin_shutdown,
  release_executor, release_model, is_stopped, is_starting, is_stopping,
}
use rtt_http.Lifecycle.{
  Pool, stop_listener, pending_count, width_differs, larger, renewed, start_check,
}
use rtt_http.Common.{◌<◌, suc}
use rtt_http.Lifecycle.{pending_operation_count}
use rtt_http.Lifecycle.Invariant.{
  IsSound, together, of_width, settled, emptied, is_dropped, Reachable-IsSound,
}
use rtt_http.Lifecycle.Steps.{
  Step, asks, forbids, expires, accepts, admits, finishes, binds, fails_setup, fails_listening,
  returns_early, starts, quits, breaks, returns, cleans, ends, checks, configures, drops, prepares,
  launches, spawns, throws_configured, throws_dropped, throws_prepared, throws_launching, wakes,
  controls, joins, releases, forgets, Reachable, Steps, here, after, Reachable-Steps,
}

unfoldable pub same_width : Option Pool → Option Pool → Bool
same_width (some d) (some e) = d.width == e.width
same_width _ _ = false

-- One step keeps the executor, with all of its operations but one at most; or it is the step of a
-- final shutdown, with the network thread joined.
abbrev pub Kept : Impl → Impl → Type 0
Kept s t =
    ((same_width s.executor t.executor ≡ true)
      × (pending_count s.executor ≤ suc (pending_count t.executor)))
    ⊎ ((s.final_shutdown ≡ true) × (s.state ≡ stopped) × (s.thread ≡ absent))

step-Kept :
    {openssl : Bool} {s t : Impl}
    → Step openssl s t
    → IsSound s
    → 0 < pending_count s.executor
    → Kept s t
step-Kept (asks s active now) h p =
    unfold request_stop is_stopped is_stopping stop_listener same_width pending_count of_width
      emptied is_dropped together settled in
    ground arith
step-Kept (forbids s active now) h p =
    unfold begin_shutdown request_stop is_stopped is_stopping stop_listener same_width pending_count
      of_width emptied is_dropped together settled in
    ground arith
step-Kept (expires s now) h p =
    unfold expire_grace is_stopping same_width pending_count of_width emptied is_dropped together
      settled in
    ground arith
step-Kept (accepts s closed c) h p =
    unfold accept is_running same_width pending_count of_width emptied is_dropped together
      settled in
    ground arith
step-Kept (admits s) h p =
    unfold admit_operation is_running same_width pending_count of_width emptied is_dropped together
      settled in
    ground arith
step-Kept (finishes s) h p =
    unfold finish_operation same_width pending_count of_width emptied is_dropped together settled in
    ground arith
step-Kept (binds s e0) h p =
    unfold run_binds is_starting same_width pending_count of_width emptied is_dropped together
      settled in
    ground arith
step-Kept (fails_setup s active now m e0) h p =
    unfold run_throws request_stop is_stopped is_stopping stop_listener same_width pending_count
      of_width emptied is_dropped together settled in
    ground arith
step-Kept (fails_listening s active now m e0) h p =
    unfold run_throws request_stop is_stopped is_stopping stop_listener same_width pending_count
      of_width emptied is_dropped together settled in
    ground arith
step-Kept (returns_early s b e0) h p =
    unfold run_returns same_width pending_count of_width emptied is_dropped together settled in
    ground arith
step-Kept (starts s e0) h p =
    unfold forget_stop start_handler is_starting stop_listener same_width pending_count of_width
      emptied is_dropped together settled in
    ground arith
step-Kept (quits s active now e0 e1) h p =
    unfold run_shuts request_stop is_stopped stop_listener is_stopping same_width pending_count
      of_width emptied is_dropped together settled in
    ground arith
step-Kept (breaks s active now e0) h p =
    unfold run_shuts request_stop is_stopped stop_listener is_stopping same_width pending_count
      of_width emptied is_dropped together settled in
    ground arith
step-Kept (returns s b e0) h p =
    unfold run_returns same_width pending_count of_width emptied is_dropped together settled in
    ground arith
step-Kept (cleans s e0) h p =
    unfold run_cleans same_width pending_count of_width emptied is_dropped together settled in
    ground arith
step-Kept (ends s e0) h p =
    unfold run_ends same_width pending_count of_width emptied is_dropped together settled in
    ground arith
step-Kept (checks s e0) h p =
    unfold start_check is_running is_stopped same_width pending_count of_width emptied is_dropped
      together settled in
    ground arith
step-Kept (configures s o e0 e1) h p =
    unfold start_configure pending_count width_differs is_over same_width of_width emptied
      is_dropped together settled in
    ground arith
step-Kept (drops s e0) h p =
    unfold start_drop width_differs same_width pending_count of_width emptied is_dropped together
      settled in
    ground arith
step-Kept (prepares s e0) h p =
    unfold start_prepare renewed same_width pending_count of_width emptied is_dropped together
      settled in
    ground arith
step-Kept (launches s e0) h p =
    unfold start_launch is_starting larger same_width pending_count of_width emptied is_dropped
      together settled in
    ground arith
step-Kept (spawns s e0) h p =
    unfold start_spawn same_width pending_count of_width emptied is_dropped together settled in
    ground arith
step-Kept (throws_configured s m e0) h p =
    unfold start_throws same_width pending_count of_width emptied is_dropped together settled in
    ground arith
step-Kept (throws_dropped s m e0) h p =
    unfold start_throws same_width pending_count of_width emptied is_dropped together settled in
    ground arith
step-Kept (throws_prepared s m e0) h p =
    unfold start_throws same_width pending_count of_width emptied is_dropped together settled in
    ground arith
step-Kept (throws_launching s m e0) h p =
    unfold start_throws same_width pending_count of_width emptied is_dropped together settled in
    ground arith
step-Kept (wakes s e0) h p =
    unfold start_wakes same_width pending_count of_width emptied is_dropped together settled in
    ground arith
step-Kept (controls s active now e0) h p =
    unfold stop_control request_stop is_stopped is_stopping stop_listener same_width pending_count
      of_width emptied is_dropped together settled in
    ground arith
step-Kept (joins s e0 e1) h p =
    unfold stop_joins is_over same_width pending_count of_width emptied is_dropped together
      settled in
    ground arith
step-Kept (releases s e0 e1) h p =
    unfold release_executor same_width pending_count of_width emptied is_dropped together settled in
    ground arith
step-Kept (forgets s e0) h p =
    unfold release_model same_width pending_count of_width emptied is_dropped together settled in
    ground arith

-- What a step leaves of a final shutdown.
abbrev pub Final : Impl → Impl → Type 0
Final s t = (t.final_shutdown ≡ true) × (pending_count t.executor ≤ pending_count s.executor)

step-Final : {openssl : Bool} {s t : Impl} → Step openssl s t → s.final_shutdown ≡ true → Final s t
step-Final (asks s active now) f =
    unfold request_stop is_stopped is_stopping stop_listener pending_count in ground arith
step-Final (forbids s active now) f =
    unfold begin_shutdown request_stop is_stopped is_stopping stop_listener pending_count in
    ground arith
step-Final (expires s now) f = unfold expire_grace is_stopping pending_count in ground arith
step-Final (accepts s closed c) f = unfold accept is_running pending_count in ground arith
step-Final (admits s) f = unfold admit_operation is_running pending_count in ground arith
step-Final (finishes s) f = unfold finish_operation pending_count in ground arith
step-Final (binds s e0) f = unfold run_binds is_starting pending_count in ground arith
step-Final (fails_setup s active now m e0) f =
    unfold run_throws request_stop is_stopped is_stopping stop_listener pending_count in
    ground arith
step-Final (fails_listening s active now m e0) f =
    unfold run_throws request_stop is_stopped is_stopping stop_listener pending_count in
    ground arith
step-Final (returns_early s b e0) f = unfold run_returns pending_count in ground arith
step-Final (starts s e0) f =
    unfold forget_stop start_handler is_starting stop_listener pending_count in ground arith
step-Final (quits s active now e0 e1) f =
    unfold run_shuts request_stop is_stopped stop_listener is_stopping pending_count in ground arith
step-Final (breaks s active now e0) f =
    unfold run_shuts request_stop is_stopped stop_listener is_stopping pending_count in ground arith
step-Final (returns s b e0) f = unfold run_returns pending_count in ground arith
step-Final (cleans s e0) f = unfold run_cleans pending_count in ground arith
step-Final (ends s e0) f = unfold run_ends pending_count in ground arith
step-Final (checks s e0) f = unfold start_check is_running is_stopped pending_count in ground arith
step-Final (configures s o e0 e1) f =
    unfold start_configure pending_count width_differs is_over in ground arith
step-Final (drops s e0) f = unfold start_drop width_differs pending_count in ground arith
step-Final (prepares s e0) f = unfold start_prepare renewed pending_count in ground arith
step-Final (launches s e0) f = unfold start_launch is_starting larger pending_count in ground arith
step-Final (spawns s e0) f = unfold start_spawn pending_count in ground arith
step-Final (throws_configured s m e0) f = unfold start_throws pending_count in ground arith
step-Final (throws_dropped s m e0) f = unfold start_throws pending_count in ground arith
step-Final (throws_prepared s m e0) f = unfold start_throws pending_count in ground arith
step-Final (throws_launching s m e0) f = unfold start_throws pending_count in ground arith
step-Final (wakes s e0) f = unfold start_wakes pending_count in ground arith
step-Final (controls s active now e0) f =
    unfold stop_control request_stop is_stopped is_stopping stop_listener pending_count in
    ground arith
step-Final (joins s e0 e1) f = unfold stop_joins is_over pending_count in ground arith
step-Final (releases s e0 e1) f = unfold release_executor pending_count in ground arith
step-Final (forgets s e0) f = unfold release_model pending_count in ground arith

-- Every step of the server from a reachable state with unfinished operations keeps the executor,
-- its width and all of the operations but one at most, through stops, failed starts and restarts;
-- or it belongs to a final shutdown, with the server stopped and the network thread joined.
pub operations_kept :
    (openssl : Bool) (s t : Impl)
    → Reachable openssl s
    → Step openssl s t
    → 0 < pending_operation_count s
    → ((same_width s.executor t.executor ≡ true)
        × (pending_operation_count s ≤ suc (pending_operation_count t)))
      ⊎ ((s.final_shutdown ≡ true) × (s.state ≡ stopped) × (s.thread ≡ absent))
unfolding pending_operation_count
operations_kept openssl s t r st p = step-Kept st (Reachable-IsSound r) p

Steps-Final :
    {openssl : Bool} {s t : Impl} → s.final_shutdown ≡ true → Steps openssl s t → Final s t
Steps-Final f here = (f, omega arith)
Steps-Final f (after st step) =
    let (g, le) = Steps-Final f st in let (h, le') = step-Final step g in (h, omega arith)

-- Behind `beginShutdown`, whatever happens: the server never runs again, and the operations it has
-- left only become fewer.
pub shutdown_final :
    (openssl : Bool) (s t : Impl)
    → Reachable openssl s
    → s.final_shutdown ≡ true
    → Steps openssl s t
    → (t.final_shutdown ≡ true)
      × (is_running t.state ≡ false)
      × (pending_operation_count t ≤ pending_operation_count s)
unfolding pending_operation_count
shutdown_final openssl s t r f st =
    let (g, le) = Steps-Final f st in
    let h = Reachable-IsSound (Reachable-Steps r st) in ground arith
