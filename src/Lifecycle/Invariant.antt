-- ===== src/Lifecycle/Invariant.antt =====
-- The invariant of `Server::Impl` of src/server.cpp.
use rtt_http.Common.{
  ℕ, ◌≤◌, Bool, true, false, List, [], ◌∷◌, ◌≡◌, arith, ◌==◌, ◌&&◌, ◌||◌, not, length,
  length-append, Option, none, some,
}
use rtt_http.Options.{ServerOptions, default_options}
use rtt_http.Lifecycle.{
  Impl, State, stopped, starting, running, stopping, Thread, absent, setup, listening, serving,
  shutting, returned, cleaned, ended, Caller, free, checked, configured, dropped, prepared,
  launching, waiting, joining, draining, is_over, is_running, request_stop, expire_grace, accept,
  admit_operation, finish_operation, run_throws, run_binds, forget_stop, start_handler, run_shuts,
  run_returns, run_cleans, run_ends, start_check, start_configure, start_drop, start_prepare,
  start_throws, start_launch, start_spawn, start_wakes, stop_control, stop_joins, begin_shutdown,
  release_executor, release_model, initial, is_stopped, is_starting, is_stopping,
}
use rtt_http.Lifecycle.{
  Pool, stop_listener, drop_if, pending_count, width_differs, larger, renewed, start_check,
}
use rtt_http.Lifecycle.Steps.{
  Step, asks, forbids, expires, accepts, admits, finishes, binds, fails_setup, fails_listening,
  returns_early, starts, quits, breaks, returns, cleans, ends, checks, configures, drops, prepares,
  launches, spawns, throws_configured, throws_dropped, throws_prepared, throws_launching, wakes,
  controls, joins, releases, forgets, Reachable, built, next,
}

-- Where the state, the network thread and the holder of `control` may stand together.
unfoldable pub together : State → Thread → Caller → Bool
together stopped absent free = true
together stopped absent checked = true
together stopped absent joining = true
together stopped absent draining = true
together stopped ended free = true
together stopped ended checked = true
together stopped ended joining = true
together stopped ended draining = true
together stopped ended waiting = true
together starting absent configured = true
together starting absent dropped = true
together starting absent prepared = true
together starting absent launching = true
together stopping absent configured = true
together stopping absent dropped = true
together stopping absent prepared = true
together stopping absent launching = true
together starting setup waiting = true
together stopping setup waiting = true
together starting listening waiting = true
together stopping listening waiting = true
together starting serving waiting = true
together running serving waiting = true
together stopping serving waiting = true
together running serving free = true
together stopping serving free = true
together stopping serving joining = true
together stopping shutting waiting = true
together stopping shutting free = true
together stopping shutting joining = true
together starting returned waiting = true
together stopping returned waiting = true
together stopping returned free = true
together stopping returned joining = true
together starting cleaned waiting = true
together stopping cleaned waiting = true
together stopping cleaned free = true
together stopping cleaned joining = true
together _ _ _ = false

-- The network thread has work, or is about to be made or awaited.
unfoldable pub needs : Thread → Caller → Bool
needs setup c = true
needs listening c = true
needs serving c = true
needs shutting c = true
needs returned c = true
needs cleaned c = true
needs _ prepared = true
needs _ launching = true
needs _ _ = false

unfoldable pub of_width : ℕ → Option Pool → Bool
of_width threads none = false
of_width threads (some e) = e.width == threads

unfoldable pub may_listen : Thread → Option Bool → Bool
may_listen _ none = true
may_listen listening (some b) = true
may_listen serving (some b) = true
may_listen shutting (some b) = true
may_listen returned (some b) = true
may_listen _ (some b) = false

-- `final_shutdown` and no `start` at work.
unfoldable pub settled : Thread → Caller → Bool
settled absent free = true
settled absent joining = true
settled absent draining = true
settled _ _ = false

abbrev pub Placed : Impl → Type 0
Placed s = together s.state s.thread s.caller ≡ true

abbrev pub Halted : Impl → Type 0
Halted s = not (s.final_shutdown && is_running s.state) ≡ true

abbrev pub Listed : Impl → Type 0
Listed s = may_listen s.thread s.listener ≡ true

abbrev pub Equipped : Impl → Type 0
Equipped s =
    (not (needs s.thread s.caller) || (s.model && of_width s.options.worker_threads s.executor))
    ≡ true

-- Behind the section that moves the old executor out.
unfoldable pub emptied : ℕ → Option Pool → Bool
emptied threads none = true
emptied threads (some e) = e.width == threads

unfoldable pub is_dropped : Caller → Bool
is_dropped dropped = true
is_dropped _ = false

abbrev pub Emptied : Impl → Type 0
Emptied s =
    (not (is_dropped s.caller) || (s.model && emptied s.options.worker_threads s.executor)) ≡ true

abbrev pub Retained : Impl → Type 0
Retained s = (pending_count s.executor == 0 || of_width s.options.worker_threads s.executor) ≡ true

abbrev pub Settled : Impl → Type 0
Settled s = (not s.finishing || (s.final_shutdown && settled s.thread s.caller)) ≡ true

abbrev pub Bounded : Impl → Type 0
Bounded s = pending_count s.executor ≤ s.options.max_pending_operations

abbrev pub Roomy : Impl → Type 0
Roomy s = length s.connections ≤ s.capacity

-- The network thread serves nobody.
unfoldable pub quiet : Thread → Bool
quiet listening = false
quiet serving = false
quiet shutting = false
quiet returned = false
quiet _ = true

unfoldable pub vacant : List ℕ → Bool
vacant [] = true
vacant (c ∷ cs) = false

abbrev pub Cleared : Impl → Type 0
Cleared s = (not (quiet s.thread) || vacant s.connections) ≡ true

-- `stop()` was called on the listener, if there is one.
unfoldable pub told : Option Bool → Bool
told none = true
told (some b) = b

abbrev pub Told : Impl → Type 0
Told s = (not (is_stopping s.state) || told s.listener) ≡ true

-- The listener is published before `listen_after_bind` is called.
unfoldable pub published : Thread → Option Bool → Bool
published listening none = false
published serving none = false
published _ _ = true

abbrev pub Published : Impl → Type 0
Published s = published s.thread s.listener ≡ true

abbrev pub IsSound : Impl → Type 0
IsSound s =
    Placed s
    × Halted s
    × Listed s
    × Equipped s
    × Emptied s
    × Retained s
    × Settled s
    × Bounded s
    × Roomy s
    × Cleared s
    × Told s
    × Published s

length-drop_if : (p : ℕ → Bool) (cs : List ℕ) → length (drop_if p cs) ≤ length cs
unfolding drop_if
length-drop_if p [] = omega arith
length-drop_if p (c ∷ cs) = ground (arith, length-drop_if p cs)

-- No step leaves the sound states.
pub step-IsSound : {openssl : Bool} {s t : Impl} → Step openssl s t → IsSound s → IsSound t
step-IsSound (asks s active now) h0 =
    unfold request_stop is_stopped is_stopping stop_listener together quiet vacant told drop_if
      needs emptied is_dropped of_width may_listen settled published is_running pending_count in
    ground arith
step-IsSound (forbids s active now) h0 =
    unfold begin_shutdown request_stop is_stopped is_stopping stop_listener together quiet vacant
      told drop_if needs emptied is_dropped of_width may_listen settled published is_running
      pending_count in
    ground arith
step-IsSound (expires s now) h0 =
    unfold expire_grace is_stopping together quiet vacant told drop_if needs emptied is_dropped
      of_width may_listen settled published is_running pending_count in
    ground arith
step-IsSound (accepts s closed c) h0 =
    unfold accept is_running together quiet vacant told is_stopping drop_if needs emptied is_dropped
      of_width may_listen settled published pending_count in
    ground (
      arith,
      length-drop_if closed s.connections,
      length-append (drop_if closed s.connections) (c ∷ []),
    )
step-IsSound (admits s) h0 =
    unfold admit_operation is_running together quiet vacant told is_stopping drop_if needs emptied
      is_dropped of_width may_listen settled published pending_count in
    ground arith
step-IsSound (finishes s) h0 =
    unfold finish_operation together quiet vacant told is_stopping drop_if needs emptied is_dropped
      of_width may_listen settled published is_running pending_count in
    ground arith
step-IsSound (binds s e0) h0 =
    unfold run_binds is_starting together quiet vacant told is_stopping drop_if needs emptied
      is_dropped of_width may_listen settled published is_running pending_count in
    ground arith
step-IsSound (fails_setup s active now m e0) h0 =
    unfold run_throws request_stop is_stopped is_stopping stop_listener together quiet vacant told
      drop_if needs emptied is_dropped of_width may_listen settled published is_running
      pending_count in
    ground arith
step-IsSound (fails_listening s active now m e0) h0 =
    unfold run_throws request_stop is_stopped is_stopping stop_listener together quiet vacant told
      drop_if needs emptied is_dropped of_width may_listen settled published is_running
      pending_count in
    ground arith
step-IsSound (returns_early s b e0) h0 =
    unfold run_returns together quiet vacant told is_stopping drop_if needs emptied is_dropped
      of_width may_listen settled published is_running pending_count in
    ground arith
step-IsSound (starts s e0) h0 =
    unfold forget_stop start_handler is_starting stop_listener together quiet vacant told
      is_stopping drop_if needs emptied is_dropped of_width may_listen settled published is_running
      pending_count in
    ground arith
step-IsSound (quits s active now e0 e1) h0 =
    unfold run_shuts request_stop is_stopped stop_listener together quiet vacant told is_stopping
      drop_if needs emptied is_dropped of_width may_listen settled published is_running
      pending_count in
    ground arith
step-IsSound (breaks s active now e0) h0 =
    unfold run_shuts request_stop is_stopped stop_listener together quiet vacant told is_stopping
      drop_if needs emptied is_dropped of_width may_listen settled published is_running
      pending_count in
    ground arith
step-IsSound (returns s b e0) h0 =
    unfold run_returns together quiet vacant told is_stopping drop_if needs emptied is_dropped
      of_width may_listen settled published is_running pending_count in
    ground arith
step-IsSound (cleans s e0) h0 =
    unfold run_cleans together quiet vacant told is_stopping drop_if needs emptied is_dropped
      of_width may_listen settled published is_running pending_count in
    ground arith
step-IsSound (ends s e0) h0 =
    unfold run_ends together quiet vacant told is_stopping drop_if needs emptied is_dropped of_width
      may_listen settled published is_running pending_count in
    ground arith
step-IsSound (checks s e0) h0 =
    unfold start_check is_running is_stopped together quiet vacant told is_stopping drop_if needs
      emptied is_dropped of_width may_listen settled published pending_count in
    ground arith
step-IsSound (configures s o e0 e1) h0 =
    unfold start_configure pending_count width_differs is_over together quiet vacant told
      is_stopping drop_if needs emptied is_dropped of_width may_listen settled published
      is_running in
    ground arith
step-IsSound (drops s e0) h0 =
    unfold start_drop width_differs together quiet vacant told is_stopping drop_if needs emptied
      is_dropped of_width may_listen settled published is_running pending_count in
    ground arith
step-IsSound (prepares s e0) h0 =
    unfold start_prepare renewed together quiet vacant told is_stopping drop_if needs emptied
      is_dropped of_width may_listen settled published is_running pending_count in
    ground arith
step-IsSound (launches s e0) h0 =
    unfold start_launch is_starting larger together quiet vacant told is_stopping drop_if needs
      emptied is_dropped of_width may_listen settled published is_running pending_count in
    ground arith
step-IsSound (spawns s e0) h0 =
    unfold start_spawn together quiet vacant told is_stopping drop_if needs emptied is_dropped
      of_width may_listen settled published is_running pending_count in
    ground arith
step-IsSound (throws_configured s m e0) h0 =
    unfold start_throws together quiet vacant told is_stopping drop_if needs emptied is_dropped
      of_width may_listen settled published is_running pending_count in
    ground arith
step-IsSound (throws_dropped s m e0) h0 =
    unfold start_throws together quiet vacant told is_stopping drop_if needs emptied is_dropped
      of_width may_listen settled published is_running pending_count in
    ground arith
step-IsSound (throws_prepared s m e0) h0 =
    unfold start_throws together quiet vacant told is_stopping drop_if needs emptied is_dropped
      of_width may_listen settled published is_running pending_count in
    ground arith
step-IsSound (throws_launching s m e0) h0 =
    unfold start_throws together quiet vacant told is_stopping drop_if needs emptied is_dropped
      of_width may_listen settled published is_running pending_count in
    ground arith
step-IsSound (wakes s e0) h0 =
    unfold start_wakes together quiet vacant told is_stopping drop_if needs emptied is_dropped
      of_width may_listen settled published is_running pending_count in
    ground arith
step-IsSound (controls s active now e0) h0 =
    unfold stop_control request_stop is_stopped is_stopping stop_listener together quiet vacant told
      drop_if needs emptied is_dropped of_width may_listen settled published is_running
      pending_count in
    ground arith
step-IsSound (joins s e0 e1) h0 =
    unfold stop_joins is_over together quiet vacant told is_stopping drop_if needs emptied
      is_dropped of_width may_listen settled published is_running pending_count in
    ground arith
step-IsSound (releases s e0 e1) h0 =
    unfold release_executor together quiet vacant told is_stopping drop_if needs emptied is_dropped
      of_width may_listen settled published is_running pending_count in
    ground arith
step-IsSound (forgets s e0) h0 =
    unfold release_model together quiet vacant told is_stopping drop_if needs emptied is_dropped
      of_width may_listen settled published is_running pending_count in
    ground arith

initial-IsSound : (o : ServerOptions) → IsSound (initial o)
unfolding initial together is_running may_listen needs is_dropped pending_count quiet vacant
    published is_stopping told
initial-IsSound o = ground arith

-- Every state that a server can reach is sound.
pub Reachable-IsSound : {openssl : Bool} {s : Impl} → Reachable openssl s → IsSound s
Reachable-IsSound built = initial-IsSound default_options
Reachable-IsSound (next r st) = step-IsSound st (Reachable-IsSound r)
