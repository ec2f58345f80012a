-- ===== src/Lifecycle/Tests.antt =====
-- One life of `Server::Impl`: it starts, admits an operation, and is shut down.
use rtt_http.Common.{ℕ, suc, ◌≤◌, ◌⊎◌, Bool, true, false, none, [], ◌≡◌, refl, arith, length}
use rtt_http.Options.{default_options, validate_options}
use rtt_http.Lifecycle.{
  Impl, stopped, absent, serving, free, initial, start_check, start_configure, start_drop,
  start_prepare, start_launch, start_spawn, run_binds, forget_stop, start_handler, run_shuts,
  start_wakes, admit_operation, begin_shutdown, stop_control, run_returns, run_cleans, run_ends,
  stop_joins, is_running, is_stopping, is_starting, is_stopped, larger, renewed, width_differs,
  pending_count, request_stop, stop_listener, is_over, pending_operation_count,
}
use rtt_http.Lifecycle.Invariant.{of_width}
use rtt_http.Lifecycle.Steps.{
  Step, here, after, Reachable, built, next, checks, configures, drops, prepares, launches, spawns,
  binds, starts, wakes, admits, forbids, controls, quits, returns, cleans, ends,
}
use rtt_http.Lifecycle.Guarantees.{running-IsEquipped, pending-le-max, stop_joins-stopped}
use rtt_http.Lifecycle.Retention.{same_width, operations_kept, shutdown_final}
use rtt_http.Lifecycle.Stop.{Teardowns, can_stop}

abbrev idle : ℕ → Bool
idle c = false

abbrev checked_once : Impl
checked_once = (start_check (initial default_options)).0

checked_once-step : Step true (initial default_options) checked_once
unfolding initial
checked_once-step = checks (initial default_options) refl

checked_once-Reachable : Reachable true checked_once
checked_once-Reachable = next built checked_once-step

abbrev set_up : Impl
set_up = (start_configure true default_options checked_once).0

set_up-step : Step true checked_once set_up
unfolding initial start_check is_running is_stopped is_over
set_up-step = configures checked_once default_options refl refl

set_up-Reachable : Reachable true set_up
set_up-Reachable = next checked_once-Reachable set_up-step

abbrev dropped_none : Impl
dropped_none = start_drop set_up

dropped_none-step : Step true set_up dropped_none
unfolding initial start_check is_running is_stopped is_over start_configure pending_count
    width_differs validate_options
dropped_none-step = drops set_up refl

dropped_none-Reachable : Reachable true dropped_none
dropped_none-Reachable = next set_up-Reachable dropped_none-step

abbrev equipped : Impl
equipped = start_prepare dropped_none

equipped-step : Step true dropped_none equipped
unfolding initial start_check is_running is_stopped is_over start_configure pending_count
    width_differs validate_options start_drop
equipped-step = prepares dropped_none refl

equipped-Reachable : Reachable true equipped
equipped-Reachable = next dropped_none-Reachable equipped-step

abbrev ready : Impl
ready = (start_launch equipped).0

ready-step : Step true equipped ready
unfolding initial start_check is_running is_stopped is_over start_configure pending_count
    width_differs validate_options start_drop start_prepare renewed
ready-step = launches equipped refl

ready-Reachable : Reachable true ready
ready-Reachable = next equipped-Reachable ready-step

abbrev spawned : Impl
spawned = start_spawn ready

spawned-step : Step true ready spawned
unfolding initial start_check is_running is_stopped is_over start_configure pending_count
    width_differs validate_options start_drop start_prepare renewed start_launch is_starting larger
spawned-step = spawns ready refl

spawned-Reachable : Reachable true spawned
spawned-Reachable = next ready-Reachable spawned-step

abbrev bound : Impl
bound = run_binds spawned

bound-step : Step true spawned bound
unfolding initial start_check is_running is_stopped is_over start_configure pending_count
    width_differs validate_options start_drop start_prepare renewed start_launch is_starting larger
    start_spawn
bound-step = binds spawned refl

bound-Reachable : Reachable true bound
bound-Reachable = next spawned-Reachable bound-step

abbrev accepting : Impl
accepting = start_handler (record bound { listener = forget_stop bound.listener })

accepting-step : Step true bound accepting
unfolding initial start_check is_running is_stopped is_over start_configure pending_count
    width_differs validate_options start_drop start_prepare renewed start_launch is_starting larger
    start_spawn run_binds
accepting-step = starts bound refl

accepting-Reachable : Reachable true accepting
accepting-Reachable = next bound-Reachable accepting-step

abbrev open_for_all : Impl
open_for_all = (start_wakes accepting).0

open_for_all-step : Step true accepting open_for_all
unfolding initial start_check is_running is_stopped is_over start_configure pending_count
    width_differs validate_options start_drop start_prepare renewed start_launch is_starting larger
    start_spawn run_binds forget_stop start_handler
open_for_all-step = wakes accepting refl

open_for_all-Reachable : Reachable true open_for_all
open_for_all-Reachable = next accepting-Reachable open_for_all-step

abbrev busy : Impl
busy = admit_operation open_for_all

busy-step : Step true open_for_all busy
busy-step = admits open_for_all

busy-Reachable : Reachable true busy
busy-Reachable = next open_for_all-Reachable busy-step

abbrev closing : Impl
closing = begin_shutdown idle 0 busy

closing-step : Step true busy closing
closing-step = forbids busy idle 0

closing-Reachable : Reachable true closing
closing-Reachable = next busy-Reachable closing-step

abbrev awaited : Impl
awaited = stop_control idle 0 closing

awaited-step : Step true closing awaited
unfolding initial start_check is_running is_stopped is_over start_configure pending_count
    width_differs validate_options start_drop start_prepare renewed start_launch is_starting larger
    start_spawn run_binds forget_stop start_handler start_wakes admit_operation begin_shutdown
    request_stop is_stopping stop_listener
awaited-step = controls closing idle 0 refl

awaited-Reachable : Reachable true awaited
awaited-Reachable = next closing-Reachable awaited-step

abbrev shut : Impl
shut = run_shuts idle 0 awaited

shut-step : Step true awaited shut
unfolding initial start_check is_running is_stopped is_over start_configure pending_count
    width_differs validate_options start_drop start_prepare renewed start_launch is_starting larger
    start_spawn run_binds forget_stop start_handler start_wakes admit_operation begin_shutdown
    request_stop is_stopping stop_listener stop_control
shut-step = quits awaited idle 0 refl refl

shut-Reachable : Reachable true shut
shut-Reachable = next awaited-Reachable shut-step

abbrev over : Impl
over = run_returns true shut

over-step : Step true shut over
unfolding initial start_check is_running is_stopped is_over start_configure pending_count
    width_differs validate_options start_drop start_prepare renewed start_launch is_starting larger
    start_spawn run_binds forget_stop start_handler start_wakes admit_operation begin_shutdown
    request_stop is_stopping stop_listener stop_control run_shuts
over-step = returns shut true refl

over-Reachable : Reachable true over
over-Reachable = next shut-Reachable over-step

abbrev clean : Impl
clean = run_cleans over

clean-step : Step true over clean
unfolding initial start_check is_running is_stopped is_over start_configure pending_count
    width_differs validate_options start_drop start_prepare renewed start_launch is_starting larger
    start_spawn run_binds forget_stop start_handler start_wakes admit_operation begin_shutdown
    request_stop is_stopping stop_listener stop_control run_shuts run_returns
clean-step = cleans over refl

clean-Reachable : Reachable true clean
clean-Reachable = next over-Reachable clean-step

abbrev finished : Impl
finished = run_ends clean

finished-step : Step true clean finished
unfolding initial start_check is_running is_stopped is_over start_configure pending_count
    width_differs validate_options start_drop start_prepare renewed start_launch is_starting larger
    start_spawn run_binds forget_stop start_handler start_wakes admit_operation begin_shutdown
    request_stop is_stopping stop_listener stop_control run_shuts run_returns run_cleans
finished-step = ends clean refl

finished-Reachable : Reachable true finished
finished-Reachable = next clean-Reachable finished-step

running-IsEquipped_example :
    (open_for_all.final_shutdown ≡ false)
    × (open_for_all.thread ≡ serving)
    × (open_for_all.model ≡ true)
    × (of_width open_for_all.options.worker_threads open_for_all.executor ≡ true)
running-IsEquipped_example = running-IsEquipped true open_for_all open_for_all-Reachable (
    unfold initial start_check is_running is_stopped is_over start_configure pending_count
      width_differs validate_options start_drop start_prepare renewed start_launch is_starting
      larger start_spawn run_binds forget_stop start_handler start_wakes admit_operation
      begin_shutdown request_stop is_stopping stop_listener stop_control run_shuts run_returns
      run_cleans run_ends in
    refl)

pending-le-max_example :
    (pending_operation_count busy ≤ busy.options.max_pending_operations)
    × (length busy.connections ≤ busy.capacity)
pending-le-max_example = pending-le-max true busy busy-Reachable

stop_joins-stopped_example :
    ((stop_joins finished).state ≡ stopped)
    × ((stop_joins finished).listener ≡ none)
    × ((stop_joins finished).connections ≡ [])
stop_joins-stopped_example =
    stop_joins-stopped true finished finished-Reachable
      (unfold initial start_check is_running is_stopped is_over start_configure pending_count
          width_differs validate_options start_drop start_prepare renewed start_launch is_starting
          larger start_spawn run_binds forget_stop start_handler start_wakes admit_operation
          begin_shutdown request_stop is_stopping stop_listener stop_control run_shuts run_returns
          run_cleans run_ends in
        refl)
      (unfold initial start_check is_running is_stopped is_over start_configure pending_count
          width_differs validate_options start_drop start_prepare renewed start_launch is_starting
          larger start_spawn run_binds forget_stop start_handler start_wakes admit_operation
          begin_shutdown request_stop is_stopping stop_listener stop_control run_shuts run_returns
          run_cleans run_ends in
        refl)

operations_kept_example :
    ((same_width busy.executor closing.executor ≡ true)
      × (pending_operation_count busy ≤ suc (pending_operation_count closing)))
    ⊎ ((busy.final_shutdown ≡ true) × (busy.state ≡ stopped) × (busy.thread ≡ absent))
operations_kept_example = operations_kept true busy closing busy-Reachable closing-step (
    unfold initial start_check is_running is_stopped is_over start_configure pending_count
      width_differs validate_options start_drop start_prepare renewed start_launch is_starting
      larger start_spawn run_binds forget_stop start_handler start_wakes admit_operation
      begin_shutdown request_stop is_stopping stop_listener stop_control run_shuts run_returns
      run_cleans run_ends pending_operation_count in
    omega arith)

shutdown_final_example :
    (finished.final_shutdown ≡ true)
    × (is_running finished.state ≡ false)
    × (pending_operation_count finished ≤ pending_operation_count closing)
shutdown_final_example =
    shutdown_final true closing finished closing-Reachable
      (unfold initial start_check is_running is_stopped is_over start_configure pending_count
          width_differs validate_options start_drop start_prepare renewed start_launch is_starting
          larger start_spawn run_binds forget_stop start_handler start_wakes admit_operation
          begin_shutdown request_stop is_stopping stop_listener stop_control run_shuts run_returns
          run_cleans run_ends in
        refl)
      (after (after (after (after (after here awaited-step) shut-step) over-step) clean-step)
        finished-step)

can_stop_example :
    (t : Impl) × Teardowns true awaited t
    × ((t.state ≡ stopped) × (t.thread ≡ absent) × (t.caller ≡ free))
can_stop_example = can_stop true awaited awaited-Reachable (
    unfold initial start_check is_running is_stopped is_over start_configure pending_count
      width_differs validate_options start_drop start_prepare renewed start_launch is_starting
      larger start_spawn run_binds forget_stop start_handler start_wakes admit_operation
      begin_shutdown request_stop is_stopping stop_listener stop_control run_shuts run_returns
      run_cleans run_ends in
    refl)
