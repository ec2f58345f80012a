-- ===== src/Executor/Tests.antt =====
-- One run of the executor of src/operation_executor.cpp: an invocation is admitted, taken, called
-- and erased.
use rtt_http.Common.{ℕ, ◌≤◌, true, false, [], ◌∷◌, ◌≡◌, refl, arith}
use rtt_http.Executor.{
  Executor, Invocation, init, admit, update, worker_turn, work_call, returned, complete, erase,
  finish_erase, drained, busy, in_finish,
}
use rtt_http.Executor.Counts.{occurrences}
use rtt_http.Executor.Steps.{
  Step, Steps, here, next, admits, pops, calls, erases, Reachable, IsUntouched,
}
use rtt_http.Executor.Phases.{view, Phase, waiting, Advance, InPhase}
use rtt_http.Executor.Life.{Step-Advance, dispatched_once, drained_complete}
use rtt_http.Executor.Drain.{can_drain}

abbrev cells : ℕ → Invocation
cells i = record {
  own_thread = false;
  admitted = 0;
  deadline = 0;
  sent = false;
  complete = false;
  status = 200;
}

abbrev offered : Executor
offered = (admit 7 2 5000 100 (init 2 cells)).0

abbrev popped : Executor
popped = record offered { queue = []; held = 7 ∷ [] }

abbrev called : Executor
called = work_call 7 (returned true) popped

abbrev erased : Executor
erased = finish_erase 7 called

cells-IsUntouched : IsUntouched cells
cells-IsUntouched = record { unsent = λ i. refl; incomplete = λ i. refl }

admission : Step 2 (init 2 cells) offered
unfolding init
admission = admits (init 2 cells) 7 5000 100 (record { unlisted = refl; undispatched = refl })

pop : Step 2 offered popped
unfolding init admit worker_turn update busy in_finish
pop = pops offered 7 popped (omega arith) refl

call : Step 2 popped called
unfolding init admit update
call = calls popped 7 (returned true) (omega arith) refl

erasure : Step 2 called erased
unfolding init admit work_call complete update
erasure = erases called 7 (omega arith) refl

run : Steps 2 offered erased
run = next (next (next here pop) call) erasure

offered-Reachable : Reachable 2 2 cells offered
offered-Reachable = next here admission

erased-Reachable : Reachable 2 2 cells erased
erased-Reachable = next (next (next (next here admission) pop) call) erasure

Step-Advance_example : (ph : Phase) × Advance waiting ph × InPhase (view popped 7) ph
Step-Advance_example =
    Step-Advance 7 waiting pop (unfold init admit update in ((refl, refl, refl, refl, refl), refl))

dispatched_once_example : occurrences 7 erased.dispatched ≤ 1
dispatched_once_example = dispatched_once 2 2 cells erased 7 cells-IsUntouched erased-Reachable

drained_complete_example :
    (occurrences 7 erased.dispatched ≡ 1) × ((erased.cells 7).complete ≡ true)
drained_complete_example =
    drained_complete 2 2 cells offered erased 7 cells-IsUntouched offered-Reachable
      (unfold init admit in omega arith) run
      (unfold drained init admit work_call finish_erase erase in refl)

can_drain_example : (t : Executor) × Steps 2 offered t × (drained t ≡ true)
can_drain_example =
    can_drain 2 2 cells offered cells-IsUntouched (omega arith) offered-Reachable
      (unfold init admit in refl)
