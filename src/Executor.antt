-- ===== src/Executor.antt =====
-- `OperationExecutor` of src/operation_executor.cpp and .hpp: the queue of admitted invocations,
-- the workers that call or send them, the reaper that collects what was sent, `finish`, and the
-- counts that `drain` waits for. A function is one critical section, or what a thread does between
-- two of them; Executor/Steps.antt has their interleavings. An `Invocation` is a cell of the heap
-- under its address, since the queue, the pending list and the threads share it by pointer. What
-- RTT answers (`call()`, `evaluate()`, `collectIfDone()`) is an argument of the step that asks.
pub mod Counts
pub mod Steps
pub mod Phases
pub mod Life
pub mod Drain
mod Tests
use rtt_http.Common.{
  ℕ, suc, ◌+◌, Bool, true, false, ◌&&◌, ◌||◌, not, Option, none, some, List, [], ◌∷◌, ◌++◌, ltb,
  leb, ◌==◌, if◌then◌else◌, length,
}

-- The fields that decide the life of an invocation. `own_thread` says that `send` is not null: the
-- operation runs on the engine of its component.
pub record Invocation : Type 0 where
  pub own_thread : Bool
  pub admitted : ℕ
  pub deadline : ℕ
  pub sent : Bool
  pub complete : Bool
  pub status : ℕ

-- The addresses that stand in `queue_` and `pending_`, `shutdown_`, and the cells. `held` are the
-- local `invocation` variables of the workers, from the pop on. `reaping` says that the reaper has
-- not returned. `dispatched` records each `call()` and `evaluate()` that was made, the last one first.
pub record Executor : Type 0 where
  pub width : ℕ
  pub queue : List ℕ
  pub pending : List ℕ
  pub closing : Bool
  pub cells : ℕ → Invocation
  pub held : List ℕ
  pub reaping : Bool
  pub dispatched : List ℕ

unfoldable pub update {ℓ} : {A : Type ℓ} → (ℕ → A) → ℕ → A → ℕ → A
update f i v j = if i == j then v else f j

-- `std::erase`.
unfoldable pub erase : ℕ → List ℕ → List ℕ
erase i [] = []
erase i (j ∷ js) = let rest = erase i js in if i == j then rest else j ∷ rest

-- `width` workers and the reaper are made.
unfoldable pub init : ℕ → (ℕ → Invocation) → Executor
init width cells = record {
  width = width;
  queue = [];
  pending = [];
  closing = false;
  cells = cells;
  held = [];
  reaping = true;
  dispatched = [];
}

-- `admit`, at the clock's time `now`.
unfoldable pub admit : ℕ → ℕ → ℕ → ℕ → Executor → Executor × Bool
unfolding update
admit invocation cap timeout now s =
    if s.closing || leb cap (length s.pending) then (s, false) else (
      record s {
        cells =
            update s.cells invocation
              (record (s.cells invocation) { admitted = now; deadline = now + timeout });
        pending = s.pending ++ invocation ∷ [];
        queue = s.queue ++ invocation ∷ [];
      },
      true,
    )

unfoldable pub count : Executor → ℕ
count s = length s.pending

-- A worker under the lock of the executor: it waits, leaves, or takes the oldest invocation.
pub data Turn : Type 0 where
  waits leaves : Turn
  takes : ℕ → Executor → Turn

unfoldable pub worker_turn : Executor → Turn
worker_turn s = elim s.queue [
  | [] ↦ if s.closing then leaves else waits
  | invocation ∷ rest ↦ takes invocation (record s { queue = rest; held = invocation ∷ s.held })
]

-- What `caller->call()` does: return, throw a `SendStatus`, throw something else.
pub data Called : Type 0 where
  returned : Bool → Called
  threw_status threw : Called

unfoldable pub call_status : Called → ℕ
call_status (returned true) = 200
call_status (returned false) = 503
call_status threw_status = 503
call_status threw = 500

-- The first critical section of `finish`.
unfoldable pub complete : ℕ → ℕ → (ℕ → Invocation) → ℕ → Invocation
unfolding update
complete invocation status cells =
    update cells invocation (record (cells invocation) { status = status; complete = true })

-- The second critical section of `finish`.
unfoldable pub finish_erase : ℕ → Executor → Executor
unfolding erase
finish_erase invocation s = record s { pending = erase invocation s.pending }

-- A worker with an invocation that runs on the caller's thread, up to the second section.
unfoldable pub work_call : ℕ → Called → Executor → Executor
unfolding complete erase call_status
work_call invocation called s = record s {
  cells = complete invocation (call_status called) s.cells;
  held = erase invocation s.held;
  dispatched = invocation ∷ s.dispatched;
}

-- A worker with an invocation that is sent: `evaluate()` returns, or throws and leaves a 500.
unfoldable pub work_send : ℕ → Bool → Executor → Executor
unfolding update erase
work_send invocation throws s =
    let cell = s.cells invocation in
    record s {
      cells =
          update s.cells invocation
            (record cell { sent = true; status = if throws then 500 else cell.status });
      held = erase invocation s.held;
      dispatched = invocation ∷ s.dispatched;
    }

-- What `collector->collectIfDone()` does.
pub data Collected : Type 0 where
  send_not_ready send_success send_failure collect_failure collect_threw : Collected

-- The test of the reaper, and the status with which it calls `finish`, if it does.
unfoldable pub collectable : Invocation → Bool
collectable c = c.sent && not c.complete

unfoldable pub reap_status : ℕ → Collected → Option ℕ
reap_status status send_not_ready = none
reap_status status collect_threw = some 500
reap_status status send_success = some (if status == 500 then 500 else 200)
reap_status status send_failure = some (if status == 500 then 500 else 503)
reap_status status collect_failure = some (if status == 500 then 500 else 503)

-- The reaper at one candidate, up to the second section of `finish`.
unfoldable pub reap_one : ℕ → Collected → Executor → Executor
unfolding collectable reap_status complete
reap_one candidate collected s =
    let cell = s.cells candidate in
    if collectable cell
    then elim (reap_status cell.status collected) [
      | none ↦ s
      | some status ↦ record s { cells = complete candidate status s.cells }
    ]
    else s

-- The reaper behind a scan: it returns, or waits and scans again.
unfoldable pub reap_turn : Executor → Executor
reap_turn s = if s.closing then record s { reaping = false } else s

-- The invocations whose `finish` stands between its two sections, and so the threads that are in it:
-- with `own` those of the reaper, without it those of the workers.
unfoldable pub in_finish : Bool → (ℕ → Invocation) → List ℕ → ℕ
in_finish own cells [] = 0
in_finish own cells (i ∷ is) =
    let rest = in_finish own cells is in
    if (cells i).complete && (if (cells i).own_thread then own else not own) then suc rest else rest

-- The workers that are not in the wait for the queue.
unfoldable pub busy : Executor → ℕ
unfolding in_finish
busy s = length s.held + in_finish false s.cells s.pending

-- `drain` returns when this holds.
unfoldable pub drained : Executor → Bool
drained s = elim s.pending [ [] ↦ true | _ ∷ _ ↦ false ]

unfoldable pub close : Executor → Executor
close s = record s { closing = true }
