-- ===== src/Executor/Steps.antt =====
-- The interleavings of the threads of src/operation_executor.cpp, as a step relation.
use rtt_http.Common.{ℕ, ◌<◌, Bool, true, false, ◌≡◌}
use rtt_http.Executor.{
  Executor, Invocation, init, admit, takes, worker_turn, Called, work_call, work_send, Collected,
  reap_one, reap_turn, in_finish, busy, finish_erase, close,
}
use rtt_http.Executor.Counts.{occurrences}

-- An invocation that was built and not yet admitted. Each has an address of its own.
pub record IsFresh (i : ℕ) (s : Executor) : Type 0 where
  pub unlisted : occurrences i s.pending ≡ 0
  pub undispatched : occurrences i s.dispatched ≡ 0

-- `limit` is `maxPendingOperations`. The workers leave when `closing` holds and the queue is empty,
-- which it then stays, so that their leaving is no step.
pub data Step (limit : ℕ) : Executor → Executor → Type 0 where
  -- A network thread offers an invocation.
  admits :
      (s : Executor) (i timeout now : ℕ)
      → IsFresh i s
      → Step limit s (admit i limit timeout now s).0
  -- A worker that is free takes the oldest one.
  pops :
      (s : Executor) (i : ℕ) (t : Executor)
      → busy s < s.width
      → worker_turn s ≡ takes i t
      → Step limit s t
  -- A worker calls, or sends, what it took.
  calls :
      (s : Executor) (i : ℕ) (called : Called)
      → 0 < occurrences i s.held
      → (s.cells i).own_thread ≡ false
      → Step limit s (work_call i called s)
  sends :
      (s : Executor) (i : ℕ) (throws : Bool)
      → 0 < occurrences i s.held
      → (s.cells i).own_thread ≡ true
      → Step limit s (work_send i throws s)
  -- The reaper, if it has not returned and is not in `finish`, looks at a pending invocation.
  reaps :
      (s : Executor) (i : ℕ) (collected : Collected)
      → s.reaping ≡ true
      → in_finish true s.cells s.pending ≡ 0
      → 0 < occurrences i s.pending
      → Step limit s (reap_one i collected s)
  -- The reaper comes to the end of a scan.
  turns :
      (s : Executor)
      → s.reaping ≡ true
      → in_finish true s.cells s.pending ≡ 0
      → Step limit s (reap_turn s)
  -- The thread that completed an invocation erases it.
  erases :
      (s : Executor) (i : ℕ)
      → 0 < occurrences i s.pending
      → (s.cells i).complete ≡ true
      → Step limit s (finish_erase i s)
  -- `shutdown` forbids admission.
  closes : (s : Executor) → Step limit s (close s)

-- The executor starts empty, over invocations that were not touched.
pub record IsUntouched (cells : ℕ → Invocation) : Type 0 where
  pub unsent : (i : ℕ) → (cells i).sent ≡ false
  pub incomplete : (i : ℕ) → (cells i).complete ≡ false

pub data Steps (limit : ℕ) (s : Executor) : Executor → Type 0 where
  here : Steps limit s s
  next : {t u : Executor} → Steps limit s t → Step limit t u → Steps limit s u

abbrev pub Reachable : ℕ → ℕ → (ℕ → Invocation) → Executor → Type 0
Reachable limit width cells = Steps limit (init width cells)
