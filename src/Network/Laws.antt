-- ===== src/Network/Laws.antt =====
-- The interleavings of `NetworkPool` of src/server.cpp, and its tasks.
use rtt_http.Common.{
  false, ◌⊎◌, inl, ℕ, ◌+◌, ◌≤◌, true, List, [], ◌∷◌, if◌then◌else◌, length, length-append, ◌≡◌,
  refl, arith,
}
use rtt_http.Executor.Counts.{occurrences, occurrences-append}
use rtt_http.Network.{NetworkPool, make_pool, enqueue, shutdown, work, takes}

-- The steps, with the tasks that were accepted, the last one first.
pub data Step : NetworkPool → List ℕ → NetworkPool → List ℕ → Type 0 where
  enqueues :
      (p : NetworkPool) (accepted : List ℕ) (task : ℕ)
      → Step p accepted
          (enqueue task p).0
          (if (enqueue task p).1 then task ∷ accepted else accepted)
  closes : (p : NetworkPool) (accepted : List ℕ) → Step p accepted (shutdown p) accepted
  works :
      (p : NetworkPool) (accepted : List ℕ) (task : ℕ) (q : NetworkPool)
      → work p ≡ takes task q
      → Step p accepted q accepted

pub data Reachable (cap : ℕ) : NetworkPool → List ℕ → Type 0 where
  made : Reachable cap (make_pool cap) []
  next :
      {p q : NetworkPool} {accepted more : List ℕ}
      → Reachable cap p accepted
      → Step p accepted q more
      → Reachable cap q more

abbrev pub Accounted : ℕ → ℕ → NetworkPool → List ℕ → Type 0
Accounted cap task p accepted =
    (occurrences task accepted
      ≡ occurrences task p.queue + occurrences task p.started + occurrences task p.destroyed)
    × (length p.queue ≤ p.cap)
    × (p.cap ≡ cap)
    × ((p.closing ≡ false) ⊎ (p.queue ≡ []))

step-Accounted :
    (cap task : ℕ) {p q : NetworkPool} {accepted more : List ℕ}
    → Step p accepted q more
    → Accounted cap task p accepted
    → Accounted cap task q more
step-Accounted cap task (enqueues p accepted t) h =
    unfold enqueue in
    ground (arith, occurrences-append task p.queue (t ∷ []), length-append p.queue (t ∷ []))
step-Accounted cap task (closes p accepted) h =
    unfold shutdown in ground (arith, occurrences-append task p.queue p.destroyed)
step-Accounted cap task (works p accepted t q e) h = unfold work in ground arith

-- In every reachable state a task that was accepted stands in the queue, was started, or was
-- destroyed by the shutdown, as often as it was accepted: none is lost or run twice. The queue holds
-- at most `cap` tasks, and is empty from the shutdown on.
pub tasks_accounted :
    (cap task : ℕ) (p : NetworkPool) (accepted : List ℕ)
    → Reachable cap p accepted
    → (occurrences task accepted
        ≡ occurrences task p.queue + occurrences task p.started + occurrences task p.destroyed)
      × (length p.queue ≤ p.cap)
      × (p.cap ≡ cap)
      × ((p.closing ≡ false) ⊎ (p.queue ≡ []))
tasks_accounted cap task p accepted made = unfold make_pool in (refl, omega arith, refl, inl refl)
tasks_accounted cap task p accepted (next r st) =
    step-Accounted cap task st (tasks_accounted cap task _ _ r)

-- Behind the shutdown no task is accepted or started.
pub closed_pool_idle :
    (p q : NetworkPool) (accepted more : List ℕ)
    → p.closing ≡ true
    → Step p accepted q more
    → (q.closing ≡ true) × (q.started ≡ p.started) × (more ≡ accepted)
closed_pool_idle _ _ _ _ c (enqueues p accepted t) = unfold enqueue in ground arith
closed_pool_idle _ _ _ _ c (closes p accepted) = unfold shutdown in ground arith
closed_pool_idle _ _ _ _ c (works p accepted t q e) = unfold work in ground arith
