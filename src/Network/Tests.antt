-- ===== src/Network/Tests.antt =====
-- A pool for two tasks: it takes one, and the shutdown destroys the other.
use rtt_http.Common.{false, ◌⊎◌, ℕ, ◌+◌, ◌≤◌, List, [], ◌∷◌, ◌≡◌, length, refl}
use rtt_http.Executor.Counts.{occurrences}
use rtt_http.Network.{NetworkPool, make_pool, enqueue, shutdown, work}
use rtt_http.Network.Laws.{enqueues, closes, works, Reachable, made, next, tasks_accounted}

abbrev full : NetworkPool
full = (enqueue 8 (enqueue 7 (make_pool 2)).0).0

abbrev taken : NetworkPool
taken = record full { queue = 8 ∷ []; started = 7 ∷ [] }

abbrev closed : NetworkPool
closed = shutdown taken

abbrev accepted_tasks : List ℕ
accepted_tasks = 8 ∷ 7 ∷ []

closed-Reachable : Reachable 2 closed (8 ∷ 7 ∷ [])
unfolding make_pool enqueue work
closed-Reachable =
    next
      (next
        (next (next made (enqueues (make_pool 2) [] 7))
          (enqueues (enqueue 7 (make_pool 2)).0 (7 ∷ []) 8))
        (works full (8 ∷ 7 ∷ []) 7 taken refl))
      (closes taken (8 ∷ 7 ∷ []))

tasks_accounted_example :
    (occurrences 8 (8 ∷ 7 ∷ [])
      ≡ occurrences 8 closed.queue + occurrences 8 closed.started + occurrences 8 closed.destroyed)
    × (length closed.queue ≤ closed.cap)
    × (closed.cap ≡ 2)
    × ((closed.closing ≡ false) ⊎ (closed.queue ≡ []))
tasks_accounted_example = tasks_accounted 2 8 closed (8 ∷ 7 ∷ []) closed-Reachable
