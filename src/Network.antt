-- ===== src/Network.antt =====
-- `NetworkPool` of src/server.cpp: the bounded queue of connection tasks that the network threads
-- take from. A function is one critical section. `started` are the tasks that a thread took, and
-- `destroyed` those that `queue_.clear()` destroyed, which closes their sockets; both are records
-- of what happened, the last one first, and `announced` counts the calls of `onShutdown_`. A task is known by an address.
pub mod Laws
mod Tests
use rtt_http.Common.{
  ℕ, suc, Bool, true, false, ◌||◌, List, [], ◌∷◌, ◌++◌, leb, if◌then◌else◌, length,
}

pub record NetworkPool : Type 0 where
  pub cap : ℕ
  pub closing : Bool
  pub queue : List ℕ
  pub started : List ℕ
  pub destroyed : List ℕ
  pub announced : ℕ

unfoldable pub make_pool : ℕ → NetworkPool
make_pool cap = record {
  cap = cap;
  closing = false;
  queue = [];
  started = [];
  destroyed = [];
  announced = 0;
}

unfoldable pub enqueue : ℕ → NetworkPool → NetworkPool × Bool
enqueue task p =
    if p.closing || leb p.cap (length p.queue)
    then (p, false)
    else (record p { queue = p.queue ++ task ∷ [] }, true)

-- `shutdown`: the call of `onShutdown_`, which Lifecycle.antt has as `run_shuts`, and the critical
-- section.
unfoldable pub shutdown : NetworkPool → NetworkPool
shutdown p = record p {
  closing = true;
  destroyed = p.queue ++ p.destroyed;
  queue = [];
  announced = suc p.announced;
}

-- A thread under the lock: it waits, leaves, or takes the oldest task.
pub data Turn : Type 0 where
  waits leaves : Turn
  takes : ℕ → NetworkPool → Turn

unfoldable pub work : NetworkPool → Turn
work p = if p.closing then leaves else elim p.queue [
  | [] ↦ waits
  | task ∷ rest ↦ takes task (record p { queue = rest; started = task ∷ p.started })
]
