-- ===== src/Lifecycle/Stop.antt =====
-- `stop` of src/server.cpp, and the steps of the network thread that it waits for.
use rtt_http.Common.{ℕ, Bool, true, false, some, ◌≡◌, ◌⊎◌, inl, inr, arith, refl}
use rtt_http.Lifecycle.{
  Impl, stopped, absent, serving, shutting, returned, cleaned, free, joining, is_over, is_stopping,
  request_stop, run_shuts, run_returns, run_cleans, run_ends, stop_joins,
}
use rtt_http.Lifecycle.Invariant.{IsSound, together, told, published, Reachable-IsSound}
use rtt_http.Lifecycle.Steps.{Step, quits, returns, cleans, ends, joins, Reachable, next}

-- The steps of a thread that is told to stop: the accept loop ends for no other reason than `stop()`.
pub data Teardown (openssl : Bool) : Impl → Impl → Type 0 where
  told_to_quit :
      (s : Impl) (active : ℕ → Bool) (now : ℕ)
      → s.thread ≡ serving
      → s.listener ≡ some true
      → Teardown openssl s (run_shuts active now s)
  told_to_return : (s : Impl) → s.thread ≡ shutting → Teardown openssl s (run_returns true s)
  cleaning : (s : Impl) → s.thread ≡ returned → Teardown openssl s (run_cleans s)
  ending : (s : Impl) → s.thread ≡ cleaned → Teardown openssl s (run_ends s)
  joined :
      (s : Impl) → s.caller ≡ joining → is_over s.thread ≡ true → Teardown openssl s (stop_joins s)

pub data Teardowns (openssl : Bool) : Impl → Impl → Type 0 where
  done : (s : Impl) → Teardowns openssl s s
  go : {s t u : Impl} → Teardown openssl s t → Teardowns openssl t u → Teardowns openssl s u

Teardown-Step : {openssl : Bool} {s t : Impl} → Teardown openssl s t → Step openssl s t
Teardown-Step (told_to_quit s active now e l) = quits s active now e l
Teardown-Step (told_to_return s e) = returns s true e
Teardown-Step (cleaning s e) = cleans s e
Teardown-Step (ending s e) = ends s e
Teardown-Step (joined s c o) = joins s c o

-- The steps of a teardown are steps of the server.
pub Teardowns-Reachable :
    {openssl : Bool} {s t : Impl}
    → Reachable openssl s
    → Teardowns openssl s t
    → Reachable openssl t
Teardowns-Reachable r (done s) = r
Teardowns-Reachable r (go st more) = Teardowns-Reachable (next r (Teardown-Step st)) more

abbrev CanStop : Bool → Impl → Type 0
CanStop openssl s =
    (t : Impl) × Teardowns openssl s t
    × ((t.state ≡ stopped) × (t.thread ≡ absent) × (t.caller ≡ free))

before :
    {openssl : Bool} {s t : Impl} → Teardown openssl s t → CanStop openssl t → CanStop openssl s
before st (u, more, h) = (u, go st more, h)

from_over :
    (openssl : Bool) (s : Impl)
    → Reachable openssl s
    → s.caller ≡ joining
    → is_over s.thread ≡ true
    → CanStop openssl s
from_over openssl s r c o =
    let h = Reachable-IsSound r in
    (
      stop_joins s,
      go (joined s c o) (done (stop_joins s)),
      unfold stop_joins is_over together in ground arith,
    )

from_cleaned :
    (openssl : Bool) (s : Impl)
    → Reachable openssl s
    → s.caller ≡ joining
    → s.thread ≡ cleaned
    → CanStop openssl s
from_cleaned openssl s r c e = before (ending s e) (
    from_over openssl (run_ends s) (next r (ends s e)) (unfold run_ends in c)
      (unfold run_ends is_over in refl))

from_returned :
    (openssl : Bool) (s : Impl)
    → Reachable openssl s
    → s.caller ≡ joining
    → s.thread ≡ returned
    → CanStop openssl s
from_returned openssl s r c e = before (cleaning s e) (
    from_cleaned openssl (run_cleans s) (next r (cleans s e)) (unfold run_cleans in c)
      (unfold run_cleans in refl))

from_shutting :
    (openssl : Bool) (s : Impl)
    → Reachable openssl s
    → s.caller ≡ joining
    → s.thread ≡ shutting
    → CanStop openssl s
from_shutting openssl s r c e = before (told_to_return s e) (
    from_returned openssl (run_returns true s) (next r (returns s true e)) (unfold run_returns in c)
      (unfold run_returns in refl))

serving-told :
    (s : Impl) → IsSound s → s.caller ≡ joining → s.thread ≡ serving → s.listener ≡ some true
unfolding together told published is_stopping
serving-told s h c e = ground arith

none_active : ℕ → Bool
none_active c = false

from_serving :
    (openssl : Bool) (s : Impl)
    → Reachable openssl s
    → s.caller ≡ joining
    → s.thread ≡ serving
    → CanStop openssl s
from_serving openssl s r c e =
    let l = serving-told s (Reachable-IsSound r) c e in
    before (told_to_quit s none_active 0 e l) (
      from_shutting openssl (run_shuts none_active 0 s) (next r (quits s none_active 0 e l))
        (unfold run_shuts request_stop in ground arith) (unfold run_shuts in refl))

joining-thread :
    (s : Impl)
    → IsSound s
    → s.caller ≡ joining
    → (is_over s.thread ≡ true)
      ⊎ (s.thread ≡ serving)
      ⊎ (s.thread ≡ shutting)
      ⊎ (s.thread ≡ returned)
      ⊎ (s.thread ≡ cleaned)
unfolding together is_over
joining-thread s h c = ground arith

-- From every reachable state in which `stop` waits for the network thread there are steps after
-- which `stop` is through and the server is stopped: no interleaving leaves it stuck. They are the
-- steps of the network thread and the join of `stop`, and the accept loop ends just because `stop()`
-- was called on the listener.
pub can_stop :
    (openssl : Bool) (s : Impl)
    → Reachable openssl s
    → s.caller ≡ joining
    → (t : Impl) × Teardowns openssl s t
      × ((t.state ≡ stopped) × (t.thread ≡ absent) × (t.caller ≡ free))
can_stop openssl s r c = elim (joining-thread s (Reachable-IsSound r) c) [
  | inl o ↦ from_over openssl s r c o
  | inr (inl e) ↦ from_serving openssl s r c e
  | inr (inr (inl e)) ↦ from_shutting openssl s r c e
  | inr (inr (inr (inl e))) ↦ from_returned openssl s r c e
  | inr (inr (inr (inr e))) ↦ from_cleaned openssl s r c e
]
