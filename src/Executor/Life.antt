-- ===== src/Executor/Life.antt =====
-- The life of an invocation in src/operation_executor.cpp, over whole runs.
use rtt_http.Common.{
  ℕ, ◌<◌, ◌≤◌, true, [], ◌∷◌, ◌≡◌, ◌≢◌, refl, arith, ℕ_discrete, length-append, subst,
}
use rtt_http.Executor.{
  Executor, Invocation, init, admit, worker_turn, work_call, work_send, reap_one, reap_turn,
  finish_erase, close, drained, count,
}
use rtt_http.Executor.Counts.{occurrences, length-erase-le}
use rtt_http.Executor.Steps.{
  Step, admits, pops, calls, sends, reaps, turns, erases, closes, Steps, here, next, Reachable,
  IsUntouched,
}
use rtt_http.Executor.Phases.{
  view, Phase, fresh, waiting, taken, flying, finished, gone, InPhase, Advance, Next, stay,
  same_view, admitted, popped, called, sent_off, collected, erased, admits_other, admits_self,
  pops_other, pops_self, calls_other, calls_self, sends_other, sends_self, reaps_other, reaps_self,
  erases_other, erases_self,
}

-- The step at `i` says all, if the step leaves the others alone.
advance :
    (s t : Executor) (i j : ℕ) (ph : Phase)
    → (InPhase (view s i) ph → Next t i ph)
    → (i ≢ j → view t j ≡ view s j)
    → InPhase (view s j) ph
    → Next t j ph
advance s t i j ph self others = elim (ℕ_discrete i j) [
  | yes e ↦ subst (λ k. InPhase (view s k) ph → Next t k ph) e self
  | no ne ↦ same_view s t j ph (others ne)
]

-- Every step of the executor moves an invocation at most one edge along its life: built, queued,
-- held by a worker, then completed by its call, or sent and later completed by the reaper, and
-- erased at last. No step calls or sends it again, forgets it, or completes it twice.
pub Step-Advance :
    {limit : ℕ} {s t : Executor} (j : ℕ) (ph : Phase)
    → Step limit s t
    → InPhase (view s j) ph
    → (ph' : Phase) × Advance ph ph' × InPhase (view t j) ph'
Step-Advance {limit} j ph (admits s i timeout now f) =
    advance s (admit i limit timeout now s).0 i j ph (admits_self s i limit timeout now ph f)
      (admits_other s i limit timeout now j)
Step-Advance j ph (pops s i t f e) =
    advance s t i j ph (pops_self s i t ph e) (pops_other s i t j e)
Step-Advance j ph (calls s i c p o) =
    advance s (work_call i c s) i j ph (calls_self s i c ph p) (calls_other s i c j)
Step-Advance j ph (sends s i b p o) =
    advance s (work_send i b s) i j ph (sends_self s i b ph p) (sends_other s i b j)
Step-Advance j ph (reaps s i c run f p) =
    advance s (reap_one i c s) i j ph (reaps_self s i c ph) (reaps_other s i c j)
Step-Advance j ph (erases s i p c) =
    advance s (finish_erase i s) i j ph (erases_self s i ph p c) (erases_other s i j)
Step-Advance j ph (turns s run f) =
    same_view s (reap_turn s) j ph (unfold reap_turn in ground arith)
Step-Advance j ph (closes s) = unfold close in λ h. (ph, stay ph, h)

-- A later phase.
pub data Later : Phase → Phase → Type 0 where
  same : (ph : Phase) → Later ph ph
  after : {p q r : Phase} → Later p q → Advance q r → Later p r

Steps-Later :
    {limit : ℕ} {s t : Executor} (j : ℕ) (ph : Phase)
    → Steps limit s t
    → InPhase (view s j) ph
    → (ph' : Phase) × Later ph ph' × InPhase (view t j) ph'
Steps-Later j ph here h = (ph, same ph, h)
Steps-Later j ph (next r st) h =
    let (q, l, hq) = Steps-Later j ph r h in
    let (p, a, hp) = Step-Advance j q st hq in (p, after l a, hp)

init-fresh :
    (width : ℕ) (cells : ℕ → Invocation) (i : ℕ)
    → IsUntouched cells
    → InPhase (view (init width cells) i) fresh
unfolding init
init-fresh width cells i u = ((refl, refl, refl, refl, u.incomplete i), u.unsent i)

pub Reachable-InPhase :
    {limit : ℕ} {s : Executor} (width : ℕ) (cells : ℕ → Invocation) (i : ℕ)
    → IsUntouched cells
    → Reachable limit width cells s
    → (ph : Phase) × InPhase (view s i) ph
Reachable-InPhase width cells i u r =
    let (ph, l, h) = Steps-Later i fresh r (init-fresh width cells i u) in (ph, h)

at_most_once :
    (s : Executor) (i : ℕ) (ph : Phase) → InPhase (view s i) ph → occurrences i s.dispatched ≤ 1
at_most_once s i fresh h = omega arith
at_most_once s i ph h = omega arith

-- In every reachable state each invocation was called or sent at most once: nothing is replayed,
-- whatever RTT threw or answered and however the threads interleave.
pub dispatched_once :
    (limit width : ℕ) (cells : ℕ → Invocation) (s : Executor) (i : ℕ)
    → IsUntouched cells
    → Reachable limit width cells s
    → occurrences i s.dispatched ≤ 1
dispatched_once limit width cells s i u r =
    let (ph, h) = Reachable-InPhase width cells i u r in at_most_once s i ph h

not_fresh : {p q : Phase} → Later p q → p ≢ fresh → q ≢ fresh
not_fresh (same p) ne = ne
not_fresh (after l (stay p)) ne = not_fresh l ne
not_fresh (after l admitted) ne = λ e. cc
not_fresh (after l popped) ne = λ e. cc
not_fresh (after l called) ne = λ e. cc
not_fresh (after l sent_off) ne = λ e. cc
not_fresh (after l collected) ne = λ e. cc
not_fresh (after l erased) ne = λ e. cc

pending-ne-fresh :
    (s : Executor) (i : ℕ) (ph : Phase)
    → 0 < occurrences i s.pending
    → InPhase (view s i) ph
    → ph ≢ fresh
pending-ne-fresh s i fresh p h = absurd (omega arith)
pending-ne-fresh s i waiting p h = λ e. cc
pending-ne-fresh s i taken p h = λ e. cc
pending-ne-fresh s i flying p h = λ e. cc
pending-ne-fresh s i finished p h = λ e. cc
pending-ne-fresh s i gone p h = λ e. cc

drained-pending : (s : Executor) (i : ℕ) → drained s ≡ true → occurrences i s.pending ≡ 0
unfolding drained
drained-pending s i e = ground arith

only_gone :
    (s : Executor) (i : ℕ) (ph : Phase)
    → ph ≢ fresh
    → occurrences i s.pending ≡ 0
    → InPhase (view s i) ph
    → (occurrences i s.dispatched ≡ 1) × ((s.cells i).complete ≡ true)
only_gone s i fresh ne p h = absurd (ne refl)
only_gone s i waiting ne p h = absurd (omega arith)
only_gone s i taken ne p h = absurd (omega arith)
only_gone s i flying ne p h = absurd (omega arith)
only_gone s i finished ne p h = absurd (omega arith)
only_gone s i gone ne p h = ground arith

-- When `drain` returns, every invocation that was pending at any earlier moment was called or sent
-- exactly once and is complete: the drain loses none.
pub drained_complete :
    (limit width : ℕ) (cells : ℕ → Invocation) (s t : Executor) (i : ℕ)
    → IsUntouched cells
    → Reachable limit width cells s
    → 0 < occurrences i s.pending
    → Steps limit s t
    → drained t ≡ true
    → (occurrences i t.dispatched ≡ 1) × ((t.cells i).complete ≡ true)
drained_complete limit width cells s t i u r p st d =
    let (ph, h) = Reachable-InPhase width cells i u r in
    let (ph', l, h') = Steps-Later i ph st h in
    only_gone t i ph' (not_fresh l (pending-ne-fresh s i ph p h)) (drained-pending t i d) h'

count_step : {limit : ℕ} {s t : Executor} → Step limit s t → count s ≤ limit → count t ≤ limit
unfolding count
count_step {limit} (admits s i timeout now f) h =
    unfold admit in ground (arith, length-append s.pending (i ∷ []))
count_step (pops s i t f e) h = unfold worker_turn in ground arith
count_step (calls s i c p o) h = unfold work_call in h
count_step (sends s i b p o) h = unfold work_send in h
count_step (reaps s i c run f p) h = unfold reap_one in ground arith
count_step (erases s i p c) h = unfold finish_erase in omega (arith, length-erase-le i s.pending)
count_step (turns s run f) h = unfold reap_turn in ground arith
count_step (closes s) h = unfold close in h

-- `maxPendingOperations` bounds the pending operations of every reachable state.
pub count-le-limit :
    (limit width : ℕ) (cells : ℕ → Invocation) (s : Executor)
    → Reachable limit width cells s
    → count s ≤ limit
count-le-limit limit width cells s here = unfold count init in omega arith
count-le-limit limit width cells s (next r st) =
    count_step st (count-le-limit limit width cells _ r)
