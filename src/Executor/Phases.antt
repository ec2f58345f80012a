-- ===== src/Executor/Phases.antt =====
-- The phases of an invocation's life in src/operation_executor.cpp, and what each step does to an
-- address: its own one, and any other.
use rtt_http.Common.{
  ℕ, ◌<◌, Bool, true, false, [], ◌∷◌, ◌||◌, ◌≡◌, ◌≢◌, arith, inl, inr, leb, length, subst, sym,
  Bool-cases, Option-cases,
}
use rtt_http.Executor.{
  Executor, admit, takes, worker_turn, Called, work_call, work_send, Collected, reap_one,
  finish_erase, update, complete, collectable, reap_status,
}
use rtt_http.Executor.Counts.{occurrences, occurrences-append, occurrences-erase}
use rtt_http.Executor.Steps.{IsFresh}

-- Where an address stands, and the flags of its cell.
pub record View : Type 0 where
  pub queued : ℕ
  pub held : ℕ
  pub pending : ℕ
  pub dispatched : ℕ
  pub sent : Bool
  pub complete : Bool

abbrev pub view : Executor → ℕ → View
view s i = record {
  queued = occurrences i s.queue;
  held = occurrences i s.held;
  pending = occurrences i s.pending;
  dispatched = occurrences i s.dispatched;
  sent = (s.cells i).sent;
  complete = (s.cells i).complete;
}

pub data Phase : Type 0 where
  fresh waiting taken flying finished gone : Phase

abbrev pub Located : View → ℕ → ℕ → ℕ → ℕ → Bool → Type 0
Located v queued held pending dispatched complete =
    (v.queued ≡ queued)
    × (v.held ≡ held)
    × (v.pending ≡ pending)
    × (v.dispatched ≡ dispatched)
    × (v.complete ≡ complete)

abbrev pub InPhase : View → Phase → Type 0
InPhase v fresh = Located v 0 0 0 0 false × (v.sent ≡ false)
InPhase v waiting = Located v 1 0 1 0 false × (v.sent ≡ false)
InPhase v taken = Located v 0 1 1 0 false × (v.sent ≡ false)
InPhase v flying = Located v 0 0 1 1 false × (v.sent ≡ true)
InPhase v finished = Located v 0 0 1 1 true
InPhase v gone = Located v 0 0 0 1 true

-- What one step may do to one invocation.
pub data Advance : Phase → Phase → Type 0 where
  stay : (ph : Phase) → Advance ph ph
  admitted : Advance fresh waiting
  popped : Advance waiting taken
  called : Advance taken finished
  sent_off : Advance taken flying
  collected : Advance flying finished
  erased : Advance finished gone

abbrev pub Next : Executor → ℕ → Phase → Type 0
Next t j ph = (ph' : Phase) × Advance ph ph' × InPhase (view t j) ph'

pub same_view :
    (s t : Executor) (j : ℕ) (ph : Phase)
    → view t j ≡ view s j
    → InPhase (view s j) ph
    → Next t j ph
same_view s t j ph e h = (ph, stay ph, subst (λ v. InPhase v ph) (sym e) h)

pub admits_other :
    (s : Executor) (i limit timeout now j : ℕ)
    → i ≢ j
    → view (admit i limit timeout now s).0 j ≡ view s j
unfolding admit update
admits_other s i limit timeout now j ne =
    ground (arith, occurrences-append j s.queue (i ∷ []), occurrences-append j s.pending (i ∷ []))

pub admits_self :
    (s : Executor) (i limit timeout now : ℕ) (ph : Phase)
    → IsFresh i s
    → InPhase (view s i) ph
    → Next (admit i limit timeout now s).0 i ph
unfolding admit update
admits_self s i limit timeout now fresh f h =
    elim (Bool-cases (s.closing || leb limit (length s.pending))) [
      | inl refused ↦ (fresh, stay fresh, ground arith)
      | inr granted ↦ (
        waiting,
        admitted,
        ground
            (arith, occurrences-append i s.queue (i ∷ []), occurrences-append i s.pending (i ∷ [])),
      )
    ]
admits_self s i limit timeout now ph f h = absurd (ground arith)

pub pops_other :
    (s : Executor) (i : ℕ) (t : Executor) (j : ℕ)
    → worker_turn s ≡ takes i t
    → i ≢ j
    → view t j ≡ view s j
unfolding worker_turn
pops_other s i t j e ne = ground arith

pub pops_self :
    (s : Executor) (i : ℕ) (t : Executor) (ph : Phase)
    → worker_turn s ≡ takes i t
    → InPhase (view s i) ph
    → Next t i ph
unfolding worker_turn
pops_self s i t waiting e h = (taken, popped, ground arith)
pops_self s i t ph e h = absurd (ground arith)

pub calls_other :
    (s : Executor) (i : ℕ) (c : Called) (j : ℕ) → i ≢ j → view (work_call i c s) j ≡ view s j
unfolding work_call complete update
calls_other s i c j ne = ground (arith, occurrences-erase j i s.held)

pub calls_self :
    (s : Executor) (i : ℕ) (c : Called) (ph : Phase)
    → 0 < occurrences i s.held
    → InPhase (view s i) ph
    → Next (work_call i c s) i ph
unfolding work_call complete update
calls_self s i c taken p h = (finished, called, ground (arith, occurrences-erase i i s.held))
calls_self s i c ph p h = absurd (ground arith)

pub sends_other :
    (s : Executor) (i : ℕ) (b : Bool) (j : ℕ) → i ≢ j → view (work_send i b s) j ≡ view s j
unfolding work_send update
sends_other s i b j ne = ground (arith, occurrences-erase j i s.held)

pub sends_self :
    (s : Executor) (i : ℕ) (b : Bool) (ph : Phase)
    → 0 < occurrences i s.held
    → InPhase (view s i) ph
    → Next (work_send i b s) i ph
unfolding work_send update
sends_self s i b taken p h = (flying, sent_off, ground (arith, occurrences-erase i i s.held))
sends_self s i b ph p h = absurd (ground arith)

pub reaps_other :
    (s : Executor) (i : ℕ) (c : Collected) (j : ℕ) → i ≢ j → view (reap_one i c s) j ≡ view s j
unfolding reap_one complete update
reaps_other s i c j ne = ground arith

-- The reaper completes what was sent, and touches nothing else.
pub reaps_self :
    (s : Executor) (i : ℕ) (c : Collected) (ph : Phase)
    → InPhase (view s i) ph
    → Next (reap_one i c s) i ph
unfolding reap_one complete update collectable
reaps_self s i c flying h = elim (Option-cases (reap_status (s.cells i).status c)) [
  | inl e ↦ (flying, stay flying, ground arith)
  | inr (status, e) ↦ (finished, collected, ground arith)
]
reaps_self s i c ph h = same_view s (reap_one i c s) i ph (ground arith) h

pub erases_other : (s : Executor) (i j : ℕ) → i ≢ j → view (finish_erase i s) j ≡ view s j
unfolding finish_erase
erases_other s i j ne = ground (arith, occurrences-erase j i s.pending)

pub erases_self :
    (s : Executor) (i : ℕ) (ph : Phase)
    → 0 < occurrences i s.pending
    → (s.cells i).complete ≡ true
    → InPhase (view s i) ph
    → Next (finish_erase i s) i ph
unfolding finish_erase
erases_self s i finished p c h = (gone, erased, ground (arith, occurrences-erase i i s.pending))
erases_self s i ph p c h = absurd (ground arith)
