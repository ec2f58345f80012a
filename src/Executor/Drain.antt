-- ===== src/Executor/Drain.antt =====
-- `drain` of src/operation_executor.cpp: a measure of the work that is left, and the steps that
-- lower it.
use rtt_http.Common.{
  ℕ, zero, suc, ◌+◌, ◌*◌, ◌<◌, ◌≤◌, Bool, true, false, List, [], ◌∷◌, ◌==◌, if◌then◌else◌, ◌≡◌,
  refl, arith, ◌⊎◌, inl, inr, length, Bool-cases, ap, ◌∙◌,
}
use rtt_http.Executor.{
  Executor, Invocation, worker_turn, returned, work_call, work_send, send_success, reap_one,
  finish_erase, update, erase, complete, collectable, reap_status, drained, in_finish, busy, init,
  admit, reap_turn, close,
}
use rtt_http.Executor.Counts.{occurrences, length-erase-lt}
use rtt_http.Executor.Steps.{
  Step, admits, pops, calls, sends, reaps, turns, erases, closes, Steps, here, next, Reachable,
  IsUntouched,
}
use rtt_http.Executor.Phases.{view, Phase, flying, finished, InPhase}
use rtt_http.Executor.Life.{Reachable-InPhase}

unfinished : (ℕ → Invocation) → List ℕ → ℕ
unfinished cells [] = 0
unfinished cells (i ∷ is) = (if (cells i).complete then 0 else 1) + unfinished cells is

measure : Executor → ℕ
measure s = 2 * length s.queue + length s.held + unfinished s.cells s.pending + length s.pending

unfinished-complete-le :
    (i status : ℕ) (cells : ℕ → Invocation) (is : List ℕ)
    → unfinished (complete i status cells) is ≤ unfinished cells is
unfolding unfinished complete update
unfinished-complete-le i status cells [] = omega arith
unfinished-complete-le i status cells (j ∷ js) =
    ground (arith, unfinished-complete-le i status cells js)

unfinished-complete-lt :
    (i status : ℕ) (cells : ℕ → Invocation) (is : List ℕ)
    → 0 < occurrences i is
    → (cells i).complete ≡ false
    → unfinished (complete i status cells) is < unfinished cells is
unfolding unfinished complete update
unfinished-complete-lt i status cells [] h e = omega arith
unfinished-complete-lt i status cells (j ∷ js) h e =
    ground
      (arith, unfinished-complete-le i status cells js, unfinished-complete-lt i status cells js)

unfinished-erase-le :
    (i : ℕ) (cells : ℕ → Invocation) (is : List ℕ)
    → unfinished cells (erase i is) ≤ unfinished cells is
unfolding unfinished erase
unfinished-erase-le i cells [] = omega arith
unfinished-erase-le i cells (j ∷ js) = ground (arith, unfinished-erase-le i cells js)

unfinished-send :
    (i : ℕ) (b : Bool) (s : Executor) (is : List ℕ)
    → unfinished (work_send i b s).cells is ≡ unfinished s.cells is
unfolding unfinished work_send update
unfinished-send i b s [] = refl
unfinished-send i b s (j ∷ js) = ground (arith, unfinished-send i b s js)

-- A step that some thread can make, with a smaller measure behind it, and the reaper still there.
abbrev Progress : ℕ → Executor → Type 0
Progress limit s =
    (t : Executor) × Step limit s t
    × (measure t < measure s)
    × (t.width ≡ s.width)
    × (t.reaping ≡ s.reaping)

-- A list with an invocation that is complete, or no thread in `finish`.
in_finish_cases :
    (cells : ℕ → Invocation) (is : List ℕ)
    → ((i : ℕ) × (0 < occurrences i is) × ((cells i).complete ≡ true))
      ⊎ ((in_finish true cells is ≡ 0) × (in_finish false cells is ≡ 0))
unfolding in_finish
in_finish_cases cells [] = inr (refl, refl)
in_finish_cases cells (i ∷ is) = elim (Bool-cases (cells i).complete) [
  | inl c ↦ inl (i, ground arith, c)
  | inr c ↦ elim (in_finish_cases cells is) [
    | inl (j, p, d) ↦ inl (j, ground (arith, p), d)
    | inr (e, f) ↦ inr (ground (arith, c, e), ground (arith, c, f))
  ]
]

erase-Progress :
    (limit : ℕ) (s : Executor) (i : ℕ)
    → 0 < occurrences i s.pending
    → (s.cells i).complete ≡ true
    → Progress limit s
unfolding measure
erase-Progress limit s i p c = (
  finish_erase i s,
  erases s i p c,
  unfold finish_erase in
      omega (arith, length-erase-lt i s.pending p, unfinished-erase-le i s.cells s.pending),
  unfold finish_erase in refl,
  unfold finish_erase in refl,
)

pop-Progress :
    (limit : ℕ) (s : Executor) (i : ℕ) (rest : List ℕ)
    → s.queue ≡ i ∷ rest
    → busy s < s.width
    → Progress limit s
unfolding measure
pop-Progress limit s i rest e free =
    let t : Executor = record s { queue = rest; held = i ∷ s.held } in
    (
      t,
      pops s i t free (unfold worker_turn in ground arith),
      omega (arith, ap length e),
      refl,
      refl,
    )

held-Progress : (limit : ℕ) (s : Executor) (i : ℕ) → 0 < occurrences i s.held → Progress limit s
unfolding measure
held-Progress limit s i p = elim (Bool-cases (s.cells i).own_thread) [
  | inl own ↦ (
    work_send i false s,
    sends s i false p own,
    unfold work_send in
        omega (arith, length-erase-lt i s.held p, unfinished-send i false s s.pending),
    unfold work_send in refl,
    unfold work_send in refl,
  )
  | inr client ↦ (
    work_call i (returned true) s,
    calls s i (returned true) p client,
    unfold work_call in
        omega (arith, length-erase-lt i s.held p, unfinished-complete-le i 200 s.cells s.pending),
    unfold work_call in refl,
    unfold work_call in refl,
  )
]

reap_one_success :
    (s : Executor) (i : ℕ)
    → (s.cells i).sent ≡ true
    → (s.cells i).complete ≡ false
    → reap_one i send_success s
      ≡ record s { cells = complete i (if (s.cells i).status == 500 then 500 else 200) s.cells }
unfolding reap_one collectable reap_status
reap_one_success s i sent incomplete = ground arith

pending-Progress :
    (limit : ℕ) (s : Executor) (i : ℕ) (ph : Phase)
    → s.reaping ≡ true
    → in_finish true s.cells s.pending ≡ 0
    → s.queue ≡ []
    → s.held ≡ []
    → 0 < occurrences i s.pending
    → InPhase (view s i) ph
    → Progress limit s
unfolding measure
pending-Progress limit s i flying run idle q w p h = (
  reap_one i send_success s,
  reaps s i send_success run idle p,
  rw (reap_one_success s i h.1 h.0.4) (
      omega (
        arith,
        unfinished-complete-lt i (if (s.cells i).status == 500 then 500 else 200) s.cells s.pending
            p h.0.4,
      )),
  rw (reap_one_success s i h.1 h.0.4) refl,
  rw (reap_one_success s i h.1 h.0.4) refl,
)
pending-Progress limit s i finished run idle q w p h = erase-Progress limit s i p (ground arith)
pending-Progress limit s i ph run idle q w p h = absurd (ground arith)

List-cases : (xs : List ℕ) → (xs ≡ []) ⊎ ((x : ℕ) × (rest : List ℕ) × (xs ≡ x ∷ rest))
List-cases [] = inl refl
List-cases (x ∷ rest) = inr (x, rest, refl)

first : (xs : List ℕ) (i : ℕ) (rest : List ℕ) → xs ≡ i ∷ rest → 0 < occurrences i xs
first xs i rest e = rw e (ground arith)

progress :
    (limit width : ℕ) (cells : ℕ → Invocation) (s : Executor) (i : ℕ) (rest : List ℕ)
    → IsUntouched cells
    → Reachable limit width cells s
    → 0 < s.width
    → s.reaping ≡ true
    → s.pending ≡ i ∷ rest
    → Progress limit s
progress limit width cells s i rest u r wide run e = elim (List-cases s.held) [
  | inr (j, more, w) ↦ held-Progress limit s j (first s.held j more w)
  | inl w ↦ elim (in_finish_cases s.cells s.pending) [
    | inl (j, p, c) ↦ erase-Progress limit s j p c
    | inr (idle, free) ↦ elim (List-cases s.queue) [
      | inr (j, more, q) ↦ pop-Progress limit s j more q (unfold busy in omega (arith, ap length w))
      | inl q ↦
          let (ph, h) = Reachable-InPhase width cells i u r in
          pending-Progress limit s i ph run idle q w (first s.pending i rest e) h
    ]
  ]
]

Steps-trans : {limit : ℕ} {s t u : Executor} → Steps limit s t → Steps limit t u → Steps limit s u
Steps-trans r here = r
Steps-trans r (next q st) = next (Steps-trans r q) st

drain_from :
    (fuel limit width : ℕ) (cells : ℕ → Invocation) (s : Executor)
    → IsUntouched cells
    → Reachable limit width cells s
    → 0 < s.width
    → s.reaping ≡ true
    → measure s < fuel
    → (t : Executor) × Steps limit s t × (drained t ≡ true)
drain_from zero limit width cells s u r wide run f = absurd (omega arith)
drain_from (suc fuel) limit width cells s u r wide run f = elim (List-cases s.pending) [
  | inl e ↦ (s, here, unfold drained in ground arith)
  | inr (i, rest, e) ↦
      let (t, st, less, wd, rp) = progress limit width cells s i rest u r wide run e in
      let (v, more, d) =
        drain_from fuel limit width cells t u (next r st) (rw wd wide) (rp ∙ run) (omega arith) in
      (v, Steps-trans (next here st) more, d)
]

Step-width : {limit : ℕ} {s t : Executor} → Step limit s t → t.width ≡ s.width
Step-width (admits s i timeout now f) = unfold admit in ground arith
Step-width (pops s i t f e) = unfold worker_turn in ground arith
Step-width (calls s i c p o) = unfold work_call in refl
Step-width (sends s i b p o) = unfold work_send in refl
Step-width (reaps s i c run f p) = unfold reap_one in ground arith
Step-width (turns s run f) = unfold reap_turn in ground arith
Step-width (erases s i p c) = unfold finish_erase in refl
Step-width (closes s) = unfold close in refl

Reachable-width :
    {limit : ℕ} (width : ℕ) (cells : ℕ → Invocation) {s : Executor}
    → Reachable limit width cells s
    → s.width ≡ width
Reachable-width width cells here = unfold init in refl
Reachable-width width cells (next r st) = Step-width st ∙ Reachable-width width cells r

-- From every reachable state of an executor with at least one worker, in which the reaper has not
-- returned, the executor's threads can come to a state in which `drain` returns: no invocation is
-- stuck, and there is no deadlock among the workers and the reaper, if RTT answers each call.
pub can_drain :
    (limit width : ℕ) (cells : ℕ → Invocation) (s : Executor)
    → IsUntouched cells
    → 0 < width
    → Reachable limit width cells s
    → s.reaping ≡ true
    → (t : Executor) × Steps limit s t × (drained t ≡ true)
can_drain limit width cells s u wide r run =
    drain_from (suc (measure s)) limit width cells s u r (rw (Reachable-width width cells r) wide)
      run (omega arith)
