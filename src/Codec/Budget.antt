-- ===== src/Codec/Budget.antt =====
-- `BudgetResource` of src/codec_context.cpp: the bytes that are allocated within a limit. An exchange
-- that succeeds is one step; `granted_memory` is whether the system gives the memory.
use rtt_http.Common.{
  ℕ, ◌+◌, ◌-◌, ◌≤◌, Bool, true, false, List, [], ◌∷◌, ◌++◌, ltb, if◌then◌else◌, ◌≡◌, refl, arith,
  Bool-cases, inl, inr,
}

pub record Budget : Type 0 where
  pub limit : ℕ
  pub used : ℕ

-- `BudgetExceeded`, the exception of the system, or memory.
pub data Allocation : Type 0 where
  exceeded out_of_memory granted : Allocation

unfoldable pub allocate : ℕ → Bool → Budget → Allocation × Budget
allocate bytes granted_memory b =
    if ltb (b.limit - b.used) bytes
    then (exceeded, b)
    else if granted_memory
    then (granted, record b { used = b.used + bytes })
    else (out_of_memory, record b { used = b.used + bytes - bytes })

unfoldable pub deallocate : ℕ → Budget → Budget
deallocate bytes b = record b { used = b.used - bytes }

unfoldable pub sum : List ℕ → ℕ
sum [] = 0
sum (x ∷ xs) = x + sum xs

-- The budgets that come about, with the sizes of the blocks that are held.
pub data Held (limit : ℕ) : Budget → List ℕ → Type 0 where
  fresh : Held limit (record { limit = limit; used = 0 }) []
  takes :
      (b : Budget) (blocks : List ℕ) (bytes : ℕ)
      → Held limit b blocks
      → (allocate bytes true b).0 ≡ granted
      → Held limit (allocate bytes true b).1 (bytes ∷ blocks)
  lacks :
      (b : Budget) (blocks : List ℕ) (bytes : ℕ)
      → Held limit b blocks
      → Held limit (allocate bytes false b).1 blocks
  gives :
      (b : Budget) (before after : List ℕ) (bytes : ℕ)
      → Held limit b (before ++ bytes ∷ after)
      → Held limit (deallocate bytes b) (before ++ after)

sum-middle :
    (before after : List ℕ) (bytes : ℕ)
    → sum (before ++ bytes ∷ after) ≡ bytes + sum (before ++ after)
unfolding sum
sum-middle [] after bytes = refl
sum-middle (x ∷ before) after bytes = omega (arith, sum-middle before after bytes)

-- What is counted is what is held, and it is never more than the limit.
pub used-sum :
    (limit : ℕ) (b : Budget) (blocks : List ℕ)
    → Held limit b blocks
    → (b.limit ≡ limit) × (b.used ≡ sum blocks) × (b.used ≤ limit)
unfolding allocate deallocate sum
used-sum limit b blocks fresh = (refl, refl, omega arith)
used-sum limit _ _ (takes b blocks bytes held h) =
    let (same, counted, le) = used-sum limit b blocks held in
    elim (Bool-cases (ltb (b.limit - b.used) bytes)) [
      | inl e ↦ absurd (ground (arith, e, h))
      | inr e ↦ (ground (arith, e, same), ground (arith, e, counted), ground (arith, e, same, le))
    ]
used-sum limit _ _ (lacks b blocks bytes held) =
    let (same, counted, le) = used-sum limit b blocks held in
    (ground (arith, same), ground (arith, counted), ground (arith, le))
used-sum limit _ _ (gives b before after bytes held) =
    let (same, counted, le) = used-sum limit b (before ++ bytes ∷ after) held in
    (same, omega (arith, counted, sum-middle before after bytes), omega (arith, le))
