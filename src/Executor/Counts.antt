-- ===== src/Executor/Counts.antt =====
-- How often an address stands in a list.
use rtt_http.Common.{ℕ, ◌+◌, ◌<◌, List, [], ◌∷◌, ◌++◌, ◌==◌, if◌then◌else◌, ◌≡◌, arith, length, ◌≤◌}
use rtt_http.Executor.{erase}

abbrev pub occurrences : ℕ → List ℕ → ℕ
occurrences i [] = 0
occurrences i (j ∷ js) = (if j == i then 1 else 0) + occurrences i js

pub occurrences-append :
    (i : ℕ) (xs ys : List ℕ) → occurrences i (xs ++ ys) ≡ occurrences i xs + occurrences i ys
occurrences-append i [] ys = omega arith
occurrences-append i (x ∷ xs) ys = omega (arith, occurrences-append i xs ys)

pub occurrences-erase :
    (i j : ℕ) (xs : List ℕ) → occurrences i (erase j xs) ≡ (if j == i then 0 else occurrences i xs)
unfolding erase
occurrences-erase i j [] = ground arith
occurrences-erase i j (x ∷ xs) = ground (arith, occurrences-erase i j xs)

pub length-erase-le : (i : ℕ) (xs : List ℕ) → length (erase i xs) ≤ length xs
unfolding erase
length-erase-le i [] = omega arith
length-erase-le i (x ∷ xs) = ground (arith, length-erase-le i xs)

pub length-erase-lt : (i : ℕ) (xs : List ℕ) → 0 < occurrences i xs → length (erase i xs) < length xs
unfolding erase
length-erase-lt i [] h = omega arith
length-erase-lt i (x ∷ xs) h = ground (arith, length-erase-lt i xs, length-erase-le i xs)
