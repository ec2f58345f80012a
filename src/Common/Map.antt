-- ===== src/Common/Map.antt =====
-- `std::map`: association lists in the order of their keys.
use Prim.Native.Nat.{ℕ}
use mathlib.Core.Path.{◌≡◌, refl, sym, ap, subst, ◌∙◌}
use mathlib.Core.Logic.{inl, inr, ◌↔◌}
use mathlib.Core.Bool.{Bool, true, false, ◌||◌, ◌&&◌}
use mathlib.Core.Option.{Option, none, some}
use mathlib.Core.List.{List, [], ◌∷◌}
use native.Mathlib.Omega.{arith}
use rtt_http.Common.Tests.{Bool-cases, Option-cases, ltb, ◌==◌, ==_iff, if◌then◌else◌}
use rtt_http.Common.Lists.{All, All-imp, Bytes, bytes_eq, bytes_eq→eq, bytes_eq_refl}

-- A key: `before` is its order, `same` its equality.
pub record Key (K : Type 0) : Type 0 where
  pub before : K → K → Bool
  pub same : K → K → Bool
  pub same_iff : (a b : K) → (same a b ≡ true) ↔ (a ≡ b)

abbrev pub bytes_before : Bytes → Bytes → Bool
bytes_before xs [] = false
bytes_before [] (y ∷ ys) = true
bytes_before (x ∷ xs) (y ∷ ys) = ltb x y || (x == y && bytes_before xs ys)

pub bytes_eq_iff : (xs ys : Bytes) → (bytes_eq xs ys ≡ true) ↔ (xs ≡ ys)
bytes_eq_iff xs ys = (bytes_eq→eq xs ys, λ e. rw e (bytes_eq_refl ys))

instance abbrev pub bytes_key : Key Bytes
bytes_key = record { before = bytes_before; same = bytes_eq; same_iff = bytes_eq_iff }

-- Pointers are ordered by their addresses.
instance abbrev pub address_key : Key ℕ
address_key = record { before = ltb; same = λ a b. a == b; same_iff = ==_iff }

abbrev pub Map : Type 0 → Type 0 → Type 0
Map K V = List (K × V)

pub same_refl : {K : Type 0} ⦃key : Key K⦄ (k : K) → key.same k k ≡ true
same_refl ⦃key⦄ k = (key.same_iff k k).1 refl

module _ {K V : Type 0} ⦃key : Key K⦄ where
  unfoldable pub find : K → Map K V → Option V
  find k [] = none
  find k ((j, v) ∷ m) = if key.same k j then some v else find k m

  unfoldable pub insert : K → V → Map K V → Map K V
  insert k v [] = (k, v) ∷ []
  insert k v ((j, w) ∷ m) =
      let rest = insert k v m in if key.before k j then (k, v) ∷ (j, w) ∷ m else (j, w) ∷ rest

  -- The map, and whether the value was inserted.
  unfoldable pub emplace : K → V → Map K V → Map K V × Bool
  unfolding insert find
  emplace k v m = elim (find k m) [ none ↦ (insert k v m, true) | some w ↦ (m, false) ]

  unfoldable pub erase_key : K → Map K V → Map K V
  erase_key k [] = []
  erase_key k ((j, v) ∷ m) =
      let rest = erase_key k m in if key.same k j then rest else (j, v) ∷ rest

  pub find-erase_key :
      (j k : K) (m : Map K V) → find j (erase_key k m) ≡ (if key.same j k then none else find j m)
  unfolding find erase_key
  find-erase_key j k [] = ground arith
  find-erase_key j k ((i, w) ∷ m) =
      ground (arith, key.same_iff j k, key.same_iff k i, key.same_iff j i, find-erase_key j k m)

  pub find-insert :
      (j k : K) (v : V) (m : Map K V)
      → find k m ≡ none
      → find j (insert k v m) ≡ (if key.same j k then some v else find j m)
  unfolding find insert
  find-insert j k v [] h = refl
  find-insert j k v ((i, w) ∷ m) h =
      ground (arith, key.same_iff j k, key.same_iff k i, key.same_iff j i, find-insert j k v m)

  pub find-emplace :
      (j k : K) (v : V) (m : Map K V)
      → find j (emplace k v m).0
        ≡ (if (emplace k v m).1 then (if key.same j k then some v else find j m) else find j m)
  unfolding emplace
  find-emplace j k v m = ground (arith, find-insert j k v m)

  pub emplace_new :
      (k : K) (v : V) (m : Map K V) → find k m ≡ none → (emplace k v m).0 ≡ insert k v m
  unfolding emplace
  emplace_new k v m h = ground (arith, h)

  pub emplace_old : (k : K) (v w : V) (m : Map K V) → find k m ≡ some w → (emplace k v m).0 ≡ m
  unfolding emplace
  emplace_old k v w m h = ground (arith, h)

  -- What holds of every entry.
  module _ (P : K × V → Type 0) where
    pub All-insert : (k : K) (v : V) (m : Map K V) → P (k, v) → All P m → All P (insert k v m)
    unfolding insert
    All-insert k v [] p a = (p, tt)
    All-insert k v ((j, w) ∷ m) p (q, a) = elim (Bool-cases (key.before k j)) [
      | inl e ↦ rw e (p, (q, a))
      | inr e ↦ rw e (q, All-insert k v m p a)
    ]

    pub All-emplace : (k : K) (v : V) (m : Map K V) → P (k, v) → All P m → All P (emplace k v m).0
    All-emplace k v m p a = elim (Option-cases (find k m)) [
      | inl e ↦ subst (All P) (sym (emplace_new k v m e)) (All-insert k v m p a)
      | inr (w, e) ↦ subst (All P) (sym (emplace_old k v w m e)) a
    ]

    pub All-erase_key : (k : K) (m : Map K V) → All P m → All P (erase_key k m)
    unfolding erase_key
    All-erase_key k [] a = tt
    All-erase_key k ((j, w) ∷ m) (q, a) = elim (Bool-cases (key.same k j)) [
      | inl e ↦ rw e (All-erase_key k m a)
      | inr e ↦ rw e (q, All-erase_key k m a)
    ]

    pub find-All : (k : K) (v : V) (m : Map K V) → All P m → find k m ≡ some v → P (k, v)
    unfolding find
    find-All k v [] a h = absurd (ground (arith, h))
    find-All k v ((j, w) ∷ m) (q, a) h = elim (Bool-cases (key.same k j)) [
      | inl e ↦ subst P (ground (arith, (key.same_iff k j).0 e, h, e)) q
      | inr e ↦ find-All k v m a (ground (arith, h, e))
    ]

  -- Each entry is the one found under its key: the keys are distinct.
  abbrev pub IsProper : Map K V → Type 0
  IsProper m = All (λ e. find e.0 m ≡ some e.1) m

  pub emplace-IsProper : (k : K) (v : V) (m : Map K V) → IsProper m → IsProper (emplace k v m).0
  emplace-IsProper k v m a = elim (Option-cases (find k m)) [
    | inr (w, e) ↦ subst IsProper (sym (emplace_old k v w m e)) a
    | inl e ↦ subst IsProper (sym (emplace_new k v m e)) (
        All-insert (λ x. find x.0 (insert k v m) ≡ some x.1) k v m
          (ground (arith, find-insert k k v m, e, same_refl k))
          (All-imp (λ x. find x.0 m ≡ some x.1) (λ x. find x.0 (insert k v m) ≡ some x.1)
            (λ x f. ground (arith, find-insert x.0 k v m, e, f, key.same_iff x.0 k)) m a))
  ]

  -- What is found stays, and what was emplaced is there.
  pub find-emplace-some :
      (j k : K) (v w : V) (m : Map K V) → find j m ≡ some w → find j (emplace k v m).0 ≡ some w
  unfolding emplace
  find-emplace-some j k v w m h = ground (arith, find-insert j k v m, h, key.same_iff j k)

  pub find-emplace_same :
      (k : K) (v : V) (m : Map K V) → (w : V) × (find k (emplace k v m).0 ≡ some w)
  find-emplace_same k v m = elim (Option-cases (find k m)) [
    | inl e ↦
        (v, ap (find k) (emplace_new k v m e) ∙ ground (arith, find-insert k k v m, e, same_refl k))
    | inr (u, e) ↦ (u, ap (find k) (emplace_old k v u m e) ∙ e)
  ]
