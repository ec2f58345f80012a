-- ===== src/Codec/Output.antt =====
-- `validateOutput` of src/codec_context.cpp: the walk over a value with an explicit stack of
-- frames. A frame is what is left of a container to visit. `is_finite` is `std::isfinite`. The
-- walk runs on fuel, and the number of values is enough.
pub mod Walk
use rtt_http.Common.{
  ℕ, zero, suc, ◌+◌, Bool, true, false, Option, none, some, List, [], ◌∷◌, ◌==◌, if◌then◌else◌,
  length,
}
use rtt_http.Utf8.{valid_utf8}
use rtt_http.Codec.{
  Json, Items, Members, null, boolean, int64, uint64, double, string, array, object, nil, cons, end,
  member, Outcome, ok, err, CodecErrorCode, invalid_utf8, type_mismatch, depth_limit,
}

pub data Frame (D : Type 0) : Type 0 where
  items : Items D → Frame D
  members : Members D → Frame D

module _ {D : Type 0} (is_finite : D → Bool) (max_depth : ℕ) where
  -- The tests of `current`; a container is pushed.
  unfoldable pub visit : Json D → List (Frame D) → Outcome (List (Frame D))
  visit (string text) parents = if valid_utf8 text then ok parents else err invalid_utf8
  visit (double d) parents = if is_finite d then ok parents else err type_mismatch
  visit (array xs) parents =
      if length parents == max_depth then err depth_limit else ok (items xs ∷ parents)
  visit (object ms) parents =
      if length parents == max_depth then err depth_limit else ok (members ms ∷ parents)
  visit _ parents = ok parents

-- The inner loop: the next value, and the frames without those that are done.
unfoldable pub advance : {D : Type 0} → List (Frame D) → Outcome (Option (Json D × List (Frame D)))
advance [] = ok none
advance (items nil ∷ parents) = advance parents
advance (items (cons x xs) ∷ parents) = ok (some (x, items xs ∷ parents))
advance (members end ∷ parents) = advance parents
advance (members (member key x ms) ∷ parents) =
    if valid_utf8 key then ok (some (x, members ms ∷ parents)) else err invalid_utf8

mutual
  pub values : {D : Type 0} → Json D → ℕ
  values (array xs) = suc (values_items xs)
  values (object ms) = suc (values_members ms)
  values _ = 1

  pub values_items : {D : Type 0} → Items D → ℕ
  values_items nil = 0
  values_items (cons x xs) = values x + values_items xs

  pub values_members : {D : Type 0} → Members D → ℕ
  values_members end = 0
  values_members (member key x ms) = values x + values_members ms

module _ {D : Type 0} (is_finite : D → Bool) (max_depth : ℕ) where
  -- The outer loop; `none` if the fuel runs out.
  unfoldable pub walk : ℕ → Json D → List (Frame D) → Option (Outcome (Unit {0}))
  unfolding visit advance
  walk zero current parents = none
  walk (suc fuel) current parents = elim (visit is_finite max_depth current parents) [
    | err e ↦ some (err e)
    | ok pushed ↦ elim (advance pushed) [
      | err e ↦ some (err e)
      | ok o ↦ elim o [ none ↦ some (ok tt) | some (next, rest) ↦ walk fuel next rest ]
    ]
  ]

  unfoldable pub validate_output : Json D → Option (Outcome (Unit {0}))
  unfolding walk values
  validate_output root = walk (suc (values root)) root []
