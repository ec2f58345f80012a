-- ===== src/Codec/Output/Walk.antt =====
-- `validateOutput` of src/codec_context.cpp beside the plain recursion over the value.
use rtt_http.Common.{
  ℕ, zero, suc, ◌+◌, ◌≤◌, ◌<◌, Bool, Option, none, some, List, [], ◌∷◌, ◌==◌, if◌then◌else◌, length,
  ◌≡◌, refl, sym, ap, ◌∙◌, arith, Bool-cases, inl, inr,
}
use rtt_http.Utf8.{valid_utf8}
use rtt_http.Codec.{
  Json, Items, Members, null, boolean, int64, uint64, double, string, array, object, nil, cons, end,
  member, Outcome, ok, err, CodecErrorCode, invalid_utf8, type_mismatch, depth_limit,
}
use rtt_http.Codec.Output.{
  Frame, items, members, visit, advance, values, values_items, values_members, walk,
  validate_output,
}

infixl 5 ◌then◌
abbrev ◌then◌ : Outcome (Unit {0}) → Outcome (Unit {0}) → Outcome (Unit {0})
ok u then k = k
err e then k = err e

module _ {D : Type 0} (is_finite : D → Bool) (max_depth : ℕ) where
  -- What is wrong with a value at a depth: strings and keys that are not UTF-8, doubles that are
  -- not finite, containers too deep. The first fault in document order counts.
  unfoldable mutual
    pub check : ℕ → Json D → Outcome (Unit {0})
    check depth null = ok tt
    check depth (boolean b) = ok tt
    check depth (int64 v) = ok tt
    check depth (uint64 n) = ok tt
    check depth (double d) = if is_finite d then ok tt else err type_mismatch
    check depth (string text) = if valid_utf8 text then ok tt else err invalid_utf8
    check depth (array xs) =
        if depth == max_depth then err depth_limit else check_items (suc depth) xs
    check depth (object ms) =
        if depth == max_depth then err depth_limit else check_members (suc depth) ms

    pub check_items : ℕ → Items D → Outcome (Unit {0})
    check_items depth nil = ok tt
    check_items depth (cons x xs) = check depth x then check_items depth xs

    pub check_members : ℕ → Members D → Outcome (Unit {0})
    check_members depth end = ok tt
    check_members depth (member key x ms) =
        if valid_utf8 key then (check depth x then check_members depth ms) else err invalid_utf8

  -- What is left to check in the frames, and how many values that is.
  rest_check : List (Frame D) → Outcome (Unit {0})
  rest_check [] = ok tt
  rest_check (items xs ∷ ps) = check_items (suc (length ps)) xs then rest_check ps
  rest_check (members ms ∷ ps) = check_members (suc (length ps)) ms then rest_check ps

  rest_values : List (Frame D) → ℕ
  rest_values [] = 0
  rest_values (items xs ∷ ps) = values_items xs + rest_values ps
  rest_values (members ms ∷ ps) = values_members ms + rest_values ps

  data Advanced (ps : List (Frame D)) : Outcome (Option (Json D × List (Frame D))) → Type 0 where
    fault : {e : CodecErrorCode} → rest_check ps ≡ err e → Advanced ps (err e)
    finished : rest_check ps ≡ ok tt → Advanced ps (ok none)
    moved :
        {x : Json D} {qs : List (Frame D)}
        → rest_check ps ≡ (check (length qs) x then rest_check qs)
        → values x + rest_values qs ≤ rest_values ps
        → Advanced ps (ok (some (x, qs)))

  then_assoc : (a b c : Outcome (Unit {0})) → ((a then b) then c) ≡ (a then (b then c))
  then_assoc (ok u) b c = refl
  then_assoc (err e) b c = refl

  same_rest :
      (ps qs : List (Frame D)) (o : Outcome (Option (Json D × List (Frame D))))
      → rest_check ps ≡ rest_check qs
      → rest_values qs ≤ rest_values ps
      → Advanced qs o
      → Advanced ps o
  same_rest ps qs _ e n (fault h) = fault (e ∙ h)
  same_rest ps qs _ e n (finished h) = finished (e ∙ h)
  same_rest ps qs _ e n (moved h m) = moved (e ∙ h) (omega arith)

  advance_lem : (ps : List (Frame D)) → Advanced ps (advance ps)
  unfolding advance rest_check rest_values check values
  advance_lem [] = finished refl
  advance_lem (items nil ∷ ps) = same_rest (items nil ∷ ps) ps _ refl (omega arith) (advance_lem ps)
  advance_lem (items (cons x xs) ∷ ps) = moved (then_assoc (check _ x) _ _) (omega arith)
  advance_lem (members end ∷ ps) =
      same_rest (members end ∷ ps) ps _ refl (omega arith) (advance_lem ps)
  advance_lem (members (member key x ms) ∷ ps) = elim (Bool-cases (valid_utf8 key)) [
    | inl good ↦ rw good (
        moved
          (ap (λ t. t then rest_check ps) (rw good refl) ∙ then_assoc (check _ x) _ (rest_check ps))
          (omega arith))
    | inr bad ↦ rw bad (fault (rw bad refl))
  ]

  data Visited (j : Json D) (ps : List (Frame D)) : Outcome (List (Frame D)) → Type 0 where
    refused : {e : CodecErrorCode} → check (length ps) j ≡ err e → Visited j ps (err e)
    entered :
        {qs : List (Frame D)}
        → (check (length ps) j then rest_check ps) ≡ rest_check qs
        → rest_values qs < values j + rest_values ps
        → Visited j ps (ok qs)

  visit_lem : (j : Json D) (ps : List (Frame D)) → Visited j ps (visit is_finite max_depth j ps)
  unfolding visit rest_check rest_values check values
  visit_lem null ps = entered refl (omega arith)
  visit_lem (boolean b) ps = entered refl (omega arith)
  visit_lem (int64 v) ps = entered refl (omega arith)
  visit_lem (uint64 n) ps = entered refl (omega arith)
  visit_lem (double d) ps = elim (Bool-cases (is_finite d)) [
    | inl e ↦ rw e (entered (rw e refl) (omega arith))
    | inr e ↦ rw e (refused (rw e refl))
  ]
  visit_lem (string text) ps = elim (Bool-cases (valid_utf8 text)) [
    | inl e ↦ rw e (entered (rw e refl) (omega arith))
    | inr e ↦ rw e (refused (rw e refl))
  ]
  visit_lem (array xs) ps = elim (Bool-cases (length ps == max_depth)) [
    | inl e ↦ rw e (refused (rw e refl))
    | inr e ↦ rw e (entered (rw e refl) (omega arith))
  ]
  visit_lem (object ms) ps = elim (Bool-cases (length ps == max_depth)) [
    | inl e ↦ rw e (refused (rw e refl))
    | inr e ↦ rw e (entered (rw e refl) (omega arith))
  ]

  walk_step :
      (fuel : ℕ) (j : Json D) (ps qs : List (Frame D))
      → visit is_finite max_depth j ps ≡ ok qs
      → walk is_finite max_depth (suc fuel) j ps ≡ elim (advance qs) [
        | err e ↦ some (err e)
        | ok o ↦ elim o [
          | none ↦ some (ok tt)
          | some (next, rest) ↦ walk is_finite max_depth fuel next rest
        ]
      ]
  unfolding walk
  walk_step fuel j ps qs e = rw (e, walk) refl

  walk_refused :
      (fuel : ℕ) (j : Json D) (ps : List (Frame D)) (e : CodecErrorCode)
      → visit is_finite max_depth j ps ≡ err e
      → walk is_finite max_depth (suc fuel) j ps ≡ some (err e)
  unfolding walk
  walk_refused fuel j ps e h = rw (h, walk) refl

  walk_lem :
      (fuel : ℕ) (j : Json D) (ps : List (Frame D))
      → values j + rest_values ps < fuel
      → walk is_finite max_depth fuel j ps ≡ some (check (length ps) j then rest_check ps)
  walk_lem zero j ps h = absurd (omega arith)
  walk_lem (suc fuel) j ps h =
      visited (visit is_finite max_depth j ps) refl (visit_lem j ps) (walk_lem fuel)
    where
      Rest : Type 0
      Rest =
          (j : Json D) (ps : List (Frame D))
          → values j + rest_values ps < fuel
          → walk is_finite max_depth fuel j ps ≡ some (check (length ps) j then rest_check ps)

      advanced :
          (qs : List (Frame D)) (o : Outcome (Option (Json D × List (Frame D))))
          → rest_values qs < fuel
          → Advanced qs o
          → Rest
          → elim o [
            | err e ↦ some (err e)
            | ok o ↦ elim o [
              | none ↦ some (ok tt)
              | some (next, rest) ↦ walk is_finite max_depth fuel next rest
            ]
          ]
            ≡ some (rest_check qs)
      advanced qs o less (fault e) rest = ap some (sym e)
      advanced qs o less (finished e) rest = ap some (sym e)
      advanced qs o less (moved {x = x} {qs = rs} e n) rest =
          rest x rs (omega arith) ∙ ap some (sym e)

      visited :
          (o : Outcome (List (Frame D)))
          → visit is_finite max_depth j ps ≡ o
          → Visited j ps o
          → Rest
          → walk is_finite max_depth (suc fuel) j ps ≡ some (check (length ps) j then rest_check ps)
      visited o e (refused {e = x} c) rest =
          walk_refused fuel j ps x e ∙ ap (λ t. some (t then rest_check ps)) (sym c)
      visited o e (entered {qs = qs} c n) rest =
          walk_step fuel j ps qs e
          ∙ advanced qs (advance qs) (omega arith) (advance_lem qs) rest
          ∙ ap some (sym c)

  then_ok_right : (a : Outcome (Unit {0})) → (a then ok tt) ≡ a
  then_ok_right (ok u) = refl
  then_ok_right (err e) = refl

  -- The walk with the explicit stack ends, and gives the verdict of the plain recursion: the first
  -- invalid string or key, non-finite number or container nested deeper than the limit.
  pub validate_output-check :
      (root : Json D) → validate_output is_finite max_depth root ≡ some (check 0 root)
  unfolding validate_output check rest_check rest_values
  validate_output-check root =
      walk_lem (suc (values root)) root [] (omega arith) ∙ ap some (then_ok_right (check 0 root))
