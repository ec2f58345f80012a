-- ===== src/Registry/Identity/Order.antt =====
-- The order of the members in the identities of src/type_protocol.cpp.
use rtt_http.Common.{
  true, not, [], ◌∷◌, Bytes, ◌==◌, ==_iff, ◌≡◌, ◌≢◌, inl, inr, refl, sym, ap, ◌∙◌, arith,
  Bool-cases, Option-cases,
}
use rtt_http.Common.Map.{
  Map, find, insert, emplace, bytes_key, bytes_before, bytes_eq_iff, find-emplace, emplace_new,
  emplace_old,
}
use rtt_http.Codec.{Json, Items, Members, array, object, nil, cons, end, member}
use rtt_http.Registry.{TypeRegistration}
use rtt_http.Registry.Identity.{
  canonical_json, canonical_items, sorted, to_members, identity_with, identity_json,
}

-- The order of the texts.
before_trans :
    (a b c : Bytes) → bytes_before a b ≡ true → bytes_before b c ≡ true → bytes_before a c ≡ true
before_trans [] [] c h k = absurd (ground (arith, h))
before_trans [] (y ∷ b) [] h k = absurd (ground (arith, k))
before_trans [] (y ∷ b) (z ∷ c) h k = refl
before_trans (x ∷ a) [] c h k = absurd (ground (arith, h))
before_trans (x ∷ a) (y ∷ b) [] h k = absurd (ground (arith, k))
before_trans (x ∷ a) (y ∷ b) (z ∷ c) h k = ground (arith, h, k, before_trans a b c)

before_total : (a b : Bytes) → a ≢ b → bytes_before a b ≡ not (bytes_before b a)
before_total [] [] n = absurd (n refl)
before_total [] (y ∷ b) n = refl
before_total (x ∷ a) [] n = refl
before_total (x ∷ a) (y ∷ b) n = elim (Bool-cases (x == y)) [
  | inl s ↦ let e = (==_iff x y).0 s in ground (arith, e, before_total a b (λ r. n (cc)))
  | inr s ↦ ground (arith, s)
]

insert_swap :
    {V : Type 0} (j k : Bytes) (v w : V) (m : Map Bytes V)
    → j ≢ k
    → insert j v (insert k w m) ≡ insert k w (insert j v m)
unfolding insert
insert_swap j k v w [] n = ground (arith, before_total j k n)
insert_swap j k v w ((i, u) ∷ m) n =
    ground
      (arith, before_total j k n, before_trans j k i, before_trans k j i, insert_swap j k v w m n)

find-emplace_other :
    {V : Type 0} (j k : Bytes) (w : V) (m : Map Bytes V)
    → j ≢ k
    → find j (emplace k w m).0 ≡ find j m
find-emplace_other j k w m n = ground (arith, find-emplace j k w m, bytes_eq_iff j k, n)

emplace_swap :
    {V : Type 0} (j k : Bytes) (v w : V) (m : Map Bytes V)
    → j ≢ k
    → (emplace j v (emplace k w m).0).0 ≡ (emplace k w (emplace j v m).0).0
emplace_swap j k v w m n = elim (Option-cases (find j m)) [
  | inr (u, e) ↦
      emplace_old j v u (emplace k w m).0 (find-emplace_other j k w m n ∙ e)
      ∙ sym (ap (λ x. (emplace k w x).0) (emplace_old j v u m e))
  | inl e ↦ elim (Option-cases (find k m)) [
    | inr (u, f) ↦
        ap (λ x. (emplace j v x).0) (emplace_old k w u m f)
        ∙ sym
            (emplace_old k w u (emplace j v m).0 (find-emplace_other k j v m (λ x. n (sym x)) ∙ f))
    | inl f ↦
        emplace_new j v (emplace k w m).0 (find-emplace_other j k w m n ∙ e)
        ∙ ap (insert j v) (emplace_new k w m f)
        ∙ insert_swap j k v w m n
        ∙ sym (ap (insert k w) (emplace_new j v m e))
        ∙ sym (emplace_new k w (emplace j v m).0 (find-emplace_other k j v m (λ x. n (sym x)) ∙ f))
  ]
]

-- The same value with its objects' members in another order, on any level: `kept` and `same_item` go
-- into the values of members and into the items of arrays.
mutual
  pub data Same {D : Type 0} : Json D → Json D → Type 0 where
    same_value : (j : Json D) → Same j j
    same_array : {xs ys : Items D} → SameItems xs ys → Same (array xs) (array ys)
    same_object : {ms ns : Members D} → Reordered ms ns → Same (object ms) (object ns)

  pub data SameItems {D : Type 0} : Items D → Items D → Type 0 where
    no_items : SameItems nil nil
    same_item :
        {x y : Json D} {xs ys : Items D}
        → Same x y
        → SameItems xs ys
        → SameItems (cons x xs) (cons y ys)

  pub data Reordered {D : Type 0} : Members D → Members D → Type 0 where
    no_members : Reordered end end
    kept :
        {ms ns : Members D} {v w : Json D} (k : Bytes)
        → Same v w
        → Reordered ms ns
        → Reordered (member k v ms) (member k w ns)
    swapped :
        (j k : Bytes) (v w : Json D) (ms : Members D)
        → j ≢ k
        → Reordered (member j v (member k w ms)) (member k w (member j v ms))
    chained : {ms ns os : Members D} → Reordered ms ns → Reordered ns os → Reordered ms os

mutual
  unfolding canonical_json

  canonical_json-Same : {D : Type 0} {v w : Json D} → Same v w → canonical_json v ≡ canonical_json w
  canonical_json-Same (same_value j) = refl
  canonical_json-Same (same_array s) = ap array (canonical_items-SameItems s)
  canonical_json-Same (same_object r) = ap (λ m. object (to_members m)) (sorted-Reordered r [])

  canonical_items-SameItems :
      {D : Type 0} {xs ys : Items D} → SameItems xs ys → canonical_items xs ≡ canonical_items ys
  canonical_items-SameItems no_items = refl
  canonical_items-SameItems (same_item {y = y} {xs = xs} s r) =
      ap (λ x. cons x (canonical_items xs)) (canonical_json-Same s)
      ∙ ap (cons (canonical_json y)) (canonical_items-SameItems r)

  sorted-Reordered :
      {D : Type 0} {ms ns : Members D}
      → Reordered ms ns
      → (m : Map Bytes (Json D)) → sorted ms m ≡ sorted ns m
  sorted-Reordered no_members m = refl
  sorted-Reordered (kept {ns = ns} {v = v} k s r) m =
      sorted-Reordered r (emplace k (canonical_json v) m).0
      ∙ ap (λ x. sorted ns (emplace k x m).0) (canonical_json-Same s)
  sorted-Reordered (swapped j k v w ms n) m =
      ap (sorted ms) (emplace_swap k j (canonical_json w) (canonical_json v) m (λ x. n (sym x)))
  sorted-Reordered (chained r s) m = sorted-Reordered r m ∙ sorted-Reordered s m

-- The identity that a protocol's fingerprint is made from does not depend on the order in which the
-- members of the descriptor were written, nor on that of the objects inside of it, in arrays too.
pub identity_json-Reordered :
    (D : Type 0) (r : TypeRegistration D) (ms : Members D)
    → Reordered r.descriptor ms
    → identity_json r ≡ identity_json (record r { descriptor = ms })
unfolding identity_json canonical_json
identity_json-Reordered D r ms h =
    ap (λ m. identity_with r (object (to_members m))) (sorted-Reordered h [])
