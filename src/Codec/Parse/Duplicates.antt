-- ===== src/Codec/Parse/Duplicates.antt =====
-- `DuplicateHandler` of src/codec_context.cpp over the events of a document.
use rtt_http.Common.{
  ℕ, zero, suc, Bool, true, false, ◌||◌, none, some, List, [], ◌∷◌, ◌++◌, append_assoc, append-nil,
  Bytes, bytes_eq, if◌then◌else◌, ◌≡◌, inl, inr, refl, sym, ap, ◌∙◌, arith, Option-cases,
}
use rtt_http.Common.Int.{ℤ}
use rtt_http.Common.Map.{
  Map, find, emplace, bytes_key, find-insert, emplace_new, emplace_old, bytes_eq_iff,
}
use rtt_http.Codec.{
  Json, Items, Members, null, boolean, int64, uint64, double, string, array, object, nil, cons, end,
  member,
}
use rtt_http.Codec.Parse.{
  Event, begins, ends, scalar, key_part, key, Scope, DuplicateHandler, on_key_part, insert_key,
  on_event, on_events,
}

-- The parts of a key, one after the other.
abbrev pub joined : List Bytes → Bytes
joined [] = []
joined (p ∷ ps) = p ++ joined ps

unfoldable pub has_key : {D : Type 0} → Bytes → Members D → Bool
has_key k end = false
has_key k (member j v ms) = bytes_eq k j || has_key k ms

unfoldable mutual
  -- An object somewhere in the value has a key twice.
  pub repeats : {D : Type 0} → Json D → Bool
  repeats (array xs) = repeats_items xs
  repeats (object ms) = repeats_members ms
  repeats _ = false

  pub repeats_items : {D : Type 0} → Items D → Bool
  repeats_items nil = false
  repeats_items (cons x xs) = repeats x || repeats_items xs

  pub repeats_members : {D : Type 0} → Members D → Bool
  repeats_members end = false
  repeats_members (member k v ms) = has_key k ms || (repeats v || repeats_members ms)

unfoldable pub key_parts : List Bytes → List Event
key_parts [] = []
key_parts (p ∷ ps) = key_part p ∷ key_parts ps

-- The calls for a value without members, which do nothing: a string or a number may come in parts.
unfoldable pub scalars : ℕ → List Event
scalars zero = []
scalars (suc n) = scalar ∷ scalars n

-- The calls that a parser may make for a document. Every key, wherever it stands, is cut in a way of
-- its own, into any number of parts and a last part.
mutual
  pub data Document {D : Type 0} : Json D → List Event → Type 0 where
    of_null : (n : ℕ) → Document null (scalars n)
    of_boolean : (b : Bool) (n : ℕ) → Document (boolean b) (scalars n)
    of_int64 : (i : ℤ) (n : ℕ) → Document (int64 i) (scalars n)
    of_uint64 : (k n : ℕ) → Document (uint64 k) (scalars n)
    of_double : (x : D) (n : ℕ) → Document (double x) (scalars n)
    of_string : (text : Bytes) (n : ℕ) → Document (string text) (scalars n)
    of_array :
        {xs : Items D} {es : List Event}
        → DocumentItems xs es
        → Document (array xs) (begins ∷ (es ++ ends ∷ []))
    of_object :
        {ms : Members D} {es : List Event}
        → DocumentMembers ms es
        → Document (object ms) (begins ∷ (es ++ ends ∷ []))

  pub data DocumentItems {D : Type 0} : Items D → List Event → Type 0 where
    of_nil : DocumentItems nil []
    of_cons :
        {x : Json D} {xs : Items D} {es fs : List Event}
        → Document x es
        → DocumentItems xs fs
        → DocumentItems (cons x xs) (es ++ fs)

  pub data DocumentMembers {D : Type 0} : Members D → List Event → Type 0 where
    of_end : DocumentMembers end []
    of_member :
        {v : Json D} {ms : Members D} {es fs : List Event} (k : Bytes) (ps : List Bytes)
        (last : Bytes)
        → joined ps ++ last ≡ k
        → Document v es
        → DocumentMembers ms fs
        → DocumentMembers (member k v ms) (key_parts ps ++ (key last ∷ (es ++ fs)))

on_events-append :
    (xs ys : List Event) (h : DuplicateHandler)
    → on_events (xs ++ ys) h ≡ on_events ys (on_events xs h)
unfolding on_events
on_events-append [] ys h = refl
on_events-append (x ∷ xs) ys h = on_events-append xs ys (on_event x h)

abbrev at : List Scope → Bool → DuplicateHandler
at frames d = record { frames = frames; duplicate = d }

abbrev opened : Map Bytes (Unit {0}) → Bytes → Scope
opened keys k = record { keys = keys; key = k }

is_in : Bytes → Map Bytes (Unit {0}) → Bool
is_in k keys = elim (find k keys) [ none ↦ false | some u ↦ true ]

meets : {D : Type 0} → Map Bytes (Unit {0}) → Members D → Bool
meets keys end = false
meets keys (member k v ms) = is_in k keys || meets keys ms

-- A key that comes in parts is put together.
on_events-key_parts :
    (ps : List Bytes) (keys : Map Bytes (Unit {0})) (k : Bytes) (fs : List Scope) (d : Bool)
    → on_events (key_parts ps) (at (opened keys k ∷ fs) d)
      ≡ at (opened keys (k ++ joined ps) ∷ fs) d
unfolding on_events on_event on_key_part key_parts
on_events-key_parts [] keys k fs d = ap (λ x. at (opened keys x ∷ fs) d) (sym (append-nil k))
on_events-key_parts (p ∷ ps) keys k fs d =
    on_events-key_parts ps keys (k ++ p) fs d
    ∙ ap (λ x. at (opened keys x ∷ fs) d) (append_assoc k p (joined ps))

inserted_or :
    (k : Bytes) (keys : Map Bytes (Unit {0})) (d : Bool)
    → (if (emplace k tt keys).1 then d else true) ≡ (d || is_in k keys)
unfolding is_in emplace
inserted_or k keys d = ground arith

insert_key-at :
    (keys : Map Bytes (Unit {0})) (k : Bytes) (fs : List Scope) (d : Bool)
    → insert_key (at (opened keys k ∷ fs) d)
      ≡ at (opened (emplace k tt keys).0 [] ∷ fs) (d || is_in k keys)
unfolding insert_key is_in emplace
insert_key-at keys k fs d =
    ap (λ b. at (opened (emplace k tt keys).0 [] ∷ fs) b) (inserted_or k keys d)

is_in-emplace :
    (k j : Bytes) (keys : Map Bytes (Unit {0}))
    → is_in j (emplace k tt keys).0 ≡ (bytes_eq k j || is_in j keys)
unfolding is_in
is_in-emplace k j keys = elim (Option-cases (find k keys)) [
  | inl e ↦
      ap (is_in j) (emplace_new k tt keys e)
      ∙ ground (arith, find-insert j k tt keys, e, bytes_eq_iff j k, bytes_eq_iff k j)
  | inr (u, e) ↦ ap (is_in j) (emplace_old k tt u keys e) ∙ ground (arith, e, bytes_eq_iff k j)
]

or_swap : (a i h m : Bool) → (a || i) || (h || m) ≡ (a || h) || (i || m)
or_swap a i h m = ground arith

meets-emplace :
    {D : Type 0} (k : Bytes) (keys : Map Bytes (Unit {0})) (ms : Members D)
    → meets (emplace k tt keys).0 ms ≡ (has_key k ms || meets keys ms)
unfolding meets has_key
meets-emplace k keys end = refl
meets-emplace k keys (member j v ms) =
    ap (λ b. b || meets (emplace k tt keys).0 ms) (is_in-emplace k j keys)
    ∙ ap (λ b. (bytes_eq k j || is_in j keys) || b) (meets-emplace k keys ms)
    ∙ or_swap (bytes_eq k j) (is_in j keys) (has_key k ms) (meets keys ms)

meets-nil : {D : Type 0} (ms : Members D) → meets [] ms ≡ false
unfolding meets is_in find
meets-nil end = refl
meets-nil (member k v ms) = meets-nil ms

or_assoc : (a b c : Bool) → (a || b) || c ≡ a || (b || c)
or_assoc a b c = ground arith

or_members :
    (d i r h m s : Bool) → ((d || i) || r) || ((h || m) || s) ≡ d || ((i || m) || (h || (r || s)))
or_members d i r h m s = ground arith

on_events-key :
    (k : Bytes) (ps : List Bytes) (last : Bytes) (rest : List Event) (keys : Map Bytes (Unit {0}))
    (fs : List Scope) (d : Bool)
    → joined ps ++ last ≡ k
    → on_events (key_parts ps ++ key last ∷ rest) (at (opened keys [] ∷ fs) d)
      ≡ on_events rest (at (opened (emplace k tt keys).0 [] ∷ fs) (d || is_in k keys))
unfolding on_events on_event on_key_part
on_events-key k ps last rest keys fs d e =
    on_events-append (key_parts ps) (key last ∷ rest) (at (opened keys [] ∷ fs) d)
    ∙ ap (λ h. on_events (key last ∷ rest) h) (on_events-key_parts ps keys [] fs d)
    ∙ ap (λ x. on_events rest (insert_key (at (opened keys x ∷ fs) d))) e
    ∙ ap (λ h. on_events rest h) (insert_key-at keys k fs d)

on_events-scalars :
    (n : ℕ) (fs : List Scope) (d : Bool) → on_events (scalars n) (at fs d) ≡ at fs (d || false)
unfolding on_events on_event scalars
on_events-scalars zero fs d = ap (at fs) (ground arith)
on_events-scalars (suc n) fs d = on_events-scalars n fs d

mutual
  unfolding on_events on_event repeats meets

  on_events-Document :
      {D : Type 0} {j : Json D} {es : List Event}
      → Document j es
      → (fs : List Scope) (d : Bool) → on_events es (at fs d) ≡ at fs (d || repeats j)
  on_events-Document (of_array {xs = xs} {es = es} r) fs d =
      on_events-append es (ends ∷ []) (at (opened [] [] ∷ fs) d)
      ∙ ap (λ h. on_events (ends ∷ []) h) (on_events-DocumentItems r (opened [] [] ∷ fs) d)
  on_events-Document (of_object {ms = ms} {es = es} r) fs d =
      let (keys, e) = on_events-DocumentMembers r [] fs d in
      on_events-append es (ends ∷ []) (at (opened [] [] ∷ fs) d)
      ∙ ap (λ h. on_events (ends ∷ []) h) e
      ∙ ap (λ b. at fs (d || (b || repeats_members ms))) (meets-nil ms)
  on_events-Document (of_null n) fs d = on_events-scalars n fs d
  on_events-Document (of_boolean b n) fs d = on_events-scalars n fs d
  on_events-Document (of_int64 i n) fs d = on_events-scalars n fs d
  on_events-Document (of_uint64 k n) fs d = on_events-scalars n fs d
  on_events-Document (of_double x n) fs d = on_events-scalars n fs d
  on_events-Document (of_string text n) fs d = on_events-scalars n fs d

  on_events-DocumentItems :
      {D : Type 0} {xs : Items D} {es : List Event}
      → DocumentItems xs es
      → (fs : List Scope) (d : Bool) → on_events es (at fs d) ≡ at fs (d || repeats_items xs)
  on_events-DocumentItems of_nil fs d = ap (at fs) (ground arith)
  on_events-DocumentItems (of_cons {x = x} {xs = xs} {es = es} {fs = more} r s) fs d =
      on_events-append es more (at fs d)
      ∙ ap (λ h. on_events more h) (on_events-Document r fs d)
      ∙ on_events-DocumentItems s fs (d || repeats x)
      ∙ ap (at fs) (or_assoc d (repeats x) (repeats_items xs))

  on_events-DocumentMembers :
      {D : Type 0} {ms : Members D} {es : List Event}
      → DocumentMembers ms es
      → (keys : Map Bytes (Unit {0})) (fs : List Scope) (d : Bool)
      → (keys' : Map Bytes (Unit {0})) × (on_events es (at (opened keys [] ∷ fs) d)
          ≡ at (opened keys' [] ∷ fs) (d || (meets keys ms || repeats_members ms)))
  on_events-DocumentMembers of_end keys fs d = (keys, ap (at (opened keys [] ∷ fs)) (ground arith))
  on_events-DocumentMembers (of_member {v = v} {ms = ms} {es = es} {fs = more} k ps last c r s) keys
        fs d =
      let after = (emplace k tt keys).0 in
      let found = d || is_in k keys in
      let (keys', e) = on_events-DocumentMembers s after fs (found || repeats v) in
      (
        keys',
        on_events-key k ps last (es ++ more) keys fs d c
            ∙ on_events-append es more (at (opened after [] ∷ fs) found)
            ∙ ap (λ h. on_events more h) (on_events-Document r (opened after [] ∷ fs) found)
            ∙ e
            ∙ ap
                (λ b. at (opened keys' [] ∷ fs) ((found || repeats v) || (b || repeats_members ms)))
                (meets-emplace k keys ms)
            ∙ ap (at (opened keys' [] ∷ fs)) (
                or_members d (is_in k keys) (repeats v) (has_key k ms) (meets keys ms)
                  (repeats_members ms)),
      )

-- The handler of `parseJson` finds a duplicate just if some object of the document has a key twice,
-- at whatever depth and into whatever parts the parser cuts each occurrence of a key: the calls `es`
-- are any that a parser may make for the document `j`.
pub on_events-repeats :
    (D : Type 0) (j : Json D) (es : List Event)
    → Document j es
    → (on_events es (record { frames = []; duplicate = false })).duplicate ≡ repeats j
on_events-repeats D j es r = ap (λ h. h.duplicate) (on_events-Document r [] false)
