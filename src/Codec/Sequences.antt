-- ===== src/Codec/Sequences.antt =====
-- Encoding and decoding of strings and vectors in include/rtt/http/typed_codec.hpp, one behind the
-- other.
use rtt_http.Common.{
  ℕ, suc, ◌+◌, ◌-◌, ◌≤◌, true, List, [], ◌∷◌, Bytes, length, ◌≡◌, ◌≢◌, refl, sym, ap, ◌∙◌, arith,
  inl, inr, All, subst, ℕ_discrete,
}
use rtt_http.Utf8.{valid_utf8}
use rtt_http.Codec.{
  Json, Items, nil, cons, string, array, CodecContext, ok, err, Conversion, ◌>>=◌, ◌>>◌, return,
  enter, leave, account, scope, entered, leave_with, bind_inv, bind_ok, then_inv, then_ok,
  then_return_inv, depth_limit, outcome_ne,
}
use rtt_http.Codec.Text.{
  account_json_string, account_json_string_lem, account_json_string_fits, account_fits, quoted,
}
use rtt_http.Codec.Integers.{JsonConversion}
use rtt_http.Codec.Containers.{
  size, string_conversion, encode_string, decode_string, vector_conversion, encode_items,
  decode_items, reserve, encode_vector_body, encode_vector, decode_vector_body, decode_vector,
}
use rtt_http.Codec.RoundTrip.{Covers, RoundTrips}

paid_string :
    (text : Bytes) (c c' : CodecContext)
    → account_json_string text c ≡ (ok tt, c')
    → (valid_utf8 text ≡ true)
      × (length (quoted text) ≤ c.remaining)
      × (c' ≡ record c { remaining = c.remaining - length (quoted text) })
paid_string text c c' e = elim (account_json_string_lem text c) [
  | inl (bad, r) ↦ cc
  | inr (inl (good, fits, r)) ↦ (good, fits, ap (λ p. p.1) (sym e ∙ r))
  | inr (inr (good, less, r)) ↦ cc
]

spent-Covers :
    (n : ℕ) (c c' d : CodecContext)
    → c' ≡ record c { remaining = c.remaining - n }
    → Covers c d
    → Covers c' (record d { remaining = d.remaining - n })
spent-Covers n c c' d e h = ground arith

-- A string that was encoded is valid UTF-8, and is read back byte for byte.
pub string-RoundTrips : {D : Type 0} → RoundTrips (string_conversion {D = D}) (λ s. Unit {0})
unfolding encode_string decode_string
string-RoundTrips = record {
  back = λ v c d j c' h e covers.
      let (ej, paid) = then_return_inv (account_json_string v) (string v) c e in
      let (good, fits, ec) = paid_string v c c' paid in
      let d' : CodecContext = record d { remaining = d.remaining - length (quoted v) } in
      (
        d',
        rw (ej, decode_string)
            (then_ok (account_json_string v) (return v) d
              (account_json_string_fits v d good (omega arith))),
        spent-Covers (length (quoted v)) c c' d ec covers,
      );
}

enter_room :
    (c : CodecContext)
    → c.depth ≢ c.limits.max_depth
    → enter c ≡ (ok tt, record c { depth = c.depth + 1 })
unfolding enter
enter_room c room = ground arith

scope_room :
    {A : Type 0} (body : Conversion A) (c : CodecContext)
    → c.depth ≢ c.limits.max_depth
    → scope body c ≡ leave_with (body (record c { depth = c.depth + 1 }))
unfolding scope
scope_room body c room = ap (entered body) (enter_room c room)

scope_full :
    {A : Type 0} (body : Conversion A) (c : CodecContext)
    → c.depth ≡ c.limits.max_depth
    → (scope body c).0 ≡ err depth_limit
unfolding scope
scope_full body c full = ap (λ p. (entered body p).0) (enter_full c full)
  where
    enter_full : (c : CodecContext) → c.depth ≡ c.limits.max_depth → enter c ≡ (err depth_limit, c)
    enter_full c full = unfold enter in ground arith

-- A scope that ends well: its body ran one level deeper.
scope_inv :
    {A : Type 0} (body : Conversion A) (c c' : CodecContext) (a : A)
    → scope body c ≡ (ok a, c')
    → (c'' : CodecContext) × (c.depth ≢ c.limits.max_depth)
      × (body (record c { depth = c.depth + 1 }) ≡ (ok a, c''))
      × (c' ≡ leave c'')
scope_inv body c c' a e = elim (ℕ_discrete c.depth c.limits.max_depth) [
  | yes full ↦ absurd (outcome_ne depth_limit (sym (ap (λ p. p.0) e) ∙ scope_full body c full))
  | no room ↦
      let result = body (record c { depth = c.depth + 1 }) in
      let r = sym (scope_room body c room) ∙ e in
      (result.1, room, λ i. ((r i).0, result.1), sym (ap (λ p. p.1) r))
]

scope_run :
    {A : Type 0} (body : Conversion A) (d d' : CodecContext) (a : A)
    → d.depth ≢ d.limits.max_depth
    → body (record d { depth = d.depth + 1 }) ≡ (ok a, d')
    → scope body d ≡ (ok a, leave d')
scope_run body d d' a room e = scope_room body d room ∙ ap leave_with e

leave-Covers : (c d : CodecContext) → Covers c d → Covers (leave c) (leave d)
unfolding leave
leave-Covers c d h = ground arith

deeper-Covers :
    (c d : CodecContext)
    → Covers c d
    → Covers (record c { depth = c.depth + 1 }) (record d { depth = d.depth + 1 })
deeper-Covers c d h = ground arith

room-Covers :
    (c d : CodecContext) → Covers c d → c.depth ≢ c.limits.max_depth → d.depth ≢ d.limits.max_depth
room-Covers c d h room = ground arith

account_inv :
    (n : ℕ) (c c' : CodecContext)
    → account n c ≡ (ok tt, c')
    → (n ≤ c.remaining) × (c' ≡ record c { remaining = c.remaining - n })
unfolding account
account_inv n c c' e = ground arith

size-nil : (D : Type 0) → size {D = D} nil ≡ 0
unfolding size
size-nil D = refl

size-cons : {D : Type 0} (x : Json D) (xs : Items D) → size (cons x xs) ≡ suc (size xs)
unfolding size
size-cons x xs = refl

module _ {D T : Type 0} (element : JsonConversion D T) (P : T → Type 0)
    (trips : RoundTrips element P) where
  encode_items_inv :
      (v : T) (vs : List T) (c c' : CodecContext) (xs : Items D)
      → encode_items element (v ∷ vs) c ≡ (ok xs, c')
      → (j : Json D) × (js : Items D) × (c1 : CodecContext) × (element.encode v c ≡ (ok j, c1))
        × (encode_items element vs c1 ≡ (ok js, c'))
        × (xs ≡ cons j js)
  unfolding encode_items
  encode_items_inv v vs c c' xs e =
      let more = λ (j : Json D). encode_items element vs >>= λ js. return (cons j js) in
      let (j, c1, ej, e') = bind_inv (element.encode v) more c e in
      let (js, c2, ejs, e'') =
        bind_inv (encode_items element vs) (λ js. return (cons j js)) c1 e' in
      (j, js, c1, ej, ejs ∙ cc, cc)

  encode_items_nil :
      (c c' : CodecContext) (xs : Items D)
      → encode_items element [] c ≡ (ok xs, c')
      → (xs ≡ nil) × (c' ≡ c)
  unfolding encode_items
  encode_items_nil c c' xs e = (cc, cc)

  decode_items_nil : (d : CodecContext) → decode_items element nil d ≡ (ok [], d)
  unfolding decode_items
  decode_items_nil d = refl

  decode_items_run :
      (j : Json D) (js : Items D) (v : T) (vs : List T) (d d1 d2 : CodecContext)
      → element.decode j d ≡ (ok v, d1)
      → decode_items element js d1 ≡ (ok vs, d2)
      → decode_items element (cons j js) d ≡ (ok (v ∷ vs), d2)
  unfolding decode_items
  decode_items_run j js v vs d d1 d2 e e' =
      let more = λ (x : T). decode_items element js >>= λ rest. return (x ∷ rest) in
      bind_ok (element.decode j) more d e
      ∙ bind_ok (decode_items element js) (λ rest. return (v ∷ rest)) d1 e'

  items_back :
      (vs : List T) (c d c' : CodecContext) (xs : Items D)
      → All P vs
      → encode_items element vs c ≡ (ok xs, c')
      → Covers c d
      → (d' : CodecContext) × (decode_items element xs d ≡ (ok vs, d'))
        × Covers c' d'
        × (size xs ≡ length vs)
  items_back [] c d c' xs h e covers =
      let (ex, ec) = encode_items_nil c c' xs e in
      (
        d,
        ap (λ t. decode_items element t d) ex ∙ decode_items_nil d,
        record {
          limits = covers.limits ∙ ap (λ t. t.limits) (sym ec);
          depth = covers.depth ∙ ap (λ t. t.depth) (sym ec);
          remaining = omega (arith, ap (λ t. t.remaining) ec);
        },
        ap size ex ∙ size-nil D,
      )
  items_back (v ∷ vs) c d c' xs (hv, hs) e covers =
      let (j, js, c1, ej, ejs, ex) = encode_items_inv v vs c c' xs e in
      let (d1, dj, cov1) = trips.back v c d j c1 hv ej covers in
      let (d2, djs, cov2, n) = items_back vs c1 d1 c' js hs ejs cov1 in
      (
        d2,
        ap (λ t. decode_items element t d) ex ∙ decode_items_run j js v vs d d1 d2 dj djs,
        cov2,
        ap size ex ∙ size-cons j js ∙ ap suc n,
      )

  reserve_inv : (vs : List T) (c c' : CodecContext) → reserve element vs c ≡ (ok tt, c') → c' ≡ c
  unfolding reserve
  reserve_inv vs c c' e = ground arith

  -- Decoding asks for one byte an element, encoding paid for the brackets and commas.
  vector_paid :
      (n : ℕ) (c c1 c2 c3 d : CodecContext)
      → (2 ≤ c.remaining) × (c1 ≡ record c { remaining = c.remaining - 2 })
      → (n - 1 ≤ c1.remaining) × (c2 ≡ record c1 { remaining = c1.remaining - (n - 1) })
      → c3 ≡ c2
      → Covers c d
      → (n ≤ d.remaining) × Covers c3 (record d { remaining = d.remaining - n })
  vector_paid n c c1 c2 c3 d (p, e1) (q, e2) e3 covers = (ground arith, ground arith)

  decode_vector_array :
      (xs : Items D)
      → decode_vector_body element (array xs) ≡ (account (size xs) >> decode_items element xs)
  unfolding decode_vector_body
  decode_vector_array xs = refl

  vector_body_back :
      (vs : List T) (c d c' : CodecContext) (j : Json D)
      → All P vs
      → encode_vector_body element vs c ≡ (ok j, c')
      → Covers c d
      → (d' : CodecContext) × (decode_vector_body element j d ≡ (ok vs, d')) × Covers c' d'
  unfolding encode_vector_body
  vector_body_back vs c d c' j h e covers =
      let last = encode_items element vs >>= λ staged. return (array staged) in
      let third = reserve element vs >> last in
      let (c1, paid, e1) = then_inv (account 2) (account (length vs - 1) >> third) c e in
      let (c2, paid', e2) = then_inv (account (length vs - 1)) third c1 e1 in
      let (c3, kept, e3) = then_inv (reserve element vs) last c2 e2 in
      let (xs, c4, items, e4) =
        bind_inv (encode_items element vs) (λ staged. return (array staged)) c3 e3 in
      let n = length vs in
      let d1 : CodecContext = record d { remaining = d.remaining - n } in
      let (fits, covers') =
        vector_paid n c c1 c2 c3 d (account_inv 2 c c1 paid) (account_inv (n - 1) c1 c2 paid')
          (reserve_inv vs c2 c3 kept) covers in
      let (d2, back, covers'', size_n) = items_back vs c3 d1 c4 xs h items covers' in
      let ej : j ≡ array xs = cc in
      let ec : c' ≡ c4 = cc in
      (
        d2,
        ap (λ t. decode_vector_body element t d) ej
            ∙ ap (λ m. m d) (decode_vector_array xs)
            ∙ then_ok (account (size xs)) (decode_items element xs) d
                (ap (λ k. account k d) size_n ∙ account_fits n d fits)
            ∙ back,
        subst (λ t. Covers t d2) (sym ec) covers'',
      )

  -- A vector that was encoded is read back, element by element.
  pub vector-RoundTrips : RoundTrips (vector_conversion element) (All P)
  unfolding encode_vector decode_vector
  vector-RoundTrips = record {
    back = λ vs c d j c' h e covers.
        let (c'', room, inside, left) = scope_inv (encode_vector_body element vs) c c' j e in
        let deeper = deeper-Covers c d covers in
        let (d', back, covers') = vector_body_back vs _ _ c'' j h inside deeper in
        (
          leave d',
          scope_run (decode_vector_body element j) d d' vs (room-Covers c d covers room) back,
          subst (λ t. Covers t (leave d')) (sym left) (leave-Covers c'' d' covers'),
        );
  }
