-- ===== src/Codec.antt =====
-- The JSON codecs: include/rtt/http/codec_context.hpp, include/rtt/http/typed_codec.hpp,
-- src/codec_context.cpp and `accountJsonString` of src/type_protocol.cpp. This file has the JSON
-- values of Boost and `CodecContext`; a conversion is a function of the context that returns a
-- value or an error, and the context behind it. Doubles are a type parameter.
pub mod Text
pub mod Integers
pub mod Containers
pub mod RoundTrip
pub mod Sequences
pub mod Balance
pub mod Output
pub mod Parse
pub mod Serialize
pub mod Budget
pub mod Promises
mod Tests
use rtt_http.Common.{
  ℕ, suc, ◌+◌, ◌-◌, Bool, true, false, ◌||◌, Option, none, some, List, [], ◌∷◌, Bytes, ltb, ◌==◌,
  if◌then◌else◌, length, ◌≡◌, ◌≢◌, refl, ap, sym, ◌∙◌,
}
use rtt_http.Common.Int.{ℤ}

mutual
  -- `boost::json::value`.
  pub data Json (D : Type 0) : Type 0 where
    null : Json D
    boolean : Bool → Json D
    int64 : ℤ → Json D
    uint64 : ℕ → Json D
    double : D → Json D
    string : Bytes → Json D
    array : Items D → Json D
    object : Members D → Json D

  pub data Items (D : Type 0) : Type 0 where
    nil : Items D
    cons : Json D → Items D → Items D

  pub data Members (D : Type 0) : Type 0 where
    end : Members D
    member : Bytes → Json D → Members D → Members D

pub data CodecErrorCode : Type 0 where
  invalid_json duplicate_key invalid_utf8 type_mismatch depth_limit document_limit : CodecErrorCode
  allocation_limit unavailable invalid_data_source internal_error : CodecErrorCode

pub record JsonLimits : Type 0 where
  pub max_document_bytes : ℕ
  pub max_depth : ℕ
  pub max_allocation_bytes : ℕ

pub record CodecContext : Type 0 where
  pub limits : JsonLimits
  pub depth : ℕ
  pub remaining : ℕ

-- The constructor; `none` is the exception.
unfoldable pub make_context : JsonLimits → Option CodecContext
make_context limits =
    if limits.max_document_bytes == 0 || (limits.max_depth == 0 || limits.max_allocation_bytes == 0)
    then none
    else some (record { limits = limits; depth = 0; remaining = limits.max_document_bytes })

pub data Outcome {ℓ} (A : Type ℓ) : Type ℓ where
  ok : A → Outcome A
  err : CodecErrorCode → Outcome A

pub outcome_ne : {A : Type 0} {a : A} (e : CodecErrorCode) → ok a ≢ err e
outcome_ne e h = cc

-- A conversion in a context.
abbrev pub Conversion : Type 0 → Type 0
Conversion A = CodecContext → Outcome A × CodecContext

abbrev pub bind :
    {A B : Type 0} → Outcome A × CodecContext → (A → Conversion B) → Outcome B × CodecContext
bind p f = elim p.0 [ ok a ↦ f a p.1 | err e ↦ (err e, p.1) ]

bind_cases :
    {A B : Type 0} (p : Outcome A × CodecContext) (f : A → Conversion B) {b : B} {d : CodecContext}
    → bind p f ≡ (ok b, d)
    → {q : Outcome A × CodecContext} → q ≡ p
    → (a : A) × (c' : CodecContext) × (q ≡ (ok a, c')) × (f a c' ≡ (ok b, d))
bind_cases (ok a, c') f e h = (a, c', h, e)
bind_cases (err x, c') f e h = absurd (outcome_ne x (sym (ap (λ t. t.0) e)))

infixl 5 ◌>>=◌ ◌>>◌
abbrev pub ◌>>=◌ : {A B : Type 0} → Conversion A → (A → Conversion B) → Conversion B
m >>= f = λ c. bind (m c) f

abbrev pub ◌>>◌ : {B : Type 0} → Conversion (Unit {0}) → Conversion B → Conversion B
m >> k = m >>= λ _. k

abbrev pub return : {A : Type 0} → A → Conversion A
return a c = (ok a, c)

-- `codecFailure`.
abbrev pub fail : {A : Type 0} → CodecErrorCode → Conversion A
fail code c = (err code, c)

unfoldable pub enter : Conversion (Unit {0})
enter c =
    if c.depth == c.limits.max_depth
    then (err depth_limit, c)
    else (ok tt, record c { depth = c.depth + 1 })

unfoldable pub leave : CodecContext → CodecContext
leave c = if c.depth == 0 then c else record c { depth = c.depth - 1 }

unfoldable pub account : ℕ → Conversion (Unit {0})
account bytes c =
    if ltb c.remaining bytes
    then (err document_limit, c)
    else (ok tt, record c { remaining = c.remaining - bytes })

-- The steps of a chain, where the first one stays shut.
module _ {A B : Type 0} (m : Conversion A) (f : A → Conversion B) (c : CodecContext) where
  pub bind_ok : {a : A} {c' : CodecContext} → m c ≡ (ok a, c') → (m >>= f) c ≡ f a c'
  bind_ok e = ap (λ p. bind p f) e

  pub bind_err :
      {e : CodecErrorCode} {c' : CodecContext} → m c ≡ (err e, c') → (m >>= f) c ≡ (err e, c')
  bind_err e = ap (λ p. bind p f) e

  pub bind_inv :
      {b : B} {d : CodecContext}
      → (m >>= f) c ≡ (ok b, d)
      → (a : A) × (c' : CodecContext) × (m c ≡ (ok a, c')) × (f a c' ≡ (ok b, d))
  bind_inv e = bind_cases (m c) f e refl

module _ {B : Type 0} (m : Conversion (Unit {0})) (k : Conversion B) (c : CodecContext) where
  pub then_ok : {c' : CodecContext} → m c ≡ (ok tt, c') → (m >> k) c ≡ k c'
  then_ok = bind_ok m (λ _. k) c

  pub then_err :
      {e : CodecErrorCode} {c' : CodecContext} → m c ≡ (err e, c') → (m >> k) c ≡ (err e, c')
  then_err = bind_err m (λ _. k) c

  pub then_inv :
      {b : B} {d : CodecContext}
      → (m >> k) c ≡ (ok b, d)
      → (c' : CodecContext) × (m c ≡ (ok tt, c')) × (k c' ≡ (ok b, d))
  then_inv e = let (u, c', h, k') = bind_inv m (λ _. k) c e in (c', h, k')

pub then_return_inv :
    {B : Type 0} (m : Conversion (Unit {0})) (a : B) (c : CodecContext) {b : B} {d : CodecContext}
    → (m >> return a) c ≡ (ok b, d)
    → (b ≡ a) × (m c ≡ (ok tt, d))
then_return_inv m a c e = let (c', h, k) = then_inv m (return a) c e in (cc, h ∙ cc)

-- A body under a `CodecScope`: its destructor leaves, whatever the body returns.
abbrev pub leave_with : {A : Type 0} → Outcome A × CodecContext → Outcome A × CodecContext
leave_with p = (p.0, leave p.1)

abbrev pub entered :
    {A : Type 0} → Conversion A → Outcome (Unit {0}) × CodecContext → Outcome A × CodecContext
entered body (err e, c) = (err e, c)
entered body (ok _, c) = leave_with (body c)

unfoldable pub scope : {A : Type 0} → Conversion A → Conversion A
scope body c = entered body (enter c)

-- `none` is a mismatch that the code reports.
abbrev pub or_mismatch : {A : Type 0} → Option A → Conversion A
or_mismatch none = fail type_mismatch
or_mismatch (some a) = return a
