-- ===== src/Codec/Balance.antt =====
-- The context around the conversions of include/rtt/http/typed_codec.hpp: its depth, limits and
-- budget before and behind each of them.
use rtt_http.Common.{
  ℕ, ◌+◌, ◌≤◌, Bool, true, false, List, [], ◌∷◌, Bytes, ◌==◌, if◌then◌else◌, ◌≡◌, refl, ◌∙◌, arith,
  none, some, Option,
}
use rtt_http.Utf8.{valid_utf8}
use rtt_http.Codec.{
  Json, Items, nil, cons, boolean, string, array, CodecContext, Outcome, ok, err, Conversion,
  type_mismatch, invalid_utf8, CodecErrorCode, bind, ◌>>=◌, ◌>>◌, return, fail, enter, leave,
  account, scope, entered, or_mismatch,
}
use rtt_http.Codec.Text.{account_chars, account_json_string}
use rtt_http.Codec.Integers.{
  JsonConversion, DoubleOps, IntType, encode_integer, decode_integer, encode_bool, decode_bool,
  integer_conversion, bool_conversion, decode_wide, decode_number,
}
use rtt_http.Codec.Containers.{
  size, string_conversion, encode_string, decode_string, vector_conversion, array_conversion,
  encode_items, decode_items, reserve, encode_vector_body, encode_vector, decode_vector_body,
  decode_vector, encode_array_body, encode_array, decode_array_body, decode_array,
}

pub record Kept (c d : CodecContext) : Type 0 where
  pub limits : d.limits ≡ c.limits
  pub depth : d.depth ≡ c.depth
  pub remaining : d.remaining ≤ c.remaining

-- `of` is the conversion in question.
pub record Keeps {A : Type 0} (of : Conversion A) : Type 0 where
  pub at : (c : CodecContext) → Kept c (of c).1

Kept-refl : (c : CodecContext) → Kept c c
Kept-refl c = record { limits = refl; depth = refl; remaining = omega arith }

pub Kept-trans : {c d e : CodecContext} → Kept c d → Kept d e → Kept c e
Kept-trans h k = record {
  limits = k.limits ∙ h.limits;
  depth = k.depth ∙ h.depth;
  remaining = omega arith;
}

bind-Kept :
    {A B : Type 0} (c : CodecContext) (p : Outcome A × CodecContext) (f : A → Conversion B)
    → Kept c p.1
    → ((a : A) → Keeps (f a))
    → Kept c (bind p f).1
bind-Kept c (ok a, d) f h k = Kept-trans h ((k a).at d)
bind-Kept c (err e, d) f h k = h

bind-Keeps :
    {A B : Type 0} {m : Conversion A} {f : A → Conversion B}
    → Keeps m
    → ((a : A) → Keeps (f a))
    → Keeps (m >>= f)
bind-Keeps {m = m} {f = f} h k = record { at = λ c. bind-Kept c (m c) f (h.at c) k }

then-Keeps :
    {B : Type 0} {m : Conversion (Unit {0})} {k : Conversion B} → Keeps m → Keeps k → Keeps (m >> k)
then-Keeps h g = bind-Keeps h (λ _. g)

return-Keeps : {A : Type 0} (a : A) → Keeps (return a)
return-Keeps a = record { at = Kept-refl }

fail-Keeps : {A : Type 0} (e : CodecErrorCode) → Keeps (fail {A = A} e)
fail-Keeps e = record { at = Kept-refl }

account-Keeps : (bytes : ℕ) → Keeps (account bytes)
unfolding account
account-Keeps bytes = record { at = λ c. ground arith }

leave-Kept : (c d : CodecContext) → Kept (record c { depth = c.depth + 1 }) d → Kept c (leave d)
unfolding leave
leave-Kept c d h = ground arith

entered-Kept :
    {A : Type 0} (body : Conversion A) (c : CodecContext) (p : Outcome (Unit {0}) × CodecContext)
    → Keeps body
    → enter c ≡ p
    → Kept c (entered body p).1
unfolding enter
entered-Kept body c (err e, d) h q = ground arith
entered-Kept body c (ok _, d) h q = leave-Kept c (body d).1 (Kept-trans (opened q) (h.at d))
  where
    opened : enter c ≡ (ok tt, d) → Kept (record c { depth = c.depth + 1 }) d
    opened q = ground arith

scope-Keeps : {A : Type 0} {body : Conversion A} → Keeps body → Keeps (scope body)
unfolding scope
scope-Keeps {body = body} h = record { at = λ c. entered-Kept body c (enter c) h refl }

or_mismatch-Keeps : {A : Type 0} (o : Option A) → Keeps (or_mismatch o)
or_mismatch-Keeps none = fail-Keeps type_mismatch
or_mismatch-Keeps (some a) = return-Keeps a

if-Keeps :
    {A : Type 0} (b : Bool) {m k : Conversion A} → Keeps m → Keeps k → Keeps (if b then m else k)
if-Keeps true h g = h
if-Keeps false h g = g

account_chars-Keeps : (text : Bytes) → Keeps (account_chars text)
unfolding account_chars
account_chars-Keeps [] = return-Keeps tt
account_chars-Keeps (c ∷ text) = then-Keeps (account-Keeps _) (account_chars-Keeps text)

account_json_string-Keeps : (text : Bytes) → Keeps (account_json_string text)
unfolding account_json_string
account_json_string-Keeps text =
    if-Keeps (valid_utf8 text) (then-Keeps (account-Keeps 2) (account_chars-Keeps text))
      (fail-Keeps invalid_utf8)

pub record IsBalanced {D T : Type 0} (conv : JsonConversion D T) : Type 0 where
  pub encodes : (v : T) → Keeps (conv.encode v)
  pub decodes : (j : Json D) → Keeps (conv.decode j)

pub integer-IsBalanced :
    {D : Type 0} (ops : DoubleOps D) (t : IntType) → IsBalanced (integer_conversion ops t)
unfolding encode_integer decode_integer
integer-IsBalanced ops t = record {
  encodes = λ v. then-Keeps (account-Keeps _) (return-Keeps _);
  decodes =
      λ j. or_mismatch-Keeps (if t.bits == 64 then decode_wide ops t j else decode_number ops t j);
}

decode_bool-Keeps : {D : Type 0} (j : Json D) → Keeps (decode_bool j)
unfolding decode_bool
decode_bool-Keeps (boolean b) = return-Keeps b
decode_bool-Keeps j = fail-Keeps type_mismatch

pub bool-IsBalanced : {D : Type 0} → IsBalanced (bool_conversion {D = D})
unfolding encode_bool
bool-IsBalanced = record {
  encodes = λ v. then-Keeps (account-Keeps _) (return-Keeps _);
  decodes = decode_bool-Keeps;
}

decode_string-Keeps : {D : Type 0} (j : Json D) → Keeps (decode_string j)
unfolding decode_string
decode_string-Keeps (string text) = then-Keeps (account_json_string-Keeps text) (return-Keeps text)
decode_string-Keeps j = fail-Keeps type_mismatch

pub string-IsBalanced : {D : Type 0} → IsBalanced (string_conversion {D = D})
unfolding encode_string
string-IsBalanced = record {
  encodes = λ v. then-Keeps (account_json_string-Keeps v) (return-Keeps _);
  decodes = decode_string-Keeps;
}

module _ {D T : Type 0} (element : JsonConversion D T) (balanced : IsBalanced element) where
  encode_items-Keeps : (vs : List T) → Keeps (encode_items element vs)
  unfolding encode_items
  encode_items-Keeps [] = return-Keeps nil
  encode_items-Keeps (v ∷ vs) =
      bind-Keeps (balanced.encodes v)
        λ j. bind-Keeps (encode_items-Keeps vs) λ js. return-Keeps (cons j js)

  decode_items-Keeps : (xs : Items D) → Keeps (decode_items element xs)
  unfolding decode_items
  decode_items-Keeps nil = return-Keeps []
  decode_items-Keeps (cons x xs) =
      bind-Keeps (balanced.decodes x)
        λ v. bind-Keeps (decode_items-Keeps xs) λ vs. return-Keeps (v ∷ vs)

  reserve-Keeps : (vs : List T) → Keeps (reserve element vs)
  unfolding reserve
  reserve-Keeps vs = record { at = λ c. ground arith }

  encode_vector_body-Keeps : (vs : List T) → Keeps (encode_vector_body element vs)
  unfolding encode_vector_body
  encode_vector_body-Keeps vs = then-Keeps (account-Keeps 2) (
      then-Keeps (account-Keeps _) (
        then-Keeps (reserve-Keeps vs)
          (bind-Keeps (encode_items-Keeps vs) λ js. return-Keeps (array js))))

  decode_vector_body-Keeps : (j : Json D) → Keeps (decode_vector_body element j)
  unfolding decode_vector_body
  decode_vector_body-Keeps (array xs) = then-Keeps (account-Keeps _) (decode_items-Keeps xs)
  decode_vector_body-Keeps j = fail-Keeps type_mismatch

  -- Vectors of balanced elements are balanced: `CodecScope` leaves on every path what it entered.
  pub vector-IsBalanced : IsBalanced (vector_conversion element)
  unfolding encode_vector decode_vector
  vector-IsBalanced = record {
    encodes = λ vs. scope-Keeps (encode_vector_body-Keeps vs);
    decodes = λ j. scope-Keeps (decode_vector_body-Keeps j);
  }

  module _ (count : ℕ) where
    encode_array_body-Keeps : (vs : List T) → Keeps (encode_array_body element count vs)
    unfolding encode_array_body
    encode_array_body-Keeps vs =
        then-Keeps (account-Keeps _)
          (bind-Keeps (encode_items-Keeps vs) λ js. return-Keeps (array js))

    decode_array_body-Keeps : (j : Json D) → Keeps (decode_array_body element count j)
    unfolding decode_array_body
    decode_array_body-Keeps (array xs) =
        if-Keeps (size xs == count) (then-Keeps (account-Keeps _) (decode_items-Keeps xs))
          (fail-Keeps type_mismatch)
    decode_array_body-Keeps j = fail-Keeps type_mismatch

    pub array-IsBalanced : IsBalanced (array_conversion element count)
    unfolding encode_array decode_array
    array-IsBalanced = record {
      encodes = λ vs. scope-Keeps (encode_array_body-Keeps vs);
      decodes = λ j. scope-Keeps (decode_array_body-Keeps j);
    }
