-- ===== src/Registry/Freeze/Chains.antt =====
-- The dependencies of the types that `freezeTypeCatalog` of src/type_protocol.cpp searches.
use rtt_http.Common.{false, some, List, [], ◌∷◌, ◌++◌, Bytes, ◌≡◌, ◌≢◌, ◌⊎◌, inl, inr, refl, subst}
use rtt_http.Common.Map.{Map, find, bytes_key}
use rtt_http.Registry.{TypeRegistration, Listed, first, later}
use rtt_http.Registry.Freeze.{Mark, fresh, active, finished, enum_fault}

pub Mark-cases : (m : Mark) → (m ≡ finished) ⊎ (m ≢ finished)
Mark-cases finished = inl refl
Mark-cases fresh = inr (λ e. cc)
Mark-cases active = inr (λ e. cc)

module _ {D : Type 0} (types : Map Bytes (TypeRegistration D)) where
  -- The definition refers to `d`, and `d` is a type that may stand there.
  pub record Resolves (r : TypeRegistration D) (d : Bytes) : Type 0 where
    pub target : TypeRegistration D
    pub found : find d types ≡ some target
    pub kinds : enum_fault r target ≡ false

  mutual
    -- A type whose dependencies are all there, and grounded in their turn: no chain of dependencies
    -- from it goes on for ever.
    pub data Grounded : Bytes → Type 0 where
      grounded :
          (name : Bytes) (r : TypeRegistration D)
          → find name types ≡ some r
          → AllGrounded r r.dependencies
          → Grounded name

    pub data AllGrounded : TypeRegistration D → List Bytes → Type 0 where
      none_left : (r : TypeRegistration D) → AllGrounded r []
      one_more :
          (r : TypeRegistration D) (d : Bytes) (ds : List Bytes)
          → Resolves r d
          → Grounded d
          → AllGrounded r ds
          → AllGrounded r (d ∷ ds)

  pub data Depends : Bytes → Bytes → Type 0 where
    depends :
        (name d : Bytes) (r : TypeRegistration D)
        → find name types ≡ some r
        → Listed d r.dependencies
        → Depends name d

  pub data Chain : Bytes → Bytes → Type 0 where
    link : {a b : Bytes} → Depends a b → Chain a b
    links : {a b c : Bytes} → Depends a b → Chain b c → Chain a c

  pub Chain-Depends : {a b c : Bytes} → Chain a b → Depends b c → Chain a c
  Chain-Depends (link s) t = links s (link t)
  Chain-Depends (links s more) t = links s (Chain-Depends more t)

  one_definition :
      (name : Bytes) (r s : TypeRegistration D)
      → find name types ≡ some r
      → find name types ≡ some s
      → r ≡ s
  one_definition name r s e f = cc

  Depends-Listed :
      {a b : Bytes} (r : TypeRegistration D)
      → find a types ≡ some r
      → Depends a b
      → Listed b r.dependencies
  Depends-Listed r e (depends a b s f l) =
      subst (λ t. Listed b t.dependencies) (one_definition a s r f e) l

  -- A cycle through a type goes through one of its dependencies.
  rotate : {a : Bytes} → Chain a a → (b : Bytes) × Depends a b × Chain b b
  rotate {a} (link s) = (a, s, link s)
  rotate (links {b = b} s more) = (b, s, Chain-Depends more s)

  mutual
    pub Grounded-acyclic : {a : Bytes} → Grounded a → Chain a a → ⊥
    Grounded-acyclic (grounded a r e all) cycle =
        let (b, s, cycle') = rotate cycle in AllGrounded-acyclic all (Depends-Listed r e s) cycle'

    AllGrounded-acyclic :
        {r : TypeRegistration D} {ds : List Bytes} {b : Bytes}
        → AllGrounded r ds
        → Listed b ds
        → Chain b b
        → ⊥
    AllGrounded-acyclic (none_left r) l cycle = elim l [ ]
    AllGrounded-acyclic (one_more r d ds s g all) first cycle = Grounded-acyclic g cycle
    AllGrounded-acyclic (one_more r d ds s g all) (later l) cycle = AllGrounded-acyclic all l cycle

  pub AllGrounded-concat :
      (r : TypeRegistration D) (ds : List Bytes) (d : Bytes)
      → AllGrounded r ds
      → Resolves r d
      → Grounded d
      → AllGrounded r (ds ++ d ∷ [])
  AllGrounded-concat r [] d all s g = one_more r d [] s g (none_left r)
  AllGrounded-concat r (e ∷ ds) d (one_more r' e' ds' s' g' all) s g =
      one_more r e (ds ++ d ∷ []) s' g' (AllGrounded-concat r ds d all s g)
