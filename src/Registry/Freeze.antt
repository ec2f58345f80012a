-- ===== src/Registry/Freeze.antt =====
-- `freezeTypeCatalog` of src/type_protocol.cpp: the depth-first search over the dependencies with
-- its explicit stack. The marks 0, 1 and 2 are `fresh`, `active` and `finished`; a frame is the name
-- and the definition with the dependencies that are left, the top of the stack first. The search
-- runs on fuel, and one more than twice the number of types and dependencies is enough.
pub mod Rounds
pub mod Ends
pub mod Finished
pub mod Chains
pub mod Sound
pub mod Faults
use rtt_http.Common.{
  ℕ, zero, suc, ◌+◌, Bool, true, false, ◌&&◌, not, Option, none, some, List, [], ◌∷◌, Bytes, codes,
  length, if◌then◌else◌, bytes_eq,
}
use rtt_http.Common.Map.{Map, find, bytes_key}
use rtt_http.Codec.{Json, string}
use rtt_http.Registry.{TypeRegistration, if_contains}

pub data Mark : Type 0 where
  fresh active finished : Mark

pub data FreezeError : Type 0 where
  slot_changed enum_not_integer : FreezeError
  missing_dependency recursive_definition : Bytes → FreezeError

pub record Frame (D : Type 0) : Type 0 where
  pub name : Bytes
  pub definition : TypeRegistration D
  pub left : List Bytes

-- What a round leaves: the marks and the stack, or an error.
pub data Next (D : Type 0) : Type 0 where
  go : (Bytes → Mark) → List (Frame D) → Next D
  stop : FreezeError → Next D

-- The frame of a definition that is entered.
abbrev pub entered : {D : Type 0} → Bytes → TypeRegistration D → Frame D
entered name definition = record {
  name = name;
  definition = definition;
  left = definition.dependencies;
}

pub data Searched : Type 0 where
  out_of_fuel : Searched
  fault : FreezeError → Searched
  done : (Bytes → Mark) → Searched

unfoldable pub mark : (Bytes → Mark) → Bytes → Mark → Bytes → Mark
mark marks name m other = if bytes_eq name other then m else marks other

-- `descriptor.at("kind") == kind`.
unfoldable pub has_kind : {D : Type 0} → Bytes → TypeRegistration D → Bool
unfolding if_contains
has_kind kind r = elim (if_contains (codes "kind") r.descriptor) [
  | some (string text) ↦ bytes_eq text kind
  | _ ↦ false
]

unfoldable pub enum_fault : {D : Type 0} → TypeRegistration D → TypeRegistration D → Bool
unfolding has_kind
enum_fault definition referenced =
    has_kind (codes "enum") definition && not (has_kind (codes "integer") referenced)

-- The types and their dependencies, counted.
unfoldable pub weight : {D : Type 0} → Map Bytes (TypeRegistration D) → ℕ
weight [] = 0
weight ((name, definition) ∷ rest) = suc (length definition.dependencies) + weight rest

module _ {D : Type 0} (types : Map Bytes (TypeRegistration D)) where
  -- One round of the loop over the stack.
  unfoldable pub round : (Bytes → Mark) → Frame D → List (Frame D) → Next D
  unfolding mark enum_fault
  round marks frame stack = elim frame.left [
    | [] ↦ go (mark marks frame.name finished) stack
    | dependency ∷ left ↦ elim (find dependency types) [
      | none ↦ stop (missing_dependency dependency)
      | some referenced ↦
          if enum_fault frame.definition referenced
          then stop enum_not_integer
          else elim (marks dependency) [
            | active ↦ stop (recursive_definition dependency)
            | finished ↦ go marks (record frame { left = left } ∷ stack)
            | fresh ↦
                go (mark marks dependency active)
                  (entered dependency referenced ∷ record frame { left = left } ∷ stack)
          ]
    ]
  ]

  unfoldable pub search_from : ℕ → (Bytes → Mark) → List (Frame D) → Searched
  unfolding round
  search_from zero marks stack = out_of_fuel
  search_from (suc fuel) marks [] = done marks
  search_from (suc fuel) marks (frame ∷ stack) = elim (round marks frame stack) [
    | go marks' stack' ↦ search_from fuel marks' stack'
    | stop e ↦ fault e
  ]

  -- The loop over the types.
  unfoldable pub search_all : ℕ → (Bytes → Mark) → Map Bytes (TypeRegistration D) → Searched
  search_all fuel marks [] = done marks
  search_all fuel marks ((name, definition) ∷ rest) = elim (marks name) [
    | finished ↦ search_all fuel marks rest
    | _ ↦ elim (search_from fuel (mark marks name active) (entered name definition ∷ [])) [
      | done marks' ↦ search_all fuel marks' rest
      | fault e ↦ fault e
      | out_of_fuel ↦ out_of_fuel
    ]
  ]

  unfoldable pub search_types : Searched
  unfolding search_all search_from weight
  search_types = search_all (suc (weight types + weight types)) (λ name. fresh) types
