-- ===== src/Publication/Types.antt =====
-- `ObjectModel::types` of src/object_model.cpp: the descriptions of the types that a resource refers
-- to. `pending` is a list whose head is the back of the vector. The loop runs on fuel: one more than
-- the references and the dependencies of all types is enough.
pub mod Ends
pub mod Reach
use rtt_http.Common.{
  ℕ, zero, suc, ◌+◌, Bool, true, false, Option, none, some, List, [], ◌∷◌, Bytes, codes, length,
  if◌then◌else◌, bytes_eq,
}
use rtt_http.Common.Map.{Map, find, bytes_key}
use rtt_http.Codec.{Json, Members, null, boolean, string, object, end, member}
use rtt_http.Registry.{TypeBinding, if_contains}

-- `emplace` of a key that the object does not have.
unfoldable pub append_member : {D : Type 0} → Members D → Bytes → Json D → Members D
append_member end name j = member name j end
append_member (member k v ms) name j = member k v (append_member ms name j)

-- The dependencies, one `push_back` after the other.
unfoldable pub push_all : List Bytes → List Bytes → List Bytes
push_all [] pending = pending
push_all (d ∷ ds) pending = push_all ds (d ∷ pending)

unfoldable pub dependency_count : {D : Type 0} → Map Bytes (TypeBinding D) → ℕ
dependency_count [] = 0
dependency_count ((name, binding) ∷ rest) =
    length binding.registration.dependencies + dependency_count rest

module _ {D : Type 0} (catalog : Map Bytes (TypeBinding D)) (diagnostics : Map Bytes Bytes) where
  -- The description of a type that has no binding.
  unfoldable pub unsupported : Bytes → Members D
  unfolding find
  unsupported name = member (codes "kind") null (
      member (codes "jsonSupported") (boolean false) (
        member (codes "reason")
          (string (elim (find name diagnostics) [
            | none ↦ codes "no registered HTTP JSON codec"
            | some reason ↦ reason
          ]))
          end))

  unfoldable pub describe_type : Bytes → Json D
  unfolding find unsupported
  describe_type name = elim (find name catalog) [
    | some binding ↦ object binding.registration.descriptor
    | none ↦ object (unsupported name)
  ]

  -- One round, for the name that was popped.
  unfoldable pub visit_type : Bytes → List Bytes → Members D → List Bytes × Members D
  unfolding if_contains find push_all append_member describe_type
  visit_type name pending result = elim (if_contains name result) [
    | some j ↦ (pending, result)
    | none ↦ (
      elim (find name catalog) [
        | some binding ↦ push_all binding.registration.dependencies pending
        | none ↦ pending
      ],
      append_member result name (describe_type name),
    )
  ]

  unfoldable pub types_from : ℕ → List Bytes → Members D → Option (Members D)
  unfolding visit_type
  types_from zero pending result = none
  types_from (suc fuel) [] result = some result
  types_from (suc fuel) (name ∷ pending) result =
      types_from fuel (visit_type name pending result).0 (visit_type name pending result).1

  -- `references` in the order of the set.
  unfoldable pub describe_types : List Bytes → Option (Members D)
  unfolding types_from push_all dependency_count
  describe_types references =
      types_from (suc (length references + dependency_count catalog)) (push_all references []) end
