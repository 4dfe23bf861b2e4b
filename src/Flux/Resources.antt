-- ===== src/Flux/Resources.antt =====
-- flux-controller/internal/controller/kdefrelease_controller.go: resourceID, objectFromResourceRef
-- and parseYAMLObjects. The group is read off the API version by the Kubernetes library.
pub mod Laws
use kdef.Base.{
  ℕ, zero, suc, List, [], ◌∷◌, ◌++◌, Bool, not, nat_eq, if◌then◌else◌, Option, none, some, Result,
  ok, err, ◌>>=◌,
}
use kdef.Base.Text.{Text, text, is_empty}
use kdef.Flux.Release.{ResourceRef}
use kdef.Types.{Fields, end}

-- An unstructured object: what the code reads of it, and the rest.
pub record Object : Type 0 where
  pub api_version : Text
  pub kind : Text
  pub namespace : Text
  pub name : Text
  pub content : Fields

-- strings.Cut at a character: what stands before and after its first occurrence.
unfoldable pub cut : ℕ → Text → Option (Text × Text)
cut sep [] = none
cut sep (c ∷ s) =
    let rest : Option (Text × Text) = elim (cut sep s) [
      | none ↦ none
      | some (before, after) ↦ some (c ∷ before, after)
    ] in
    if nat_eq c sep then some ([], s) else rest

-- strings.SplitN with a separator of one character.
unfoldable pub split_n : ℕ → Text → ℕ → List Text
unfolding cut
split_n sep s zero = []
split_n sep s (suc zero) = s ∷ []
split_n sep s (suc (suc n)) = elim (cut sep s) [
  | none ↦ s ∷ []
  | some (before, after) ↦ before ∷ split_n sep after (suc n)
]

abbrev pub underscore : ℕ
underscore = 95

unfoldable pub resource_id : (Text → Text) → Object → Text
resource_id group_of obj =
    obj.namespace
    ++ underscore ∷ (obj.name ++ underscore ∷ (group_of obj.api_version ++ underscore ∷ obj.kind))

-- inventory.Entries = append(inventory.Entries, ResourceRef{...})
unfoldable pub ref_of : (Text → Text) → Object → ResourceRef
unfolding resource_id
ref_of group_of obj = record { id = resource_id group_of obj; version = obj.api_version }

-- The object of the four parts of an id, and the error for any other number of parts.
unfoldable pub object_of_parts : ResourceRef → List Text → Result Object
object_of_parts ref (namespace ∷ name ∷ group ∷ kind ∷ []) = ok (record {
  api_version = ref.version;
  kind = kind;
  namespace = namespace;
  name = name;
  content = end;
})
object_of_parts ref _ = err (text "invalid resource ID: " ++ ref.id)

unfoldable pub object_from_resource_ref : ResourceRef → Result Object
unfolding object_of_parts split_n
object_from_resource_ref ref = object_of_parts ref (split_n underscore ref.id 4)

-- The loop over what the YAML decoder returns, up to the end of the input.
unfoldable pub parse_yaml_objects : List (Result Object) → Result (List Object)
parse_yaml_objects [] = ok []
parse_yaml_objects (err e ∷ decoded) = err (text "decode YAML: " ++ e)
parse_yaml_objects (ok obj ∷ decoded) = parse_yaml_objects decoded >>= λ objects.
    if is_empty obj.kind then ok objects else ok (obj ∷ objects)
