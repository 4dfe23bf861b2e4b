-- ===== src/Generator/Merge.antt =====
-- internal/generator/yaml.go: deepMerge, over the maps that YAML is read into. A map is a list of
-- fields; the loops over it take the last field first, one of the orders that Go may take.
pub mod Laws
use kdef.Base.{Bool, Option, none, some, if◌then◌else◌}
use kdef.Base.Text.{Text, ◌==◌}
use kdef.Types.{Value, Fields, scalar, seq, object, end, field}

-- v, ok := m[k]
unfoldable pub get : Text → Fields → Option Value
get k end = none
get k (field j v m) = if j == k then some v else get k m

-- m[k] = v
unfoldable pub put : Text → Value → Fields → Fields
put k v end = field k v end
put k v (field j w m) = if j == k then field k v m else field j w (put k v m)

unfoldable mutual
  -- result, once the overlay's entries are merged into the copy of the base
  pub deep_merge : Fields → Fields → Fields
  deep_merge base end = base
  deep_merge base (field k v overlay) =
      let result = deep_merge base overlay in put k (merge_value (get k result) v) result

  -- The new value of a key: two maps are merged, else the overlay's value is taken.
  pub merge_value : Option Value → Value → Value
  merge_value old (scalar s) = scalar s
  merge_value old (seq vs) = seq vs
  merge_value none (object o) = object o
  merge_value (some (scalar s)) (object o) = object o
  merge_value (some (seq vs)) (object o) = object o
  merge_value (some (object b)) (object o) = object (deep_merge b o)
