-- ===== src/Tests/Manifests.antt =====
-- The service accounts, the apply order and the deep merge at concrete inputs.
use kdef.Base.{List, [], ◌∷◌, some, ◌≡◌, refl}
use kdef.Base.Dict.{Dict}
use kdef.Base.Text.{Text, text, ◌==◌}
use kdef.Generator.Merge.Laws.{IsMap, at, deep_merge_leaf}
use kdef.Generator.Merge.{deep_merge, get}
use kdef.Generator.Order.Laws.{render_order_lem, render_order-Reordered, swapped}
use kdef.Generator.Order.Sorting.{IsOrdered}
use kdef.Generator.Order.{Manifest, render_order, entries_of}
use kdef.Types.{Fields, scalar, object, end, field}
use mathlib.Core.List.{Perm}

-- An object that has a kind and a name and nothing else.
abbrev Object : Type 0
Object = Text × Text

abbrev object_kind : Object → Text
object_kind o = o.0

abbrev object_name : Object → Text
object_name o = o.1

abbrev manifests : Dict (List (Manifest Object))
manifests =
    (text "web", (record { object = (text "Deployment", text "web"); raw = [] }) ∷ [])
    ∷ (text "namespace-prod", (record { object = (text "Namespace", text "prod"); raw = [] }) ∷ [])
    ∷ []

abbrev manifests' : Dict (List (Manifest Object))
manifests' =
    (text "namespace-prod", (record { object = (text "Namespace", text "prod"); raw = [] }) ∷ [])
    ∷ (text "web", (record { object = (text "Deployment", text "web"); raw = [] }) ∷ [])
    ∷ []

render_order_lem_example :
    IsOrdered (render_order object_kind object_name manifests)
    × Perm
        (render_order object_kind object_name manifests)
        (entries_of object_kind object_name manifests)
render_order_lem_example = render_order_lem object_kind object_name manifests

render_order-Reordered_example :
    render_order object_kind object_name manifests ≡ render_order object_kind object_name manifests'
render_order-Reordered_example =
    render_order-Reordered object_kind object_name
      (swapped (text "web") (text "namespace-prod") _ _ [] (λ e. cc e))

abbrev base : Fields
base =
    field (text "spec")
      (object (
        field (text "replicas") (scalar (text "1"))
          (field (text "paused") (scalar (text "no")) end)))
      end

abbrev overlay : Fields
overlay = field (text "spec") (object (field (text "replicas") (scalar (text "2")) end)) end

deep_merge_leaf_example :
    at (text "spec" ∷ text "replicas" ∷ []) (object (deep_merge base overlay))
    ≡ some (scalar (text "2"))
unfolding at get ◌==◌ IsMap
deep_merge_leaf_example =
    deep_merge_leaf base overlay (text "spec" ∷ text "replicas" ∷ []) (refl, (refl, tt, tt), tt)
      (scalar (text "2")) refl refl
