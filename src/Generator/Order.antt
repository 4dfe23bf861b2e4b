-- ===== src/Generator/Order.antt =====
-- internal/generator/yaml.go: the apply order. The objects are Kubernetes types: what the code asks
-- of them, their kind and their name, are parameters. sort.SliceStable is a stable insertion sort.
pub mod Less
pub mod Sorting
pub mod Laws
use kdef.Base.{
  ℕ, List, [], ◌∷◌, ◌++◌, map, Bool, true, false, not, if◌then◌else◌, ltb, nat_eq, Option, none,
  some,
}
use kdef.Base.Dict.{Dict, lookup}
use kdef.Base.Text.{Text, text, ◌==◌, ltb_text}

abbrev pub kind_apply_order : Dict ℕ
kind_apply_order =
    (text "Namespace", 0)
    ∷ (text "CustomResourceDefinition", 1)
    ∷ (text "CSIDriver", 1)
    ∷ (text "ServiceAccount", 2)
    ∷ (text "ClusterRole", 3)
    ∷ (text "ClusterRoleBinding", 4)
    ∷ (text "Role", 5)
    ∷ (text "RoleBinding", 6)
    ∷ (text "ConfigMap", 10)
    ∷ (text "Secret", 10)
    ∷ (text "SealedSecret", 10)
    ∷ (text "PersistentVolumeClaim", 11)
    ∷ (text "Service", 20)
    ∷ (text "Deployment", 30)
    ∷ (text "StatefulSet", 30)
    ∷ (text "DaemonSet", 30)
    ∷ (text "CronJob", 30)
    ∷ (text "Job", 30)
    ∷ (text "HorizontalPodAutoscaler", 40)
    ∷ (text "Ingress", 50)
    ∷ (text "Certificate", 50)
    ∷ []

abbrev pub kind_apply_order_default : ℕ
kind_apply_order_default = 25

unfoldable pub kind_rank : Text → ℕ
kind_rank kind = elim (lookup kind kind_apply_order) [
  | some r ↦ r
  | none ↦ kind_apply_order_default
]

pub record Manifest (O : Type 0) : Type 0 where
  pub object : O
  pub raw : Text

pub record Entry (O : Type 0) : Type 0 where
  pub key : Text
  pub rank : ℕ
  pub name : Text
  pub m : Manifest O

module _ {O : Type 0} where
  -- The comparison that is handed to sort.SliceStable.
  unfoldable pub less : Entry O → Entry O → Bool
  unfolding ltb_text
  less a b =
      if not (nat_eq a.rank b.rank)
      then ltb a.rank b.rank
      else if not (a.key == b.key)
      then ltb_text a.key b.key
      else ltb_text a.name b.name

  unfoldable pub insert_sorted : Entry O → List (Entry O) → List (Entry O)
  insert_sorted x [] = x ∷ []
  insert_sorted x (y ∷ ys) = if less y x then y ∷ insert_sorted x ys else x ∷ y ∷ ys

  unfoldable pub sort_stable : List (Entry O) → List (Entry O)
  unfolding insert_sorted less
  sort_stable [] = []
  sort_stable (x ∷ xs) = insert_sorted x (sort_stable xs)

  module _ (object_kind object_name : O → Text) where
    unfoldable pub entry_of : Text → Manifest O → Entry O
    entry_of key m = record {
      key = key;
      rank = kind_rank (object_kind m.object);
      name = object_name m.object;
      m = m;
    }

    -- The loops that fill `entries`, over the manifests in one of the orders of the map.
    unfoldable pub entries_of : Dict (List (Manifest O)) → List (Entry O)
    entries_of [] = []
    entries_of ((key, manifests) ∷ rest) = map (entry_of key) manifests ++ entries_of rest

    -- The manifests in the order in which RenderAllYAML writes them.
    unfoldable pub render_order : Dict (List (Manifest O)) → List (Entry O)
    unfolding entry_of entries_of sort_stable
    render_order all_manifests = sort_stable (entries_of all_manifests)
