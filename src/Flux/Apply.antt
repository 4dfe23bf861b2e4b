-- ===== src/Flux/Apply.antt =====
-- flux-controller/internal/controller/kdefrelease_controller.go: applyOrder and applyObjects. The
-- cluster is a state that the client of the Kubernetes library changes; a call returns an error or
-- nothing. sort.SliceStable is a stable insertion sort.
pub mod Laws
pub mod Sorting
use kdef.Base.{ℕ, List, [], ◌∷◌, ◌++◌, ltb, if◌then◌else◌, Option, none, some, Result, ok, err}
use kdef.Base.Dict.{Dict, lookup}
use kdef.Base.Text.{Text, text}
use kdef.Flux.Release.{ResourceRef}
use kdef.Flux.Resources.{Object, ref_of}
use mathlib.Core.Option

pub data DeleteError : Type 0 where
  not_found : DeleteError
  failed : Text → DeleteError

pub record Client (W : Type 0) : Type 0 where
  pub encode : Object → Result Text
  pub patch : Object → Text → W → W × Option Text
  pub delete : Object → W → W × Option DeleteError

-- The cases of the switch.
abbrev pub apply_orders : Dict ℕ
apply_orders =
    (text "Namespace", 0)
    ∷ (text "CustomResourceDefinition", 0)
    ∷ (text "ConfigMap", 1)
    ∷ (text "Secret", 1)
    ∷ (text "SealedSecret", 1)
    ∷ (text "PersistentVolumeClaim", 2)
    ∷ (text "ServiceAccount", 3)
    ∷ (text "ClusterRole", 3)
    ∷ (text "Role", 3)
    ∷ (text "ClusterRoleBinding", 4)
    ∷ (text "RoleBinding", 4)
    ∷ (text "Service", 4)
    ∷ (text "Deployment", 5)
    ∷ (text "DaemonSet", 5)
    ∷ (text "StatefulSet", 5)
    ∷ (text "CronJob", 5)
    ∷ (text "Ingress", 6)
    ∷ (text "Certificate", 6)
    ∷ (text "HorizontalPodAutoscaler", 7)
    ∷ []

unfoldable pub apply_order : Text → ℕ
apply_order kind = elim (lookup kind apply_orders) [ some order ↦ order | none ↦ 8 ]

unfoldable pub insert_object : Object → List Object → List Object
insert_object obj [] = obj ∷ []
insert_object obj (first ∷ rest) =
    if ltb (apply_order first.kind) (apply_order obj.kind)
    then first ∷ insert_object obj rest
    else obj ∷ first ∷ rest

unfoldable pub sort_objects : List Object → List Object
unfolding insert_object
sort_objects [] = []
sort_objects (obj ∷ objects) = insert_object obj (sort_objects objects)

-- The cluster, the inventory, and the error if there was one.
pub record Applied (W : Type 0) : Type 0 where
  pub cluster : W
  pub inventory : List ResourceRef
  pub error : Option Text

pub encode_error : Object → Text → Text
encode_error obj e = text "encode " ++ (obj.kind ++ (text "/" ++ (obj.name ++ (text ": " ++ e))))

pub apply_error : Object → Text → Text
apply_error obj e =
    text "apply "
    ++ (obj.kind ++ (text "/" ++ (obj.name ++ (text " (" ++ (obj.namespace ++ (text "): " ++ e))))))

module _ {W : Type 0} (group_of : Text → Text) (client : Client W) where
  -- One round of the loop, up to the error that ends it.
  unfoldable pub apply_object : Object → W → W × Option Text
  apply_object obj cluster = elim (client.encode obj) [
    | err e ↦ (cluster, some (encode_error obj e))
    | ok encoded ↦
        let (cluster', error) = client.patch obj encoded cluster in
        (cluster', Option.map (apply_error obj) error)
  ]

  unfoldable pub apply_from : List Object → List ResourceRef → W → Applied W
  apply_from [] inventory cluster = record {
    cluster = cluster;
    inventory = inventory;
    error = none;
  }
  apply_from (obj ∷ objects) inventory cluster =
      let (cluster', error) = apply_object obj cluster in
      elim error [
        | some e ↦ record { cluster = cluster'; inventory = inventory; error = some e }
        | none ↦ apply_from objects (inventory ++ ref_of group_of obj ∷ []) cluster'
      ]

  unfoldable pub apply_objects : List Object → W → Applied W
  unfolding apply_from apply_object
  apply_objects objects cluster = apply_from (sort_objects objects) [] cluster
