-- ===== src/Flux/Prune.antt =====
-- flux-controller/internal/controller/kdefrelease_controller.go: pruneObjects.
pub mod Laws
use kdef.Base.{
  ℕ, ◌+◌, List, [], ◌∷◌, ◌++◌, map, Bool, true, if◌then◌else◌, Option, none, some, ok, err,
}
use kdef.Base.Dict.{Dict, set_of, contains}
use kdef.Base.Text.{Text, text}
use kdef.Flux.Apply.{Client, DeleteError, not_found, failed}
use kdef.Flux.Release.{ResourceRef}
use kdef.Flux.Resources.{object_from_resource_ref}

-- The cluster, the number of objects that were deleted, and the error if there was one.
pub record Pruned (W : Type 0) : Type 0 where
  pub cluster : W
  pub count : ℕ
  pub error : Option Text

-- if err != nil && !errors.IsNotFound(err)
abbrev pub failure : Option DeleteError → Option Text
failure none = none
failure (some not_found) = none
failure (some (failed e)) = some e

pub delete_error : ResourceRef → Text → Text
delete_error ref e = text "delete " ++ (ref.id ++ (text ": " ++ e))

module _ {W : Type 0} (client : Client W) (new_ids : Dict Bool) where
  -- The loop over the old entries, with the number of those that were pruned.
  unfoldable pub prune_from : List ResourceRef → ℕ → W → Pruned W
  prune_from [] count cluster = record { cluster = cluster; count = count; error = none }
  prune_from (ref ∷ refs) count cluster =
      let skipped = prune_from refs count cluster in
      let pruned : Pruned W = elim (object_from_resource_ref ref) [
        | err e ↦ prune_from refs count cluster
        | ok obj ↦
            let (cluster', result) = client.delete obj cluster in
            elim (failure result) [
              | none ↦ prune_from refs (count + 1) cluster'
              | some e ↦ record {
                cluster = cluster';
                count = count;
                error = some (delete_error ref e);
              }
            ]
      ] in
      if contains ref.id new_ids then skipped else pruned

unfoldable pub prune_objects :
    {W : Type 0} → Client W → List ResourceRef → List ResourceRef → W → Pruned W
unfolding prune_from
prune_objects client old_entries new_entries cluster =
    prune_from client (set_of (map (λ ref. ref.id) new_entries)) old_entries 0 cluster
