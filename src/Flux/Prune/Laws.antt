-- ===== src/Flux/Prune/Laws.antt =====
-- The deletes that pruneObjects asks of the API server.
use kdef.Base.{
  ℕ, ◌+◌, List, [], ◌∷◌, ◌++◌, map, Bool, true, false, if◌then◌else◌, none, some, ◌≡◌, refl, sym,
  ap, ◌∙◌, arith, all, Bool-cases, Option-cases, inl, inr,
}
use kdef.Base.Dict.{Dict, contains, set_of, contains-set_of}
use kdef.Base.Lists.{All, mem, map-map}
use kdef.Base.Text.{Text}
use kdef.Flux.Apply.{Client}
use kdef.Flux.Prune.{Pruned, failure, prune_from, prune_objects, delete_error}
use kdef.Flux.Recording.{Call, Recorded, delete_call, recording_client, deletes}
use kdef.Flux.Resources.{Object, ref_of, resource_id}
use kdef.Flux.Resources.Laws.{is_well_named, object_from_resource_ref-ref_of}
use kdef.Types.{end}
use mathlib.Core.List.{append_assoc, append-nil}

-- What an entry of the inventory tells of its object.
abbrev pub bare : Object → Object
bare o = record o { content = end }

module _ (group_of : Text → Text) where
  abbrev pub ids : List Object → List Text
  ids os = map (resource_id group_of) os

  -- The objects, without their contents, of which the id is not among these.
  unfoldable pub stale_from : List Object → List Text → List Object
  stale_from [] known = []
  stale_from (o ∷ os) known =
      let rest = stale_from os known in
      if mem (resource_id group_of o) known then rest else bare o ∷ rest

  -- No stale object has one of the ids.
  pub stale_from-unknown :
      (os : List Object) (known : List Text)
      → All (λ o. mem (resource_id group_of o) known ≡ false) (stale_from os known)
  unfolding stale_from resource_id
  stale_from-unknown [] known = tt
  stale_from-unknown (o ∷ os) known = elim (Bool-cases (mem (resource_id group_of o) known)) [
    | inl kept ↦ rw (kept, stale_from) (stale_from-unknown os known)
    | inr stale ↦ rw (stale, stale_from) (stale, stale_from-unknown os known)
  ]

module _ {W : Type 0} (C : Type 0) (group_of : Text → Text) (client : Client W) where
  -- Every stale object is deleted, or those before the first whose delete is refused, which is the
  -- last call; a delete that does not find the object is none that is refused.
  pub data IsPruned (stale : List Object) (before : List (Call C)) (result : Pruned (Recorded W C))
      : Type 0 where
    all_deleted :
        result.cluster.0 ≡ before ++ deletes stale
        → result.error ≡ none
        → IsPruned stale before result
    delete_refused :
        (deleted later : List Object) (o : Object) (e : Text)
        → stale ≡ deleted ++ o ∷ later
        → result.cluster.0 ≡ before ++ (deletes deleted ++ delete_call o (some e) ∷ [])
        → result.error ≡ some (delete_error (ref_of group_of o) e)
        → IsPruned stale before result

  abbrev watched : Client (Recorded W C)
  watched = recording_client client

  -- A further delete before the others.
  IsPruned-cons :
      (o : Object) (stale : List Object) (before : List (Call C)) (result : Pruned (Recorded W C))
      → IsPruned stale (before ++ delete_call o none ∷ []) result
      → IsPruned (o ∷ stale) before result
  IsPruned-cons o stale before result (all_deleted calls given) =
      all_deleted (calls ∙ append_assoc before (delete_call o none ∷ []) (deletes stale)) given
  IsPruned-cons o stale before result (delete_refused deleted later p e parts calls given) =
      delete_refused (o ∷ deleted) later p e (ap (λ l. o ∷ l) parts)
        (calls
          ∙ append_assoc before (delete_call o none ∷ [])
              (deletes deleted ++ delete_call p (some e) ∷ []))
        given

  module _ (new_ids : Dict Bool) where
    module _ (o : Object) (olds : List Object) (count : ℕ) (log : List (Call C)) (w : W) where
      prune_from_keep :
          contains (resource_id group_of o) new_ids ≡ true
          → prune_from watched new_ids (map (ref_of group_of) (o ∷ olds)) count (log, w)
            ≡ prune_from watched new_ids (map (ref_of group_of) olds) count (log, w)
      unfolding prune_from ref_of
      prune_from_keep kept = ground arith

      module _ (stale : contains (resource_id group_of o) new_ids ≡ false)
          (well : is_well_named group_of o ≡ true) where
        prune_from_delete :
            failure (client.delete (bare o) w).1 ≡ none
            → prune_from watched new_ids (map (ref_of group_of) (o ∷ olds)) count (log, w)
              ≡ prune_from watched new_ids
                  (map (ref_of group_of) olds)
                  (count + 1)
                  (log ++ delete_call (bare o) none ∷ [], (client.delete (bare o) w).0)
        unfolding prune_from ref_of recording_client
        prune_from_delete done = ground (arith, object_from_resource_ref-ref_of group_of o well)

        prune_from_refused :
            {e : Text}
            → failure (client.delete (bare o) w).1 ≡ some e
            → prune_from watched new_ids (map (ref_of group_of) (o ∷ olds)) count (log, w)
              ≡ record {
                cluster = (log ++ delete_call (bare o) (some e) ∷ [], (client.delete (bare o) w).0);
                count = count;
                error = some (delete_error (ref_of group_of o) e);
              }
        unfolding prune_from ref_of recording_client
        prune_from_refused denied = ground (arith, object_from_resource_ref-ref_of group_of o well)

    module _ (known : List Text) (agree : (k : Text) → contains k new_ids ≡ mem k known) where
      prune_from-IsPruned :
          (olds : List Object) (count : ℕ) (s : Recorded W C)
          → all (is_well_named group_of) olds ≡ true
          → IsPruned
              (stale_from group_of olds known)
              s.0
              (prune_from watched new_ids (map (ref_of group_of) olds) count s)
      unfolding stale_from all prune_from ref_of
      prune_from-IsPruned [] count s h = all_deleted (sym (append-nil s.0)) refl
      prune_from-IsPruned (o ∷ olds) count (log, w) h =
          let well : is_well_named group_of o ≡ true = ground arith in
          let wells : all (is_well_named group_of) olds ≡ true = ground arith in
          let same = agree (resource_id group_of o) in
          elim (Bool-cases (mem (resource_id group_of o) known)) [
            | inl kept ↦
                rw (prune_from_keep o olds count log w (same ∙ kept), kept, stale_from)
                  (prune_from-IsPruned olds count (log, w) wells)
            | inr stale ↦ elim (Option-cases (failure (client.delete (bare o) w).1)) [
              | inl done ↦
                  let after : Recorded W C =
                    (log ++ delete_call (bare o) none ∷ [], (client.delete (bare o) w).0) in
                  rw
                    (
                      prune_from_delete o olds count log w (same ∙ stale) well done,
                      stale,
                      stale_from,
                    )
                    (IsPruned-cons (bare o) (stale_from group_of olds known) log _
                      (prune_from-IsPruned olds (count + 1) after wells))
              | inr (e, denied) ↦
                  rw
                    (
                      prune_from_refused o olds count log w (same ∙ stale) well denied,
                      stale,
                      stale_from,
                    )
                    (delete_refused [] (stale_from group_of olds known) (bare o) e refl refl refl)
            ]
          ]

  module _ (olds news : List Object) (s : Recorded W C) where
    contains-new_ids :
        (k : Text)
        → contains k (set_of (map (λ r. r.id) (map (ref_of group_of) news)))
          ≡ mem k (ids group_of news)
    unfolding ref_of
    contains-new_ids k =
        contains-set_of k (map (λ r. r.id) (map (ref_of group_of) news))
        ∙ ap (mem k) (map-map (λ r. r.id) (ref_of group_of) news)

    -- pruneObjects deletes the objects of the old inventory whose id the new one lacks, in the order
    -- of the old inventory and each by API version, kind, namespace and name, up to the first delete
    -- that is refused, which is its error; it makes no other call. The objects of the old inventory
    -- have no underscore in namespace, name and group.
    pub prune_objects-IsPruned :
        all (is_well_named group_of) olds ≡ true
        → IsPruned (stale_from group_of olds (ids group_of news)) s.0 (
            prune_objects
              (recording_client client)
              (map (ref_of group_of) olds)
              (map (ref_of group_of) news)
              s)
    unfolding prune_objects
    prune_objects-IsPruned wells =
        prune_from-IsPruned _ (ids group_of news) contains-new_ids olds 0 s wells
