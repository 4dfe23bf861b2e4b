-- ===== src/Flux/Reconcile/Laws.antt =====
-- The calls of a reconcile from the rendered objects on, and what it asks to record in the status.
use kdef.Base.{
  List, [], ◌∷◌, ◌++◌, map, true, false, none, some, ◌≡◌, refl, sym, ap, ◌∙◌, arith, all,
  Result-cases, inl, inr,
}
use kdef.Base.Lists.{All, All-append_right, mem, map-map}
use kdef.Base.Text.{Text, text}
use kdef.Flux.Apply.{Client, sort_objects, apply_objects}
use kdef.Flux.Apply.Laws.{apply_objects_all}
use kdef.Flux.Apply.Sorting.{IsOrdered, sort_objects-IsOrdered, sort_objects-perm}
use kdef.Flux.Prune.{Pruned, prune_objects}
use kdef.Flux.Prune.Laws.{
  IsPruned, all_deleted, delete_refused, ids, stale_from, stale_from-unknown,
  prune_objects-IsPruned,
}
use kdef.Flux.Reconcile.{
  StatusClient, patched, fail_with_error, prune_stale, succeeded_release, apply_rendered, length,
}
use kdef.Flux.Recording.{
  Recorded, delete_call, status_call, recording_client, recording_statuses, patches, deletes,
}
use kdef.Flux.Release.{KdefRelease, ResourceRef}
use kdef.Flux.Resources.{Object, ref_of, resource_id}
use kdef.Flux.Resources.Laws.{is_well_named}
use kdef.Flux.Source.{Artifact, Platform}
use mathlib.Core.List.{append_assoc, Perm}
use mathlib.Core.Path.{subst}

abbrev pub entry_ids : List ResourceRef → List Text
entry_ids entries = map (λ r. r.id) entries

entry_ids-ref_of :
    (group_of : Text → Text) (os : List Object)
    → entry_ids (map (ref_of group_of) os) ≡ map (resource_id group_of) os
unfolding ref_of
entry_ids-ref_of group_of os = map-map (λ (r : ResourceRef). r.id) (ref_of group_of) os

module _ {O W C : Type 0} (platform : Platform O) (client : Client W) (statuses : StatusClient W C)
    (group_of : Text → Text) (r : KdefRelease C) (artifact : Artifact) (objects : List Object)
    (w : W) where
  pub apply_rendered_failed :
      {e : Text}
      → (apply_objects group_of client objects w).error ≡ some e
      → apply_rendered platform client statuses group_of r artifact objects w
        ≡ fail_with_error platform client statuses group_of
            (text "ApplyFailed")
            e
            r
            (apply_objects group_of client objects w).cluster
  unfolding apply_rendered
  apply_rendered_failed h = ground arith

  pub apply_rendered_done :
      (apply_objects group_of client objects w).error ≡ none
      → apply_rendered platform client statuses group_of r artifact objects w
        ≡ patched platform client statuses group_of r
            (succeeded_release platform client statuses group_of artifact
              (length objects)
              (apply_objects group_of client objects w).inventory
              r)
            (prune_stale platform client statuses group_of r
              (apply_objects group_of client objects w).inventory
              (apply_objects group_of client objects w).cluster)
  unfolding apply_rendered
  apply_rendered_done h = ground arith

module _ {O W C : Type 0} (platform : Platform O) (client : Client W) (statuses : StatusClient W C)
    (group_of : Text → Text) where
  abbrev watched : Client (Recorded W C)
  watched = recording_client client

  abbrev watched_statuses : StatusClient (Recorded W C) C
  watched_statuses = recording_statuses statuses

  -- A patch of the status is one call.
  pub patched-calls :
      (base r : KdefRelease C) (s : Recorded W C)
      → (patched platform watched watched_statuses group_of base r s).cluster.0
        ≡ s.0 ++ status_call base r ∷ []
  unfolding patched recording_statuses
  patched-calls base r s = elim (Result-cases (statuses.patch_status base r s.1).1) [
    | inl (e, denied) ↦ ground arith
    | inr (r', accepted) ↦ ground arith
  ]

  module _ (r : KdefRelease C) (artifact : Artifact) (olds objects : List Object) (s : Recorded W C)
      (recorded : r.status.inventory ≡ some (record { entries = map (ref_of group_of) olds }))
      (pruning : r.spec.prune ≡ true) (wells : all (is_well_named group_of) olds ≡ true)
      (applies : (apply_objects group_of (recording_client client) objects s).error ≡ none) where
    -- The pruning that follows the apply.
    abbrev pub pruned : Pruned (Recorded W C)
    pruned =
        prune_objects (recording_client client) (map (ref_of group_of) olds)
          (map (ref_of group_of) (sort_objects objects))
          (apply_objects group_of (recording_client client) objects s).cluster

    abbrev pub asked : KdefRelease C
    asked =
        succeeded_release platform (recording_client client) (recording_statuses statuses) group_of
          artifact (length objects) (map (ref_of group_of) (sort_objects objects)) r

    -- The objects to delete.
    abbrev pub stale : List Object
    stale = stale_from group_of olds (ids group_of (sort_objects objects))

    pruned-IsPruned :
        IsPruned C group_of client stale (s.0 ++ patches (sort_objects objects)) pruned
    pruned-IsPruned = rw (← (apply_objects_all C group_of client objects s applies).1) (
        prune_objects-IsPruned C group_of client olds (sort_objects objects)
          (apply_objects group_of watched objects s).cluster wells)

    apply_rendered-calls :
        (apply_rendered platform watched watched_statuses group_of r artifact objects s).cluster.0
        ≡ pruned.cluster.0 ++ status_call r asked ∷ []
    unfolding prune_stale
    apply_rendered-calls =
        ap (λ x. x.cluster.0)
          (apply_rendered_done platform watched watched_statuses group_of r artifact objects s
            applies)
        ∙ patched-calls r _ _
        ∙ ground
            (arith, recorded, pruning, (apply_objects_all C group_of client objects s applies).0)

    -- A reconcile from the rendered objects on, of a release with pruning and a recorded inventory,
    -- where applyObjects and pruneObjects give no error: it makes an accepted patch of each rendered
    -- object, in an order of their ranks, then deletes the objects of the recorded inventory whose
    -- id no rendered object has, in their order, and at last patches the status to have the rendered
    -- objects as its inventory and the artifact's revision; it makes no other call. No object of the
    -- recorded inventory has an underscore in namespace, name and group.
    pub apply_rendered_complete :
        pruned.error ≡ none
        → (news : List Object) × Perm news objects
          × IsOrdered news
          × ((apply_rendered platform
                (recording_client client)
                (recording_statuses statuses)
                group_of
                r
                artifact
                objects
                s).cluster.0
              ≡ s.0
                ++ (patches news
                    ++ (deletes (stale_from group_of olds (ids group_of news))
                        ++ status_call r asked ∷ [])))
          × (asked.status.inventory ≡ some (record { entries = map (ref_of group_of) news }))
          × (asked.status.last_applied_revision ≡ artifact.revision)
    unfolding succeeded_release
    apply_rendered_complete deletes_all = (
      sort_objects objects,
      sort_objects-perm objects,
      sort_objects-IsOrdered objects,
      elim pruned-IsPruned [
        | all_deleted calls given ↦
            apply_rendered-calls
            ∙ ap (λ l. l ++ status_call r asked ∷ []) calls
            ∙ append_assoc (s.0 ++ patches (sort_objects objects)) (deletes stale)
                (status_call r asked ∷ [])
            ∙ append_assoc s.0 (patches (sort_objects objects))
                (deletes stale ++ status_call r asked ∷ [])
        | delete_refused deleted later o e parts calls given ↦ cc
      ],
      refl,
      refl,
    )

    -- A reconcile from the rendered objects on, of a release with pruning and a recorded inventory
    -- without underscores in namespace, name and group, where applyObjects gives no error and
    -- pruneObjects gives one: after the accepted patches of all rendered objects and the deletes
    -- of some first stale objects, the delete of one is refused, those behind it are not asked
    -- for, and the status is patched all the same, to an inventory that has neither the id of this
    -- object nor theirs.
    pub apply_rendered_forgets :
        {e : Text}
        → pruned.error ≡ some e
        → (deleted : List Object) × (o : Object) × (later : List Object) × (refusal : Text) × (stale
            ≡ deleted ++ o ∷ later)
          × ((apply_rendered platform
                (recording_client client)
                (recording_statuses statuses)
                group_of
                r
                artifact
                objects
                s).cluster.0
              ≡ s.0
                ++ (patches (sort_objects objects)
                    ++ (deletes deleted
                        ++ delete_call o (some refusal) ∷ status_call r asked ∷ [])))
          × (entries : List ResourceRef) × (asked.status.inventory
              ≡ some (record { entries = entries }))
          × All (λ p. mem (resource_id group_of p) (entry_ids entries) ≡ false) (o ∷ later)
    unfolding succeeded_release
    apply_rendered_forgets failed = elim pruned-IsPruned [
      | all_deleted calls given ↦ cc
      | delete_refused deleted later o e parts calls given ↦ (
        deleted,
        o,
        later,
        e,
        parts,
        apply_rendered-calls
            ∙ ap (λ l. l ++ status_call r asked ∷ []) calls
            ∙ append_assoc (s.0 ++ patches (sort_objects objects))
                (deletes deleted ++ delete_call o (some e) ∷ []) (status_call r asked ∷ [])
            ∙ append_assoc s.0 (patches (sort_objects objects)) _
            ∙ ap (λ l. s.0 ++ (patches (sort_objects objects) ++ l))
                (append_assoc (deletes deleted) (delete_call o (some e) ∷ [])
                  (status_call r asked ∷ [])),
        map (ref_of group_of) (sort_objects objects),
        refl,
        subst (λ l. All (λ p. mem (resource_id group_of p) l ≡ false) (o ∷ later))
            (sym (entry_ids-ref_of group_of (sort_objects objects)))
            (All-append_right _ deleted (o ∷ later) (
              subst
                (All
                  (λ p. mem (resource_id group_of p) (ids group_of (sort_objects objects)) ≡ false))
                parts (stale_from-unknown group_of olds (ids group_of (sort_objects objects))))),
      )
    ]
