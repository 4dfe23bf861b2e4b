-- ===== src/Flux/Reconcile/Status.antt =====
-- What the patches of the status that a reconcile makes ask for.
use kdef.Base.{List, [], ◌∷◌, ◌++◌, none, some, ok, ◌≡◌, refl, ap, ◌∙◌, ◌⊎◌, inl, inr}
use kdef.Base.Lists.{All, All-append}
use kdef.Base.Text.{Text, text}
use kdef.Flux.Apply.{Client, sort_objects, apply_objects}
use kdef.Flux.Apply.Laws.{IsEnd, apply_objects-IsApplied}
use kdef.Flux.Reconcile.{
  StatusClient, failed_release, succeeded_release, apply_rendered, run_release, attempted,
  reconciling, values_file, project_dir, target_objects,
}
use kdef.Flux.Reconcile.Calls.{
  Asks, fail_with_error-calls, fail_with_error-Asks, apply_rendered-cases,
}
use kdef.Flux.Reconcile.Failures.{marked, tried, run_stages-cases, run_release-cases}
use kdef.Flux.Reconcile.Laws.{apply_rendered_failed}
use kdef.Flux.Recording.{Call, Recorded, status_call, recording_client, recording_statuses, patches}
use kdef.Flux.Release.{KdefRelease}
use kdef.Flux.Resources.{Object}
use kdef.Flux.Source.{Artifact, Platform, get_source_artifact, fetch_artifact, render_kdef}
use mathlib.Core.Path.{subst}

module _ {C : Type 0} where
  -- The inventory and the revision of the last apply are as they were.
  abbrev pub Keeps : KdefRelease C → KdefRelease C → Type 0
  Keeps base r =
      (r.status.inventory ≡ base.status.inventory)
      × (r.status.last_applied_revision ≡ base.status.last_applied_revision)

  -- The attempted revision and the handled request are as they were.
  abbrev pub KeepsAttempt : KdefRelease C → KdefRelease C → Type 0
  KeepsAttempt base r =
      (r.status.last_attempted_revision ≡ base.status.last_attempted_revision)
      × (r.status.last_handled_reconcile_at ≡ base.status.last_handled_reconcile_at)

module _ {O W C : Type 0} (platform : Platform O) (client : Client W) (statuses : StatusClient W C)
    (group_of : Text → Text) where
  abbrev seen : Client (Recorded W C)
  seen = recording_client client

  abbrev seen_statuses : StatusClient (Recorded W C) C
  seen_statuses = recording_statuses statuses

  -- The state after the first patch of the status.
  abbrev pub started : KdefRelease C → W → Recorded W C
  started found w = (
    status_call found
          (marked platform (recording_client client) (recording_statuses statuses) group_of found)
        ∷ [],
    (statuses.patch_status found
        (marked platform (recording_client client) (recording_statuses statuses) group_of found)
        w).0,
  )

  -- The run of `found` in the state `w` got an artifact and rendered and applied its objects, and the
  -- last of its calls asks for their inventory and the artifact's revision.
  pub record IsAdvanced (found : KdefRelease C) (w : W) (calls : List (Call C)) : Type 0 where
    pub r : KdefRelease C
    pub artifact : Artifact
    pub dir : Text
    pub values : Text
    pub objects : List Object
    pub first : List (Call C)
    pub base : KdefRelease C
    pub asked : KdefRelease C
    pub held :
        (statuses.patch_status found
          (marked platform (recording_client client) (recording_statuses statuses) group_of found)
          w).1
        ≡ ok r
    pub got : get_source_artifact platform r.namespace r.spec.source_ref ≡ ok artifact
    pub fetched : fetch_artifact platform artifact ≡ ok dir
    pub read :
        values_file platform (recording_client client) (recording_statuses statuses) group_of (
          tried platform
            (recording_client client)
            (recording_statuses statuses)
            group_of
            artifact
            r)
        ≡ ok values
    pub rendered :
        render_kdef platform
          (project_dir platform
            (recording_client client)
            (recording_statuses statuses)
            group_of
            dir
            r.spec.path)
          r.spec
          values
        ≡ ok objects
    pub applied :
        (apply_objects group_of
          (recording_client client)
          (target_objects platform
            (recording_client client)
            (recording_statuses statuses)
            group_of
            r.spec.target_namespace
            objects)
          (started found w)).error
        ≡ none
    pub last : calls ≡ first ++ status_call base asked ∷ []
    pub kept : All (Asks Keeps) first
    pub inventory :
        asked.status.inventory
        ≡ some (record {
          entries =
              (apply_objects group_of
                (recording_client client)
                (target_objects platform
                  (recording_client client)
                  (recording_statuses statuses)
                  group_of
                  r.spec.target_namespace
                  objects)
                (started found w)).inventory;
        })
    pub revision : asked.status.last_applied_revision ≡ artifact.revision

  failed_release-Keeps :
      (reason message : Text) (r : KdefRelease C)
      → Keeps r (failed_release platform seen seen_statuses group_of reason message r)
  unfolding failed_release
  failed_release-Keeps reason message r = (refl, refl)

  failed_release-KeepsAttempt :
      (reason message : Text) (r : KdefRelease C)
      → KeepsAttempt r (failed_release platform seen seen_statuses group_of reason message r)
  unfolding failed_release
  failed_release-KeepsAttempt reason message r = (refl, refl)

  -- The patches of the status that a reconcile of a release asks for leave the inventory and the
  -- revision of the last apply as they are, or the artifact of the release was fetched, its values
  -- read and its objects rendered and applied without an error, and the last call alone asks for the
  -- inventory of this apply and the revision of this artifact.
  pub run_release-IsRecorded :
      (found : KdefRelease C) (w : W)
      → All
          (Asks (Keeps {C = C}))
          (run_release platform
            (recording_client client)
            (recording_statuses statuses)
            group_of
            found
            ([], w)).cluster.0
        ⊎ IsAdvanced found w
            (run_release platform
              (recording_client client)
              (recording_statuses statuses)
              group_of
              found
              ([], w)).cluster.0
  unfolding recording_statuses reconciling attempted
  run_release-IsRecorded found w =
      run_release-cases platform seen seen_statuses group_of found ([], w)
        (λ done. All (Asks (Keeps {C = C})) done.cluster.0 ⊎ IsAdvanced found w done.cluster.0)
        (λ e. inl ((refl, refl), tt))
        (λ r reason message. inl (
          fail_with_error-Asks platform client statuses group_of Keeps failed_release-Keeps reason
            message r (started found w) ((refl, refl), tt)))
        (λ r artifact held got.
          run_stages-cases platform seen seen_statuses group_of
            (tried platform seen seen_statuses group_of artifact r) artifact (started found w)
            (λ done. All (Asks (Keeps {C = C})) done.cluster.0 ⊎ IsAdvanced found w done.cluster.0)
            (λ reason message. inl (
              fail_with_error-Asks platform client statuses group_of Keeps failed_release-Keeps
                reason message (tried platform seen seen_statuses group_of artifact r)
                (started found w) ((refl, refl), tt)))
            (λ dir values objects fetched read rendered.
              elim (apply_rendered-cases platform client statuses group_of Keeps
                failed_release-Keeps (tried platform seen seen_statuses group_of artifact r)
                artifact
                (target_objects platform seen seen_statuses group_of r.spec.target_namespace
                  objects)
                (started found w) ((refl, refl), tt)) [
                  | inl kept ↦ inl kept
                  | inr (applied, first, last, kept) ↦ inr (record {
                    r = r;
                    artifact = artifact;
                    dir = dir;
                    values = values;
                    objects = objects;
                    first = first;
                    base = tried platform seen seen_statuses group_of artifact r;
                    asked = _;
                    held = held;
                    got = got;
                    fetched = fetched;
                    read = read;
                    rendered = rendered;
                    applied = applied;
                    last = last;
                    kept = kept;
                    inventory = unfold succeeded_release in refl;
                    revision = unfold succeeded_release in refl;
                  })
                ]))

  -- No patch of the status that a reconcile of a release asks for changes the last attempted revision
  -- or the last handled request for a reconcile: the code sets both before the release is copied that
  -- the patch is the difference to.
  pub run_release_unattempted :
      (found : KdefRelease C) (w : W)
      → All
          (Asks (KeepsAttempt {C = C}))
          (run_release platform
            (recording_client client)
            (recording_statuses statuses)
            group_of
            found
            ([], w)).cluster.0
  unfolding recording_statuses reconciling attempted
  run_release_unattempted found w =
      run_release-cases platform seen seen_statuses group_of found ([], w)
        (λ done. All (Asks (KeepsAttempt {C = C})) done.cluster.0) (λ e. ((refl, refl), tt))
        (λ r reason message.
          fail_with_error-Asks platform client statuses group_of KeepsAttempt
            failed_release-KeepsAttempt reason message r (started found w) ((refl, refl), tt))
        (λ r artifact held got.
          run_stages-cases platform seen seen_statuses group_of
            (tried platform seen seen_statuses group_of artifact r) artifact (started found w)
            (λ done. All (Asks (KeepsAttempt {C = C})) done.cluster.0)
            (λ reason message.
              fail_with_error-Asks platform client statuses group_of KeepsAttempt
                failed_release-KeepsAttempt reason message
                (tried platform seen seen_statuses group_of artifact r) (started found w)
                ((refl, refl), tt))
            (λ dir values objects fetched read rendered.
              elim (apply_rendered-cases platform client statuses group_of KeepsAttempt
                failed_release-KeepsAttempt (tried platform seen seen_statuses group_of artifact r)
                artifact
                (target_objects platform seen seen_statuses group_of r.spec.target_namespace
                  objects)
                (started found w) ((refl, refl), tt)) [
                  | inl kept ↦ kept
                  | inr (applied, first, last, kept) ↦ rw last (
                      All-append (Asks (KeepsAttempt {C = C})) first _ kept
                        (unfold succeeded_release in ((refl, refl), tt)))
                ]))

  -- A reconcile from the rendered objects on in which applyObjects gives an error: it makes accepted
  -- patches of some first objects in the order of their sort and at most one refused patch, deletes
  -- nothing, and then patches the status without changing the inventory, so the objects that it did
  -- apply are in it only if they were.
  pub apply_rendered_unrecorded :
      (r : KdefRelease C) (artifact : Artifact) (objects : List Object) (s : Recorded W C)
      {e : Text}
      → (apply_objects group_of (recording_client client) objects s).error ≡ some e
      → (applied : List Object) × (rest : List Object) × (last : List (Call C))
        × (asked : KdefRelease C) × (sort_objects objects ≡ applied ++ rest)
        × IsEnd C group_of client rest last (some e)
        × ((apply_rendered platform
              (recording_client client)
              (recording_statuses statuses)
              group_of
              r
              artifact
              objects
              s).cluster.0
            ≡ (s.0 ++ (patches applied ++ last)) ++ status_call r asked ∷ [])
        × Keeps r asked
  apply_rendered_unrecorded r artifact objects s {e} failed =
      let got = apply_objects-IsApplied C group_of client objects s in
      let asked = failed_release platform seen seen_statuses group_of (text "ApplyFailed") e r in
      (
        got.applied,
        got.rest,
        got.last,
        asked,
        got.parts,
        subst (IsEnd C group_of client got.rest got.last) failed got.end,
        ap (λ x. x.cluster.0)
              (apply_rendered_failed platform seen seen_statuses group_of r artifact objects s
                failed)
            ∙ fail_with_error-calls platform client statuses group_of (text "ApplyFailed") e r _
            ∙ ap (λ l. l ++ status_call r asked ∷ []) got.calls,
        failed_release-Keeps (text "ApplyFailed") e r,
      )
