-- ===== src/Flux/Reconcile/Failures.antt =====
-- What a reconcile that fails at a stage asks to record, and when a release is reconciled again.
use kdef.Base.{
  List, Bool, true, false, not, ltb, ok, ◌≡◌, refl, ◌∙◌, inl, inr, arith, Option-cases,
  Result-cases, Bool-cases,
}
use kdef.Base.Int.{ℤ, pos, negsuc}
use kdef.Base.Text.{Text, text}
use kdef.Flux.Apply.{Client, apply_objects}
use kdef.Flux.Reconcile.{
  StatusClient, Reconciled, ReconcileResult, requeue_after, errored, release, reconcile, patched,
  fail_with_error, apply_rendered, run_stages, run_release, attempted, reconciling, values_file,
  project_dir, target_objects,
}
use kdef.Flux.Reconcile.Laws.{apply_rendered_failed, apply_rendered_done}
use kdef.Flux.Release.{KdefRelease}
use kdef.Flux.Resources.{Object}
use kdef.Flux.Source.{Artifact, Platform, get_source_artifact, fetch_artifact, render_kdef}

-- controller-runtime runs a reconcile again that ends with an error, or with a time after which to
-- run it that is not 0; the code gives no other result.
unfoldable pub is_requeued : ReconcileResult → Bool
is_requeued (errored e) = true
is_requeued (requeue_after (pos n)) = ltb 0 n
is_requeued (requeue_after (negsuc n)) = false

abbrev pub is_positive : ℤ → Bool
is_positive (pos n) = ltb 0 n
is_positive (negsuc n) = false

module _ {O W C : Type 0} (platform : Platform O) (client : Client W) (statuses : StatusClient W C)
    (group_of : Text → Text) where
  -- What holds of every failure and of every run from the rendered objects on holds of the stages.
  module _ (r : KdefRelease C) (artifact : Artifact) (w : W) (P : Reconciled W C → Type 0)
      (fails : (reason message : Text)
        → P (fail_with_error platform client statuses group_of reason message r w))
      (runs : (dir values : Text) (objects : List Object)
        → fetch_artifact platform artifact ≡ ok dir
        → values_file platform client statuses group_of r ≡ ok values
        → render_kdef platform
            (project_dir platform client statuses group_of dir r.spec.path)
            r.spec
            values
          ≡ ok objects
        → P (
            apply_rendered platform client statuses group_of r artifact
              (target_objects platform client statuses group_of r.spec.target_namespace objects)
              w)) where
    pub run_stages-cases : P (run_stages platform client statuses group_of r artifact w)
    unfolding run_stages
    run_stages-cases = elim (Result-cases (fetch_artifact platform artifact)) [
      | inl (e, failed) ↦ rw (failed, run_stages) (fails _ e)
      | inr (dir, fetched) ↦ elim (Result-cases (values_file platform client statuses group_of r)) [
        | inl (e, failed) ↦ rw (fetched, failed, run_stages) (fails _ e)
        | inr (values, read) ↦
            elim (Result-cases (
              render_kdef platform (project_dir platform client statuses group_of dir r.spec.path)
                r.spec values)) [
                  | inl (e, failed) ↦ rw (fetched, read, failed, run_stages) (fails _ e)
                  | inr (objects, rendered) ↦
                      rw (fetched, read, rendered, run_stages)
                        (runs dir values objects fetched read rendered)
                ]
      ]
    ]

  abbrev pub marked : KdefRelease C → KdefRelease C
  marked r = reconciling platform client statuses group_of r

  abbrev pub tried : Artifact → KdefRelease C → KdefRelease C
  tried artifact r = attempted platform client statuses group_of artifact r

  module _ (found : KdefRelease C) (w : W) (P : Reconciled W C → Type 0)
      (refuses : (e : Text)
        → P (record {
          cluster = (statuses.patch_status found (marked found) w).0;
          held = marked found;
          result = errored e;
        }))
      (fails : (r : KdefRelease C) (reason message : Text)
        → P (
            fail_with_error platform client statuses group_of reason message r
              (statuses.patch_status found (marked found) w).0))
      (runs : (r : KdefRelease C) (artifact : Artifact)
        → (statuses.patch_status found (marked found) w).1 ≡ ok r
        → get_source_artifact platform r.namespace r.spec.source_ref ≡ ok artifact
        → P (
            run_stages platform client statuses group_of
              (tried artifact r)
              artifact
              (statuses.patch_status found (marked found) w).0)) where
    pub run_release-cases : P (run_release platform client statuses group_of found w)
    unfolding run_release
    run_release-cases = elim (Result-cases (statuses.patch_status found (marked found) w).1) [
      | inl (e, denied) ↦ rw (denied, run_release) (refuses e)
      | inr (r, accepted) ↦
          elim (Result-cases (get_source_artifact platform r.namespace r.spec.source_ref)) [
            | inl (e, failed) ↦ rw (accepted, failed, run_release) (fails r _ e)
            | inr (artifact, got) ↦ rw (accepted, got, run_release) (runs r artifact accepted got)
          ]
    ]

  -- The release that the response to a patch of the status holds has a positive interval.
  module _
      (positive : (base r : KdefRelease C) (w : W) (r' : KdefRelease C)
        → (statuses.patch_status base r w).1 ≡ ok r'
        → is_positive r'.spec.interval ≡ true) where
    requeues : (d : ℤ) → is_requeued (requeue_after d) ≡ is_positive d
    unfolding is_requeued
    requeues (pos n) = refl
    requeues (negsuc n) = refl

    patched_requeues :
        (base r : KdefRelease C) (w : W)
        → is_requeued (patched platform client statuses group_of base r w).result ≡ true
    unfolding patched
    patched_requeues base r w = elim (Result-cases (statuses.patch_status base r w).1) [
      | inl (e, denied) ↦ rw (denied, patched) (unfold is_requeued in refl)
      | inr (r', accepted) ↦
          rw (accepted, patched) (requeues r'.spec.interval ∙ positive base r w r' accepted)
    ]

    fail_with_error_requeues :
        (reason message : Text) (r : KdefRelease C) (w : W)
        → is_requeued (fail_with_error platform client statuses group_of reason message r w).result
          ≡ true
    unfolding fail_with_error
    fail_with_error_requeues reason message r w = patched_requeues _ _ w

    apply_rendered_requeues :
        (r : KdefRelease C) (artifact : Artifact) (objects : List Object) (w : W)
        → is_requeued (apply_rendered platform client statuses group_of r artifact objects w).result
          ≡ true
    apply_rendered_requeues r artifact objects w =
        elim (Option-cases (apply_objects group_of client objects w).error) [
          | inl done ↦
              rw (apply_rendered_done platform client statuses group_of r artifact objects w done)
                (patched_requeues _ _ _)
          | inr (e, failed) ↦
              rw
                (apply_rendered_failed platform client statuses group_of r artifact objects w
                  failed)
                (fail_with_error_requeues (text "ApplyFailed") e r _)
        ]

    run_release_requeues :
        (r : KdefRelease C) (w : W)
        → is_requeued (run_release platform client statuses group_of r w).result ≡ true
    unfolding is_requeued
    run_release_requeues r w =
        run_release-cases r w (λ done. is_requeued done.result ≡ true) (λ e. refl)
          (λ r' reason message. fail_with_error_requeues reason message r' _)
          (λ r' artifact accepted got.
            run_stages-cases (tried artifact r') artifact _ (λ done. is_requeued done.result ≡ true)
              (λ reason message. fail_with_error_requeues reason message (tried artifact r') _)
              (λ dir values objects a b c.
                apply_rendered_requeues (tried artifact r') artifact _ _))

    -- A reconcile of a release is run again exactly if the release is not suspended, whichever stage
    -- returned an error and whether the API server took the patches of the status or not, where the
    -- interval of a release that it answers with is more than 0. That the rendering panics is not
    -- modelled.
    pub reconcile_requeues :
        (r : KdefRelease C) (w : W)
        → is_requeued (reconcile platform client statuses group_of (release r) w).1
          ≡ not r.spec.suspend
    unfolding reconcile is_requeued
    reconcile_requeues r w = elim (Bool-cases r.spec.suspend) [
      | inl suspended ↦ ground arith
      | inr awake ↦ ground (arith, run_release_requeues r w)
    ]
