-- ===== src/Flux/Reconcile.antt =====
-- flux-controller/internal/controller/kdefrelease_controller.go: Reconcile and failWithError. The
-- condition list is kept by the Kubernetes library. A patch of the status sends the difference of
-- two releases, and its response replaces the release that the reconciler holds.
pub mod Laws
pub mod Failures
pub mod Calls
pub mod Status
use kdef.Base.{
  ℕ, List, [], ◌∷◌, ◌++◌, map, Bool, true, false, not, ◌&&◌, suc, if◌then◌else◌, Option, none, some,
  Result, ok, err, ◌>>=◌,
}
use kdef.Base.Dict.{lookup}
use kdef.Base.Format.{itoa}
use kdef.Base.Int.{ℤ, pos}
use kdef.Base.Text.{Text, text, is_empty, ◌==◌}
use kdef.Flux.Apply.{Client, Applied, apply_objects}
use kdef.Flux.Prune.{prune_objects}
use kdef.Flux.Release.{
  Condition, KdefRelease, KdefReleaseStatus, KdefReleaseSpec, ResourceInventory, ResourceRef,
}
use kdef.Flux.Resources.{Object}
use kdef.Flux.Source.{
  Artifact, Platform, get_source_artifact, fetch_artifact, resolve_values_from, render_kdef,
}

-- r.Status().Patch and the condition list. The patch is given the release of client.MergeFrom and
-- the one that is held, of which it sends the difference, and answers with an error or what the
-- release holds afterwards.
pub record StatusClient (W C : Type 0) : Type 0 where
  pub patch_status : KdefRelease C → KdefRelease C → W → W × Result (KdefRelease C)
  pub set_status_condition : Condition → C → C
  pub remove_status_condition : Text → C → C

-- What r.Get gives for the request.
pub data Found (C : Type 0) : Type 0 where
  release : KdefRelease C → Found C
  not_found : Found C
  get_failed : Text → Found C

-- ctrl.Result{RequeueAfter: interval}, or an error.
pub data ReconcileResult : Type 0 where
  requeue_after : ℤ → ReconcileResult
  errored : Text → ReconcileResult

-- ctrl.Result{}
abbrev pub finished : ReconcileResult
finished = requeue_after (pos 0)

-- The cluster, the release as the reconciler holds it at the end, and the result.
pub record Reconciled (W C : Type 0) : Type 0 where
  pub cluster : W
  pub held : KdefRelease C
  pub result : ReconcileResult

abbrev pub length : List Object → ℕ
length [] = 0
length (o ∷ os) = suc (length os)

module _ {O W C : Type 0} (platform : Platform O) (client : Client W) (statuses : StatusClient W C)
    (group_of : Text → Text) where
  -- meta.SetStatusCondition
  abbrev set_condition : Condition → KdefRelease C → KdefRelease C
  set_condition c r = record r {
    status = record r.status { conditions = statuses.set_status_condition c r.status.conditions };
  }

  -- meta.RemoveStatusCondition
  abbrev remove_condition : Text → KdefRelease C → KdefRelease C
  remove_condition t r = record r {
    status = record r.status {
      conditions = statuses.remove_status_condition t r.status.conditions;
    };
  }

  -- The patch of the status from the first release to the second, and the result after it.
  unfoldable pub patched : KdefRelease C → KdefRelease C → W → Reconciled W C
  patched base r cluster =
      let (cluster', response) = statuses.patch_status base r cluster in
      elim response [
        | ok r' ↦ record { cluster = cluster'; held = r'; result = requeue_after r'.spec.interval }
        | err e ↦ record { cluster = cluster'; held = r; result = errored e }
      ]

  -- The release with the condition Ready that failWithError sets.
  unfoldable pub failed_release : Text → Text → KdefRelease C → KdefRelease C
  failed_release reason message r = remove_condition (text "Reconciling") (
      set_condition
        (record {
          type = text "Ready";
          status = false;
          reason = reason;
          message = message;
          observed_generation = r.generation;
        })
        r)

  unfoldable pub fail_with_error : Text → Text → KdefRelease C → W → Reconciled W C
  unfolding patched
  fail_with_error reason message r cluster = patched r (failed_release reason message r) cluster

  -- The pruning, of which an error is only logged.
  unfoldable pub prune_stale : KdefRelease C → List ResourceRef → W → W
  prune_stale r new_entries cluster = elim r.status.inventory [
    | none ↦ cluster
    | some old ↦
        if r.spec.prune
        then (prune_objects client old.entries new_entries cluster).cluster
        else cluster
  ]

  unfoldable pub succeeded_release : Artifact → ℕ → List ResourceRef → KdefRelease C → KdefRelease C
  succeeded_release artifact count entries r = remove_condition (text "Reconciling") (
      set_condition
        (record {
          type = text "Ready";
          status = true;
          reason = text "Succeeded";
          message =
              text "Applied revision: "
              ++ (artifact.revision ++ (text " (" ++ (itoa count ++ text " resources)")));
          observed_generation = r.generation;
        })
        (record r {
          status = record r.status {
            last_applied_revision = artifact.revision;
            inventory = some (record { entries = entries });
            observed_generation = r.generation;
          };
        }))

  -- objects[i].SetNamespace(release.Spec.TargetNamespace)
  unfoldable pub target_objects : Text → List Object → List Object
  target_objects namespace objects =
      if is_empty namespace
      then objects
      else map {A = Object} (λ o. record o { namespace = namespace }) objects

  -- From the rendered objects on.
  unfoldable pub apply_rendered : KdefRelease C → Artifact → List Object → W → Reconciled W C
  unfolding prune_stale succeeded_release patched
  apply_rendered r artifact objects cluster =
      let applied = apply_objects group_of client objects cluster in
      elim applied.error [
        | some e ↦ fail_with_error (text "ApplyFailed") e r applied.cluster
        | none ↦
            patched r (succeeded_release artifact (length objects) applied.inventory r)
              (prune_stale r applied.inventory applied.cluster)
      ]

  -- LastAttemptedRevision, and the annotation that asks for a reconcile.
  unfoldable pub attempted : Artifact → KdefRelease C → KdefRelease C
  attempted artifact r =
      let requested_at : Text =
        elim (lookup (text "reconcile.fluxcd.io/requestedAt") r.annotations) [
          | none ↦ r.status.last_handled_reconcile_at
          | some at ↦ at
        ] in
      record r {
        status = record r.status {
          last_attempted_revision = artifact.revision;
          last_handled_reconcile_at = requested_at;
        };
      }

  unfoldable pub project_dir : Text → Text → Text
  project_dir tmp_dir path = if is_empty path then tmp_dir else platform.join_path tmp_dir path

  unfoldable pub values_file : KdefRelease C → Result Text
  values_file r = elim r.spec.values_from [
    | none ↦ ok []
    | some vf ↦ resolve_values_from platform r.namespace vf
  ]

  -- From the artifact on: a stage that fails sets its reason.
  unfoldable pub run_stages : KdefRelease C → Artifact → W → Reconciled W C
  unfolding project_dir values_file target_objects
  run_stages r artifact cluster = elim (fetch_artifact platform artifact) [
    | err e ↦ fail_with_error (text "ArtifactFetchFailed") e r cluster
    | ok tmp_dir ↦ elim (values_file r) [
      | err e ↦ fail_with_error (text "ValuesResolveFailed") e r cluster
      | ok values ↦ elim (render_kdef platform (project_dir tmp_dir r.spec.path) r.spec values) [
        | err e ↦ fail_with_error (text "RenderFailed") e r cluster
        | ok objects ↦
            apply_rendered r artifact (target_objects r.spec.target_namespace objects) cluster
      ]
    ]
  ]

  unfoldable pub reconciling : KdefRelease C → KdefRelease C
  reconciling r =
      set_condition
        (record {
          type = text "Reconciling";
          status = true;
          reason = text "Reconciling";
          message = text "Reconciliation in progress";
          observed_generation = r.generation;
        })
        r

  -- From the condition Reconciling on.
  unfoldable pub run_release : KdefRelease C → W → Reconciled W C
  unfolding reconciling attempted run_stages
  run_release found cluster =
      let (cluster', response) = statuses.patch_status found (reconciling found) cluster in
      elim response [
        | err e ↦ record { cluster = cluster'; held = reconciling found; result = errored e }
        | ok r ↦ elim (get_source_artifact platform r.namespace r.spec.source_ref) [
          | err e ↦ fail_with_error (text "SourceNotReady") e r cluster'
          | ok artifact ↦ run_stages (attempted artifact r) artifact cluster'
        ]
      ]

  unfoldable pub reconcile : Found C → W → W × ReconcileResult
  unfolding run_release
  reconcile not_found cluster = (cluster, finished)
  reconcile (get_failed e) cluster = (cluster, errored e)
  reconcile (release r) cluster =
      let done = run_release r cluster in
      if r.spec.suspend then (cluster, finished) else (done.cluster, done.result)
