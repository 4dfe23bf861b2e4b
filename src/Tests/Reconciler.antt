-- ===== src/Tests/Reconciler.antt =====
-- The reconciler of a small cluster, and the theorems at it.
use kdef.Base.{
  List, [], ◌∷◌, ◌++◌, map, true, false, if◌then◌else◌, none, some, ok, err, ◌≡◌, ◌⊎◌, refl, sym,
  ap, all,
}
use kdef.Base.Dict.{lookup, set_of, insert}
use kdef.Base.Int.{pos}
use kdef.Base.Lists.{All, mem}
use kdef.Base.Text.{Text, text, ◌==◌}
use kdef.Flux.Apply.Laws.{IsApplied, IsEnd, apply_objects_lem}
use kdef.Flux.Apply.Sorting.{IsOrdered}
use kdef.Flux.Apply.{Client, failed, apply_error, apply_order, sort_objects, apply_objects}
use kdef.Flux.Prune.Laws.{IsPruned, ids, stale_from, prune_objects-IsPruned}
use kdef.Flux.Prune.{delete_error, prune_objects}
use kdef.Flux.Reconcile.Calls.{Asks}
use kdef.Flux.Reconcile.Failures.{is_requeued, is_positive, reconcile_requeues}
use kdef.Flux.Reconcile.Laws.{entry_ids, apply_rendered_complete, apply_rendered_forgets}
use kdef.Flux.Reconcile.Status.{
  Keeps, KeepsAttempt, IsAdvanced, run_release_unattempted, run_release-IsRecorded,
  apply_rendered_unrecorded,
}
use kdef.Flux.Reconcile.{
  StatusClient, release, apply_rendered, run_release, reconcile, succeeded_release,
}
use kdef.Flux.Recording.{
  Call, Recorded, patch_call, delete_call, status_call, recording_client, recording_statuses,
  patches, deletes,
}
use kdef.Flux.Release.{Condition, KdefRelease, ResourceRef}
use kdef.Flux.Resources.Laws.{
  is_well_named, lacks, object_from_resource_ref-ref_of, object_from_resource_ref-underscore,
}
use kdef.Flux.Resources.{Object, ref_of, resource_id, underscore, object_from_resource_ref}
use kdef.Flux.Source.Laws.{IsServed, fetch_artifact_checked}
use kdef.Flux.Source.{Artifact, Platform, colon, fetch_artifact}
use kdef.Parser.FileResult.{empty_config}
use kdef.Tests.Generated.{names}
use kdef.Types.{end}
use mathlib.Core.List.{Perm}

-- The group of an API version without a version: the part of the library that the samples need.
abbrev no_group : Text → Text
no_group version = []

-- An API server without a state of its own that refuses patches of objects named `denied` and deletes
-- of those named `stuck`, and finds every object.
abbrev client : Client Unit
client = record {
  encode = λ o. ok o.name;
  patch = λ o encoded w. (w, if o.name == text "denied" then some (text "forbidden") else none);
  delete = λ o w. (w, if o.name == text "stuck" then some (failed (text "timeout")) else none);
}

abbrev object_named : Text → Text → Object
object_named kind name = record {
  api_version = text "v1";
  kind = kind;
  namespace = text "prod";
  name = name;
  content = end;
}

abbrev old_map : Object
old_map = object_named (text "ConfigMap") (text "old")

abbrev new_map : Object
new_map = object_named (text "ConfigMap") (text "new")

abbrev denied : Object
denied = object_named (text "Service") (text "denied")

abbrev artifact : Artifact
artifact = record {
  url = text "http://source";
  digest = text "sha256" ++ colon ∷ text "abc";
  revision = text "main";
}

abbrev platform : Platform Text
platform = record {
  get_source = λ kind ns name. ok (some artifact);
  get_config_map = λ ns name. ok [];
  get_secret = λ ns name. ok [];
  new_request = λ url. ok url;
  send = λ request. ok (record { status_code = 200; body = ok (text "archive") });
  sha256_hex = λ body. text "abc";
  mkdir_temp = ok (text "/tmp/kdef");
  extract_tar_gz = λ body dir. none;
  write_temp = λ values. ok (text "/tmp/values.json");
  join_path = λ a b. a ++ b;
  load_with_options = λ opts. ok empty_config;
  generators = names;
  render_all_yaml = λ manifests. ok [];
  decode_yaml = λ yaml. ok new_map ∷ [];
}

-- The conditions as a list, the last one first.
abbrev statuses : StatusClient Unit (List Condition)
statuses = record {
  patch_status = λ base r w. (w, ok (record r { spec = record r.spec { interval = pos 60 } }));
  set_status_condition = λ c cs. c ∷ cs;
  remove_status_condition = λ t cs. cs;
}

abbrev kdef_release : KdefRelease (List Condition)
kdef_release = record {
  name = text "site";
  namespace = text "flux";
  generation = pos 1;
  annotations = [];
  spec = record {
    source_ref = record { kind = text "GitRepository"; name = text "repo"; namespace = [] };
    path = [];
    env = [];
    set = [];
    values_from = none;
    interval = pos 60;
    prune = true;
    target_namespace = [];
    service_account_name = [];
    suspend = false;
  };
  status = record {
    conditions = [];
    last_applied_revision = [];
    last_attempted_revision = [];
    inventory = some (record { entries = map (ref_of no_group) (old_map ∷ []) });
    observed_generation = pos 0;
    last_handled_reconcile_at = [];
  };
}

object_from_resource_ref-ref_of_example :
    object_from_resource_ref (ref_of no_group old_map) ≡ ok old_map
unfolding is_well_named lacks all
object_from_resource_ref-ref_of_example = object_from_resource_ref-ref_of no_group old_map refl

object_from_resource_ref-underscore_example :
    object_from_resource_ref (ref_of no_group (object_named (text "ClusterRole") (text "a_b")))
    ≡ ok (object_named (underscore ∷ text "ClusterRole") (text "a"))
unfolding lacks all
object_from_resource_ref-underscore_example =
    object_from_resource_ref-underscore no_group (object_named (text "ClusterRole") (text "a_b"))
      (text "a") (text "b") refl refl refl refl

-- What was called before, and the state of the API server.
abbrev before : Recorded Unit (List Condition)
before = ([], tt)

apply_objects_lem_example :
    (sorted : List Object) × Perm sorted (denied ∷ new_map ∷ [])
    × IsOrdered sorted
    × IsApplied
        (List Condition)
        no_group
        client
        sorted
        []
        []
        (apply_objects no_group (recording_client client) (denied ∷ new_map ∷ []) before)
apply_objects_lem_example =
    apply_objects_lem (List Condition) no_group client (denied ∷ new_map ∷ []) before

apply_objects_test :
    (apply_objects no_group (recording_client client) (denied ∷ new_map ∷ []) before).cluster.0
    ≡ patch_call new_map none ∷ patch_call denied (some (text "forbidden")) ∷ []
unfolding apply_objects sort_objects apply_order lookup ◌==◌ recording_client
apply_objects_test = refl

prune_objects-IsPruned_example :
    IsPruned
      (List Condition)
      no_group
      client
      (stale_from no_group (old_map ∷ []) (ids no_group (new_map ∷ [])))
      []
      (prune_objects
        (recording_client client)
        (map (ref_of no_group) (old_map ∷ []))
        (map (ref_of no_group) (new_map ∷ []))
        before)
unfolding is_well_named lacks all
prune_objects-IsPruned_example =
    prune_objects-IsPruned (List Condition) no_group client (old_map ∷ []) (new_map ∷ []) before
      refl

fetch_artifact_checked_example :
    (body : Text) × IsServed platform artifact body × (platform.sha256_hex body ≡ text "abc")
unfolding fetch_artifact ◌==◌
fetch_artifact_checked_example =
    fetch_artifact_checked platform artifact (text "abc") {dir = text "/tmp/kdef"} refl refl

abbrev kdef_asked : KdefRelease (List Condition)
kdef_asked =
    succeeded_release platform (recording_client client) (recording_statuses statuses) no_group
      artifact 1 (map (ref_of no_group) (sort_objects (new_map ∷ []))) kdef_release

apply_rendered_complete_example :
    (news : List Object) × Perm news (new_map ∷ [])
    × IsOrdered news
    × ((apply_rendered platform
          (recording_client client)
          (recording_statuses statuses)
          no_group
          kdef_release
          artifact
          (new_map ∷ [])
          before).cluster.0
        ≡ patches news
          ++ (deletes (stale_from no_group (old_map ∷ []) (ids no_group news))
              ++ status_call kdef_release kdef_asked ∷ []))
    × (kdef_asked.status.inventory ≡ some (record { entries = map (ref_of no_group) news }))
    × (kdef_asked.status.last_applied_revision ≡ artifact.revision)
unfolding is_well_named lacks all prune_objects apply_objects sort_objects ◌==◌ lookup set_of insert
    ref_of object_from_resource_ref recording_client
apply_rendered_complete_example =
    apply_rendered_complete platform client statuses no_group kdef_release artifact (old_map ∷ [])
      (new_map ∷ []) before refl refl refl refl refl

reconcile_requeues_example :
    is_requeued (reconcile platform client statuses no_group (release kdef_release) tt).1 ≡ true
reconcile_requeues_example =
    reconcile_requeues platform client statuses no_group
      (λ base r w r' h.
        ap (λ x. elim x [ ok a ↦ is_positive a.spec.interval | err e ↦ true ]) (sym h))
      kdef_release tt

run_release-IsRecorded_example :
    All
      (Asks Keeps)
      (run_release platform
        (recording_client client)
        (recording_statuses statuses)
        no_group
        kdef_release
        before).cluster.0
    ⊎ IsAdvanced platform client statuses no_group kdef_release tt
        (run_release platform
          (recording_client client)
          (recording_statuses statuses)
          no_group
          kdef_release
          before).cluster.0
run_release-IsRecorded_example =
    run_release-IsRecorded platform client statuses no_group kdef_release tt

run_release_unattempted_example :
    All
      (Asks KeepsAttempt)
      (run_release platform
        (recording_client client)
        (recording_statuses statuses)
        no_group
        kdef_release
        before).cluster.0
run_release_unattempted_example =
    run_release_unattempted platform client statuses no_group kdef_release tt

apply_rendered_unrecorded_example :
    (applied : List Object) × (rest : List Object) × (last : List (Call (List Condition)))
    × (asked : KdefRelease (List Condition)) × (sort_objects (denied ∷ new_map ∷ [])
        ≡ applied ++ rest)
    × IsEnd
        (List Condition)
        no_group
        client
        rest
        last
        (some (apply_error denied (text "forbidden")))
    × ((apply_rendered platform
          (recording_client client)
          (recording_statuses statuses)
          no_group
          kdef_release
          artifact
          (denied ∷ new_map ∷ [])
          before).cluster.0
        ≡ (patches applied ++ last) ++ status_call kdef_release asked ∷ [])
    × Keeps kdef_release asked
unfolding apply_objects sort_objects apply_order lookup ◌==◌ recording_client
apply_rendered_unrecorded_example =
    apply_rendered_unrecorded platform client statuses no_group kdef_release artifact
      (denied ∷ new_map ∷ []) before refl

abbrev stuck_map : Object
stuck_map = object_named (text "ConfigMap") (text "stuck")

abbrev stuck_release : KdefRelease (List Condition)
stuck_release = record kdef_release {
  status = record kdef_release.status {
    inventory = some (record { entries = map (ref_of no_group) (stuck_map ∷ []) });
  };
}

abbrev stuck_asked : KdefRelease (List Condition)
stuck_asked =
    succeeded_release platform (recording_client client) (recording_statuses statuses) no_group
      artifact 1 (map (ref_of no_group) (sort_objects (new_map ∷ []))) stuck_release

apply_rendered_forgets_example :
    (deleted : List Object) × (o : Object) × (later : List Object) × (refusal : Text) × (stale_from
        no_group
        (stuck_map ∷ [])
        (ids no_group (sort_objects (new_map ∷ [])))
      ≡ deleted ++ o ∷ later)
    × ((apply_rendered platform
          (recording_client client)
          (recording_statuses statuses)
          no_group
          stuck_release
          artifact
          (new_map ∷ [])
          before).cluster.0
        ≡ patches (sort_objects (new_map ∷ []))
          ++ (deletes deleted
              ++ delete_call o (some refusal) ∷ status_call stuck_release stuck_asked ∷ []))
    × (entries : List ResourceRef) × (stuck_asked.status.inventory
        ≡ some (record { entries = entries }))
    × All (λ p. mem (resource_id no_group p) (entry_ids entries) ≡ false) (o ∷ later)
unfolding is_well_named lacks all apply_objects sort_objects prune_objects ◌==◌ lookup set_of insert
    ref_of object_from_resource_ref resource_id recording_client
apply_rendered_forgets_example =
    apply_rendered_forgets platform client statuses no_group stuck_release artifact (stuck_map ∷ [])
      (new_map ∷ []) before refl refl refl refl
      {e = delete_error (ref_of no_group stuck_map) (text "timeout")} refl
