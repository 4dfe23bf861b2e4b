-- ===== src/Generator/Workloads/Laws.antt =====
-- Whether the selectors of a workload and of its Service select its pods.
use kdef.Base.{
  List, [], ◌∷◌, ◌++◌, map, Bool, true, false, ◌&&◌, ◌||◌, Option, none, some, Option-cases, ◌≡◌,
  refl, ◌∙◌, arith, all, all-append,
}
use kdef.Base.Dict.{Dict, lookup, insert, merge, null, lookup-insert, lookup-merge}
use kdef.Base.Text.{Text, text, ◌==◌, eq_refl}
use kdef.Generator.Kubernetes.{ObjectMeta, DeploymentSpec}
use kdef.Generator.Routes.{Route, kdef_labels, name_label}
use kdef.Generator.WorkloadParts.{
  Workload, WorkloadManifest, deployment, daemon_set, stateful_set, service, autoscaler, route,
  unraw, workload_labels, workload_selector, apply_rollout,
}
use kdef.Generator.Workloads.{
  workload_service, generate_hpa, generate_deployment_v2, generate_daemon_set,
  generate_stateful_set,
}
use kdef.Types.{
  ContainerConfig, AutoscaleConfig, RolloutConfig, DaemonSetConfig, StatefulSetConfig,
  DeploymentConfig, IngressDefaults, ServiceConfig,
}

-- The labels have the value at the key.
abbrev pub has_label : Text → Text → Dict Text → Bool
has_label key value labels = elim (lookup key labels) [ none ↦ false | some found ↦ found == value ]

-- A label selector selects the labels that have all its entries.
unfoldable pub selects : Dict Text → Dict Text → Bool
selects [] labels = true
selects ((key, value) ∷ selector) labels = has_label key value labels && selects selector labels

lookup-kdef_labels :
    (version : Text) (labels : Dict Text)
    → lookup name_label (kdef_labels version labels) ≡ lookup name_label labels
unfolding kdef_labels ◌==◌
lookup-kdef_labels version labels = ground (
  arith,
  lookup-insert (text "kdef.dev/version") name_label version
      (insert (text "app.kubernetes.io/managed-by") (text "kdef") labels),
  lookup-insert (text "app.kubernetes.io/managed-by") name_label (text "kdef") labels,
)

selects_default :
    (version name : Text) (declared : Dict Text)
    → selects (workload_selector name []) (workload_labels version name declared)
      ≡ (null declared || has_label name_label name declared)
unfolding selects workload_selector workload_labels lookup ◌==◌
selects_default version name [] =
    rw (has_label, lookup-kdef_labels version ((name_label, name) ∷ []))
      (ground (arith, eq_refl name))
selects_default version name (entry ∷ declared) =
    rw
      (
        has_label,
        lookup-kdef_labels version (merge [] (entry ∷ declared)),
        lookup-merge name_label [] (entry ∷ declared),
      )
      (ground (arith, Option-cases (lookup name_label (entry ∷ declared))))

-- The selector of a workload selects the labels of its template, and that of a Service the labels of the
-- workload's pods.
unfoldable pub selects_pods : {Q : Type 0} → Dict Text → Workload Q → Bool
selects_pods labels (deployment m spec) = selects spec.selector spec.template.labels
selects_pods labels (daemon_set m spec) = selects spec.selector spec.template.labels
selects_pods labels (stateful_set m spec) = selects spec.selector spec.template.labels
selects_pods labels (service m spec) = selects spec.selector labels
selects_pods labels (autoscaler m spec) = true
selects_pods labels (route r) = true

all-routes :
    (Q : Type 0) (labels : Dict Text) (rs : List Route)
    → all (λ m. selects_pods {Q = Q} labels m.object) (map (λ r. unraw (route r)) rs) ≡ true
unfolding all selects_pods
all-routes Q labels [] = refl
all-routes Q labels (r ∷ rs) = all-routes Q labels rs

selects_pods-apply_rollout :
    {Q : Type 0} (labels : Dict Text) (m : ObjectMeta)
    → (r : Option RolloutConfig) (spec : DeploymentSpec Q)
    → selects_pods labels (deployment m (apply_rollout r spec))
      ≡ selects spec.selector spec.template.labels
unfolding selects_pods apply_rollout
selects_pods-apply_rollout labels m none spec = refl
selects_pods-apply_rollout labels m (some r) spec = refl

all_append :
    {A : Type 0} (p : A → Bool) (xs ys : List A)
    → all p xs ≡ true
    → all p ys ≡ true
    → all p (xs ++ ys) ≡ true
all_append p xs ys h k = rw (all-append p xs ys, h, k) refl

-- The rest follows from the first.
and_first : (a : Bool) {b : Bool} → (a ≡ true → b ≡ true) → (a && b) ≡ a
and_first true h = h refl
and_first false h = refl

module _ {Q : Type 0} (must_parse : Text → Q) (version : Text) where
  all-generate_hpa :
      (labels : Dict Text) (name namespace : Text) (a : Option AutoscaleConfig)
      → all
          (λ m. selects_pods {Q = Q} labels m.object)
          (generate_hpa must_parse version name namespace a)
        ≡ true
  unfolding all selects_pods generate_hpa
  all-generate_hpa labels name namespace none = refl
  all-generate_hpa labels name namespace (some a) = refl

  all-workload_service :
      (labels selector : Dict Text) (name namespace : Text) (svc : Option ServiceConfig)
      → (containers : List ContainerConfig) (headless : ServiceConfig → Bool)
      → selects selector labels ≡ true
      → all
          (λ m. selects_pods {Q = Q} labels m.object)
          (workload_service must_parse version name namespace svc containers selector headless)
        ≡ true
  unfolding all selects_pods workload_service
  all-workload_service labels selector name namespace none containers headless h = refl
  all-workload_service labels selector name namespace (some svc) containers headless h = rw h refl

  -- The workload itself and the rest of its manifests.
  all-workload :
      (labels : Dict Text) (w : WorkloadManifest Q) (rest : List (WorkloadManifest Q))
      → (name : Text) (declared selector : Dict Text) → selector ≡ []
      → labels ≡ workload_labels version name declared
      → selects_pods labels w.object ≡ selects (workload_selector name selector) labels
      → (selects (workload_selector name selector) labels ≡ true
          → all (λ m. selects_pods labels m.object) rest ≡ true)
      → all (λ m. selects_pods labels m.object) (w ∷ rest)
        ≡ (null declared || has_label name_label name declared)
  unfolding all
  all-workload labels w rest name declared selector h e first others = rw first (
      and_first (selects (workload_selector name selector) labels) others
      ∙ rw (h, e) (selects_default version name declared))

  -- The manifests of a deployment without a selector of its own select its pods if and only if it
  -- declares no labels, or declares its own name as the label app.kubernetes.io/name.
  pub generate_deployment_v2_selects :
      (dep : DeploymentConfig) (defaults : Option IngressDefaults)
      → dep.selector ≡ []
      → all
          (λ m. selects_pods {Q = Q} (workload_labels version dep.name dep.labels) m.object)
          (generate_deployment_v2 must_parse version dep defaults)
        ≡ (null dep.labels || has_label name_label dep.name dep.labels)
  unfolding generate_deployment_v2
  generate_deployment_v2_selects dep defaults h =
      let labels = workload_labels version dep.name dep.labels in
      all-workload labels _ _ dep.name dep.labels dep.selector h refl
        (selects_pods-apply_rollout labels _ dep.rollout _)
        (λ e.
          all_append _ (workload_service must_parse version _ _ dep.service dep.containers _ _) _
            (all-workload_service labels _ dep.name dep.namespace dep.service dep.containers _ e)
            (all_append _ _ _ (all-routes Q labels _) (all-generate_hpa labels _ _ dep.autoscale)))

  -- The same for the manifests of a daemon set.
  pub generate_daemon_set_selects :
      (ds : DaemonSetConfig)
      → ds.selector ≡ []
      → all
          (λ m. selects_pods {Q = Q} (workload_labels version ds.name ds.labels) m.object)
          (generate_daemon_set must_parse version ds)
        ≡ (null ds.labels || has_label name_label ds.name ds.labels)
  unfolding generate_daemon_set selects_pods
  generate_daemon_set_selects ds h =
      let labels = workload_labels version ds.name ds.labels in
      all-workload labels _ _ ds.name ds.labels ds.selector h refl refl
        (λ e. all-workload_service labels _ ds.name ds.namespace ds.service ds.containers _ e)

  -- The same for the manifests of a stateful set.
  pub generate_stateful_set_selects :
      (sts : StatefulSetConfig) (defaults : Option IngressDefaults)
      → sts.selector ≡ []
      → all
          (λ m. selects_pods {Q = Q} (workload_labels version sts.name sts.labels) m.object)
          (generate_stateful_set must_parse version sts defaults)
        ≡ (null sts.labels || has_label name_label sts.name sts.labels)
  unfolding generate_stateful_set selects_pods
  generate_stateful_set_selects sts defaults h =
      let labels = workload_labels version sts.name sts.labels in
      all-workload labels _ _ sts.name sts.labels sts.selector h refl refl (λ e.
        all_append _ (workload_service must_parse version _ _ sts.service sts.containers _ _) _
          (all-workload_service labels _ sts.name sts.namespace sts.service sts.containers _ e)
          (all-routes Q labels _))
