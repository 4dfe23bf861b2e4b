-- ===== src/Generator/Resources/Laws.antt =====
-- The labels of all that Generate returns.
use kdef.Base.{List, [], ◌∷◌, map, Bool, true, ◌∙◌, Option, none, some, ◌≡◌, refl, all, all-map}
use kdef.Base.Dict.{Dict, lookup}
use kdef.Base.Text.{Text}
use kdef.Generator.CronJobs.{generate_cron_job}
use kdef.Generator.Generate.{manifests_or_nil, generate}
use kdef.Generator.Generate.Uniform.{both, holds, IsUniform, generate-holds}
use kdef.Generator.Resources.{
  Resource, workload, generators, manifest_of, generate_namespace, generate_service_account,
  generate_config_map, generate_secret, generate_sealed_secret, generate_persistent_volume_claim,
  generate_cluster_role, generate_cluster_role_binding, generate_crd, generate_csi_driver,
}
use kdef.Generator.Routes.{Route, name_label, generate_standalone_ingress}
use kdef.Generator.WorkloadParts.{WorkloadManifest, route, workload_labels, unraw}
use kdef.Generator.Workloads.{
  generate_deployment_v2, generate_daemon_set, generate_stateful_set, workload_service,
  generate_hpa,
}
use kdef.Generator.Order.{Manifest}
use kdef.Types.{
  KdefConfig, DeploymentConfig, DaemonSetConfig, StatefulSetConfig, IngressConfig, IngressDefaults,
  ServiceConfig, ContainerConfig, AutoscaleConfig,
}
use kdef.Generator.Resources.Labels.{
  workload_metadata, metadata_of, is_managed, is_managed-kdef_labels, route_managed,
  all-workload_routes, all-generate_standalone_ingress,
}

module _ (version : Text) {Q : Type 0} (must_parse : Text → Q) where
  abbrev pub is_labelled : Resource Q → Bool
  is_labelled o = is_managed version (metadata_of o).labels

  abbrev workload_managed : WorkloadManifest Q → Bool
  workload_managed m = is_managed version (workload_metadata m.object).labels

  all-unrouted :
      (rs : List Route)
      → all (route_managed version) rs ≡ true
      → all workload_managed (map (λ r. unraw (route r)) rs) ≡ true
  all-unrouted rs h = all-map workload_managed (λ r. unraw (route r)) rs ∙ h

  all-service :
      (name ns : Text) (svc : Option ServiceConfig) (containers : List ContainerConfig)
      → (selector : Dict Text) (headless : ServiceConfig → Bool)
      → all workload_managed
          (workload_service must_parse version name ns svc containers selector headless)
        ≡ true
  unfolding workload_service all
  all-service name ns none containers selector headless = refl
  all-service name ns (some svc) containers selector headless =
      rw (is_managed-kdef_labels version ((name_label, name) ∷ [])) refl

  all-hpa :
      (name ns : Text) (a : Option AutoscaleConfig)
      → all workload_managed (generate_hpa must_parse version name ns a) ≡ true
  unfolding generate_hpa all
  all-hpa name ns none = refl
  all-hpa name ns (some a) = rw (is_managed-kdef_labels version ((name_label, name) ∷ [])) refl

  -- The workload itself and the rest.
  all-workload :
      (w : WorkloadManifest Q) (rest : List (WorkloadManifest Q))
      → workload_managed w ≡ true
      → all workload_managed rest ≡ true
      → all (λ m. is_labelled m.object) (map (manifest_of must_parse version) (w ∷ rest)) ≡ true
  unfolding all
  all-workload w rest h k = rw h (
      all-map {B = Manifest (Resource Q)} (λ m. is_labelled m.object)
        (manifest_of must_parse version) rest
      ∙ k)

  all-deployment :
      (dep : DeploymentConfig) (d : Option IngressDefaults)
      → holds is_labelled ((generators must_parse version).deployment dep d) ≡ true
  unfolding generators generate_deployment_v2 workload_labels
  all-deployment dep d = all-workload _ _ (is_managed-kdef_labels version _) (
      both workload_managed (workload_service must_parse version _ _ dep.service dep.containers _ _)
        _ (all-service dep.name dep.namespace dep.service dep.containers _ _)
        (both workload_managed _ (generate_hpa must_parse version _ _ dep.autoscale)
          (all-unrouted _ (all-workload_routes version d dep.name dep.namespace _ 0 dep.ingresses))
          (all-hpa dep.name dep.namespace dep.autoscale)))

  all-daemon_set :
      (ds : DaemonSetConfig)
      → holds is_labelled ((generators must_parse version).daemon_set ds) ≡ true
  unfolding generators generate_daemon_set workload_labels
  all-daemon_set ds =
      all-workload _ _ (is_managed-kdef_labels version _)
        (all-service ds.name ds.namespace ds.service ds.containers _ _)

  all-stateful_set :
      (sts : StatefulSetConfig) (d : Option IngressDefaults)
      → holds is_labelled ((generators must_parse version).stateful_set sts d) ≡ true
  unfolding generators generate_stateful_set workload_labels
  all-stateful_set sts d = all-workload _ _ (is_managed-kdef_labels version _) (
      both workload_managed (workload_service must_parse version _ _ sts.service sts.containers _ _)
        _ (all-service sts.name sts.namespace sts.service sts.containers _ _)
        (all-unrouted _ (all-workload_routes version d sts.name sts.namespace _ 0 sts.ingresses)))

  all-standalone_ingress :
      (ing : IngressConfig) (d : Option IngressDefaults)
      → holds is_labelled ((generators must_parse version).standalone_ingress ing d) ≡ true
  unfolding generators
  all-standalone_ingress ing d =
      all-map {A = Route} {B = Manifest (Resource Q)} (λ m. is_labelled m.object)
        (λ r. record { object = workload (route r); raw = [] })
        (generate_standalone_ingress version ing d)
      ∙ all-generate_standalone_ingress version ing d

  generators-IsUniform : IsUniform is_labelled (generators must_parse version)
  unfolding generators generate_cron_job generate_namespace generate_service_account
      generate_config_map generate_secret generate_sealed_secret generate_persistent_volume_claim
      generate_cluster_role generate_cluster_role_binding generate_crd generate_csi_driver
  generators-IsUniform = record {
    namespace = λ n. is_managed-kdef_labels version _;
    service_account = λ sa n. is_managed-kdef_labels version _;
    deployment = all-deployment;
    daemon_set = all-daemon_set;
    stateful_set = all-stateful_set;
    cron_job = λ r. is_managed-kdef_labels version _;
    config_map = λ r. is_managed-kdef_labels version _;
    standalone_ingress = all-standalone_ingress;
    secret = λ r. is_managed-kdef_labels version _;
    sealed_secret = λ r. is_managed-kdef_labels version _;
    persistent_volume_claim = λ r. is_managed-kdef_labels version _;
    cluster_role = λ r. is_managed-kdef_labels version _;
    cluster_role_binding = λ r. is_managed-kdef_labels version _;
    crd = λ r. is_managed-kdef_labels version _;
    csi_driver = λ r. is_managed-kdef_labels version _;
  }

  -- Every object that Generate returns, at whatever key, has the label that kdef manages it and the
  -- label of kdef's version, whatever labels the configuration declares.
  pub generate_managed :
      (c : KdefConfig) (key : Text)
      → all
          (λ m. is_labelled m.object)
          (manifests_or_nil (lookup key (generate (generators must_parse version) c)))
        ≡ true
  generate_managed c key =
      generate-holds is_labelled (generators must_parse version) generators-IsUniform c key
