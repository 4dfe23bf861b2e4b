-- ===== src/Generator/Workloads.antt =====
-- internal/generator: GenerateDeploymentV2, GenerateDaemonSet, GenerateStatefulSet, GenerateHPA and
-- buildWorkloadService.
pub mod Laws
use kdef.Base.{
  List, [], ◌∷◌, ◌++◌, map, Bool, true, false, not, ◌&&◌, ◌||◌, if◌then◌else◌, Option, none, some,
}
use kdef.Base.Dict.{Dict, null, set_of, merge}
use kdef.Base.Int.{ℤ, pos}
use kdef.Base.Text.{Text, text, is_empty, ◌==◌}
use kdef.Generator.Kubernetes.{
  ObjectMeta, IntOrString, int, str, RollingUpdate, DeploymentStrategy, DeploymentSpec,
  DaemonSetSpec, StatefulSetSpec, ClaimTemplate, ServicePort, ServiceSpec, Metric, AutoscalerSpec,
}
use kdef.Generator.Pod.{optional}
use kdef.Generator.PodSpec.{PodTemplateInput, build_pod_spec, deployment_pod_spec}
use kdef.Generator.Routes.{Route, kdef_labels, name_label, workload_routes}
use kdef.Types.{
  DeploymentConfig, DaemonSetConfig, StatefulSetConfig, ContainerConfig, PortConfig, ServiceConfig,
  ServicePortConfig, AutoscaleConfig, RolloutConfig, VolumeClaimTemplate, IngressDefaults,
}
use mathlib.Core.List.{flat_map}
use mathlib.Core.Option
use kdef.Generator.WorkloadParts.{
  Workload, WorkloadManifest, unraw, workload_labels, workload_selector, container_ports,
  service_ports, service_type, service_name_of, parse_int_or_percent, strategy_type,
  rollout_strategy, apply_rollout, metric, autoscaler_metrics, deployment, daemon_set, stateful_set,
  service, autoscaler, route,
}

module _ {Q : Type 0} (must_parse : Text → Q) (version : Text) where
  abbrev pub name_labels : Text → Dict Text
  name_labels name = kdef_labels version ((name_label, name) ∷ [])

  unfoldable pub build_workload_service :
      Text → Text → ServiceConfig → List ContainerConfig → Dict Text → Bool → Workload Q
  unfolding service_ports service_type service_name_of
  build_workload_service name namespace svc containers selector cluster_ip_none =
      service
        (record {
          name = service_name_of name svc;
          namespace = namespace;
          labels = name_labels name;
          annotations = [];
        })
        (record {
          type = service_type svc.type;
          selector = selector;
          ports = service_ports svc containers;
          cluster_ip = if cluster_ip_none then text "None" else [];
        })

  unfoldable pub generate_hpa : Text → Text → Option AutoscaleConfig → List (WorkloadManifest Q)
  unfolding autoscaler_metrics
  generate_hpa name namespace none = []
  generate_hpa name namespace (some a) =
      unraw (
        autoscaler
          (record {
            name = name;
            namespace = namespace;
            labels = name_labels name;
            annotations = [];
          })
          (record {
            target_kind = text "Deployment";
            target_name = name;
            min_replicas = a.min;
            max_replicas = a.max;
            metrics = autoscaler_metrics a;
          }))
      ∷ []

  -- The Service of a workload that has a service block.
  unfoldable pub workload_service :
      Text
      → Text
      → Option ServiceConfig
      → List ContainerConfig
      → Dict Text
      → (ServiceConfig → Bool)
      → List (WorkloadManifest Q)
  unfolding build_workload_service
  workload_service name namespace none containers selector headless = []
  workload_service name namespace (some svc) containers selector headless =
      unraw (build_workload_service name namespace svc containers selector (headless svc)) ∷ []

  unfoldable pub generate_deployment_v2 :
      DeploymentConfig → Option IngressDefaults → List (WorkloadManifest Q)
  unfolding workload_service generate_hpa apply_rollout workload_labels workload_selector
      container_ports
  generate_deployment_v2 dep defaults =
      let labels = workload_labels version dep.name dep.labels in
      let selector = workload_selector dep.name dep.selector in
      let pod : PodTemplateInput = record {
        containers = dep.containers;
        init_containers = dep.init_containers;
        volumes = dep.volumes;
        image_pull_secrets = dep.image_pull_secrets;
        service_account_name = dep.service_account_name;
        security_context = dep.security_context;
        node_selector = dep.node_selector;
        tolerations = dep.tolerations;
        host_network = dep.host_network;
        host_pid = dep.host_pid;
        host_ipc = dep.host_ipc;
        dns_policy = dep.dns_policy;
      } in
      (record {
        object =
            deployment
              (record {
                name = dep.name;
                namespace = dep.namespace;
                labels = labels;
                annotations = [];
              })
              (apply_rollout dep.rollout (record {
                replicas = dep.replicas;
                selector = selector;
                template = record { labels = labels; spec = deployment_pod_spec must_parse pod };
                revision_history_limit = none;
                progress_deadline_seconds = none;
                strategy = none;
              }));
        raw = dep.raw;
      })
      ∷ (workload_service dep.name dep.namespace dep.service dep.containers selector (λ svc. false)
          ++ (map (λ r. unraw (route r))
                (workload_routes version defaults dep.name dep.namespace
                  (container_ports dep.containers) 0 dep.ingresses)
              ++ generate_hpa dep.name dep.namespace dep.autoscale))

  unfoldable pub generate_daemon_set : DaemonSetConfig → List (WorkloadManifest Q)
  unfolding workload_service workload_labels workload_selector
  generate_daemon_set ds =
      let labels = workload_labels version ds.name ds.labels in
      let selector = workload_selector ds.name ds.selector in
      let pod : PodTemplateInput = record {
        containers = ds.containers;
        init_containers = ds.init_containers;
        volumes = ds.volumes;
        image_pull_secrets = ds.image_pull_secrets;
        service_account_name = ds.service_account_name;
        security_context = ds.security_context;
        node_selector = ds.node_selector;
        tolerations = ds.tolerations;
        host_network = ds.host_network;
        host_pid = ds.host_pid;
        host_ipc = ds.host_ipc;
        dns_policy = ds.dns_policy;
      } in
      (record {
        object =
            daemon_set
              (record {
                name = ds.name;
                namespace = ds.namespace;
                labels = labels;
                annotations = [];
              })
              (record {
                selector = selector;
                template = record { labels = labels; spec = build_pod_spec must_parse pod [] };
              });
        raw = ds.raw;
      })
      ∷ workload_service ds.name ds.namespace ds.service ds.containers selector (λ svc. false)

  unfoldable pub build_volume_claim_template : VolumeClaimTemplate → ClaimTemplate Q
  build_volume_claim_template vc = record {
    name = vc.name;
    spec = record {
      access_modes =
          if not (null vc.access_modes) then vc.access_modes else text "ReadWriteOnce" ∷ [];
      storage = must_parse vc.storage;
      storage_class_name = optional vc.storage_class;
    };
  }

  unfoldable pub generate_stateful_set :
      StatefulSetConfig → Option IngressDefaults → List (WorkloadManifest Q)
  unfolding workload_service workload_labels workload_selector container_ports
      build_volume_claim_template
  generate_stateful_set sts defaults =
      let labels = workload_labels version sts.name sts.labels in
      let selector = workload_selector sts.name sts.selector in
      let service_name = if is_empty sts.service_name then sts.name else sts.service_name in
      let pod : PodTemplateInput = record {
        containers = sts.containers;
        init_containers = sts.init_containers;
        volumes = sts.volumes;
        image_pull_secrets = sts.image_pull_secrets;
        service_account_name = sts.service_account_name;
        security_context = sts.security_context;
        node_selector = sts.node_selector;
        tolerations = sts.tolerations;
        host_network = sts.host_network;
        host_pid = sts.host_pid;
        host_ipc = sts.host_ipc;
        dns_policy = sts.dns_policy;
      } in
      (record {
        object =
            stateful_set
              (record {
                name = sts.name;
                namespace = sts.namespace;
                labels = labels;
                annotations = [];
              })
              (record {
                replicas = sts.replicas;
                service_name = service_name;
                selector = selector;
                template = record {
                  labels = labels;
                  spec =
                      build_pod_spec must_parse pod
                        (set_of (map (λ vc. vc.name) sts.volume_claims));
                };
                pod_management_policy = sts.pod_management_policy;
                volume_claim_templates = map build_volume_claim_template sts.volume_claims;
              });
        raw = sts.raw;
      })
      ∷ (workload_service sts.name sts.namespace sts.service sts.containers selector
            (λ svc. service_name_of sts.name svc == service_name && is_empty svc.type)
          ++ map (λ r. unraw (route r))
              (workload_routes version defaults sts.name sts.namespace
                (container_ports sts.containers) 0 sts.ingresses))
