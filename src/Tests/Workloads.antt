-- ===== src/Tests/Workloads.antt =====
-- Concrete workloads, and the theorems on their manifests.
use kdef.Base.{
  map, [], ◌∷◌, ◌++◌, true, false, ◌||◌, ◌&&◌, if◌then◌else◌, none, some, all, ltb, ◌*◌, ◌≡◌, refl,
  arith,
}
use kdef.Base.Dict.{null, lookup}
use kdef.Base.Format.{itoa, replace_all, cutoff, trim_space, parse_int, times}
use kdef.Base.Int.{pos}
use kdef.Base.Text.{Text, text, ◌==◌}
use kdef.Generator.CronJobs.{starting_deadline}
use kdef.Generator.CronJobs.Laws.{unit_seconds, starting_deadline_bounds}
use kdef.Generator.Generate.{manifests_or_nil, generate}
use kdef.Generator.Kubernetes.{ObjectMeta, HttpRouteSpec, CertificateSpec, IngressSpec}
use kdef.Generator.PodSpec.{PodTemplateInput, build_init_container, build_pod_spec}
use kdef.Generator.Pod.{build_volume_mount}
use mathlib.Core.List.{flat_map}
use kdef.Generator.PodSpec.Mounts.{mounts_of, is_provided, build_pod_spec_mounts}
use kdef.Generator.Resources.{generators}
use kdef.Generator.Resources.Laws.{is_labelled, generate_managed}
use kdef.Generator.Routes.{
  RouteApp, ingress, http_route, certificate, generate_certificate, name_label, routes_of,
}
use kdef.Generator.Routes.Laws.{routes_of-certificate, routes_of-gateway}
use kdef.Generator.WorkloadParts.{workload_labels}
use kdef.Generator.Workloads.{generate_deployment_v2}
use kdef.Generator.Workloads.Laws.{selects_pods, has_label, generate_deployment_v2_selects}
use kdef.Importer.Duration.{format_duration}
use kdef.Importer.Duration.Laws.{set_deadline, starting_deadline-format_duration}
use kdef.Importer.Groups.{
  ClusterService, ClusterIngress, ClusterWorkload, ClusterResources, group_workloads,
}
use kdef.Importer.Groups.Laws.{routed, group_workloads_ingresses}
use kdef.Tests.{web, web_config, web_ingress}
use kdef.Types.{DeploymentConfig, InitContainerConfig, VolumeConfig}
use kdef.Types.Hosts.{all_hosts, certificate_secret_name}

-- A quantity is its text.
abbrev quantity : Text → Text
quantity s = s

abbrev version : Text
version = text "v1"

abbrev cache : VolumeConfig
cache = record {
  name = text "cache";
  mount_path = text "/cache";
  sub_path = [];
  read_only = false;
  secret = [];
  config_map = [];
  empty_dir = true;
  empty_dir_size = [];
  pvc = [];
  host_path = [];
  host_path_type = [];
  csi_driver = [];
  csi_attributes = [];
  csi_secret = [];
  mount_propagation = [];
}

abbrev warm_up : InitContainerConfig
warm_up = record {
  name = text "warm-up";
  image = text "warm";
  image_pull_policy = [];
  command = [];
  args = [];
  env = [];
  env_from = [];
  volume_mounts = text "cache" ∷ text "none" ∷ [];
  security_context = none;
}

abbrev pod : PodTemplateInput
pod = record {
  containers = [];
  init_containers = warm_up ∷ [];
  volumes = cache ∷ [];
  image_pull_secrets = [];
  service_account_name = [];
  security_context = none;
  node_selector = [];
  tolerations = [];
  host_network = false;
  host_pid = false;
  host_ipc = false;
  dns_policy = [];
}

build_pod_spec_mounts_example :
    all (is_provided quantity [] (build_pod_spec quantity pod [])) (
      mounts_of (build_pod_spec quantity pod []).containers
      ++ mounts_of (build_pod_spec quantity pod []).init_containers)
    ≡ true
build_pod_spec_mounts_example = build_pod_spec_mounts quantity pod []

mounts_test : mounts_of (build_pod_spec quantity pod []).init_containers ≡ text "cache" ∷ []
unfolding build_pod_spec mounts_of ◌==◌ build_init_container flat_map build_volume_mount
mounts_test = refl

abbrev labelled : DeploymentConfig
labelled = record web { labels = (text "team", text "ops") ∷ [] }

generate_deployment_v2_selects_example :
    all
      (λ m.
        selects_pods {Q = Text} (workload_labels version labelled.name labelled.labels) m.object)
      (generate_deployment_v2 quantity version labelled none)
    ≡ (null labelled.labels || has_label name_label labelled.name labelled.labels)
generate_deployment_v2_selects_example =
    generate_deployment_v2_selects quantity version labelled none refl

-- The labels leave out the name, so that the selector selects no pods.
selects_test : has_label name_label labelled.name labelled.labels ≡ false
unfolding lookup ◌==◌
selects_test = refl

generate_managed_example :
    all
      (λ m. is_labelled version quantity m.object)
      (manifests_or_nil (lookup (text "web") (generate (generators quantity version) web_config)))
    ≡ true
generate_managed_example = generate_managed version quantity web_config (text "web")

abbrev web_app : RouteApp
web_app = record {
  name = text "web";
  namespace = text "prod";
  ports = [];
  ingress = web_ingress;
  ingress_mode = [];
  ingress_gateway = [];
  ingress_gateway_ns = [];
}

abbrev web_certificate_meta : ObjectMeta
web_certificate_meta = record {
  name = certificate_secret_name web_ingress;
  namespace = text "prod";
  labels =
      (name_label, text "web")
      ∷ (text "app.kubernetes.io/managed-by", text "kdef")
      ∷ (text "kdef.dev/version", version)
      ∷ [];
  annotations = [];
}

abbrev web_certificate : CertificateSpec
web_certificate = record {
  secret_name = certificate_secret_name web_ingress;
  dns_names = all_hosts web_ingress;
  issuer = text "letsencrypt-production";
}

routes_of-certificate_example :
    (m : ObjectMeta) × (spec : IngressSpec) × (routes_of version web_app
      ≡ ingress m spec ∷ certificate web_certificate_meta web_certificate ∷ [])
    × (spec.tls
        ≡ some (record {
          hosts = web_certificate.dns_names;
          secret_name = web_certificate.secret_name;
        }))
    × (m.namespace ≡ web_certificate_meta.namespace)
unfolding generate_certificate all_hosts certificate_secret_name replace_all ◌==◌
routes_of-certificate_example =
    routes_of-certificate version web_app {m = web_certificate_meta} {cert = web_certificate} refl
      refl

abbrev gateway_app : RouteApp
gateway_app = record web_app { ingress_mode = text "gateway"; ingress_gateway = text "public" }

routes_of-gateway_example :
    (m : ObjectMeta) × (spec : HttpRouteSpec) × (routes_of version gateway_app
      ≡ http_route m spec ∷ certificate web_certificate_meta web_certificate ∷ [])
    × (spec.hostnames ≡ web_certificate.dns_names)
    × (m.namespace ≡ web_certificate_meta.namespace)
unfolding generate_certificate all_hosts certificate_secret_name replace_all ◌==◌
routes_of-gateway_example =
    routes_of-gateway version gateway_app {m = web_certificate_meta} {cert = web_certificate} refl
      refl

starting_deadline_bounds_example :
    starting_deadline (itoa 4 ++ 109 ∷ [])
    ≡ (if ltb 0 (4 * 60) && ltb (4 * 60) cutoff then some (pos (4 * 60)) else none)
unfolding unit_seconds
starting_deadline_bounds_example =
    starting_deadline_bounds 4 109 60 (omega arith) refl (omega arith)

starting_deadline-format_duration_example :
    starting_deadline (format_duration (pos 7200)) ≡ set_deadline 7200
starting_deadline-format_duration_example = starting_deadline-format_duration 7200 (omega arith)

deadline_test : starting_deadline (text "4m") ≡ some (pos 240)
unfolding starting_deadline trim_space parse_int times
deadline_test = refl

-- The product wraps around to a negative number of seconds.
overflow_test : starting_deadline (text "2562047788015216h") ≡ none
unfolding starting_deadline trim_space parse_int times
overflow_test = refl

abbrev web_service : ClusterService
web_service = record {
  name = text "web-svc";
  selector = (text "app.kubernetes.io/name", text "web") ∷ [];
}

-- The ingress has two paths to one service, and one to another.
abbrev cluster_ingress : ClusterIngress
cluster_ingress = record {
  name = text "web";
  rules =
      some (some (text "web-svc") ∷ none ∷ [])
      ∷ none
      ∷ some (some (text "api") ∷ some (text "web-svc") ∷ [])
      ∷ [];
}

abbrev web_workload : ClusterWorkload
web_workload = record { name = text "web"; labels = []; service_name = [] }

abbrev cluster : ClusterResources
cluster = record {
  deployments = web_workload ∷ [];
  daemon_sets = [];
  stateful_sets = [];
  services = web_service ∷ [];
  ingresses = cluster_ingress ∷ [];
}

group_workloads_ingresses_example :
    (map (λ g. g.ingresses) (group_workloads cluster).deployments
      ≡ map (λ g. routed cluster.ingresses g.service) (group_workloads cluster).deployments)
    × (map (λ g. g.ingresses) (group_workloads cluster).stateful_sets
        ≡ map (λ g. routed cluster.ingresses g.service) (group_workloads cluster).stateful_sets)
group_workloads_ingresses_example = group_workloads_ingresses cluster
