-- ===== src/Generator/WorkloadParts.antt =====
-- internal/generator: the parts of a workload's manifests: labels and selectors, the ports and the type
-- of a Service, the rollout of a Deployment, and the metrics of an autoscaler.
use kdef.Base.{List, [], ◌∷◌, ◌++◌, map, not, ◌&&◌, ◌||◌, if◌then◌else◌, Option, none, some}
use kdef.Base.Dict.{Dict, null, merge}
use kdef.Base.Format.{parse_int}
use kdef.Base.Int.{ℤ, pos}
use kdef.Base.Text.{Text, text, is_empty, ◌==◌}
use kdef.Generator.Kubernetes.{
  ObjectMeta, IntOrString, int, str, DeploymentStrategy, DeploymentSpec, DaemonSetSpec,
  StatefulSetSpec, ServicePort, ServiceSpec, Metric, AutoscalerSpec,
}
use kdef.Generator.Pod.{optional}
use kdef.Generator.Routes.{Route, kdef_labels, name_label}
use kdef.Types.{
  ContainerConfig, PortConfig, ServiceConfig, ServicePortConfig, AutoscaleConfig, RolloutConfig,
}
use mathlib.Core.List.{flat_map}
use mathlib.Core.Option

pub data Workload (Q : Type 0) : Type 0 where
  deployment : ObjectMeta → DeploymentSpec Q → Workload Q
  daemon_set : ObjectMeta → DaemonSetSpec Q → Workload Q
  stateful_set : ObjectMeta → StatefulSetSpec Q → Workload Q
  service : ObjectMeta → ServiceSpec → Workload Q
  autoscaler : ObjectMeta → AutoscalerSpec → Workload Q
  route : Route → Workload Q

-- The object and the raw YAML of a manifest.
pub record WorkloadManifest (Q : Type 0) : Type 0 where
  pub object : Workload Q
  pub raw : Text

abbrev pub unraw : {Q : Type 0} → Workload Q → WorkloadManifest Q
unraw w = record { object = w; raw = [] }

-- The labels of a workload and of its pods: those that are declared, or its name, with kdef's own.
unfoldable pub workload_labels : Text → Text → Dict Text → Dict Text
workload_labels version name declared =
    kdef_labels version (if not (null declared) then merge [] declared else (name_label, name) ∷ [])

unfoldable pub workload_selector : Text → Dict Text → Dict Text
workload_selector name declared = if not (null declared) then declared else (name_label, name) ∷ []

unfoldable pub container_ports : List ContainerConfig → List PortConfig
container_ports cs = flat_map (λ c. c.ports) cs

unfoldable pub service_ports : ServiceConfig → List ContainerConfig → List ServicePort
unfolding container_ports
service_ports svc containers =
    if not (null svc.ports)
    then map {A = ServicePortConfig}
        (λ sp. record { name = sp.name; port = sp.number; target_port = sp.target }) svc.ports
    else map {A = PortConfig}
        (λ p. record { name = p.name; port = p.number; target_port = p.number })
        (container_ports containers)

unfoldable pub service_type : Text → Text
service_type type =
    if type == text "NodePort"
    then text "NodePort"
    else if type == text "LoadBalancer"
    then text "LoadBalancer"
    else text "ClusterIP"

unfoldable pub service_name_of : Text → ServiceConfig → Text
service_name_of name svc = if not (is_empty svc.name) then svc.name else name

-- `int n` is intstr.FromInt of `n`.
unfoldable pub parse_int_or_percent : Text → IntOrString
parse_int_or_percent s = elim (parse_int s) [ some n ↦ int n | none ↦ str s ]

unfoldable pub strategy_type : Text → Text
strategy_type strategy =
    if strategy == text "Recreate"
    then text "Recreate"
    else if strategy == text "RollingUpdate" || is_empty strategy
    then text "RollingUpdate"
    else []

unfoldable pub rollout_strategy : RolloutConfig → Option DeploymentStrategy
unfolding strategy_type parse_int_or_percent
rollout_strategy r =
    let type = strategy_type r.strategy in
    if is_empty r.strategy && (is_empty r.max_surge && is_empty r.max_unavailable)
    then none
    else some (record {
      type = type;
      rolling_update =
          if type == text "RollingUpdate"
            && (not (is_empty r.max_surge) || not (is_empty r.max_unavailable))
          then some (record {
            max_surge = Option.map parse_int_or_percent (optional r.max_surge);
            max_unavailable = Option.map parse_int_or_percent (optional r.max_unavailable);
          })
          else none;
    })

unfoldable pub apply_rollout :
    {Q : Type 0} → Option RolloutConfig → DeploymentSpec Q → DeploymentSpec Q
unfolding rollout_strategy
apply_rollout none d = d
apply_rollout (some r) d = record d {
  revision_history_limit = r.revision_history_limit;
  progress_deadline_seconds = r.progress_deadline;
  strategy = rollout_strategy r;
}

-- The metrics of the percentages, or 80 per cent of the CPU.
abbrev pub metric : Text → Option ℤ → List Metric
metric resource none = []
metric resource (some n) = (record { resource = resource; average_utilization = n }) ∷ []

unfoldable pub autoscaler_metrics : AutoscaleConfig → List Metric
autoscaler_metrics a =
    let metrics = metric (text "cpu") a.cpu_percent ++ metric (text "memory") a.mem_percent in
    if null metrics then metric (text "cpu") (some (pos 80)) else metrics
