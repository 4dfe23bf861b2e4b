-- ===== src/Generator/Kubernetes.antt =====
-- The Kubernetes objects that internal/generator builds, with the fields that it sets. A list or a map
-- that is not set is empty, and so is a string; `Q` is a resource quantity.
use kdef.Base.{List, Bool, Option}
use kdef.Base.Dict.{Dict}
use kdef.Base.Int.{ℤ}
use kdef.Base.Text.{Text}
use kdef.Generator.Pod.{
  EnvVar, EnvFromSource, VolumeMount, Volume, ResourceRequirements, SecurityContext, Toleration,
}

pub record ObjectMeta : Type 0 where
  pub name : Text
  pub namespace : Text
  pub labels : Dict Text
  pub annotations : Dict Text

-- The handler of a probe or of a lifecycle event.
pub data Handler : Type 0 where
  http_get : Text → ℤ → Handler
  tcp_socket : ℤ → Handler
  exec : List Text → Handler

pub record Probe : Type 0 where
  pub handler : Option Handler
  pub initial_delay_seconds : ℤ
  pub period_seconds : ℤ
  pub timeout_seconds : ℤ
  pub failure_threshold : ℤ
  pub success_threshold : ℤ

pub record Lifecycle : Type 0 where
  pub pre_stop : Option Handler
  pub post_start : Option Handler

pub record ContainerPort : Type 0 where
  pub name : Text
  pub container_port : ℤ

pub record Container (Q : Type 0) : Type 0 where
  pub name : Text
  pub image : Text
  pub image_pull_policy : Text
  pub command : List Text
  pub args : List Text
  pub working_dir : Text
  pub ports : List ContainerPort
  pub env : List EnvVar
  pub env_from : List EnvFromSource
  pub liveness_probe : Option Probe
  pub readiness_probe : Option Probe
  pub startup_probe : Option Probe
  pub resources : Option (ResourceRequirements Q)
  pub volume_mounts : List VolumeMount
  pub security_context : Option SecurityContext
  pub lifecycle : Option Lifecycle

pub record PodSpec (Q : Type 0) : Type 0 where
  pub containers : List (Container Q)
  pub init_containers : List (Container Q)
  pub volumes : List (Volume Q)
  pub image_pull_secrets : List Text
  pub service_account_name : Text
  pub fs_group : Option ℤ
  pub node_selector : Dict Text
  pub tolerations : List Toleration
  pub host_network : Bool
  pub host_pid : Bool
  pub host_ipc : Bool
  pub dns_policy : Text
  pub restart_policy : Text

pub record PodTemplate (Q : Type 0) : Type 0 where
  pub labels : Dict Text
  pub spec : PodSpec Q

pub data IntOrString : Type 0 where
  int : ℤ → IntOrString
  str : Text → IntOrString

pub record RollingUpdate : Type 0 where
  pub max_surge : Option IntOrString
  pub max_unavailable : Option IntOrString

pub record DeploymentStrategy : Type 0 where
  pub type : Text
  pub rolling_update : Option RollingUpdate

pub record DeploymentSpec (Q : Type 0) : Type 0 where
  pub replicas : ℤ
  pub selector : Dict Text
  pub template : PodTemplate Q
  pub revision_history_limit : Option ℤ
  pub progress_deadline_seconds : Option ℤ
  pub strategy : Option DeploymentStrategy

pub record DaemonSetSpec (Q : Type 0) : Type 0 where
  pub selector : Dict Text
  pub template : PodTemplate Q

pub record ClaimSpec (Q : Type 0) : Type 0 where
  pub access_modes : List Text
  pub storage : Q
  pub storage_class_name : Option Text

pub record ClaimTemplate (Q : Type 0) : Type 0 where
  pub name : Text
  pub spec : ClaimSpec Q

pub record StatefulSetSpec (Q : Type 0) : Type 0 where
  pub replicas : ℤ
  pub service_name : Text
  pub selector : Dict Text
  pub template : PodTemplate Q
  pub pod_management_policy : Text
  pub volume_claim_templates : List (ClaimTemplate Q)

pub record CronJobSpec (Q : Type 0) : Type 0 where
  pub schedule : Text
  pub concurrency_policy : Text
  pub template : PodTemplate Q
  pub starting_deadline_seconds : Option ℤ
  pub suspend : Option Bool
  pub successful_jobs_history_limit : Option ℤ
  pub failed_jobs_history_limit : Option ℤ

-- A port over TCP, the only protocol that the code sets.
pub record ServicePort : Type 0 where
  pub name : Text
  pub port : ℤ
  pub target_port : ℤ

pub record ServiceSpec : Type 0 where
  pub type : Text
  pub selector : Dict Text
  pub ports : List ServicePort
  pub cluster_ip : Text

-- The backend of the path prefix `/`, the only one that the code sets.
pub record Backend : Type 0 where
  pub service : Text
  pub port : ℤ

pub record IngressRule : Type 0 where
  pub host : Text
  pub backend : Backend

pub record IngressTls : Type 0 where
  pub hosts : List Text
  pub secret_name : Text

pub record IngressSpec : Type 0 where
  pub ingress_class_name : Text
  pub rules : List IngressRule
  pub tls : Option IngressTls

pub record HttpRouteSpec : Type 0 where
  pub gateway : Text
  pub gateway_namespace : Option Text
  pub hostnames : List Text
  pub backend : Backend

pub record CertificateSpec : Type 0 where
  pub secret_name : Text
  pub dns_names : List Text
  pub issuer : Text

-- A metric of the utilization of a resource.
pub record Metric : Type 0 where
  pub resource : Text
  pub average_utilization : ℤ

pub record AutoscalerSpec : Type 0 where
  pub target_kind : Text
  pub target_name : Text
  pub min_replicas : ℤ
  pub max_replicas : ℤ
  pub metrics : List Metric
