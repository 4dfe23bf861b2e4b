-- ===== src/Types/Workloads.antt =====
-- internal/types/app.go, deployment.go, daemonset.go, statefulset.go, cronjob.go: the workloads.
use kdef.Base.{Bool, List, Option}
use kdef.Base.Int.{ℤ}
use kdef.Base.Dict.{Dict}
use kdef.Base.Text.{Text}
use kdef.Types.Ingress.{IngressConfig}
use kdef.Types.Pod.{
  AutoscaleConfig, PortConfig, ResourcesConfig, VolumeConfig, EnvEntry, EnvFromEntry,
  SecurityContextConfig, InitContainerConfig, SidecarConfig, TolerationConfig, ContainerConfig,
  ServiceConfig, RolloutConfig, VolumeClaimTemplate,
}

pub record AppConfig : Type 0 where
  pub name : Text
  pub namespace : Text
  pub labels : Dict Text
  pub selector : Dict Text
  pub image : Text
  pub image_pull_policy : Text
  pub image_pull_secrets : List Text
  pub service_account_name : Text
  pub replicas : ℤ
  pub ports : List PortConfig
  pub env : List EnvEntry
  pub env_from : List EnvFromEntry
  pub ingress : Option IngressConfig
  pub ingress_mode : Text
  pub ingress_gateway : Text
  pub ingress_gateway_ns : Text
  pub resources : Option ResourcesConfig
  pub volumes : List VolumeConfig
  pub security_context : Option SecurityContextConfig
  pub init_containers : List InitContainerConfig
  pub sidecars : List SidecarConfig
  pub autoscale : Option AutoscaleConfig
  pub raw : Text

pub record DeploymentConfig : Type 0 where
  pub name : Text
  pub namespace : Text
  pub labels : Dict Text
  pub selector : Dict Text
  pub image_pull_secrets : List Text
  pub service_account_name : Text
  pub replicas : ℤ
  pub containers : List ContainerConfig
  pub init_containers : List InitContainerConfig
  pub volumes : List VolumeConfig
  pub security_context : Option SecurityContextConfig
  pub node_selector : Dict Text
  pub tolerations : List TolerationConfig
  pub host_network : Bool
  pub host_pid : Bool
  pub host_ipc : Bool
  pub dns_policy : Text
  pub service : Option ServiceConfig
  pub ingresses : List IngressConfig
  pub autoscale : Option AutoscaleConfig
  pub rollout : Option RolloutConfig
  pub raw : Text

pub record StatefulSetConfig : Type 0 where
  pub name : Text
  pub namespace : Text
  pub labels : Dict Text
  pub selector : Dict Text
  pub image_pull_secrets : List Text
  pub service_account_name : Text
  pub replicas : ℤ
  pub service_name : Text
  pub pod_management_policy : Text
  pub containers : List ContainerConfig
  pub init_containers : List InitContainerConfig
  pub volumes : List VolumeConfig
  pub volume_claims : List VolumeClaimTemplate
  pub security_context : Option SecurityContextConfig
  pub node_selector : Dict Text
  pub tolerations : List TolerationConfig
  pub host_network : Bool
  pub host_pid : Bool
  pub host_ipc : Bool
  pub dns_policy : Text
  pub service : Option ServiceConfig
  pub ingresses : List IngressConfig
  pub raw : Text

pub record DaemonSetConfig : Type 0 where
  pub name : Text
  pub namespace : Text
  pub labels : Dict Text
  pub selector : Dict Text
  pub image_pull_secrets : List Text
  pub service_account_name : Text
  pub containers : List ContainerConfig
  pub init_containers : List InitContainerConfig
  pub volumes : List VolumeConfig
  pub security_context : Option SecurityContextConfig
  pub node_selector : Dict Text
  pub tolerations : List TolerationConfig
  pub host_network : Bool
  pub host_pid : Bool
  pub host_ipc : Bool
  pub dns_policy : Text
  pub service : Option ServiceConfig
  pub raw : Text

pub record CronJobConfig : Type 0 where
  pub name : Text
  pub container_name : Text
  pub namespace : Text
  pub image : Text
  pub image_pull_policy : Text
  pub image_pull_secrets : List Text
  pub service_account_name : Text
  pub command : List Text
  pub args : List Text
  pub schedule : Text
  pub env : List EnvEntry
  pub env_from : List EnvFromEntry
  pub resources : Option ResourcesConfig
  pub volumes : List VolumeConfig
  pub security_context : Option SecurityContextConfig
  pub node_selector : Dict Text
  pub tolerations : List TolerationConfig
  pub host_network : Bool
  pub host_pid : Bool
  pub host_ipc : Bool
  pub dns_policy : Text
  pub concurrency : Text
  pub deadline : Text
  pub restart : Text
  pub suspend : Option Bool
  pub history_limit : Option ℤ
  pub failed_history_limit : Option ℤ
