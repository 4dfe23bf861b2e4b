-- ===== src/Types/Pod.antt =====
-- internal/types/app.go and deployment.go: what a pod is made of.
use kdef.Base.{Bool, List, Option}
use kdef.Base.Int.{ℤ}
use kdef.Base.Dict.{Dict}
use kdef.Base.Text.{Text}

pub record AutoscaleConfig : Type 0 where
  pub min : ℤ
  pub max : ℤ
  pub cpu_percent : Option ℤ
  pub mem_percent : Option ℤ

pub record PortConfig : Type 0 where
  pub number : ℤ
  pub name : Text
  pub health : Text
  pub ready : Text
  pub tcp_health : Bool
  pub tcp_ready : Bool
  pub initial_delay : Option ℤ
  pub period : Option ℤ
  pub timeout : Option ℤ
  pub failures : Option ℤ
  pub successes : Option ℤ

pub record ResourcesConfig : Type 0 where
  pub cpu_request : Text
  pub cpu_limit : Text
  pub memory_request : Text
  pub memory_limit : Text
  pub ephemeral_storage_request : Text
  pub ephemeral_storage_limit : Text

pub record VolumeConfig : Type 0 where
  pub name : Text
  pub mount_path : Text
  pub sub_path : Text
  pub read_only : Bool
  pub secret : Text
  pub config_map : Text
  pub empty_dir : Bool
  pub empty_dir_size : Text
  pub pvc : Text
  pub host_path : Text
  pub host_path_type : Text
  pub csi_driver : Text
  pub csi_attributes : Dict Text
  pub csi_secret : Text
  pub mount_propagation : Text

pub record ProbeConfig : Type 0 where
  pub http_path : Text
  pub http_port : ℤ
  pub tcp_port : ℤ
  pub exec : List Text
  pub initial_delay : Option ℤ
  pub period : Option ℤ
  pub timeout : Option ℤ
  pub failures : Option ℤ
  pub successes : Option ℤ

pub record ProbesConfig : Type 0 where
  pub liveness : Option ProbeConfig
  pub readiness : Option ProbeConfig
  pub startup : Option ProbeConfig

pub record LifecycleHandler : Type 0 where
  pub exec : List Text
  pub http_path : Text
  pub http_port : ℤ

pub record LifecycleConfig : Type 0 where
  pub pre_stop : Option LifecycleHandler
  pub post_start : Option LifecycleHandler

pub record EnvEntry : Type 0 where
  pub name : Text
  pub value : Text
  pub secret_name : Text
  pub secret_key : Text
  pub config_map_name : Text
  pub config_map_key : Text
  pub field_path : Text

pub record EnvFromEntry : Type 0 where
  pub config_map : Text
  pub secret : Text
  pub prefix : Text

pub record SecurityContextConfig : Type 0 where
  pub run_as_user : Option ℤ
  pub run_as_group : Option ℤ
  pub run_as_non_root : Option Bool
  pub read_only_root : Option Bool
  pub fs_group : Option ℤ
  pub privileged : Option Bool

pub record InitContainerConfig : Type 0 where
  pub name : Text
  pub image : Text
  pub image_pull_policy : Text
  pub command : List Text
  pub args : List Text
  pub env : List EnvEntry
  pub env_from : List EnvFromEntry
  pub volume_mounts : List Text
  pub security_context : Option SecurityContextConfig

pub record SidecarConfig : Type 0 where
  pub name : Text
  pub image : Text
  pub command : List Text
  pub ports : List PortConfig
  pub env : List EnvEntry
  pub env_from : List EnvFromEntry
  pub resources : Option ResourcesConfig
  pub volumes : List VolumeConfig
  pub security_context : Option SecurityContextConfig

pub record TolerationConfig : Type 0 where
  pub key : Text
  pub operator : Text
  pub value : Text
  pub effect : Text
  pub toleration_seconds : Option ℤ

pub record ContainerConfig : Type 0 where
  pub name : Text
  pub image : Text
  pub image_pull_policy : Text
  pub command : List Text
  pub args : List Text
  pub working_dir : Text
  pub ports : List PortConfig
  pub env : List EnvEntry
  pub env_from : List EnvFromEntry
  pub resources : Option ResourcesConfig
  pub volumes : List VolumeConfig
  pub security_context : Option SecurityContextConfig
  pub probes : Option ProbesConfig
  pub lifecycle : Option LifecycleConfig

pub record ServicePortConfig : Type 0 where
  pub number : ℤ
  pub name : Text
  pub target : ℤ

pub record ServiceConfig : Type 0 where
  pub name : Text
  pub type : Text
  pub ports : List ServicePortConfig

pub record RolloutConfig : Type 0 where
  pub revision_history_limit : Option ℤ
  pub strategy : Text
  pub max_surge : Text
  pub max_unavailable : Text
  pub progress_deadline : Option ℤ

pub record VolumeClaimTemplate : Type 0 where
  pub name : Text
  pub mount_path : Text
  pub sub_path : Text
  pub read_only : Bool
  pub storage_class : Text
  pub access_modes : List Text
  pub storage : Text
