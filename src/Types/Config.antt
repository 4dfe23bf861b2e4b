-- ===== src/Types/Config.antt =====
-- internal/types/config.go, root.go and variable.go. The `Variables` of a KdefConfig hold values of
-- go-cty and are read by BuildEvalContext alone, so the model passes them beside the config.
use kdef.Base.{Bool, List, Option}
use kdef.Base.Dict.{Dict}
use kdef.Base.Text.{Text}
use kdef.Types.Ingress.{IngressConfig, IngressDefaults}
use kdef.Types.Workloads.{DeploymentConfig, DaemonSetConfig, StatefulSetConfig, CronJobConfig}
use kdef.Types.Resources.{
  ConfigMapConfig, SecretConfig, SealedSecretConfig, PersistentVolumeClaimConfig, ClusterRoleConfig,
  ClusterRoleBindingConfig, CrdConfig, CsiDriverConfig,
}

pub record ServiceAccountConfig : Type 0 where
  pub name : Text
  pub namespace : Text
  pub image_pull_secrets : List Text

pub record DeploymentEntry : Type 0 where
  pub path : Text
  pub namespace : Text
  pub service_account : Text
  pub env : Text
  pub set : Dict Text

pub record RootConfig : Type 0 where
  pub namespaces : List Text
  pub service_accounts : List ServiceAccountConfig
  pub ingress_defaults : Option IngressDefaults
  pub env : Text
  pub set : Dict Text
  pub deployments : Dict DeploymentEntry

pub record KdefConfig : Type 0 where
  pub deployments : List DeploymentConfig
  pub daemon_sets : List DaemonSetConfig
  pub stateful_sets : List StatefulSetConfig
  pub cron_jobs : List CronJobConfig
  pub config_maps : List ConfigMapConfig
  pub ingresses : List IngressConfig
  pub secrets : List SecretConfig
  pub sealed_secrets : List SealedSecretConfig
  pub persistent_volume_claims : List PersistentVolumeClaimConfig
  pub namespaces : List Text
  pub service_accounts : List ServiceAccountConfig
  pub cluster_roles : List ClusterRoleConfig
  pub cluster_role_bindings : List ClusterRoleBindingConfig
  pub crds : List CrdConfig
  pub csi_drivers : List CsiDriverConfig
  pub ingress_defaults : Option IngressDefaults
  pub warnings : List Text

-- `T` and `V` are go-cty's types and values.
pub record VariableDecl (T V : Type 0) : Type 0 where
  pub name : Text
  pub type : Text
  pub cty_type : T
  pub default : Option V
  pub allowed_values : List Text
  pub required : Bool
