-- ===== src/Parser/FileResult.antt =====
-- internal/parser/app.go, duplicates.go and parser.go: the blocks of one file, and how they are
-- collected into a config.
use kdef.Base.{List, [], ◌++◌, none}
use kdef.Types.{
  DeploymentConfig, DaemonSetConfig, StatefulSetConfig, CronJobConfig, ConfigMapConfig,
  IngressConfig, SecretConfig, SealedSecretConfig, PersistentVolumeClaimConfig, ClusterRoleConfig,
  ClusterRoleBindingConfig, CrdConfig, CsiDriverConfig, KdefConfig,
}

pub record FileResult : Type 0 where
  pub deployments : List DeploymentConfig
  pub daemon_sets : List DaemonSetConfig
  pub stateful_sets : List StatefulSetConfig
  pub cron_jobs : List CronJobConfig
  pub config_maps : List ConfigMapConfig
  pub ingresses : List IngressConfig
  pub secrets : List SecretConfig
  pub sealed_secrets : List SealedSecretConfig
  pub persistent_volume_claims : List PersistentVolumeClaimConfig
  pub cluster_roles : List ClusterRoleConfig
  pub cluster_role_bindings : List ClusterRoleBindingConfig
  pub crds : List CrdConfig
  pub csi_drivers : List CsiDriverConfig

-- &types.KdefConfig{}
abbrev pub empty_config : KdefConfig
empty_config = record {
  deployments = [];
  daemon_sets = [];
  stateful_sets = [];
  cron_jobs = [];
  config_maps = [];
  ingresses = [];
  secrets = [];
  sealed_secrets = [];
  persistent_volume_claims = [];
  namespaces = [];
  service_accounts = [];
  cluster_roles = [];
  cluster_role_bindings = [];
  crds = [];
  csi_drivers = [];
  ingress_defaults = none;
  warnings = [];
}

unfoldable pub as_config : FileResult → KdefConfig
as_config r = record empty_config {
  deployments = r.deployments;
  daemon_sets = r.daemon_sets;
  stateful_sets = r.stateful_sets;
  cron_jobs = r.cron_jobs;
  config_maps = r.config_maps;
  ingresses = r.ingresses;
  secrets = r.secrets;
  sealed_secrets = r.sealed_secrets;
  persistent_volume_claims = r.persistent_volume_claims;
  cluster_roles = r.cluster_roles;
  cluster_role_bindings = r.cluster_role_bindings;
  crds = r.crds;
  csi_drivers = r.csi_drivers;
}

-- The thirteen `append` lines that collect the resources of `r` into `config`.
unfoldable pub append_resources : KdefConfig → KdefConfig → KdefConfig
append_resources config r = record config {
  deployments = config.deployments ++ r.deployments;
  daemon_sets = config.daemon_sets ++ r.daemon_sets;
  stateful_sets = config.stateful_sets ++ r.stateful_sets;
  cron_jobs = config.cron_jobs ++ r.cron_jobs;
  config_maps = config.config_maps ++ r.config_maps;
  ingresses = config.ingresses ++ r.ingresses;
  secrets = config.secrets ++ r.secrets;
  sealed_secrets = config.sealed_secrets ++ r.sealed_secrets;
  persistent_volume_claims = config.persistent_volume_claims ++ r.persistent_volume_claims;
  cluster_roles = config.cluster_roles ++ r.cluster_roles;
  cluster_role_bindings = config.cluster_role_bindings ++ r.cluster_role_bindings;
  crds = config.crds ++ r.crds;
  csi_drivers = config.csi_drivers ++ r.csi_drivers;
}
