-- ===== src/Parser/Namespaces.antt =====
-- internal/parser/parser.go: injectNamespace, injectServiceAccount and validateNamespaces.
pub mod Laws
pub mod Inject
use kdef.Base.{
  List, ◌++◌, map, Bool, true, false, not, ◌&&◌, if◌then◌else◌, Result, ok, err, ◌>>◌, ◌>>=◌, each,
}
use kdef.Base.Dict.{Dict, set_of, contains, null}
use kdef.Base.Format.{quote}
use kdef.Base.Text.{Text, text, is_empty}
use kdef.Types.{
  KdefConfig, RootConfig, DeploymentConfig, DaemonSetConfig, StatefulSetConfig, CronJobConfig,
  ConfigMapConfig, IngressConfig, SecretConfig, SealedSecretConfig, PersistentVolumeClaimConfig,
}

-- if s == "" { s = fallback }
unfoldable pub fill : Text → Text → Text
fill fallback s = if is_empty s then fallback else s

unfoldable pub inject_namespace : KdefConfig → Text → KdefConfig
inject_namespace config namespace = record config {
  deployments =
      map {A = DeploymentConfig} (λ r. record r { namespace = fill namespace r.namespace })
        config.deployments;
  daemon_sets =
      map {A = DaemonSetConfig} (λ r. record r { namespace = fill namespace r.namespace })
        config.daemon_sets;
  stateful_sets =
      map {A = StatefulSetConfig} (λ r. record r { namespace = fill namespace r.namespace })
        config.stateful_sets;
  cron_jobs =
      map {A = CronJobConfig} (λ r. record r { namespace = fill namespace r.namespace })
        config.cron_jobs;
  config_maps =
      map {A = ConfigMapConfig} (λ r. record r { namespace = fill namespace r.namespace })
        config.config_maps;
  ingresses =
      map {A = IngressConfig} (λ r. record r { namespace = fill namespace r.namespace })
        config.ingresses;
  secrets =
      map {A = SecretConfig} (λ r. record r { namespace = fill namespace r.namespace })
        config.secrets;
  sealed_secrets =
      map {A = SealedSecretConfig} (λ r. record r { namespace = fill namespace r.namespace })
        config.sealed_secrets;
  persistent_volume_claims =
      map {A = PersistentVolumeClaimConfig}
        (λ r. record r { namespace = fill namespace r.namespace }) config.persistent_volume_claims;
}

unfoldable pub inject_service_account : KdefConfig → Text → KdefConfig
inject_service_account config account = record config {
  deployments =
      map {A = DeploymentConfig}
        (λ r. record r { service_account_name = fill account r.service_account_name })
        config.deployments;
  daemon_sets =
      map {A = DaemonSetConfig}
        (λ r. record r { service_account_name = fill account r.service_account_name })
        config.daemon_sets;
  stateful_sets =
      map {A = StatefulSetConfig}
        (λ r. record r { service_account_name = fill account r.service_account_name })
        config.stateful_sets;
  cron_jobs =
      map {A = CronJobConfig}
        (λ r. record r { service_account_name = fill account r.service_account_name })
        config.cron_jobs;
}

-- The closure `check`, with the allow list.
unfoldable pub check_namespace : Dict Bool → Text → Text → Text → Result (Unit {0})
check_namespace allowed kind name namespace =
    if is_empty namespace
    then err (
        kind
        ++ (text " "
            ++ (quote name ++ text " has no namespace (set it in root.kdef or in the .kdef file)")))
    else if not (null allowed) && not (contains namespace allowed)
    then err (
        kind
        ++ (text " "
            ++ (quote name
                ++ (text " uses namespace "
                    ++ (quote namespace ++ text " which is not in root.kdef namespaces list")))))
    else ok tt

-- The test of a workload's service account against those that root.kdef defines.
unfoldable pub check_account : Dict Bool → Text → Text → Text → Result (Unit {0})
check_account defined kind name account =
    if not (is_empty account) && not (null defined) && not (contains account defined)
    then err (
        kind
        ++ (text " "
            ++ (quote name
                ++ (text " uses service_account "
                    ++ (quote account ++ text " which is not defined in root.kdef")))))
    else ok tt

unfoldable pub validate_namespaces : KdefConfig → RootConfig → Result (Unit {0})
validate_namespaces config root =
    let allowed = set_of root.namespaces in
    let defined = set_of (map (λ sa. sa.name) root.service_accounts) in
    each
      (λ r.
        check_namespace allowed (text "deployment") r.name r.namespace
        >> check_account defined (text "deployment") r.name r.service_account_name)
      config.deployments
    >> (each
          (λ r.
            check_namespace allowed (text "daemonset") r.name r.namespace
            >> check_account defined (text "daemonset") r.name r.service_account_name)
          config.daemon_sets
        >> (each
              (λ r.
                check_namespace allowed (text "statefulset") r.name r.namespace
                >> check_account defined (text "statefulset") r.name r.service_account_name)
              config.stateful_sets
            >> (each (λ r. check_namespace allowed (text "cronjob") r.name r.namespace)
                  config.cron_jobs
                >> (each (λ r. check_namespace allowed (text "configmap") r.name r.namespace)
                      config.config_maps
                    >> (each (λ r. check_namespace allowed (text "ingress") r.name r.namespace)
                          config.ingresses
                        >> (each (λ r. check_namespace allowed (text "secret") r.name r.namespace)
                              config.secrets
                            >> (each
                                  (λ r.
                                    check_namespace allowed (text "sealedsecret") r.name
                                      r.namespace)
                                  config.sealed_secrets
                                >> each
                                    (λ r.
                                      check_namespace allowed (text "persistentvolumeclaim") r.name
                                        r.namespace)
                                    config.persistent_volume_claims)))))))
