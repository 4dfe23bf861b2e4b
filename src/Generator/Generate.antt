-- ===== src/Generator/Generate.antt =====
-- internal/generator/generator.go: Generate. A loop is the list of its writes to the result map, in
-- the order of the source: some loops assign to a key, the others append to what it has. The
-- functions that build the objects of one resource are the interface `Generators`.
pub mod Laws
pub mod Writes
pub mod Uniform
use kdef.Base.{List, [], ◌∷◌, ◌++◌, map, Option, none, some}
use kdef.Base.Dict.{Dict, lookup, insert}
use kdef.Base.Text.{Text, text}
use kdef.Generator.Order.{Manifest}
use kdef.Generator.ServiceAccounts.{resolve_service_account, collect_service_account_namespaces}
use kdef.Types.{
  KdefConfig, DeploymentConfig, DaemonSetConfig, StatefulSetConfig, CronJobConfig, ConfigMapConfig,
  IngressConfig, SecretConfig, SealedSecretConfig, PersistentVolumeClaimConfig, ClusterRoleConfig,
  ClusterRoleBindingConfig, CrdConfig, CsiDriverConfig, ServiceAccountConfig, IngressDefaults,
}
use mathlib.Core.List.{flat_map}

pub record Generators (O : Type 0) : Type 0 where
  pub namespace : Text → O
  pub service_account : ServiceAccountConfig → Text → O
  pub deployment : DeploymentConfig → Option IngressDefaults → List (Manifest O)
  pub daemon_set : DaemonSetConfig → List (Manifest O)
  pub stateful_set : StatefulSetConfig → Option IngressDefaults → List (Manifest O)
  pub cron_job : CronJobConfig → O
  pub config_map : ConfigMapConfig → O
  pub standalone_ingress : IngressConfig → Option IngressDefaults → List (Manifest O)
  pub secret : SecretConfig → O
  pub sealed_secret : SealedSecretConfig → O
  pub persistent_volume_claim : PersistentVolumeClaimConfig → O
  pub cluster_role : ClusterRoleConfig → O
  pub cluster_role_binding : ClusterRoleBindingConfig → O
  pub crd : CrdConfig → O
  pub csi_driver : CsiDriverConfig → O

pub data Write (O : Type 0) : Type 0 where
  assign : Text → List (Manifest O) → Write O
  append : Text → List (Manifest O) → Write O

module _ {O : Type 0} where
  -- The list at a key: that of a missing key is nil.
  abbrev pub manifests_or_nil : Option (List (Manifest O)) → List (Manifest O)
  manifests_or_nil none = []
  manifests_or_nil (some l) = l

  unfoldable pub write : Write O → Dict (List (Manifest O)) → Dict (List (Manifest O))
  write (assign key l) result = insert key l result
  write (append key l) result = insert key (manifests_or_nil (lookup key result) ++ l) result

  unfoldable pub run : List (Write O) → Dict (List (Manifest O)) → Dict (List (Manifest O))
  unfolding write
  run [] result = result
  run (w ∷ ws) result = run ws (write w result)

  -- []Manifest{{Object: object}}
  abbrev pub single : O → List (Manifest O)
  single object = (record { object = object; raw = [] }) ∷ []

  module _ (g : Generators O) where
    unfoldable pub generate_cron_job_manifest : CronJobConfig → List (Manifest O)
    generate_cron_job_manifest cj = single (g.cron_job cj)

    -- The service accounts, one for each namespace that needs it.
    unfoldable pub write_service_account : List ServiceAccountConfig → Text → Text → List (Write O)
    write_service_account sas name ns = elim (resolve_service_account sas name ns) [
      | none ↦ []
      | some sa ↦
          assign (text "sa-" ++ (name ++ (text "-" ++ ns))) (single (g.service_account sa ns)) ∷ []
    ]

    unfoldable pub service_account_writes :
        List ServiceAccountConfig → Dict (List Text) → List (Write O)
    unfolding write_service_account
    service_account_writes sas [] = []
    service_account_writes sas ((name, namespaces) ∷ rest) =
        flat_map (write_service_account sas name) namespaces ++ service_account_writes sas rest

    unfoldable pub namespaced_writes : KdefConfig → List (Write O)
    unfolding generate_cron_job_manifest
    namespaced_writes c =
        map {A = DeploymentConfig} (λ r. append r.name (g.deployment r c.ingress_defaults))
          c.deployments
        ++ (map {A = DaemonSetConfig} (λ r. append r.name (g.daemon_set r)) c.daemon_sets
            ++ (map {A = StatefulSetConfig}
                  (λ r. append r.name (g.stateful_set r c.ingress_defaults)) c.stateful_sets
                ++ (map {A = CronJobConfig} (λ r. append r.name (generate_cron_job_manifest r))
                      c.cron_jobs
                    ++ (map {A = ConfigMapConfig}
                          (λ r. append (text "configmap-" ++ r.name) (single (g.config_map r)))
                          c.config_maps
                        ++ (map {A = IngressConfig}
                              (λ r.
                                append (text "ingress-" ++ r.name)
                                  (g.standalone_ingress r c.ingress_defaults))
                              c.ingresses
                            ++ (map {A = SecretConfig}
                                  (λ r. append (text "secret-" ++ r.name) (single (g.secret r)))
                                  c.secrets
                                ++ (map {A = SealedSecretConfig}
                                      (λ r.
                                        append (text "sealedsecret-" ++ r.name)
                                          (single (g.sealed_secret r)))
                                      c.sealed_secrets
                                    ++ map {A = PersistentVolumeClaimConfig}
                                        (λ r.
                                          append (text "pvc-" ++ r.name)
                                            (single (g.persistent_volume_claim r)))
                                        c.persistent_volume_claims)))))))

    unfoldable pub cluster_writes : KdefConfig → List (Write O)
    cluster_writes c =
        map {A = ClusterRoleConfig}
          (λ r. assign (text "clusterrole-" ++ r.name) (single (g.cluster_role r))) c.cluster_roles
        ++ (map {A = ClusterRoleBindingConfig}
              (λ r.
                assign (text "clusterrolebinding-" ++ r.name) (single (g.cluster_role_binding r)))
              c.cluster_role_bindings
            ++ (map {A = CrdConfig} (λ r. assign (text "crd-" ++ r.name) (single (g.crd r))) c.crds
                ++ map {A = CsiDriverConfig}
                    (λ r. assign (text "csidriver-" ++ r.name) (single (g.csi_driver r)))
                    c.csi_drivers))

    unfoldable pub writes : KdefConfig → List (Write O)
    unfolding service_account_writes namespaced_writes cluster_writes
    writes c =
        map {A = Text} (λ ns. assign (text "namespace-" ++ ns) (single (g.namespace ns)))
          c.namespaces
        ++ (service_account_writes c.service_accounts (collect_service_account_namespaces c)
            ++ (namespaced_writes c ++ cluster_writes c))

    unfoldable pub generate : KdefConfig → Dict (List (Manifest O))
    unfolding run writes
    generate c = run (writes c) []
