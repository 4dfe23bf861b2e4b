-- ===== src/Generator/Generate/Laws.antt =====
-- What Generate keeps of the manifests that are built: those of one key are all there, in the order
-- of the resources, unless the key is also one that a later loop assigns to.
use kdef.Base.{
  List, [], ◌∷◌, ◌++◌, map, true, false, ◌≡◌, refl, ap₂, ◌&&◌, ◌∙◌, arith, all, all-append,
}
use kdef.Base.Dict.{Dict, lookup}
use kdef.Base.Lists.{mem, mem-append}
use kdef.Base.Text.{Text, text, ◌==◌}
use kdef.Generator.Generate.{
  Generators, manifests_or_nil, generate, namespaced_writes, service_account_writes,
  write_service_account, writes, cluster_writes, single, generate_cron_job_manifest,
}
use kdef.Generator.Generate.Writes.{
  spares, appended, built_at, run_lem, appended-append, appended-assign, appended-map, spares-map,
  spares_parts, spares-append,
}
use kdef.Generator.Order.{Manifest}
use kdef.Generator.ServiceAccounts.{collect_service_account_namespaces}
use kdef.Types.{KdefConfig, ServiceAccountConfig}
use mathlib.Core.List.{append-nil, flat_map}

abbrev pub account_key : Text → Text → Text
account_key name ns = text "sa-" ++ (name ++ (text "-" ++ ns))

-- The keys of the service accounts that are used, each in its namespaces.
unfoldable pub account_keys : Dict (List Text) → List Text
account_keys [] = []
account_keys ((name, namespaces) ∷ rest) = map (account_key name) namespaces ++ account_keys rest

unfoldable pub cluster_keys : KdefConfig → List Text
cluster_keys c =
    map (λ r. text "clusterrole-" ++ r.name) c.cluster_roles
    ++ (map (λ r. text "clusterrolebinding-" ++ r.name) c.cluster_role_bindings
        ++ (map (λ r. text "crd-" ++ r.name) c.crds
            ++ map (λ r. text "csidriver-" ++ r.name) c.csi_drivers))

-- The keys of namespaces, service accounts and cluster-wide resources.
unfoldable pub assigned_keys : KdefConfig → List Text
assigned_keys c =
    map (λ ns. text "namespace-" ++ ns) c.namespaces
    ++ (account_keys (collect_service_account_namespaces c) ++ cluster_keys c)

module _ {O : Type 0} where
  module _ (g : Generators O) (k : Text) where
    appended-write_service_account :
        (sas : List ServiceAccountConfig) (name ns : Text)
        → appended k (write_service_account g sas name ns) ≡ []
    unfolding appended write_service_account
    appended-write_service_account sas name ns = ground arith

    appended-account_namespaces :
        (sas : List ServiceAccountConfig) (name : Text) (namespaces : List Text)
        → appended k (flat_map (write_service_account g sas name) namespaces) ≡ []
    unfolding appended flat_map
    appended-account_namespaces sas name [] = refl
    appended-account_namespaces sas name (ns ∷ namespaces) = cc (
      appended-append k (write_service_account g sas name ns)
          (flat_map (write_service_account g sas name) namespaces),
      appended-write_service_account sas name ns,
      appended-account_namespaces sas name namespaces,
    )

    appended-service_account_writes :
        (sas : List ServiceAccountConfig) (used : Dict (List Text))
        → appended k (service_account_writes g sas used) ≡ []
    unfolding appended service_account_writes
    appended-service_account_writes sas [] = refl
    appended-service_account_writes sas ((name, namespaces) ∷ rest) = cc (
      appended-append k (flat_map (write_service_account g sas name) namespaces)
          (service_account_writes g sas rest),
      appended-account_namespaces sas name namespaces,
      appended-service_account_writes sas rest,
    )

    spares-write_service_account :
        (sas : List ServiceAccountConfig) (name ns : Text)
        → (account_key name ns == k) ≡ false
        → all (spares k) (write_service_account g sas name ns) ≡ true
    unfolding all write_service_account
    spares-write_service_account sas name ns h = ground arith

    spares-account_namespaces :
        (sas : List ServiceAccountConfig) (name : Text) (namespaces : List Text)
        → mem k (map (account_key name) namespaces) ≡ false
        → all (spares k) (flat_map (write_service_account g sas name) namespaces) ≡ true
    unfolding all flat_map mem
    spares-account_namespaces sas name [] h = refl
    spares-account_namespaces sas name (ns ∷ namespaces) h = ground (
      arith,
      all-append (spares k) (write_service_account g sas name ns)
          (flat_map (write_service_account g sas name) namespaces),
      spares-write_service_account sas name ns,
      spares-account_namespaces sas name namespaces,
    )

    spares-service_account_writes :
        (sas : List ServiceAccountConfig) (used : Dict (List Text))
        → mem k (account_keys used) ≡ false
        → all (spares k) (service_account_writes g sas used) ≡ true
    unfolding all service_account_writes account_keys mem
    spares-service_account_writes sas [] h = refl
    spares-service_account_writes sas ((name, namespaces) ∷ rest) h = ground (
      arith,
      all-append (spares k) (flat_map (write_service_account g sas name) namespaces)
          (service_account_writes g sas rest),
      mem-append k (map (account_key name) namespaces) (account_keys rest),
      spares-account_namespaces sas name namespaces,
      spares-service_account_writes sas rest,
    )

    spares-namespaced_writes : (c : KdefConfig) → all (spares k) (namespaced_writes g c) ≡ true
    unfolding namespaced_writes
    spares-namespaced_writes c = simp (all-append, spares-append)

    spares-cluster_writes :
        (c : KdefConfig)
        → mem k (cluster_keys c) ≡ false
        → all (spares k) (cluster_writes g c) ≡ true
    unfolding cluster_writes cluster_keys
    spares-cluster_writes c =
        spares_parts k (map (λ r. text "clusterrole-" ++ r.name) c.cluster_roles) _ _ _
          (spares-map k (λ r. text "clusterrole-" ++ r.name) (λ r. single (g.cluster_role r))
            c.cluster_roles)
          (spares_parts k (map (λ r. text "clusterrolebinding-" ++ r.name) c.cluster_role_bindings)
            _ _ _
            (spares-map k (λ r. text "clusterrolebinding-" ++ r.name)
              (λ r. single (g.cluster_role_binding r)) c.cluster_role_bindings)
            (spares_parts k (map (λ r. text "crd-" ++ r.name) c.crds) _ _ _
              (spares-map k (λ r. text "crd-" ++ r.name) (λ r. single (g.crd r)) c.crds)
              (spares-map k (λ r. text "csidriver-" ++ r.name) (λ r. single (g.csi_driver r))
                c.csi_drivers)))

    -- The manifests that the namespaced resources of a config give for the key.
    abbrev pub manifests_at : KdefConfig → List (Manifest O)
    manifests_at c =
        built_at k (λ r. r.name) (λ r. g.deployment r c.ingress_defaults) c.deployments
        ++ (built_at k (λ r. r.name) g.daemon_set c.daemon_sets
            ++ (built_at k (λ r. r.name) (λ r. g.stateful_set r c.ingress_defaults) c.stateful_sets
                ++ (built_at k (λ r. r.name) (λ r. single (g.cron_job r)) c.cron_jobs
                    ++ (built_at k (λ r. text "configmap-" ++ r.name) (λ r. single (g.config_map r))
                          c.config_maps
                        ++ (built_at k (λ r. text "ingress-" ++ r.name)
                              (λ r. g.standalone_ingress r c.ingress_defaults) c.ingresses
                            ++ (built_at k (λ r. text "secret-" ++ r.name)
                                  (λ r. single (g.secret r)) c.secrets
                                ++ (built_at k (λ r. text "sealedsecret-" ++ r.name)
                                      (λ r. single (g.sealed_secret r)) c.sealed_secrets
                                    ++ built_at k (λ r. text "pvc-" ++ r.name)
                                        (λ r. single (g.persistent_volume_claim r))
                                        c.persistent_volume_claims)))))))

    spares-writes :
        (c : KdefConfig) → mem k (assigned_keys c) ≡ false → all (spares k) (writes g c) ≡ true
    unfolding writes assigned_keys
    spares-writes c =
        spares_parts k (map (λ ns. text "namespace-" ++ ns) c.namespaces) _ _ _
          (spares-map k (λ ns. text "namespace-" ++ ns) (λ ns. single (g.namespace ns))
            c.namespaces)
          (spares_parts k (account_keys (collect_service_account_namespaces c)) (cluster_keys c)
            (service_account_writes g c.service_accounts (collect_service_account_namespaces c))
            (namespaced_writes g c ++ cluster_writes g c)
            (spares-service_account_writes c.service_accounts
              (collect_service_account_namespaces c))
            (λ h.
              all-append (spares k) (namespaced_writes g c) (cluster_writes g c)
              ∙ ap₂ ◌&&◌ (spares-namespaced_writes c) (spares-cluster_writes c h)))

    -- At a key that is not one of a namespace, a service account or a cluster-wide resource, Generate
    -- has the manifests of all namespaced resources that go to this key, in the order of their kinds
    -- and of the resources of a kind: none is dropped.
    pub generate_lem :
        (c : KdefConfig)
        → mem k (assigned_keys c) ≡ false
        → manifests_or_nil (lookup k (generate g c)) ≡ manifests_at c
    unfolding generate writes lookup appended generate_cron_job_manifest
    generate_lem c h =
        run_lem k (writes g c) [] (spares-writes c h)
        ∙ simp (
          appended-append, appended-assign, appended-service_account_writes, appended-map,
          append-nil,
        )
