-- ===== src/Generator/Generate/Uniform.antt =====
-- What holds of all that the generators of one resource build holds of all that Generate returns.
use kdef.Base.{
  List, [], ◌∷◌, ◌++◌, map, Bool, true, Option, ◌≡◌, refl, arith, all, all-append, Option-cases,
  inl, inr,
}
use kdef.Base.Dict.{Dict, lookup, lookup-insert}
use kdef.Base.Text.{Text, text}
use kdef.Generator.Generate.{
  Generators, Write, assign, append, manifests_or_nil, write, run, single, generate, writes,
  generate_cron_job_manifest, namespaced_writes, cluster_writes, service_account_writes,
  write_service_account,
}
use kdef.Generator.Order.{Manifest}
use kdef.Generator.ServiceAccounts.{resolve_service_account, collect_service_account_namespaces}
use kdef.Types.{
  KdefConfig, DeploymentConfig, DaemonSetConfig, StatefulSetConfig, CronJobConfig, ConfigMapConfig,
  IngressConfig, SecretConfig, SealedSecretConfig, PersistentVolumeClaimConfig, ClusterRoleConfig,
  ClusterRoleBindingConfig, CrdConfig, CsiDriverConfig, ServiceAccountConfig, IngressDefaults,
}
use mathlib.Core.List.{flat_map}

pub all_of :
    {A B : Type 0} (q : B → Bool) (f : A → B) (xs : List A)
    → ((x : A) → q (f x) ≡ true)
    → all q (map f xs) ≡ true
unfolding all
all_of q f [] h = refl
all_of q f (x ∷ xs) h = rw (h x) (all_of q f xs h)

pub both :
    {A : Type 0} (q : A → Bool) (xs ys : List A)
    → all q xs ≡ true
    → all q ys ≡ true
    → all q (xs ++ ys) ≡ true
both q xs ys h k = rw (all-append q xs ys, h, k) refl

module _ {O : Type 0} (p : O → Bool) where
  abbrev pub holds : List (Manifest O) → Bool
  holds l = all (λ m. p m.object) l

  -- The generators build only objects that satisfy the predicate.
  pub record IsUniform (g : Generators O) : Type 0 where
    pub namespace : (n : Text) → p (g.namespace n) ≡ true
    pub service_account : (sa : ServiceAccountConfig) (n : Text) → p (g.service_account sa n) ≡ true
    pub deployment :
        (r : DeploymentConfig) (d : Option IngressDefaults) → holds (g.deployment r d) ≡ true
    pub daemon_set : (r : DaemonSetConfig) → holds (g.daemon_set r) ≡ true
    pub stateful_set :
        (r : StatefulSetConfig) (d : Option IngressDefaults) → holds (g.stateful_set r d) ≡ true
    pub cron_job : (r : CronJobConfig) → p (g.cron_job r) ≡ true
    pub config_map : (r : ConfigMapConfig) → p (g.config_map r) ≡ true
    pub standalone_ingress :
        (r : IngressConfig) (d : Option IngressDefaults) → holds (g.standalone_ingress r d) ≡ true
    pub secret : (r : SecretConfig) → p (g.secret r) ≡ true
    pub sealed_secret : (r : SealedSecretConfig) → p (g.sealed_secret r) ≡ true
    pub persistent_volume_claim :
        (r : PersistentVolumeClaimConfig) → p (g.persistent_volume_claim r) ≡ true
    pub cluster_role : (r : ClusterRoleConfig) → p (g.cluster_role r) ≡ true
    pub cluster_role_binding : (r : ClusterRoleBindingConfig) → p (g.cluster_role_binding r) ≡ true
    pub crd : (r : CrdConfig) → p (g.crd r) ≡ true
    pub csi_driver : (r : CsiDriverConfig) → p (g.csi_driver r) ≡ true

  abbrev written : Write O → List (Manifest O)
  written (assign key l) = l
  written (append key l) = l

  abbrev holds_write : Write O → Bool
  holds_write w = holds (written w)

  lookup-write-holds :
      (k : Text) (w : Write O) (result : Dict (List (Manifest O)))
      → holds_write w ≡ true
      → ((j : Text) → holds (manifests_or_nil (lookup j result)) ≡ true)
      → holds (manifests_or_nil (lookup k (write w result))) ≡ true
  unfolding write
  lookup-write-holds k (assign key l) result h inv =
      ground (arith, lookup-insert key k l result, inv k, h)
  lookup-write-holds k (append key l) result h inv = ground (
    arith,
    lookup-insert key k (manifests_or_nil (lookup key result) ++ l) result,
    all-append (λ m. p m.object) (manifests_or_nil (lookup key result)) l,
    inv k,
    inv key,
    h,
  )

  run-holds :
      (ws : List (Write O)) (result : Dict (List (Manifest O)))
      → all holds_write ws ≡ true
      → ((j : Text) → holds (manifests_or_nil (lookup j result)) ≡ true)
      → (k : Text) → holds (manifests_or_nil (lookup k (run ws result))) ≡ true
  unfolding run all
  run-holds [] result h inv k = inv k
  run-holds (w ∷ ws) result h inv k =
      run-holds ws (write w result) (ground (arith, h))
        (λ j. lookup-write-holds j w result (ground (arith, h)) inv) k

  module _ (g : Generators O) (u : IsUniform g) where
    holds-single : (o : O) → p o ≡ true → holds (single o) ≡ true
    unfolding all
    holds-single o h = rw h refl

    all-assign :
        (sa : ServiceAccountConfig) (key ns : Text)
        → all holds_write (assign key (single (g.service_account sa ns)) ∷ []) ≡ true
    unfolding all
    all-assign sa key ns = rw (u.service_account sa ns) refl

    all-write_service_account :
        (sas : List ServiceAccountConfig) (name ns : Text)
        → all holds_write (write_service_account g sas name ns) ≡ true
    unfolding all write_service_account
    all-write_service_account sas name ns =
        elim (Option-cases (resolve_service_account sas name ns)) [
          | inl missing ↦ rw (write_service_account, missing) refl
          | inr (sa, found) ↦
              rw (write_service_account, found)
                (all-assign sa (text "sa-" ++ (name ++ (text "-" ++ ns))) ns)
        ]

    all-write_service_accounts :
        (sas : List ServiceAccountConfig) (name : Text) (namespaces : List Text)
        → all holds_write (flat_map (write_service_account g sas name) namespaces) ≡ true
    unfolding all flat_map
    all-write_service_accounts sas name [] = refl
    all-write_service_accounts sas name (ns ∷ nss) =
        both holds_write (write_service_account g sas name ns)
          (flat_map (write_service_account g sas name) nss) (all-write_service_account sas name ns)
          (all-write_service_accounts sas name nss)

    all-service_account_writes :
        (sas : List ServiceAccountConfig) (needed : Dict (List Text))
        → all holds_write (service_account_writes g sas needed) ≡ true
    unfolding all service_account_writes
    all-service_account_writes sas [] = refl
    all-service_account_writes sas ((name, namespaces) ∷ rest) =
        both holds_write (flat_map (write_service_account g sas name) namespaces)
          (service_account_writes g sas rest) (all-write_service_accounts sas name namespaces)
          (all-service_account_writes sas rest)

    all-namespaced_writes : (c : KdefConfig) → all holds_write (namespaced_writes g c) ≡ true
    unfolding namespaced_writes generate_cron_job_manifest
    all-namespaced_writes c =
        both holds_write _ _
          (all_of holds_write _ c.deployments (λ r. u.deployment r c.ingress_defaults))
          (both holds_write _ _ (all_of holds_write _ c.daemon_sets (λ r. u.daemon_set r)) (
            both holds_write _ _
              (all_of holds_write _ c.stateful_sets (λ r. u.stateful_set r c.ingress_defaults))
              (both holds_write _ _
                (all_of holds_write _ c.cron_jobs (λ r. holds-single _ (u.cron_job r)))
                (both holds_write _ _
                  (all_of holds_write _ c.config_maps (λ r. holds-single _ (u.config_map r)))
                  (both holds_write _ _
                    (all_of holds_write _ c.ingresses
                      (λ r. u.standalone_ingress r c.ingress_defaults))
                    (both holds_write _ _
                      (all_of holds_write _ c.secrets (λ r. holds-single _ (u.secret r)))
                      (both holds_write _ _
                        (all_of holds_write _ c.sealed_secrets
                          (λ r. holds-single _ (u.sealed_secret r)))
                        (all_of holds_write _ c.persistent_volume_claims
                          (λ r. holds-single _ (u.persistent_volume_claim r))))))))))

    all-cluster_writes : (c : KdefConfig) → all holds_write (cluster_writes g c) ≡ true
    unfolding cluster_writes
    all-cluster_writes c =
        both holds_write _ _
          (all_of holds_write _ c.cluster_roles (λ r. holds-single _ (u.cluster_role r)))
          (both holds_write _ _
            (all_of holds_write _ c.cluster_role_bindings
              (λ r. holds-single _ (u.cluster_role_binding r)))
            (both holds_write _ _ (all_of holds_write _ c.crds (λ r. holds-single _ (u.crd r)))
              (all_of holds_write _ c.csi_drivers (λ r. holds-single _ (u.csi_driver r)))))

    all-writes : (c : KdefConfig) → all holds_write (writes g c) ≡ true
    unfolding writes
    all-writes c =
        both holds_write _ _
          (all_of holds_write _ c.namespaces (λ n. holds-single _ (u.namespace n)))
          (both holds_write
            (service_account_writes g c.service_accounts (collect_service_account_namespaces c)) _
            (all-service_account_writes c.service_accounts (collect_service_account_namespaces c))
            (both holds_write (namespaced_writes g c) (cluster_writes g c) (all-namespaced_writes c)
              (all-cluster_writes c)))

    pub generate-holds :
        (c : KdefConfig) (k : Text) → holds (manifests_or_nil (lookup k (generate g c))) ≡ true
    unfolding generate lookup all
    generate-holds c k = run-holds (writes g c) [] (all-writes c) (λ j. refl) k
