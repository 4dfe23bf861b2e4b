-- ===== src/Parser/Namespaces/Laws.antt =====
-- What validateNamespaces accepts.
use kdef.Base.{
  List, ◌++◌, map, Bool, not, ◌&&◌, ◌||◌, ◌≡◌, refl, sym, ap₂, ◌∙◌, [], ◌∷◌, arith, is_ok, each,
  all, is_ok->>, is_ok-each, all-map, all-append, all-and, ◌>>◌,
}
use kdef.Base.Dict.{set_of, null, contains-set_of, null-set_of}
use kdef.Base.Lists.{mem}
use kdef.Base.Text.{Text, is_empty}
use kdef.Parser.Namespaces.{check_namespace, check_account, validate_namespaces}
use kdef.Types.{KdefConfig, RootConfig}

-- The namespaces of the namespaced resources.
unfoldable pub namespaces_of : KdefConfig → List Text
namespaces_of c =
    map (λ r. r.namespace) c.deployments
    ++ (map (λ r. r.namespace) c.daemon_sets
        ++ (map (λ r. r.namespace) c.stateful_sets
            ++ (map (λ r. r.namespace) c.cron_jobs
                ++ (map (λ r. r.namespace) c.config_maps
                    ++ (map (λ r. r.namespace) c.ingresses
                        ++ (map (λ r. r.namespace) c.secrets
                            ++ (map (λ r. r.namespace) c.sealed_secrets
                                ++ map (λ r. r.namespace) c.persistent_volume_claims)))))))

-- The service accounts that deployments, daemonsets and statefulsets name.
unfoldable pub accounts_of : KdefConfig → List Text
accounts_of c =
    map (λ r. r.service_account_name) c.deployments
    ++ (map (λ r. r.service_account_name) c.daemon_sets
        ++ map (λ r. r.service_account_name) c.stateful_sets)

-- A namespace is there, and in the allow list if there is one.
unfoldable pub is_allowed : RootConfig → Text → Bool
is_allowed root ns = not (is_empty ns) && (null root.namespaces || mem ns root.namespaces)

-- No account, or one that is defined, if any is.
unfoldable pub is_defined : RootConfig → Text → Bool
is_defined root account =
    is_empty account
    || null root.service_accounts
    || mem account (map (λ sa. sa.name) root.service_accounts)

is_ok-check_namespace :
    (root : RootConfig) (kind name ns : Text)
    → is_ok (check_namespace (set_of root.namespaces) kind name ns) ≡ is_allowed root ns
unfolding check_namespace is_allowed
is_ok-check_namespace root kind name ns =
    ground (arith, contains-set_of ns root.namespaces, null-set_of root.namespaces)

null-map {ℓ κ} : {A : Type ℓ} {B : Type κ} (f : A → B) (xs : List A) → null (map f xs) ≡ null xs
null-map f [] = refl
null-map f (x ∷ xs) = refl

is_ok-check_account :
    (root : RootConfig) (kind name account : Text)
    → is_ok (check_account (set_of (map (λ sa. sa.name) root.service_accounts)) kind name account)
      ≡ is_defined root account
unfolding check_account is_defined
is_ok-check_account root kind name account = ground (
  arith,
  contains-set_of account (map (λ sa. sa.name) root.service_accounts),
  null-set_of (map (λ sa. sa.name) root.service_accounts),
  null-map (λ sa. sa.name) root.service_accounts,
)

-- The loop over the resources of one kind that have no service account, or whose is not checked.
is_ok-plain {ℓ} :
    {A : Type ℓ} (root : RootConfig) (kind : Text) (name ns : A → Text) (xs : List A)
    → is_ok (each (λ r. check_namespace (set_of root.namespaces) kind (name r) (ns r)) xs)
      ≡ all (is_allowed root) (map ns xs)
is_ok-plain root kind name ns xs =
    is_ok-each (λ r. check_namespace (set_of root.namespaces) kind (name r) (ns r))
      (λ r. is_allowed root (ns r)) xs (λ r. is_ok-check_namespace root kind (name r) (ns r))
    ∙ sym (all-map (is_allowed root) ns xs)

-- The loop over the workloads of one kind.
is_ok-workload {ℓ} :
    {A : Type ℓ} (root : RootConfig) (kind : Text) (name ns account : A → Text) (xs : List A)
    → is_ok (
        each
          (λ r.
            check_namespace (set_of root.namespaces) kind (name r) (ns r)
            >> check_account
                (set_of (map (λ sa. sa.name) root.service_accounts))
                kind
                (name r)
                (account r))
          xs)
      ≡ (all (is_allowed root) (map ns xs) && all (is_defined root) (map account xs))
is_ok-workload root kind name ns account xs =
    is_ok-each _ (λ r. is_allowed root (ns r) && is_defined root (account r)) xs
      (λ r.
        is_ok->> (check_namespace (set_of root.namespaces) kind (name r) (ns r)) _
        ∙ ap₂ ◌&&◌ (is_ok-check_namespace root kind (name r) (ns r))
            (is_ok-check_account root kind (name r) (account r)))
    ∙ all-and (λ r. is_allowed root (ns r)) (λ r. is_defined root (account r)) xs
    ∙ ap₂ ◌&&◌ (sym (all-map (is_allowed root) ns xs)) (sym (all-map (is_defined root) account xs))

pub validate_namespaces_lem :
    (c : KdefConfig) (root : RootConfig)
    → is_ok (validate_namespaces c root)
      ≡ (all (is_allowed root) (namespaces_of c) && all (is_defined root) (accounts_of c))
unfolding validate_namespaces namespaces_of accounts_of
validate_namespaces_lem c root =
    simp (is_ok->>, is_ok-plain, is_ok-workload, all-append) (ground arith)
