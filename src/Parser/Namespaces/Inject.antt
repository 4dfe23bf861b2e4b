-- ===== src/Parser/Namespaces/Inject.antt =====
-- What injectNamespace and injectServiceAccount change.
use kdef.Base.{List, [], ◌∷◌, ◌++◌, map, Bool, true, false, ◌||◌, ◌≡◌, refl, arith, all, is_ok}
use kdef.Base.Text.{Text, is_empty}
use kdef.Parser.Namespaces.{fill, inject_namespace, inject_service_account, validate_namespaces}
use kdef.Parser.Namespaces.Laws.{
  namespaces_of, accounts_of, is_allowed, is_defined, validate_namespaces_lem,
}
use kdef.Types.{KdefConfig, RootConfig}
use mathlib.Core.List.{map-append}
use kdef.Base.Lists.{map-map}

-- Every namespaced resource without a namespace gets the given one; the others keep theirs.
namespaces_of-inject_namespace :
    (c : KdefConfig) (ns : Text)
    → namespaces_of (inject_namespace c ns) ≡ map (fill ns) (namespaces_of c)
unfolding namespaces_of inject_namespace
namespaces_of-inject_namespace c ns = simp (map-append, map-map)

-- So with the service accounts, which cron jobs have too.
pub all_accounts_of : KdefConfig → List Text
all_accounts_of c = accounts_of c ++ map (λ r. r.service_account_name) c.cron_jobs

pub all_accounts_of-inject_service_account :
    (c : KdefConfig) (account : Text)
    → all_accounts_of (inject_service_account c account) ≡ map (fill account) (all_accounts_of c)
unfolding all_accounts_of accounts_of inject_service_account
all_accounts_of-inject_service_account c account = simp (map-append, map-map)

namespaces_of-inject_service_account :
    (c : KdefConfig) (account : Text)
    → namespaces_of (inject_service_account c account) ≡ namespaces_of c
unfolding namespaces_of inject_service_account
namespaces_of-inject_service_account c account = simp map-map

accounts_of-inject :
    (c : KdefConfig) (ns account : Text)
    → accounts_of (inject_service_account (inject_namespace c ns) account)
      ≡ map (fill account) (accounts_of c)
unfolding accounts_of inject_service_account inject_namespace
accounts_of-inject c ns account = simp (map-append, map-map)

module _ (first second : Text) (there : is_empty first ≡ false) where
  fill_twice : (x : Text) → fill second (fill first x) ≡ fill first x
  unfolding fill
  fill_twice x = ground arith

  -- A namespace that was injected is not replaced by a later injection.
  inject_namespace_twice :
      (c : KdefConfig)
      → inject_namespace (inject_namespace c first) second ≡ inject_namespace c first
  unfolding inject_namespace
  inject_namespace_twice c = simp (map-map, fill_twice)

-- What is tested of a value that `fill` leaves is tested of the value or of the default.
all-fill :
    (p : Text → Bool) (fallback : Text) (xs : List Text)
    → p fallback ≡ true
    → all (λ x. is_empty x || p x) xs ≡ true
    → all p (map (fill fallback) xs) ≡ true
unfolding all fill
all-fill p fallback [] h k = refl
all-fill p fallback (x ∷ xs) h k = ground (arith, all-fill p fallback xs)

-- An entry of root.kdef that injects an allowed namespace and a defined service account passes
-- validateNamespaces, if each of its resources has no namespace or an allowed one, and each of its
-- deployments, daemonsets and statefulsets no service account or a defined one.
pub validate_namespaces-inject :
    (c : KdefConfig) (root : RootConfig) (ns account : Text)
    → is_allowed root ns ≡ true
    → is_defined root account ≡ true
    → all (λ x. is_empty x || is_allowed root x) (namespaces_of c) ≡ true
    → all (λ x. is_empty x || is_defined root x) (accounts_of c) ≡ true
    → is_ok (validate_namespaces (inject_service_account (inject_namespace c ns) account) root)
      ≡ true
validate_namespaces-inject c root ns account hn ha hns has = rw (
  validate_namespaces_lem (inject_service_account (inject_namespace c ns) account) root,
  namespaces_of-inject_service_account (inject_namespace c ns) account,
  namespaces_of-inject_namespace c ns,
  accounts_of-inject c ns account,
  all-fill (is_allowed root) ns (namespaces_of c) hn hns,
  all-fill (is_defined root) account (accounts_of c) ha has,
)
