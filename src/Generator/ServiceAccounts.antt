-- ===== src/Generator/ServiceAccounts.antt =====
-- internal/generator/generator.go: resolveServiceAccount and collectServiceAccountNamespaces.
pub mod Laws
use kdef.Base.{List, [], ◌∷◌, ◌++◌, map, Bool, true, not, if◌then◌else◌, Option, none, some}
use kdef.Base.Dict.{Dict, lookup, insert}
use kdef.Base.Text.{Text, is_empty, ◌==◌}
use kdef.Types.{ServiceAccountConfig, KdefConfig}

-- The loop, with the fallback that was found so far.
unfoldable pub resolve_from :
    Option ServiceAccountConfig
    → List ServiceAccountConfig
    → Text
    → Text
    → Option ServiceAccountConfig
resolve_from fallback [] name namespace = fallback
resolve_from fallback (sa ∷ sas) name namespace =
    let go_on = resolve_from fallback sas name namespace in
    let fall_back = resolve_from (some sa) sas name namespace in
    if not (sa.name == name)
    then go_on
    else if sa.namespace == namespace
    then some sa
    else if is_empty sa.namespace
    then fall_back
    else go_on

unfoldable pub resolve_service_account :
    List ServiceAccountConfig → Text → Text → Option ServiceAccountConfig
unfolding resolve_from
resolve_service_account sas name namespace = resolve_from none sas name namespace

abbrev pub set_or_empty : Option (Dict Bool) → Dict Bool
set_or_empty none = []
set_or_empty (some s) = s

-- The body of the loops: if the account is not empty, seen[account][namespace] = true.
unfoldable pub see : Text → Text → Dict (Dict Bool) → Dict (Dict Bool)
see account namespace seen =
    if is_empty account
    then seen
    else insert account (insert namespace true (set_or_empty (lookup account seen))) seen

-- The pairs of an account and a namespace, in the order of the loops.
unfoldable pub account_uses : KdefConfig → List (Text × Text)
account_uses c =
    map (λ d. (d.service_account_name, d.namespace)) c.deployments
    ++ (map (λ d. (d.service_account_name, d.namespace)) c.daemon_sets
        ++ (map (λ d. (d.service_account_name, d.namespace)) c.stateful_sets
            ++ map (λ j. (j.service_account_name, j.namespace)) c.cron_jobs))

unfoldable pub see_all : List (Text × Text) → Dict (Dict Bool) → Dict (Dict Bool)
see_all [] seen = seen
see_all ((account, namespace) ∷ rest) seen = see_all rest (see account namespace seen)

-- The last loop, which lists the keys of each set.
unfoldable pub keys : Dict Bool → List Text
keys [] = []
keys ((k, v) ∷ m) = k ∷ keys m

unfoldable pub list_keys : Dict (Dict Bool) → Dict (List Text)
list_keys [] = []
list_keys ((account, set) ∷ rest) = (account, keys set) ∷ list_keys rest

unfoldable pub collect_service_account_namespaces : KdefConfig → Dict (List Text)
unfolding list_keys see_all see keys
collect_service_account_namespaces c = list_keys (see_all (account_uses c) [])
