-- ===== src/Generator/ServiceAccounts/Laws.antt =====
-- Which declaration a service account resolves to, and where an account is generated.
use kdef.Base.{
  List, [], ◌∷◌, Bool, true, false, not, ◌&&◌, ◌||◌, if◌then◌else◌, Option, none, some, ◌≡◌, refl,
  ◌∙◌, arith,
}
use kdef.Base.Dict.{Dict, lookup, insert, lookup-insert, contains, or_else}
use kdef.Base.Lists.{mem}
use kdef.Base.Text.{Text, is_empty, ◌==◌, eq_iff}
use kdef.Generator.ServiceAccounts.{
  resolve_from, resolve_service_account, set_or_empty, see, account_uses, see_all, keys, list_keys,
  collect_service_account_namespaces,
}
use kdef.Types.{ServiceAccountConfig, KdefConfig}

-- The first declaration of the name with this namespace.
unfoldable pub first_scoped : List ServiceAccountConfig → Text → Text → Option ServiceAccountConfig
first_scoped [] name namespace = none
first_scoped (sa ∷ sas) name namespace =
    let rest = first_scoped sas name namespace in
    if sa.name == name && sa.namespace == namespace then some sa else rest

-- The last declaration of the name with no namespace.
unfoldable pub last_default : List ServiceAccountConfig → Text → Option ServiceAccountConfig
last_default [] name = none
last_default (sa ∷ sas) name =
    or_else (last_default sas name)
      (if sa.name == name && is_empty sa.namespace then some sa else none)

resolve_from_lem :
    (fallback : Option ServiceAccountConfig) (sas : List ServiceAccountConfig)
    (name namespace : Text)
    → is_empty namespace ≡ false
    → resolve_from fallback sas name namespace
      ≡ or_else (first_scoped sas name namespace) (or_else (last_default sas name) fallback)
unfolding resolve_from first_scoped last_default
resolve_from_lem fallback [] name ns h = refl
resolve_from_lem fallback (sa ∷ sas) name ns h = ground (
  arith,
  resolve_from_lem fallback sas name ns h,
  resolve_from_lem (some sa) sas name ns h,
  eq_iff sa.namespace ns,
)

-- In a namespace that is not empty the first declaration scoped to it wins, wherever it stands;
-- without one the last declaration of no namespace serves; without that there is none.
resolve_service_account_lem :
    (sas : List ServiceAccountConfig) (name namespace : Text)
    → is_empty namespace ≡ false
    → resolve_service_account sas name namespace
      ≡ or_else (first_scoped sas name namespace) (last_default sas name)
unfolding resolve_service_account
resolve_service_account_lem sas name ns h = resolve_from_lem none sas name ns h ∙ ground arith

-- Some use of the list is of this account in this namespace.
unfoldable pub is_used : Text → Text → List (Text × Text) → Bool
is_used account namespace [] = false
is_used account namespace ((a, n) ∷ rest) =
    (a == account && n == namespace) || is_used account namespace rest

abbrev in_set : Text → Text → Dict (Dict Bool) → Bool
in_set account namespace seen = contains namespace (set_or_empty (lookup account seen))

in_set-see :
    (account namespace a n : Text) (seen : Dict (Dict Bool))
    → in_set account namespace (see a n seen)
      ≡ ((not (is_empty a) && a == account && n == namespace) || in_set account namespace seen)
unfolding see lookup
in_set-see account namespace a n seen = ground (
  arith,
  lookup-insert a account (insert n true (set_or_empty (lookup a seen))) seen,
  lookup-insert n namespace true (set_or_empty (lookup a seen)),
  eq_iff a account,
)

in_set-see_all :
    (account namespace : Text) (uses : List (Text × Text)) (seen : Dict (Dict Bool))
    → is_empty account ≡ false
    → in_set account namespace (see_all uses seen)
      ≡ (is_used account namespace uses || in_set account namespace seen)
unfolding see_all is_used
in_set-see_all account namespace [] seen h = refl
in_set-see_all account namespace ((a, n) ∷ rest) seen h = ground (
  arith,
  in_set-see_all account namespace rest (see a n seen) h,
  in_set-see account namespace a n seen,
  eq_iff a account,
)

mem-keys : (k : Text) (s : Dict Bool) → mem k (keys s) ≡ contains k s
unfolding keys mem lookup
mem-keys k [] = refl
mem-keys k ((j, v) ∷ s) = ground (arith, mem-keys k s)

abbrev pub list_or_empty : Option (List Text) → List Text
list_or_empty none = []
list_or_empty (some l) = l

list_keys-in_set :
    (account namespace : Text) (seen : Dict (Dict Bool))
    → mem namespace (list_or_empty (lookup account (list_keys seen)))
      ≡ in_set account namespace seen
unfolding list_keys lookup
list_keys-in_set account namespace [] = unfold mem in refl
list_keys-in_set account namespace ((a, s) ∷ seen) =
    ground (arith, list_keys-in_set account namespace seen, mem-keys namespace s)

-- The namespaces collected for an account are just those of the deployments, daemonsets,
-- statefulsets and cron jobs that name it.
collect_service_account_namespaces_lem :
    (c : KdefConfig) (account namespace : Text)
    → is_empty account ≡ false
    → mem namespace (list_or_empty (lookup account (collect_service_account_namespaces c)))
      ≡ is_used account namespace (account_uses c)
unfolding collect_service_account_namespaces
collect_service_account_namespaces_lem c account namespace h =
    list_keys-in_set account namespace (see_all (account_uses c) [])
    ∙ in_set-see_all account namespace (account_uses c) [] h
    ∙ unfold lookup in ground arith
