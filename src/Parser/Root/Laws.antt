-- ===== src/Parser/Root/Laws.antt =====
-- What a loaded root project is known to satisfy.
use kdef.Base.{
  [], Bool, true, false, ◌&&◌, Option, none, some, Result, ok, err, is_ok, all, ok_of_bind,
  ok_of_then, ◌≡◌, refl, sym, ap, ◌∙◌, if◌then◌else◌, arith,
}
use kdef.Parser.Duplicates.{check_result}
use mathlib.Core.Path.{subst}
use kdef.Base.Dict.{lookup, merge, lookup-merge, or_else, null}
use kdef.Base.Lists.{map-map, distinct}
use kdef.Base.Text.{Text}
use kdef.Parser.Ingresses.Laws.{all_keys, all_secrets, ingress_items, validate_ingresses_lem}
use kdef.Parser.Ingresses.{apply_defaults, apply_ingress_defaults, validate_ingresses}
use kdef.Parser.Namespaces.Laws.{namespaces_of, is_allowed, validate_namespaces_lem}
use kdef.Parser.Namespaces.{validate_namespaces}
use kdef.Parser.References.{validate_references}
use kdef.Parser.Root.{
  LoadOptions, Merged, resolve_overrides, load_entries, finish, load_root_project, sorted_entries,
  default_ingresses,
}
use kdef.Types.{RootConfig, DeploymentEntry, KdefConfig, IngressDefaults}

lookup_nil : (k : Text) → lookup {V = Text} k [] ≡ none
unfolding lookup
lookup_nil k = refl

-- A variable set on the command line counts before one that the entry sets, and that before one that
-- root.kdef sets for all entries.
resolve_overrides_lem :
    (root : RootConfig) (entry : DeploymentEntry) (opts : LoadOptions) (k : Text)
    → lookup k (resolve_overrides root entry opts)
      ≡ or_else (lookup k opts.overrides) (or_else (lookup k entry.set) (lookup k root.set))
unfolding resolve_overrides
resolve_overrides_lem root entry opts k = ground (
  arith,
  lookup-merge k (merge (merge [] root.set) entry.set) opts.overrides,
  lookup-merge k (merge [] root.set) entry.set,
  lookup-merge k [] root.set,
  lookup_nil k,
)

namespaces_of-finish :
    (d : Option IngressDefaults) (c : KdefConfig)
    → namespaces_of (default_ingresses d (validate_references c)) ≡ namespaces_of c
unfolding namespaces_of apply_ingress_defaults apply_defaults validate_references
namespaces_of-finish none c = refl
namespaces_of-finish (some d) c = simp map-map

-- A config that passed the last steps.
pub record IsSafe (root : RootConfig) (c : KdefConfig) : Type 0 where
  pub namespaces : all (is_allowed root) (namespaces_of c) ≡ true
  pub names : distinct (all_keys (ingress_items c)) ≡ true
  pub secrets : distinct (all_secrets (ingress_items c)) ≡ true

is_ok-true {ℓ} : {A : Type ℓ} (m : Result A) {a : A} → m ≡ ok a → is_ok m ≡ true
is_ok-true m e = ap is_ok e

past_test {ℓ} :
    {A : Type ℓ} (b : Bool) (msg : Text) (m : Result A) {a : A}
    → (if b then err msg else m) ≡ ok a
    → m ≡ ok a
past_test true msg m h = cc
past_test false msg m h = h

and_left : (a b : Bool) → (a && b) ≡ true → a ≡ true
and_left a b h = ground arith

and_right : (a b : Bool) → (a && b) ≡ true → b ≡ true
and_right a b h = ground arith

module _ (stat : Text → Option Text) (join_path : Text → Text → Text)
    (load_with_options : LoadOptions → Result KdefConfig) (root_dir : Text) (root : RootConfig)
    (opts : LoadOptions) where
  finish-IsSafe :
      (m : Merged) {c : KdefConfig}
      → finish stat join_path load_with_options root_dir root opts m ≡ ok c
      → IsSafe root c
  unfolding finish
  finish-IsSafe m {c} e =
      let checked = validate_references m.config in
      let final = default_ingresses checked.ingress_defaults checked in
      let after_dups = ok_of_then (check_result m.dups) _ e in
      let after_namespaces = ok_of_then (validate_namespaces m.config root) _ after_dups.1 in
      let after_ingresses = ok_of_bind (validate_ingresses final) _ after_namespaces.1 in
      let allowed =
        sym (validate_namespaces_lem m.config root)
        ∙ is_ok-true (validate_namespaces m.config root) after_namespaces.0 in
      let distinct_keys =
        sym (validate_ingresses_lem final)
        ∙ is_ok-true (validate_ingresses final) after_ingresses.1 in
      let same : final ≡ c = cc after_ingresses.2 in
      subst (IsSafe root) same (record {
        namespaces =
            ap (all (is_allowed root)) (namespaces_of-finish checked.ingress_defaults m.config)
            ∙ and_left _ _ allowed;
        names = and_left _ _ distinct_keys;
        secrets = and_right _ _ distinct_keys;
      })

  -- Whatever the directories load to, a root project that loads has in every namespaced resource a
  -- namespace that is not empty and is in the list of root.kdef, if there is one, and has no two
  -- Ingress resources and no two generated Certificate secrets with one key `namespace/name`.
  pub load_root_project-IsSafe :
      (root_defs : Result KdefConfig) {c : KdefConfig}
      → load_root_project stat join_path load_with_options root_dir root opts root_defs ≡ ok c
      → IsSafe root c
  unfolding load_root_project
  load_root_project-IsSafe root_defs e =
      let after_test = past_test (null root.deployments) _ _ e in
      let after_defs = ok_of_bind root_defs _ after_test in
      let after_entries =
        ok_of_bind
          (load_entries stat join_path load_with_options root_dir root opts
            (sorted_entries root.deployments) _)
          _ after_defs.2 in
      finish-IsSafe after_entries.0 after_entries.2
