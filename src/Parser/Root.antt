-- ===== src/Parser/Root.antt =====
-- internal/parser/parser.go: loadRootProject. What it calls and the model does not define is a
-- parameter: os.Stat and filepath.Join, and the load of a directory.
pub mod Laws
use kdef.Base.{
  List, [], ◌∷◌, ◌++◌, Bool, not, if◌then◌else◌, Option, none, some, Result, ok, err, ◌>>=◌, ◌>>◌,
}
use kdef.Base.Dict.{Dict, merge, null}
use kdef.Base.Format.{quote}
use kdef.Base.Text.{Text, text, is_empty, ltb_text}
use kdef.Parser.Duplicates.{DuplicateCheck, new_duplicate_check, add, check_result}
use kdef.Parser.FileResult.{empty_config, append_resources}
use kdef.Parser.Ingresses.{Seen, apply_ingress_defaults, validate_ingresses}
use kdef.Parser.Namespaces.{inject_namespace, inject_service_account, validate_namespaces}
use kdef.Parser.References.{validate_references}
use kdef.Types.{RootConfig, DeploymentEntry, KdefConfig, IngressDefaults}

pub record LoadOptions : Type 0 where
  pub dir : Text
  pub root_dir : Text
  pub overrides : Dict Text
  pub values_file : Text
  pub env : Text
  pub vars_from : List Text

-- env: CLI > per-deployment > global root
unfoldable pub resolve_env : RootConfig → DeploymentEntry → LoadOptions → Text
resolve_env root entry opts =
    let env = if not (is_empty entry.env) then entry.env else root.env in
    if not (is_empty opts.env) then opts.env else env

-- set: global root < per-deployment < CLI
unfoldable pub resolve_overrides : RootConfig → DeploymentEntry → LoadOptions → Dict Text
resolve_overrides root entry opts = merge (merge (merge [] root.set) entry.set) opts.overrides

-- slices.Sorted(maps.Keys(...)), with the entries of the keys.
unfoldable pub insert_entry :
    Text × DeploymentEntry → List (Text × DeploymentEntry) → List (Text × DeploymentEntry)
insert_entry x [] = x ∷ []
insert_entry x (y ∷ ys) = if ltb_text y.0 x.0 then y ∷ insert_entry x ys else x ∷ y ∷ ys

unfoldable pub sorted_entries : Dict DeploymentEntry → List (Text × DeploymentEntry)
unfolding insert_entry
sorted_entries [] = []
sorted_entries (x ∷ xs) = insert_entry x (sorted_entries xs)

-- The two injections, where the entry asks for them.
unfoldable pub inject_entry : DeploymentEntry → KdefConfig → KdefConfig
inject_entry entry config =
    let with_namespace =
      if not (is_empty entry.namespace) then inject_namespace config entry.namespace else config in
    if not (is_empty entry.service_account)
    then inject_service_account with_namespace entry.service_account
    else with_namespace

abbrev wrap : Text → Result KdefConfig → Result KdefConfig
wrap name (ok c) = ok c
wrap name (err e) = err (text "load " ++ (quote name ++ (text ": " ++ e)))

-- What the loop over the entries writes.
pub record Merged : Type 0 where
  pub config : KdefConfig
  pub dups : DuplicateCheck

-- if merged.IngressDefaults != nil { applyIngressDefaults(merged) }
abbrev pub default_ingresses : Option IngressDefaults → KdefConfig → KdefConfig
default_ingresses none c = c
default_ingresses (some d) c = apply_ingress_defaults d c

module _ (stat : Text → Option Text) (join_path : Text → Text → Text)
    (load_with_options : LoadOptions → Result KdefConfig) (root_dir : Text) (root : RootConfig)
    (opts : LoadOptions) where
  unfoldable pub entry_options : DeploymentEntry → LoadOptions
  unfolding resolve_env resolve_overrides
  entry_options entry = record {
    dir = join_path root_dir entry.path;
    root_dir = root_dir;
    overrides = resolve_overrides root entry opts;
    values_file = opts.values_file;
    env = resolve_env root entry opts;
    vars_from = opts.vars_from;
  }

  -- One round of the loop; os.Stat of the directory gives an error or nothing.
  unfoldable pub load_entry : Text → DeploymentEntry → Merged → Result Merged
  load_entry name entry m = elim (stat (join_path root_dir entry.path)) [
    | some e ↦ err (
        text "deployment "
        ++ (quote name
            ++ (text ": directory " ++ (quote entry.path ++ (text " not found: " ++ e)))))
    | none ↦ wrap name (load_with_options (entry_options entry)) >>= λ config.
        let injected = inject_entry entry config in
        ok (record {
          config = append_resources m.config injected;
          dups = add m.dups injected (text "root.kdef entry " ++ quote name);
        })
  ]

  unfoldable pub load_entries : List (Text × DeploymentEntry) → Merged → Result Merged
  load_entries [] m = ok m
  load_entries ((name, entry) ∷ rest) m = load_entry name entry m >>= λ m'. load_entries rest m'

  -- What follows the loop.
  unfoldable pub finish : Merged → Result KdefConfig
  finish m =
      check_result m.dups
      >> (validate_namespaces m.config root
          >> (let checked = validate_references m.config in
              let final = default_ingresses checked.ingress_defaults checked in
              validate_ingresses final >>= λ _. ok final))

  -- `root_defs` is the result of parseRootDefinitionFiles.
  unfoldable pub load_root_project : Result KdefConfig → Result KdefConfig
  unfolding finish load_entries load_entry
  load_root_project root_defs =
      if null root.deployments
      then err (text "root.kdef contains no deployments")
      else root_defs >>= λ defs.
          let start = record empty_config {
            namespaces = root.namespaces;
            ingress_defaults = root.ingress_defaults;
            service_accounts = root.service_accounts;
          } in
          load_entries (sorted_entries root.deployments) (record {
            config = append_resources start defs;
            dups = add new_duplicate_check defs (text "root-level .kdef files");
          })
          >>= λ m. finish m
