-- ===== src/Tests/Project.antt =====
-- A root project at concrete inputs.
use kdef.Base.{Option, none, [], ◌∷◌, ◌++◌, Result, ok, each, ◌≡◌, refl}
use kdef.Base.Dict.{lookup, insert, set_of}
use kdef.Base.Text.{Text, text, ◌==◌}
use kdef.Base.Format.{replace_all}
use kdef.Parser.Duplicates.{add, check_result, resources_of, record_id, resource_identity}
use kdef.Parser.FileResult.{empty_config, append_resources}
use kdef.Parser.Ingresses.{
  validate_ingresses, check_deployments, check_from, record_ingress, check_stateful_sets,
  check_standalone,
}
use kdef.Parser.Namespaces.{
  fill, inject_namespace, inject_service_account, validate_namespaces, check_namespace,
  check_account,
}
use kdef.Parser.References.{
  validate_references, references_of, workload_refs, check_volumes, check_refs,
}
use kdef.Parser.Root.Laws.{IsSafe, load_root_project-IsSafe}
use kdef.Parser.Root.{LoadOptions, load_root_project, sorted_entries, inject_entry}
use kdef.Types.Hosts.{all_hosts, certificate_secret_name}
use kdef.Types.{KdefConfig, RootConfig, DeploymentEntry}
use mathlib.Core.List.{flat_map}
use kdef.Tests.{web, web_config, root}

abbrev entry : DeploymentEntry
entry = record {
  path = text "web";
  namespace = text "prod";
  service_account = text "robot";
  env = [];
  set = (text "tag", text "v2") ∷ [];
}

abbrev opts : LoadOptions
opts = record {
  dir = text ".";
  root_dir = [];
  overrides = [];
  values_file = [];
  env = [];
  vars_from = [];
}

abbrev project : RootConfig
project = record root { deployments = (text "web", entry) ∷ [] }

abbrev any_directory : Text → Option Text
any_directory d = none

abbrev join_path : Text → Text → Text
join_path d e = d ++ (text "/" ++ e)

abbrev load_web : LoadOptions → Result KdefConfig
load_web o = ok web_config

abbrev loaded : KdefConfig
loaded = record empty_config {
  namespaces = root.namespaces;
  service_accounts = root.service_accounts;
  deployments = (record web { namespace = text "prod"; service_account_name = text "robot" }) ∷ [];
}

load_root_project_test :
    load_root_project any_directory join_path load_web (text ".") project opts (ok empty_config)
    ≡ ok loaded
unfolding load_root_project sorted_entries inject_entry inject_namespace inject_service_account fill
    append_resources add check_result resources_of record_id lookup insert validate_namespaces each
    check_namespace check_account set_of validate_references references_of workload_refs
    check_volumes check_refs validate_ingresses check_deployments check_from record_ingress
    check_stateful_sets check_standalone certificate_secret_name all_hosts ◌==◌ resource_identity
    replace_all flat_map
load_root_project_test = refl

load_root_project-IsSafe_example : IsSafe project loaded
load_root_project-IsSafe_example =
    load_root_project-IsSafe any_directory join_path load_web (text ".") project opts
      (ok empty_config) load_root_project_test
