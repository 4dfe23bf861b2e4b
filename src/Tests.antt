-- ===== src/Tests.antt =====
-- Concrete inputs, the theorems at them, and tests of the definitions.
mod Blocks
mod Generated
mod Manifests
mod Project
mod Reconciler
mod Workloads
use kdef.Base.{
  ℕ, List, [], ◌∷◌, ◌++◌, map, true, false, not, ◌&&◌, ◌||◌, none, some, is_ok, all, ◌≡◌, refl,
}
use kdef.Base.Dict.{lookup, or_else, null}
use kdef.Base.Int.{pos}
use kdef.Base.Lists.{mem, distinct}
use kdef.Base.Text.{Text, text, is_empty, ◌==◌}
use kdef.Parser.Duplicates.Laws.{check_configs, all_claims, check_configs-distinct}
use kdef.Parser.Duplicates.{new_duplicate_check, check_result}
use kdef.Parser.FileResult.{empty_config}
use kdef.Parser.Ingresses.Defaults.{apply_defaults_lem, default_or_false, first_set}
use kdef.Parser.Ingresses.Laws.{all_keys, all_secrets, ingress_items, validate_ingresses_lem}
use kdef.Parser.Ingresses.{apply_defaults, validate_ingresses}
use kdef.Parser.Namespaces.Inject.{
  all_accounts_of, all_accounts_of-inject_service_account, validate_namespaces-inject,
}
use kdef.Parser.Namespaces.Laws.{namespaces_of, accounts_of, is_allowed, is_defined}
use kdef.Parser.Namespaces.{fill, inject_namespace, inject_service_account, validate_namespaces}
use kdef.Parser.Overrides.{OverrideResult, apply_overrides}
use kdef.Parser.References.Closed.{is_closed, is_resolved}
use kdef.Parser.References.Laws.{unresolved, validate_references_lem}
use kdef.Parser.References.{validate_references, references_of}
use kdef.Types.Hosts.Laws.{all_hosts_lem}
use kdef.Types.Hosts.{all_hosts, certificate_secret_name}
use kdef.Types.{
  IngressConfig, IngressDefaults, DeploymentConfig, CronJobConfig, KdefConfig, RootConfig,
}

abbrev pub web_ingress : IngressConfig
web_ingress = record {
  name = [];
  namespace = [];
  service_name = [];
  port = pos 0;
  host = text "a.nl";
  hosts = text "b.nl" ∷ text "a.nl" ∷ [];
  tls = true;
  tls_secret = [];
  issuer = [];
  class = [];
  annotations = [];
}

abbrev pub web : DeploymentConfig
web = record {
  name = text "web";
  namespace = [];
  labels = [];
  selector = [];
  image_pull_secrets = [];
  service_account_name = [];
  replicas = pos 1;
  containers = [];
  init_containers = [];
  volumes = [];
  security_context = none;
  node_selector = [];
  tolerations = [];
  host_network = false;
  host_pid = false;
  host_ipc = false;
  dns_policy = [];
  service = some (record { name = []; type = []; ports = [] });
  ingresses = web_ingress ∷ [];
  autoscale = none;
  rollout = none;
  raw = [];
}

abbrev pub web_config : KdefConfig
web_config = record empty_config { deployments = web ∷ [] }

abbrev pub root : RootConfig
root = record {
  namespaces = text "prod" ∷ [];
  service_accounts = (record { name = text "robot"; namespace = []; image_pull_secrets = [] }) ∷ [];
  ingress_defaults = none;
  env = [];
  set = (text "tag", text "v1") ∷ [];
  deployments = [];
}

-- The same deployment in two entries is a duplicate, once.
check_configs-distinct_example :
    is_ok (
      check_result (
        check_configs new_duplicate_check
          ((web_config, text "one") ∷ (web_config, text "two") ∷ [])))
    ≡ distinct (all_claims ((web_config, text "one") ∷ (web_config, text "two") ∷ []))
check_configs-distinct_example =
    check_configs-distinct ((web_config, text "one") ∷ (web_config, text "two") ∷ [])

validate_ingresses_lem_example : is_ok (validate_ingresses web_config) ≡ (
    distinct (all_keys (ingress_items web_config))
    && distinct (all_secrets (ingress_items web_config)))
validate_ingresses_lem_example = validate_ingresses_lem web_config

validate_references_lem_example :
    (added : List Text) × ((validate_references web_config).warnings ≡ web_config.warnings ++ added)
    × (distinct added ≡ true)
    × ((m : Text) → mem m added ≡ mem m (unresolved web_config (references_of web_config)))
    × (null added ≡ is_closed web_config)
validate_references_lem_example = validate_references_lem web_config

validate_namespaces-inject_example :
    is_ok (
      validate_namespaces
        (inject_service_account (inject_namespace web_config (text "prod")) (text "robot"))
        root)
    ≡ true
unfolding is_allowed is_defined namespaces_of accounts_of all mem ◌==◌
validate_namespaces-inject_example =
    validate_namespaces-inject web_config root (text "prod") (text "robot") refl refl refl refl

all_accounts_of-inject_service_account_example :
    all_accounts_of (inject_service_account web_config (text "robot"))
    ≡ map (fill (text "robot")) (all_accounts_of web_config)
all_accounts_of-inject_service_account_example =
    all_accounts_of-inject_service_account web_config (text "robot")

all_hosts_lem_example :
    (distinct (all_hosts web_ingress) ≡ true)
    × ((k : Text)
        → mem k (all_hosts web_ingress)
          ≡ (not (is_empty k) && mem k (web_ingress.host ∷ web_ingress.hosts)))
all_hosts_lem_example = all_hosts_lem web_ingress

all_hosts_test : all_hosts web_ingress ≡ text "a.nl" ∷ text "b.nl" ∷ []
unfolding all_hosts ◌==◌
all_hosts_test = refl

abbrev defaults : IngressDefaults
defaults = record {
  annotations = (text "team", text "ops") ∷ [];
  tls = some true;
  tls_secret = [];
  issuer = text "issuer";
  class = [];
  mode = [];
  gateway = [];
  gateway_namespace = [];
}

apply_defaults_lem_example :
    ((apply_defaults defaults web_ingress).tls ≡ (web_ingress.tls || default_or_false defaults.tls))
    × ((apply_defaults defaults web_ingress).tls_secret
        ≡ first_set web_ingress.tls_secret defaults.tls_secret)
    × ((apply_defaults defaults web_ingress).issuer ≡ first_set web_ingress.issuer defaults.issuer)
    × ((apply_defaults defaults web_ingress).class ≡ first_set web_ingress.class defaults.class)
    × ((k : Text)
        → lookup k (apply_defaults defaults web_ingress).annotations
          ≡ or_else (lookup k web_ingress.annotations) (lookup k defaults.annotations))
apply_defaults_lem_example = apply_defaults_lem defaults web_ingress

abbrev scale_web : OverrideResult
scale_web = record {
  var_overrides = [];
  app_overrides = (text "web", record { replicas = some (pos 3); resources = none }) ∷ [];
}
