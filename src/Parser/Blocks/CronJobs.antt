-- ===== src/Parser/Blocks/CronJobs.antt =====
-- internal/parser/cronjob.go: the cronjob block.
pub mod Laws
use Prim.Native.String.{String}
use kdef.Base.{[], ◌∷◌, ◌++◌, List, Bool, true, false, Option, some, none, ◌||◌, if◌then◌else◌}
use kdef.Base.Int.{ℤ}
use kdef.Base.Text.{Text, text, ◌==◌, is_empty}
use kdef.Base.Dict.{contains, lookup}
use kdef.Parser.Blocks.Containers.{parse_container_block, parse_init_container_block}
use kdef.Parser.Blocks.Ingress.{parse_ingress_block}
use kdef.Parser.Blocks.Environment.{parse_env_block, parse_env_from_block, parse_resources_block}
use kdef.Parser.Blocks.Pod.{
  host_pod_attrs, parse_security_context_block, parse_toleration_block, node_selector_attr,
  parse_host_pod_attrs, parse_history_limit, validate_image_pull_policy,
}
use kdef.Parser.Blocks.Services.{
  parse_service_block, parse_rollout_block, parse_autoscale_block, parse_scale,
}
use kdef.Parser.Blocks.Volumes.{parse_volume_block, parse_volume_claim_template_block}
use kdef.Parser.Hcl.{
  Hcl, Parsed, Block, Content, Schema, label, steps, optional, required, labelled, attr_with,
  required_with, as_text, as_bool, as_list, if_map, with_content, on_block, each_block, switch,
  pure,
}
use kdef.Types.{CronJobConfig}

abbrev pub new_cron_job : Text → CronJobConfig
new_cron_job name = record {
  name = name;
  container_name = [];
  namespace = [];
  image = [];
  image_pull_policy = [];
  image_pull_secrets = [];
  service_account_name = [];
  command = [];
  args = [];
  schedule = [];
  env = [];
  env_from = [];
  resources = none;
  volumes = [];
  security_context = none;
  node_selector = [];
  tolerations = [];
  host_network = false;
  host_pid = false;
  host_ipc = false;
  dns_policy = [];
  concurrency = text "Allow";
  deadline = [];
  restart = [];
  suspend = none;
  history_limit = none;
  failed_history_limit = none;
}

abbrev pub cron_job_schema : Schema
cron_job_schema = record {
  attributes =
      required ("image" ∷ "schedule" ∷ [])
      ++ (optional (
            "container_name" ∷ "namespace" ∷ "image_pull_policy" ∷ "image_pull_secrets"
            ∷ "service_account" ∷ "command" ∷ "args" ∷ "node_selector" ∷ "concurrency" ∷ "deadline"
            ∷ "restart" ∷ "suspend" ∷ "history_limit" ∷ "failed_history_limit" ∷ [])
          ++ host_pod_attrs);
  blocks =
      labelled 1 ("volume" ∷ [])
      ++ labelled 0 ("env" ∷ "env_from" ∷ "resources" ∷ "security_context" ∷ "toleration" ∷ []);
}

-- The switch over the two spellings of each.
unfoldable pub normalize_concurrency : CronJobConfig → CronJobConfig
normalize_concurrency w = record w {
  concurrency =
      if w.concurrency == text "forbid" || w.concurrency == text "Forbid"
      then text "Forbid"
      else if w.concurrency == text "replace" || w.concurrency == text "Replace"
      then text "Replace"
      else text "Allow";
}

module _ (h : Hcl) (ctx : h.Context) where
  open h use {Body, Expr}

  abbrev pub attr_limit :
      Content Body Expr
      → String
      → (Option ℤ → CronJobConfig → CronJobConfig)
      → CronJobConfig
      → Parsed CronJobConfig
  attr_limit c name set w = elim (lookup (text name) c.attributes) [
    | none ↦ pure w
    | some e ↦ parse_history_limit h ctx name e set w
  ]

  abbrev pub check_policy : Content Body Expr → CronJobConfig → Parsed CronJobConfig
  check_policy c w =
      if contains (text "image_pull_policy") c.attributes
      then validate_image_pull_policy w.image_pull_policy w
      else pure w

  abbrev pub cron_job_attrs : Content Body Expr → List (CronJobConfig → Parsed CronJobConfig)
  cron_job_attrs c =
      required_with h ctx c "image" (as_text h ctx (λ s w. record w { image = s }))
      ∷ required_with h ctx c "schedule" (as_text h ctx (λ s w. record w { schedule = s }))
      ∷ attr_with h ctx c "namespace" (as_text h ctx (λ x w. record w { namespace = x }))
      ∷ attr_with h ctx c "image_pull_policy"
          (as_text h ctx (λ x w. record w { image_pull_policy = x }))
      ∷ attr_with h ctx c "service_account"
          (as_text h ctx (λ x w. record w { service_account_name = x }))
      ∷ attr_with h ctx c "container_name" (as_text h ctx (λ x w. record w { container_name = x }))
      ∷ attr_with h ctx c "concurrency" (as_text h ctx (λ x w. record w { concurrency = x }))
      ∷ attr_with h ctx c "deadline" (as_text h ctx (λ x w. record w { deadline = x }))
      ∷ attr_with h ctx c "restart" (as_text h ctx (λ x w. record w { restart = x }))
      ∷ attr_with h ctx c "suspend" (as_bool h ctx (λ x w. record w { suspend = some x }))
      ∷ attr_limit c "history_limit" (λ x w. record w { history_limit = x })
      ∷ attr_limit c "failed_history_limit" (λ x w. record w { failed_history_limit = x })
      ∷ check_policy c
      ∷ attr_with h ctx c "command" (as_list h ctx (λ x w. record w { command = x }))
      ∷ attr_with h ctx c "args" (as_list h ctx (λ x w. record w { args = x }))
      ∷ node_selector_attr h ctx c (λ m w. record w { node_selector = m })
      ∷ parse_host_pod_attrs h ctx c (λ x w. record w { host_network = x })
          (λ x w. record w { host_pid = x }) (λ x w. record w { host_ipc = x })
          (λ s w. record w { dns_policy = s })
      ∷ attr_with h ctx c "image_pull_secrets"
          (as_list h ctx (λ x w. record w { image_pull_secrets = x }))
      ∷ []

  abbrev pub cron_job_cases : List (String × (Block Body → CronJobConfig → Parsed CronJobConfig))
  cron_job_cases =
      ("env", on_block (parse_env_block h ctx) (λ x w. record w { env = x }))
      ∷ (
        "env_from",
        on_block (parse_env_from_block h ctx) (λ x w. record w { env_from = w.env_from ++ x ∷ [] }),
      )
      ∷ (
        "resources",
        on_block (parse_resources_block h ctx) (λ x w. record w { resources = some x }),
      )
      ∷ (
        "volume",
        on_block (parse_volume_block h ctx) (λ x w. record w { volumes = w.volumes ++ x ∷ [] }),
      )
      ∷ (
        "security_context",
        on_block (parse_security_context_block h ctx)
            (λ x w. record w { security_context = some x }),
      )
      ∷ (
        "toleration",
        on_block (parse_toleration_block h ctx)
            (λ x w. record w { tolerations = w.tolerations ++ x ∷ [] }),
      )
      ∷ []

  unfoldable pub parse_cron_job_block : Block Body → Parsed CronJobConfig
  parse_cron_job_block b = label 0 b.labels (λ name.
      with_content h ctx cron_job_schema b.body (new_cron_job name) λ c. steps (
        cron_job_attrs c
        ++ each_block (switch cron_job_cases) c.blocks
          ∷ (λ w. pure (normalize_concurrency w))
          ∷ []))
