-- ===== src/Parser/Blocks/DaemonSets.antt =====
-- internal/parser/daemonset.go: the daemonset block.
use Prim.Native.String.{String}
use kdef.Base.{[], ◌∷◌, ◌++◌, List, false, some, none}
use kdef.Base.Text.{Text}
use kdef.Parser.Blocks.Containers.{parse_container_block, parse_init_container_block}
use kdef.Parser.Blocks.Pod.{
  host_pod_attrs, parse_security_context_block, parse_toleration_block, node_selector_attr,
  parse_host_pod_attrs,
}
use kdef.Parser.Blocks.Services.{parse_service_block}
use kdef.Parser.Blocks.Volumes.{parse_volume_block}
use kdef.Parser.Hcl.{
  Hcl, Parsed, Block, Content, Schema, label, steps, optional, labelled, attr_with, as_text,
  as_list, if_map, with_content, on_block, each_block, switch,
}
use kdef.Types.{DaemonSetConfig}

abbrev new_daemon_set : Text → DaemonSetConfig
new_daemon_set name = record {
  name = name;
  namespace = [];
  labels = [];
  selector = [];
  image_pull_secrets = [];
  service_account_name = [];
  containers = [];
  init_containers = [];
  volumes = [];
  security_context = none;
  node_selector = [];
  tolerations = [];
  host_network = false;
  host_pid = false;
  host_ipc = false;
  dns_policy = [];
  service = none;
  raw = [];
}

abbrev daemon_set_schema : Schema
daemon_set_schema = record {
  attributes =
      optional (
        "name" ∷ "namespace" ∷ "labels" ∷ "selector" ∷ "image_pull_secrets" ∷ "service_account"
        ∷ "node_selector" ∷ "raw" ∷ [])
      ++ host_pod_attrs;
  blocks =
      labelled 1 ("container" ∷ "init" ∷ "volume" ∷ [])
      ++ labelled 0 ("security_context" ∷ "service" ∷ "toleration" ∷ []);
}

module _ (h : Hcl) (ctx : h.Context) where
  open h use {Body, Expr}

  abbrev daemon_set_attrs : Content Body Expr → List (DaemonSetConfig → Parsed DaemonSetConfig)
  daemon_set_attrs c =
      attr_with h ctx c "name" (as_text h ctx (λ x w. record w { name = x }))
      ∷ attr_with h ctx c "namespace" (as_text h ctx (λ x w. record w { namespace = x }))
      ∷ attr_with h ctx c "labels" (if_map h ctx (λ x w. record w { labels = x }))
      ∷ attr_with h ctx c "selector" (if_map h ctx (λ x w. record w { selector = x }))
      ∷ attr_with h ctx c "image_pull_secrets"
          (as_list h ctx (λ x w. record w { image_pull_secrets = x }))
      ∷ attr_with h ctx c "service_account"
          (as_text h ctx (λ x w. record w { service_account_name = x }))
      ∷ attr_with h ctx c "raw" (as_text h ctx (λ x w. record w { raw = x }))
      ∷ node_selector_attr h ctx c (λ m w. record w { node_selector = m })
      ∷ parse_host_pod_attrs h ctx c (λ x w. record w { host_network = x })
          (λ x w. record w { host_pid = x }) (λ x w. record w { host_ipc = x })
          (λ s w. record w { dns_policy = s })
      ∷ []

  abbrev daemon_set_cases : List (String × (Block Body → DaemonSetConfig → Parsed DaemonSetConfig))
  daemon_set_cases =
      (
        "container",
        on_block (parse_container_block h ctx)
            (λ x w. record w { containers = w.containers ++ x ∷ [] }),
      )
      ∷ (
        "init",
        on_block (parse_init_container_block h ctx)
            (λ x w. record w { init_containers = w.init_containers ++ x ∷ [] }),
      )
      ∷ (
        "volume",
        on_block (parse_volume_block h ctx) (λ x w. record w { volumes = w.volumes ++ x ∷ [] }),
      )
      ∷ (
        "security_context",
        on_block (parse_security_context_block h ctx)
            (λ x w. record w { security_context = some x }),
      )
      ∷ ("service", on_block (parse_service_block h ctx) (λ x w. record w { service = some x }))
      ∷ (
        "toleration",
        on_block (parse_toleration_block h ctx)
            (λ x w. record w { tolerations = w.tolerations ++ x ∷ [] }),
      )
      ∷ []

  unfoldable pub parse_daemon_set_block : Block Body → Parsed DaemonSetConfig
  parse_daemon_set_block b = label 0 b.labels (λ name.
      with_content h ctx daemon_set_schema b.body (new_daemon_set name)
        λ c. steps (daemon_set_attrs c ++ each_block (switch daemon_set_cases) c.blocks ∷ []))
