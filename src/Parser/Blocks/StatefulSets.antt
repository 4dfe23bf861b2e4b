-- ===== src/Parser/Blocks/StatefulSets.antt =====
-- internal/parser/statefulset.go: the statefulset block.
use Prim.Native.String.{String}
use kdef.Base.{[], ◌∷◌, ◌++◌, List, false, some, none}
use kdef.Base.Int.{pos}
use kdef.Base.Text.{Text}
use kdef.Parser.Blocks.Containers.{parse_container_block, parse_init_container_block}
use kdef.Parser.Blocks.Ingress.{parse_ingress_block}
use kdef.Parser.Blocks.Pod.{
  host_pod_attrs, parse_security_context_block, parse_toleration_block, node_selector_attr,
  parse_host_pod_attrs,
}
use kdef.Parser.Blocks.Services.{parse_service_block, parse_scale}
use kdef.Parser.Blocks.Volumes.{parse_volume_block, parse_volume_claim_template_block}
use kdef.Parser.Hcl.{
  Hcl, Parsed, Block, Content, Schema, label, steps, optional, labelled, attr_with, as_text,
  as_list, if_map, with_content, on_block, each_block, switch,
}
use kdef.Types.{StatefulSetConfig}

abbrev new_stateful_set : Text → StatefulSetConfig
new_stateful_set name = record {
  name = name;
  namespace = [];
  labels = [];
  selector = [];
  image_pull_secrets = [];
  service_account_name = [];
  replicas = pos 1;
  service_name = [];
  pod_management_policy = [];
  containers = [];
  init_containers = [];
  volumes = [];
  volume_claims = [];
  security_context = none;
  node_selector = [];
  tolerations = [];
  host_network = false;
  host_pid = false;
  host_ipc = false;
  dns_policy = [];
  service = none;
  ingresses = [];
  raw = [];
}

abbrev stateful_set_schema : Schema
stateful_set_schema = record {
  attributes =
      optional (
        "name" ∷ "namespace" ∷ "labels" ∷ "selector" ∷ "image_pull_secrets" ∷ "service_account"
        ∷ "service_name" ∷ "pod_management_policy" ∷ "node_selector" ∷ "raw" ∷ [])
      ++ host_pod_attrs;
  blocks =
      labelled 1 ("container" ∷ "init" ∷ "volume" ∷ "volume_claim" ∷ [])
      ++ labelled 0 ("scale" ∷ "security_context" ∷ "service" ∷ "ingress" ∷ "toleration" ∷ []);
}

module _ (h : Hcl) (ctx : h.Context) where
  open h use {Body, Expr}

  abbrev stateful_set_attrs :
      Content Body Expr → List (StatefulSetConfig → Parsed StatefulSetConfig)
  stateful_set_attrs c =
      attr_with h ctx c "name" (as_text h ctx (λ x w. record w { name = x }))
      ∷ attr_with h ctx c "namespace" (as_text h ctx (λ x w. record w { namespace = x }))
      ∷ attr_with h ctx c "labels" (if_map h ctx (λ x w. record w { labels = x }))
      ∷ attr_with h ctx c "selector" (if_map h ctx (λ x w. record w { selector = x }))
      ∷ attr_with h ctx c "image_pull_secrets"
          (as_list h ctx (λ x w. record w { image_pull_secrets = x }))
      ∷ attr_with h ctx c "service_account"
          (as_text h ctx (λ x w. record w { service_account_name = x }))
      ∷ attr_with h ctx c "service_name" (as_text h ctx (λ x w. record w { service_name = x }))
      ∷ attr_with h ctx c "pod_management_policy"
          (as_text h ctx (λ x w. record w { pod_management_policy = x }))
      ∷ attr_with h ctx c "raw" (as_text h ctx (λ x w. record w { raw = x }))
      ∷ node_selector_attr h ctx c (λ m w. record w { node_selector = m })
      ∷ parse_host_pod_attrs h ctx c (λ x w. record w { host_network = x })
          (λ x w. record w { host_pid = x }) (λ x w. record w { host_ipc = x })
          (λ s w. record w { dns_policy = s })
      ∷ []

  abbrev stateful_set_cases :
      List (String × (Block Body → StatefulSetConfig → Parsed StatefulSetConfig))
  stateful_set_cases =
      (
        "container",
        on_block (parse_container_block h ctx)
            (λ x w. record w { containers = w.containers ++ x ∷ [] }),
      )
      ∷ (
        "init",
        on_block (parse_init_container_block h ctx)
            (λ x w. record w { init_containers = w.init_containers ++ x ∷ [] }),
      )
      ∷ ("scale", parse_scale h ctx (λ n w. record w { replicas = n }))
      ∷ (
        "volume",
        on_block (parse_volume_block h ctx) (λ x w. record w { volumes = w.volumes ++ x ∷ [] }),
      )
      ∷ (
        "volume_claim",
        on_block (parse_volume_claim_template_block h ctx)
            (λ x w. record w { volume_claims = w.volume_claims ++ x ∷ [] }),
      )
      ∷ (
        "security_context",
        on_block (parse_security_context_block h ctx)
            (λ x w. record w { security_context = some x }),
      )
      ∷ ("service", on_block (parse_service_block h ctx) (λ x w. record w { service = some x }))
      ∷ (
        "ingress",
        on_block (parse_ingress_block h ctx)
            (λ x w. record w { ingresses = w.ingresses ++ x ∷ [] }),
      )
      ∷ (
        "toleration",
        on_block (parse_toleration_block h ctx)
            (λ x w. record w { tolerations = w.tolerations ++ x ∷ [] }),
      )
      ∷ []

  unfoldable pub parse_stateful_set_block : Block Body → Parsed StatefulSetConfig
  parse_stateful_set_block b = label 0 b.labels (λ name.
      with_content h ctx stateful_set_schema b.body (new_stateful_set name)
        λ c. steps (stateful_set_attrs c ++ each_block (switch stateful_set_cases) c.blocks ∷ []))
