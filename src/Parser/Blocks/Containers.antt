-- ===== src/Parser/Blocks/Containers.antt =====
-- internal/parser/deployment.go and app.go: the container, init and sidecar blocks.
use Prim.Native.String.{String}
use kdef.Base.{[], ◌∷◌, ◌++◌, List, some, none}
use kdef.Base.Text.{Text}
use kdef.Parser.Blocks.Environment.{parse_env_block, parse_env_from_block, parse_resources_block}
use kdef.Parser.Blocks.Pod.{parse_port_block, parse_security_context_block, pull_policy_attr}
use kdef.Parser.Blocks.Probes.{parse_probes_block, parse_lifecycle_block}
use kdef.Parser.Blocks.Volumes.{parse_volume_block}
use kdef.Parser.Hcl.{
  Hcl, Parsed, Block, Content, Schema, label, steps, optional, required, labelled, attr_with,
  required_with, as_text, as_list, with_content, on_block, each_block, switch,
}
use kdef.Types.{ContainerConfig, InitContainerConfig, SidecarConfig}

abbrev pub new_container : Text → ContainerConfig
new_container name = record {
  name = name;
  image = [];
  image_pull_policy = [];
  command = [];
  args = [];
  working_dir = [];
  ports = [];
  env = [];
  env_from = [];
  resources = none;
  volumes = [];
  security_context = none;
  probes = none;
  lifecycle = none;
}

abbrev new_init : Text → InitContainerConfig
new_init name = record {
  name = name;
  image = [];
  image_pull_policy = [];
  command = [];
  args = [];
  env = [];
  env_from = [];
  volume_mounts = [];
  security_context = none;
}

abbrev new_sidecar : Text → SidecarConfig
new_sidecar name = record {
  name = name;
  image = [];
  command = [];
  ports = [];
  env = [];
  env_from = [];
  resources = none;
  volumes = [];
  security_context = none;
}

abbrev pub container_schema : Schema
container_schema = record {
  attributes =
      required ("image" ∷ [])
      ++ optional ("image_pull_policy" ∷ "command" ∷ "args" ∷ "working_dir" ∷ []);
  blocks =
      labelled 2 ("port" ∷ [])
      ++ (labelled 1 ("volume" ∷ [])
          ++ labelled 0 (
              "env" ∷ "env_from" ∷ "resources" ∷ "security_context" ∷ "probes" ∷ "lifecycle" ∷ []));
}

abbrev init_schema : Schema
init_schema = record {
  attributes =
      required ("image" ∷ [])
      ++ optional ("image_pull_policy" ∷ "command" ∷ "args" ∷ "volumes" ∷ []);
  blocks = labelled 0 ("env" ∷ "env_from" ∷ "security_context" ∷ []);
}

abbrev sidecar_schema : Schema
sidecar_schema = record {
  attributes = required ("image" ∷ []) ++ optional ("command" ∷ []);
  blocks =
      labelled 2 ("port" ∷ [])
      ++ (labelled 1 ("volume" ∷ [])
          ++ labelled 0 ("env" ∷ "env_from" ∷ "resources" ∷ "security_context" ∷ []));
}

module _ (h : Hcl) (ctx : h.Context) where
  open h use {Body, Expr}

  abbrev pub container_cases :
      List (String × (Block Body → ContainerConfig → Parsed ContainerConfig))
  container_cases =
      ("port", on_block (parse_port_block h ctx) (λ x c. record c { ports = c.ports ++ x ∷ [] }))
      ∷ ("env", on_block (parse_env_block h ctx) (λ x c. record c { env = x }))
      ∷ (
        "env_from",
        on_block (parse_env_from_block h ctx) (λ x c. record c { env_from = c.env_from ++ x ∷ [] }),
      )
      ∷ (
        "resources",
        on_block (parse_resources_block h ctx) (λ x c. record c { resources = some x }),
      )
      ∷ (
        "volume",
        on_block (parse_volume_block h ctx) (λ x c. record c { volumes = c.volumes ++ x ∷ [] }),
      )
      ∷ (
        "security_context",
        on_block (parse_security_context_block h ctx)
            (λ x c. record c { security_context = some x }),
      )
      ∷ ("probes", on_block (parse_probes_block h ctx) (λ x c. record c { probes = some x }))
      ∷ (
        "lifecycle",
        on_block (parse_lifecycle_block h ctx) (λ x c. record c { lifecycle = some x }),
      )
      ∷ []

  abbrev pub container_attrs : Content Body Expr → List (ContainerConfig → Parsed ContainerConfig)
  container_attrs c =
      required_with h ctx c "image" (as_text h ctx (λ s x. record x { image = s }))
      ∷ pull_policy_attr h ctx c (λ s x. record x { image_pull_policy = s })
      ∷ attr_with h ctx c "command" (as_list h ctx (λ ss x. record x { command = ss }))
      ∷ attr_with h ctx c "args" (as_list h ctx (λ ss x. record x { args = ss }))
      ∷ attr_with h ctx c "working_dir" (as_text h ctx (λ s x. record x { working_dir = s }))
      ∷ each_block (switch container_cases) c.blocks
      ∷ []

  unfoldable pub parse_container_block : Block Body → Parsed ContainerConfig
  parse_container_block b = label 0 b.labels (λ name.
      with_content h ctx container_schema b.body (new_container name)
        λ c. steps (container_attrs c))

  abbrev init_cases :
      List (String × (Block Body → InitContainerConfig → Parsed InitContainerConfig))
  init_cases =
      ("env", on_block (parse_env_block h ctx) (λ x c. record c { env = x }))
      ∷ (
        "env_from",
        on_block (parse_env_from_block h ctx) (λ x c. record c { env_from = c.env_from ++ x ∷ [] }),
      )
      ∷ (
        "security_context",
        on_block (parse_security_context_block h ctx)
            (λ x c. record c { security_context = some x }),
      )
      ∷ []

  unfoldable pub parse_init_container_block : Block Body → Parsed InitContainerConfig
  parse_init_container_block b = label 0 b.labels (λ name.
      with_content h ctx init_schema b.body (new_init name) λ c. steps (
        required_with h ctx c "image" (as_text h ctx (λ s x. record x { image = s }))
        ∷ pull_policy_attr h ctx c (λ s x. record x { image_pull_policy = s })
        ∷ attr_with h ctx c "command" (as_list h ctx (λ ss x. record x { command = ss }))
        ∷ attr_with h ctx c "args" (as_list h ctx (λ ss x. record x { args = ss }))
        ∷ attr_with h ctx c "volumes" (as_list h ctx (λ ss x. record x { volume_mounts = ss }))
        ∷ each_block (switch init_cases) c.blocks
        ∷ []))

  abbrev sidecar_cases : List (String × (Block Body → SidecarConfig → Parsed SidecarConfig))
  sidecar_cases =
      ("port", on_block (parse_port_block h ctx) (λ x c. record c { ports = c.ports ++ x ∷ [] }))
      ∷ ("env", on_block (parse_env_block h ctx) (λ x c. record c { env = x }))
      ∷ (
        "env_from",
        on_block (parse_env_from_block h ctx) (λ x c. record c { env_from = c.env_from ++ x ∷ [] }),
      )
      ∷ (
        "resources",
        on_block (parse_resources_block h ctx) (λ x c. record c { resources = some x }),
      )
      ∷ (
        "volume",
        on_block (parse_volume_block h ctx) (λ x c. record c { volumes = c.volumes ++ x ∷ [] }),
      )
      ∷ (
        "security_context",
        on_block (parse_security_context_block h ctx)
            (λ x c. record c { security_context = some x }),
      )
      ∷ []

  unfoldable pub parse_sidecar_block : Block Body → Parsed SidecarConfig
  parse_sidecar_block b = label 0 b.labels (λ name.
      with_content h ctx sidecar_schema b.body (new_sidecar name) λ c. steps (
        required_with h ctx c "image" (as_text h ctx (λ s x. record x { image = s }))
        ∷ attr_with h ctx c "command" (as_list h ctx (λ ss x. record x { command = ss }))
        ∷ each_block (switch sidecar_cases) c.blocks
        ∷ []))
