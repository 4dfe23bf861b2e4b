-- ===== src/Parser/Blocks/Deployments/Probes.antt =====
-- internal/parser/deployment.go: the probes of the containers of a deployment.
use kdef.Base.Lists.{All, All-append}
use kdef.Base.{[], ◌∷◌, ◌++◌, Option, none, some}
use kdef.Parser.Blocks.Containers.{
  parse_container_block, parse_init_container_block, container_attrs, container_cases,
  container_schema, new_container,
}
use kdef.Parser.Blocks.Deployments.{
  parse_deployment_block, deployment_cases, deployment_attrs, deployment_schema, new_deployment,
}
use kdef.Parser.Blocks.Environment.{parse_env_block, parse_env_from_block, parse_resources_block}
use kdef.Parser.Blocks.Ingress.{parse_ingress_block}
use kdef.Parser.Blocks.Pod.Laws.{
  Holds-pull_policy_attr, Holds-node_selector_attr, Holds-parse_host_pod_attrs,
}
use kdef.Parser.Blocks.Pod.{parse_port_block, parse_security_context_block, parse_toleration_block}
use kdef.Parser.Blocks.Probes.Handlers.{HaveHandlers, parse_probes_block-HaveHandlers}
use kdef.Parser.Blocks.Probes.{parse_probes_block, parse_lifecycle_block}
use kdef.Parser.Blocks.Services.{
  parse_service_block, parse_autoscale_block, parse_rollout_block, parse_scale,
}
use kdef.Parser.Blocks.Volumes.{parse_volume_block}
use kdef.Parser.Hcl.Attributes.{Holds-text, Holds-required_text, Holds-list, Holds-map}
use kdef.Parser.Hcl.Laws.{
  Holds, Preserves, Holds-label, Holds-with_content, Holds-steps, Holds-each_block, Holds-switch,
  Holds-on_any, Holds-on_block, Holds-required_with, Holds-expect,
}
use kdef.Parser.Hcl.{Hcl, Block, each_block, switch}
use kdef.Types.{ContainerConfig, DeploymentConfig, ProbesConfig}

abbrev OptionHandlers : Option ProbesConfig → Type 0
OptionHandlers none = Unit
OptionHandlers (some ps) = HaveHandlers ps

abbrev HasProbes : ContainerConfig → Type 0
HasProbes c = OptionHandlers c.probes

-- Each probe of each container has exactly one handler.
abbrev pub AllProbes : DeploymentConfig → Type 0
AllProbes d = All HasProbes d.containers

module _ (h : Hcl) (ctx : h.Context) where
  open h use {Body, Expr}

  container_steps :
      All (λ (name, step). (b : Block Body) → Preserves HasProbes (step b)) (container_cases h ctx)
  container_steps = (
    Holds-on_any HasProbes (parse_port_block h ctx) (λ x w. record w { ports = w.ports ++ x ∷ [] })
        (λ x w p. p),
    (
      Holds-on_any HasProbes (parse_env_block h ctx) (λ x w. record w { env = x }) (λ x w p. p),
      (
        Holds-on_any HasProbes (parse_env_from_block h ctx)
            (λ x w. record w { env_from = w.env_from ++ x ∷ [] }) (λ x w p. p),
        (
          Holds-on_any HasProbes (parse_resources_block h ctx)
              (λ x w. record w { resources = some x }) (λ x w p. p),
          (
            Holds-on_any HasProbes (parse_volume_block h ctx)
                (λ x w. record w { volumes = w.volumes ++ x ∷ [] }) (λ x w p. p),
            (
              Holds-on_any HasProbes (parse_security_context_block h ctx)
                  (λ x w. record w { security_context = some x }) (λ x w p. p),
              (
                Holds-on_block HasProbes HaveHandlers (parse_probes_block h ctx)
                    (λ x w. record w { probes = some x }) (parse_probes_block-HaveHandlers h ctx)
                    (λ x w q p. q),
                (
                  Holds-on_any HasProbes (parse_lifecycle_block h ctx)
                      (λ x w. record w { lifecycle = some x }) (λ x w p. p),
                  tt,
                ),
              ),
            ),
          ),
        ),
      ),
    ),
  )

  parse_container_block-HasProbes :
      (b : Block Body) → Holds HasProbes (parse_container_block h ctx b)
  unfolding parse_container_block
  parse_container_block-HasProbes b = Holds-label HasProbes 0 b.labels _ (λ name.
      Holds-with_content h ctx HasProbes container_schema b.body _ (new_container name) tt (λ c.
        Holds-steps HasProbes (container_attrs h ctx c)
          (
            Holds-required_text h ctx HasProbes c "image" (λ x w. record w { image = x })
                (λ x w p. p),
            (
              Holds-pull_policy_attr HasProbes h ctx c (λ x w. record w { image_pull_policy = x })
                  (λ x w p. p),
              (
                Holds-list h ctx HasProbes c "command" (λ x w. record w { command = x })
                    (λ x w p. p),
                (
                  Holds-list h ctx HasProbes c "args" (λ x w. record w { args = x }) (λ x w p. p),
                  (
                    Holds-text h ctx HasProbes c "working_dir" (λ x w. record w { working_dir = x })
                        (λ x w p. p),
                    (
                      Holds-each_block HasProbes (switch (container_cases h ctx))
                          (Holds-switch HasProbes (container_cases h ctx) container_steps) c.blocks,
                      tt,
                    ),
                  ),
                ),
              ),
            ),
          )
          (new_container name) tt))

  Holds-parse_scale :
      (b : Block Body)
      → Preserves AllProbes (parse_scale h ctx (λ n w. record w { replicas = n }) b)
  unfolding parse_scale
  Holds-parse_scale b w p = Holds-with_content h ctx AllProbes _ b.body _ w p (λ c.
      Holds-required_with h ctx AllProbes c "replicas" _
        (λ v w p. Holds-expect AllProbes (h.as_int64 v) _ (λ n. p)) w p)

  deployment_steps :
      All (λ (name, step). (b : Block Body) → Preserves AllProbes (step b)) (deployment_cases h ctx)
  deployment_steps = (
    Holds-on_block AllProbes HasProbes (parse_container_block h ctx)
        (λ x w. record w { containers = w.containers ++ x ∷ [] }) parse_container_block-HasProbes
        (λ x w q p. All-append HasProbes w.containers (x ∷ []) p (q, tt)),
    (
      Holds-on_any AllProbes (parse_init_container_block h ctx)
          (λ x w. record w { init_containers = w.init_containers ++ x ∷ [] }) (λ x w p. p),
      (
        (λ b w p. Holds-parse_scale b w p),
        (
          Holds-on_any AllProbes (parse_volume_block h ctx)
              (λ x w. record w { volumes = w.volumes ++ x ∷ [] }) (λ x w p. p),
          (
            Holds-on_any AllProbes (parse_security_context_block h ctx)
                (λ x w. record w { security_context = some x }) (λ x w p. p),
            (
              Holds-on_any AllProbes (parse_service_block h ctx)
                  (λ x w. record w { service = some x }) (λ x w p. p),
              (
                Holds-on_any AllProbes (parse_ingress_block h ctx)
                    (λ x w. record w { ingresses = w.ingresses ++ x ∷ [] }) (λ x w p. p),
                (
                  Holds-on_any AllProbes (parse_autoscale_block h ctx)
                      (λ x w. record w { autoscale = some x }) (λ x w p. p),
                  (
                    Holds-on_any AllProbes (parse_rollout_block h ctx)
                        (λ x w. record w { rollout = some x }) (λ x w p. p),
                    (
                      Holds-on_any AllProbes (parse_toleration_block h ctx)
                          (λ x w. record w { tolerations = w.tolerations ++ x ∷ [] }) (λ x w p. p),
                      tt,
                    ),
                  ),
                ),
              ),
            ),
          ),
        ),
      ),
    ),
  )

  -- In the result of a deployment block, each liveness, readiness and startup probe of each
  -- container has exactly one handler, whatever else of the block is in error.
  pub parse_deployment_block-AllProbes :
      (b : Block Body) → Holds AllProbes (parse_deployment_block h ctx b)
  unfolding parse_deployment_block
  parse_deployment_block-AllProbes b = Holds-label AllProbes 0 b.labels _ (λ name.
      Holds-with_content h ctx AllProbes deployment_schema b.body _ (new_deployment name) tt (λ c.
        Holds-steps AllProbes
          (deployment_attrs h ctx c ++ each_block (switch (deployment_cases h ctx)) c.blocks ∷ [])
          (
            Holds-text h ctx AllProbes c "name" (λ x w. record w { name = x }) (λ x w p. p),
            (
              Holds-text h ctx AllProbes c "namespace" (λ x w. record w { namespace = x })
                  (λ x w p. p),
              (
                Holds-map h ctx AllProbes c "labels" (λ x w. record w { labels = x }) (λ x w p. p),
                (
                  Holds-map h ctx AllProbes c "selector" (λ x w. record w { selector = x })
                      (λ x w p. p),
                  (
                    Holds-list h ctx AllProbes c "image_pull_secrets"
                        (λ x w. record w { image_pull_secrets = x }) (λ x w p. p),
                    (
                      Holds-text h ctx AllProbes c "service_account"
                          (λ x w. record w { service_account_name = x }) (λ x w p. p),
                      (
                        Holds-text h ctx AllProbes c "raw" (λ x w. record w { raw = x })
                            (λ x w p. p),
                        (
                          Holds-node_selector_attr AllProbes h ctx c
                              (λ m w. record w { node_selector = m }) (λ m w p. p),
                          (
                            Holds-parse_host_pod_attrs AllProbes h ctx c
                                (λ x w. record w { host_network = x })
                                (λ x w. record w { host_pid = x })
                                (λ x w. record w { host_ipc = x })
                                (λ x w. record w { dns_policy = x }) (λ x w p. p) (λ x w p. p)
                                (λ x w p. p) (λ x w p. p),
                            (
                              Holds-each_block AllProbes (switch (deployment_cases h ctx))
                                  (Holds-switch AllProbes (deployment_cases h ctx) deployment_steps)
                                  c.blocks,
                              tt,
                            ),
                          ),
                        ),
                      ),
                    ),
                  ),
                ),
              ),
            ),
          )
          (new_deployment name) tt))
