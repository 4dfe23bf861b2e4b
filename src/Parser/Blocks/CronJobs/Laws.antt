-- ===== src/Parser/Blocks/CronJobs/Laws.antt =====
-- internal/parser/cronjob.go: the history limits and the concurrency.
use kdef.Base.{
  List, [], ◌∷◌, ◌++◌, true, ◌||◌, ◌≡◌, refl, inl, inr, Bool-cases, Option-cases, Option, some,
}
use kdef.Base.Dict.{lookup, contains}
use kdef.Base.Int.{ℤ}
use kdef.Base.Lists.{All, mem}
use kdef.Base.Text.{Text, text, ◌==◌}
use Prim.Native.String.{String}
use kdef.Parser.Blocks.CronJobs.{
  parse_cron_job_block, cron_job_attrs, cron_job_cases, cron_job_schema, new_cron_job,
  normalize_concurrency, attr_limit, check_policy,
}
use kdef.Parser.Blocks.Environment.{parse_env_block, parse_env_from_block, parse_resources_block}
use kdef.Parser.Blocks.Pod.{parse_security_context_block, parse_toleration_block}
use kdef.Parser.Blocks.Volumes.{parse_volume_block}
use kdef.Parser.Blocks.Pod.Laws.{
  IsLimit, Holds-parse_history_limit, Holds-node_selector_attr, Holds-parse_host_pod_attrs,
  Holds-validate,
}
use kdef.Parser.Hcl.Attributes.{Holds-text, Holds-list, Holds-bool, Holds-required_text}
use kdef.Parser.Hcl.Laws.{
  Holds, Holds-with_content, Holds-steps, Preserves, Holds-label, Holds-last, Holds-each_block,
  Holds-switch, Holds-on_any, Holds-both,
}
use kdef.Parser.Hcl.{Hcl, Block, Content, each_block, switch, pure}
use kdef.Types.{CronJobConfig}

abbrev concurrencies : List Text
concurrencies = text "Allow" ∷ text "Forbid" ∷ text "Replace" ∷ []

concurrency-normalize_concurrency :
    (w : CronJobConfig) → mem (normalize_concurrency w).concurrency concurrencies ≡ true
unfolding normalize_concurrency mem ◌==◌
concurrency-normalize_concurrency w =
    elim (Bool-cases (w.concurrency == text "forbid" || w.concurrency == text "Forbid")) [
      | inl e ↦ rw e refl
      | inr e ↦
          rw e
            (elim (Bool-cases
              (w.concurrency == text "replace" || w.concurrency == text "Replace")) [
                | inl f ↦ rw f refl
                | inr f ↦ rw f refl
              ])
    ]

module _ (h : Hcl) (ctx : h.Context) where
  open h use {Body, Expr}

  abbrev pub AllowsConcurrency : CronJobConfig → Type 0
  AllowsConcurrency w = mem w.concurrency concurrencies ≡ true

  parse_cron_job_block-AllowsConcurrency :
      (b : Block Body) → Holds AllowsConcurrency (parse_cron_job_block h ctx b)
  unfolding parse_cron_job_block mem ◌==◌
  parse_cron_job_block-AllowsConcurrency b = Holds-label AllowsConcurrency 0 b.labels _ (λ name.
      Holds-with_content h ctx AllowsConcurrency cron_job_schema b.body _ (new_cron_job name) refl
        (λ c.
          Holds-last AllowsConcurrency
            (cron_job_attrs h ctx c ++ each_block (switch (cron_job_cases h ctx)) c.blocks ∷ [])
            (λ w. pure (normalize_concurrency w)) concurrency-normalize_concurrency
            (new_cron_job name)))

  abbrev pub HasLimits : CronJobConfig → Type 0
  HasLimits w = IsLimit w.history_limit × IsLimit w.failed_history_limit

  Holds-attr_limit :
      (c : Content Body Expr) (name : String) (set : Option ℤ → CronJobConfig → CronJobConfig)
      → ((n : Option ℤ) (w : CronJobConfig) → IsLimit n → HasLimits w → HasLimits (set n w))
      → Preserves HasLimits (attr_limit h ctx c name set)
  Holds-attr_limit c name set q w p = elim (Option-cases (lookup (text name) c.attributes)) [
    | inl e ↦ rw (e, Holds) p
    | inr (e', e) ↦
        rw (e, Holds) (Holds-parse_history_limit HasLimits h ctx name e' set w (λ n l. q n w l p))
  ]

  Holds-check_policy : (c : Content Body Expr) → Preserves HasLimits (check_policy h ctx c)
  Holds-check_policy c w p = elim (Bool-cases (contains (text "image_pull_policy") c.attributes)) [
    | inl e ↦ rw e (Holds-validate HasLimits w.image_pull_policy w p)
    | inr e ↦ rw e p
  ]

  Holds-cases :
      All (λ (name, step). (b : Block Body) → Preserves HasLimits (step b)) (cron_job_cases h ctx)
  Holds-cases = (
    Holds-on_any HasLimits (parse_env_block h ctx) (λ x w. record w { env = x }) (λ x w p. p),
    (
      Holds-on_any HasLimits (parse_env_from_block h ctx)
          (λ x w. record w { env_from = w.env_from ++ x ∷ [] }) (λ x w p. p),
      (
        Holds-on_any HasLimits (parse_resources_block h ctx)
            (λ x w. record w { resources = some x }) (λ x w p. p),
        (
          Holds-on_any HasLimits (parse_volume_block h ctx)
              (λ x w. record w { volumes = w.volumes ++ x ∷ [] }) (λ x w p. p),
          (
            Holds-on_any HasLimits (parse_security_context_block h ctx)
                (λ x w. record w { security_context = some x }) (λ x w p. p),
            (
              Holds-on_any HasLimits (parse_toleration_block h ctx)
                  (λ x w. record w { tolerations = w.tolerations ++ x ∷ [] }) (λ x w p. p),
              tt,
            ),
          ),
        ),
      ),
    ),
  )

  Holds-attrs :
      (c : Content Body Expr)
      → All (Preserves HasLimits) (
          cron_job_attrs h ctx c
          ++ each_block (switch (cron_job_cases h ctx)) c.blocks
            ∷ (λ w. pure (normalize_concurrency w))
            ∷ [])
  unfolding normalize_concurrency
  Holds-attrs c = (
    Holds-required_text h ctx HasLimits c "image" (λ x w. record w { image = x }) (λ x w p. p),
    (
      Holds-required_text h ctx HasLimits c "schedule" (λ x w. record w { schedule = x })
          (λ x w p. p),
      (
        Holds-text h ctx HasLimits c "namespace" (λ x w. record w { namespace = x }) (λ x w p. p),
        (
          Holds-text h ctx HasLimits c "image_pull_policy"
              (λ x w. record w { image_pull_policy = x }) (λ x w p. p),
          (
            Holds-text h ctx HasLimits c "service_account"
                (λ x w. record w { service_account_name = x }) (λ x w p. p),
            (
              Holds-text h ctx HasLimits c "container_name" (λ x w. record w { container_name = x })
                  (λ x w p. p),
              (
                Holds-text h ctx HasLimits c "concurrency" (λ x w. record w { concurrency = x })
                    (λ x w p. p),
                (
                  Holds-text h ctx HasLimits c "deadline" (λ x w. record w { deadline = x })
                      (λ x w p. p),
                  (
                    Holds-text h ctx HasLimits c "restart" (λ x w. record w { restart = x })
                        (λ x w p. p),
                    (
                      Holds-bool h ctx HasLimits c "suspend" (λ x w. record w { suspend = some x })
                          (λ x w p. p),
                      (
                        Holds-attr_limit c "history_limit" (λ x w. record w { history_limit = x })
                            (λ n w l (own, failed). (l, failed)),
                        (
                          Holds-attr_limit c "failed_history_limit"
                              (λ x w. record w { failed_history_limit = x })
                              (λ n w l (own, failed). (own, l)),
                          (
                            Holds-check_policy c,
                            (
                              Holds-list h ctx HasLimits c "command"
                                  (λ x w. record w { command = x }) (λ x w p. p),
                              (
                                Holds-list h ctx HasLimits c "args" (λ x w. record w { args = x })
                                    (λ x w p. p),
                                (
                                  Holds-node_selector_attr HasLimits h ctx c
                                      (λ m w. record w { node_selector = m }) (λ m w p. p),
                                  (
                                    Holds-parse_host_pod_attrs HasLimits h ctx c
                                        (λ x w. record w { host_network = x })
                                        (λ x w. record w { host_pid = x })
                                        (λ x w. record w { host_ipc = x })
                                        (λ x w. record w { dns_policy = x }) (λ x w p. p)
                                        (λ x w p. p) (λ x w p. p) (λ x w p. p),
                                    (
                                      Holds-list h ctx HasLimits c "image_pull_secrets"
                                          (λ x w. record w { image_pull_secrets = x }) (λ x w p. p),
                                      (
                                        Holds-each_block HasLimits (switch (cron_job_cases h ctx))
                                            (Holds-switch HasLimits (cron_job_cases h ctx)
                                              Holds-cases)
                                            c.blocks,
                                        ((λ w p. p), tt),
                                      ),
                                    ),
                                  ),
                                ),
                              ),
                            ),
                          ),
                        ),
                      ),
                    ),
                  ),
                ),
              ),
            ),
          ),
        ),
      ),
    ),
  )

  parse_cron_job_block-HasLimits : (b : Block Body) → Holds HasLimits (parse_cron_job_block h ctx b)
  unfolding parse_cron_job_block
  parse_cron_job_block-HasLimits b = Holds-label HasLimits 0 b.labels _ (λ name.
      Holds-with_content h ctx HasLimits cron_job_schema b.body _ (new_cron_job name) (tt, tt)
        (λ c.
          Holds-steps HasLimits
            (cron_job_attrs h ctx c
              ++ each_block (switch (cron_job_cases h ctx)) c.blocks
                ∷ (λ w. pure (normalize_concurrency w))
                ∷ [])
            (Holds-attrs c) (new_cron_job name) (tt, tt)))

  -- The result of a cronjob block, also of one with errors, has Allow, Forbid or Replace as its
  -- concurrency, and as each history limit nothing or a number from 0 to the greatest int32.
  pub parse_cron_job_block-IsCronJob :
      (b : Block Body)
      → Holds (λ w. AllowsConcurrency w × HasLimits w) (parse_cron_job_block h ctx b)
  parse_cron_job_block-IsCronJob b =
      Holds-both AllowsConcurrency HasLimits _ (parse_cron_job_block-AllowsConcurrency b)
        (parse_cron_job_block-HasLimits b)
