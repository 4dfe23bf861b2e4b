-- ===== src/Parser/Blocks/Services.antt =====
-- internal/parser/deployment.go and app.go: the service, rollout, autoscale and scale blocks.
use kdef.Base.{suc, List, [], ◌∷◌, ◌++◌, ◌||◌, if◌then◌else◌, Option, none, some}
use kdef.Base.Dict.{lookup, is_some}
use kdef.Base.Format.{quote, parse_int, itoa}
use kdef.Base.Int.{ℤ, pos, negsuc}
use kdef.Base.Int32.{int32}
use kdef.Base.Text.{Text, text, ◌==◌}
use kdef.Parser.Blocks.Pod.{invalid_port, parse_history_limit}
use kdef.Parser.Hcl.{
  Hcl, Parsed, parsed, failure, Block, Content, Schema, pure, expect, label, report, steps,
  optional, required, labelled, attr_with, required_with, opt_attr, as_text, as_int32, with_content,
  on_block, each_block, switch, ◌>>=◌,
}
use kdef.Types.{ServiceConfig, ServicePortConfig, RolloutConfig, AutoscaleConfig}

abbrev empty_service : ServiceConfig
empty_service = record { name = []; type = []; ports = [] }

abbrev pub empty_autoscale : AutoscaleConfig
empty_autoscale = record { min = pos 0; max = pos 0; cpu_percent = none; mem_percent = none }

abbrev empty_rollout : RolloutConfig
empty_rollout = record {
  revision_history_limit = none;
  strategy = [];
  max_surge = [];
  max_unavailable = [];
  progress_deadline = none;
}

abbrev rollout_schema : Schema
rollout_schema = record {
  attributes = optional (
      "history_limit" ∷ "revision_history_limit" ∷ "strategy" ∷ "max_surge" ∷ "max_unavailable"
      ∷ "progress_deadline" ∷ []);
  blocks = [];
}

-- strconv.FormatInt(n, 10)
unfoldable pub format_int : ℤ → Text
format_int (pos n) = itoa n
format_int (negsuc n) = b'-' ∷ itoa (suc n)

abbrev set_history : Option ℤ → RolloutConfig → RolloutConfig
set_history n r = record r { revision_history_limit = n }

-- Kept if it is one of the two, else reported.
unfoldable pub set_strategy : Text → RolloutConfig → Parsed RolloutConfig
set_strategy s r =
    if s == text "RollingUpdate" || s == text "Recreate"
    then pure (record r { strategy = s })
    else parsed r (
        failure (text "Invalid rollout strategy") (
          text "strategy " ++ (quote s ++ text " must be either \"RollingUpdate\" or \"Recreate\""))
        ∷ [])

module _ (h : Hcl) (ctx : h.Context) where
  open h use {Body, Expr, Value}

  -- The target is the port unless it is given.
  unfoldable pub parse_service_port_block : Block Body → Parsed ServicePortConfig
  parse_service_port_block b = label 1 b.labels (λ name. label 0 b.labels (λ s. elim (parse_int s) [
    | none ↦ parsed (record { number = pos 0; name = name; target = pos 0 }) (invalid_port s ∷ [])
    | some n ↦
        with_content h ctx (record { attributes = optional ("target" ∷ []); blocks = [] }) b.body
          (record { number = int32 n; name = name; target = int32 n })
          λ c.
            steps
              (attr_with h ctx c "target" (as_int32 h ctx (λ n p. record p { target = n })) ∷ [])
  ]))

  unfoldable pub parse_service_block : Block Body → Parsed ServiceConfig
  unfolding parse_service_port_block
  parse_service_block b =
      with_content h ctx
        (record { attributes = optional ("name" ∷ "type" ∷ []); blocks = labelled 2 ("port" ∷ []) })
        b.body empty_service
        λ c. steps (
          attr_with h ctx c "name" (as_text h ctx (λ s x. record x { name = s }))
          ∷ attr_with h ctx c "type" (as_text h ctx (λ s x. record x { type = s }))
          ∷ each_block
              (switch (
                (
                  "port",
                  on_block parse_service_port_block (λ p x. record x { ports = x.ports ++ p ∷ [] }),
                )
                ∷ []))
              c.blocks
          ∷ [])

  abbrev pub autoscale_attrs : Content Body Expr → List (AutoscaleConfig → Parsed AutoscaleConfig)
  autoscale_attrs c =
      required_with h ctx c "min" (as_int32 h ctx (λ n x. record x { min = n }))
      ∷ required_with h ctx c "max" (as_int32 h ctx (λ n x. record x { max = n }))
      ∷ opt_attr h ctx c "cpu" (λ n x. record x { cpu_percent = n })
      ∷ opt_attr h ctx c "memory" (λ n x. record x { mem_percent = n })
      ∷ []

  abbrev pub autoscale_schema : Schema
  autoscale_schema = record {
    attributes = required ("min" ∷ "max" ∷ []) ++ optional ("cpu" ∷ "memory" ∷ []);
    blocks = [];
  }

  unfoldable pub parse_autoscale_block : Block Body → Parsed AutoscaleConfig
  parse_autoscale_block b =
      with_content h ctx autoscale_schema b.body empty_autoscale λ c. steps (autoscale_attrs c)

  -- The case "scale" of the workloads: errors of the block leave the number as it is.
  unfoldable pub parse_scale : {A : Type 0} → (ℤ → A → A) → Block Body → A → Parsed A
  parse_scale set b a =
      with_content h ctx (record { attributes = required ("replicas" ∷ []); blocks = [] }) b.body a
        λ c. required_with h ctx c "replicas" (as_int32 h ctx set)

  -- history_limit, or else its older name.
  unfoldable pub rollout_history : Content Body Expr → RolloutConfig → Parsed RolloutConfig
  rollout_history c r = elim (lookup (text "history_limit") c.attributes) [
    | some e ↦
        report (is_some (lookup (text "revision_history_limit") c.attributes))
          (failure (text "Duplicate history limit") (
            text "revision_history_limit is the older name for history_limit; "
            ++ text "set only history_limit"))
          r
        >>= parse_history_limit h ctx "history_limit" e set_history
    | none ↦ elim (lookup (text "revision_history_limit") c.attributes) [
      | some e ↦ parse_history_limit h ctx "revision_history_limit" e set_history r
      | none ↦ pure r
    ]
  ]

  -- A number is printed, another value has to be a text.
  abbrev number_or_text :
      (Text → RolloutConfig → RolloutConfig) → Value → RolloutConfig → Parsed RolloutConfig
  number_or_text set v r =
      if h.is_number v
      then expect (h.as_int64 v) (λ n. pure (set (format_int n) r))
      else as_text h ctx set v r

  unfoldable pub parse_rollout_block : Block Body → Parsed RolloutConfig
  unfolding rollout_history set_strategy
  parse_rollout_block b = with_content h ctx rollout_schema b.body empty_rollout λ c. steps (
      rollout_history c
      ∷ attr_with h ctx c "strategy" (λ v r. expect (h.as_string v) (λ s. set_strategy s r))
      ∷ attr_with h ctx c "max_surge" (number_or_text (λ s r. record r { max_surge = s }))
      ∷ attr_with h ctx c "max_unavailable"
          (number_or_text (λ s r. record r { max_unavailable = s }))
      ∷ opt_attr h ctx c "progress_deadline" (λ n r. record r { progress_deadline = n })
      ∷ [])
