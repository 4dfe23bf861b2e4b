-- ===== src/Parser/Blocks/Pod.antt =====
-- internal/parser/app.go and pod_extras.go: ports, security contexts, tolerations, and
-- the attributes that every pod has.
pub mod Laws
use Prim.Native.String.{String}
use kdef.Base.Lists.{mem}
use kdef.Base.{
  ℕ, List, [], ◌∷◌, ◌++◌, map, Bool, true, false, not, ◌&&◌, ◌||◌, nat_eq, if◌then◌else◌, Option,
  none, some,
}
use kdef.Base.Dict.{Dict, is_some}
use kdef.Base.Format.{quote, trim_space, parse_int}
use kdef.Base.Int.{ℤ, pos, ltb_ℤ}
use kdef.Base.Int32.{int32, half}
use kdef.Base.Text.{Text, text, is_empty, ltb_text}
use kdef.Parser.Hcl.{
  Hcl, Parsed, panic, parsed, Diagnostic, failure, has_errors, Schema, Block, Content, pure, after,
  expect, label, steps, optional, attr_with, opt_attr, as_text, as_int64, as_int32, as_bool,
  as_list, if_map, with_content, ◌>>=◌,
}
use kdef.Types.{
  PortConfig, ResourcesConfig, EnvEntry, EnvFromEntry, SecurityContextConfig, TolerationConfig,
}

abbrev pub new_port : Text → PortConfig
new_port name = record {
  number = pos 0;
  name = name;
  health = [];
  ready = [];
  tcp_health = false;
  tcp_ready = false;
  initial_delay = none;
  period = none;
  timeout = none;
  failures = none;
  successes = none;
}

-- The diagnostic of a port label that strconv.Atoi refuses.
abbrev pub invalid_port : Text → Diagnostic
invalid_port s =
    failure (text "Invalid port number")
      (text "Port number " ++ (quote s ++ text " is not a valid integer"))

abbrev empty_toleration : TolerationConfig
empty_toleration = record {
  key = [];
  operator = [];
  value = [];
  effect = [];
  toleration_seconds = none;
}

abbrev pub host_pod_attrs : List (Text × Bool)
host_pod_attrs = optional ("host_network" ∷ "host_pid" ∷ "host_ipc" ∷ "dns_policy" ∷ [])

-- The value with the diagnostic of a policy that Kubernetes does not know.
unfoldable pub validate_image_pull_policy : {A : Type 0} → Text → A → Parsed A
validate_image_pull_policy s a =
    if is_empty s || mem s (text "Always" ∷ text "IfNotPresent" ∷ text "Never" ∷ [])
    then pure a
    else parsed a (
        failure (text "invalid image_pull_policy " ++ quote s)
          (text "supported values: Always, IfNotPresent, Never")
        ∷ [])

abbrev pub invalid_limit : String → Text → Diagnostic
invalid_limit name got =
    failure (text "invalid " ++ text name)
      (text name ++ (text " must be a whole number >= 0" ++ got))

module _ (h : Hcl) (ctx : h.Context) where
  open h use {Body, Expr, Value}

  abbrev port_attrs : Content Body Expr → List (PortConfig → Parsed PortConfig)
  port_attrs c =
      attr_with h ctx c "tcp_health" (as_bool h ctx (λ b p. record p { tcp_health = b }))
      ∷ attr_with h ctx c "tcp_ready" (as_bool h ctx (λ b p. record p { tcp_ready = b }))
      ∷ attr_with h ctx c "health" (as_text h ctx (λ s p. record p { health = s }))
      ∷ attr_with h ctx c "ready" (as_text h ctx (λ s p. record p { ready = s }))
      ∷ opt_attr h ctx c "initial_delay" (λ n p. record p { initial_delay = n })
      ∷ opt_attr h ctx c "period" (λ n p. record p { period = n })
      ∷ opt_attr h ctx c "timeout" (λ n p. record p { timeout = n })
      ∷ opt_attr h ctx c "failures" (λ n p. record p { failures = n })
      ∷ opt_attr h ctx c "successes" (λ n p. record p { successes = n })
      ∷ []

  abbrev port_schema : Schema
  port_schema = record {
    attributes = optional (
        "health" ∷ "ready" ∷ "tcp_health" ∷ "tcp_ready" ∷ "initial_delay" ∷ "period" ∷ "timeout"
        ∷ "failures" ∷ "successes" ∷ []);
    blocks = [];
  }

  unfoldable pub parse_port_block : Block Body → Parsed PortConfig
  parse_port_block b = label 1 b.labels (λ name. label 0 b.labels (λ s. elim (parse_int s) [
    | none ↦ parsed (new_port name) (invalid_port s ∷ [])
    | some n ↦
        with_content h ctx port_schema b.body (record (new_port name) { number = int32 n })
          (λ c. steps (port_attrs c))
  ]))

  abbrev empty_security : SecurityContextConfig
  empty_security = record {
    run_as_user = none;
    run_as_group = none;
    run_as_non_root = none;
    read_only_root = none;
    fs_group = none;
    privileged = none;
  }

  abbrev security_schema : Schema
  security_schema = record {
    attributes = optional (
        "run_as_user" ∷ "run_as_group" ∷ "run_as_non_root" ∷ "read_only_root" ∷ "fs_group"
        ∷ "privileged" ∷ []);
    blocks = [];
  }

  unfoldable pub parse_security_context_block : Block Body → Parsed SecurityContextConfig
  parse_security_context_block b = with_content h ctx security_schema b.body empty_security λ c.
      steps (
        attr_with h ctx c "privileged" (as_bool h ctx (λ x s. record s { privileged = some x }))
        ∷ attr_with h ctx c "run_as_user"
            (as_int64 h ctx (λ n s. record s { run_as_user = some n }))
        ∷ attr_with h ctx c "run_as_group"
            (as_int64 h ctx (λ n s. record s { run_as_group = some n }))
        ∷ attr_with h ctx c "run_as_non_root"
            (as_bool h ctx (λ x s. record s { run_as_non_root = some x }))
        ∷ attr_with h ctx c "read_only_root"
            (as_bool h ctx (λ x s. record s { read_only_root = some x }))
        ∷ attr_with h ctx c "fs_group" (as_int64 h ctx (λ n s. record s { fs_group = some n }))
        ∷ [])

  abbrev toleration_schema : Schema
  toleration_schema = record {
    attributes = optional ("key" ∷ "operator" ∷ "value" ∷ "effect" ∷ "toleration_seconds" ∷ []);
    blocks = [];
  }

  unfoldable pub parse_toleration_block : Block Body → Parsed TolerationConfig
  parse_toleration_block b = with_content h ctx toleration_schema b.body empty_toleration λ c.
      steps (
        attr_with h ctx c "key" (as_text h ctx (λ s t. record t { key = s }))
        ∷ attr_with h ctx c "operator" (as_text h ctx (λ s t. record t { operator = s }))
        ∷ attr_with h ctx c "value" (as_text h ctx (λ s t. record t { value = s }))
        ∷ attr_with h ctx c "effect" (as_text h ctx (λ s t. record t { effect = s }))
        ∷ attr_with h ctx c "toleration_seconds"
            (as_int64 h ctx (λ n t. record t { toleration_seconds = some n }))
        ∷ [])

  module _ {A : Type 0} where
    -- A value without elements gives the nil map.
    unfoldable pub node_selector_attr : Content Body Expr → (Dict Text → A → A) → A → Parsed A
    node_selector_attr c set =
        attr_with h ctx c "node_selector"
          (λ v a. if h.can_iterate v then if_map h ctx set v a else pure (set [] a))

    unfoldable pub parse_host_pod_attrs :
        Content Body Expr
        → (Bool → A → A)
        → (Bool → A → A)
        → (Bool → A → A)
        → (Text → A → A)
        → A
        → Parsed A
    parse_host_pod_attrs c host_network host_pid host_ipc dns_policy = steps (
        attr_with h ctx c "host_network" (as_bool h ctx host_network)
        ∷ attr_with h ctx c "host_pid" (as_bool h ctx host_pid)
        ∷ attr_with h ctx c "host_ipc" (as_bool h ctx host_ipc)
        ∷ attr_with h ctx c "dns_policy" (as_text h ctx dns_policy)
        ∷ [])

    -- The policy is kept, and reported where it is invalid.
    unfoldable pub pull_policy_attr : Content Body Expr → (Text → A → A) → A → Parsed A
    pull_policy_attr c set =
        attr_with h ctx c "image_pull_policy"
          (λ v a. expect (h.as_string v) (λ s. validate_image_pull_policy s (set s a)))

    -- The number of a history limit, if it is one.
    unfoldable pub limit_value : String → Value → (Option ℤ → A → A) → A → Parsed A
    limit_value name v set a =
        if not (h.is_number v)
        then parsed (set none a) (invalid_limit name [] ∷ [])
        else expect (h.as_int64 v) (λ n.
          if not (h.is_exact v) || (ltb_ℤ n (pos 0) || not (ltb_ℤ n (pos half)))
          then parsed (set none a) (invalid_limit name (text ", got " ++ h.number_text v) ∷ [])
          else pure (set (some (int32 n)) a))

    -- The pointer is nil after an error. The attribute's name stands in the diagnostics.
    unfoldable pub parse_history_limit : String → Expr → (Option ℤ → A → A) → A → Parsed A
    unfolding limit_value
    parse_history_limit name e set a =
        let (v, ds) = h.value ctx e in
        if has_errors ds then parsed (set none a) ds else after ds (limit_value name v set a)
