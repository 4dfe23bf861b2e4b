-- ===== src/Parser/Blocks/Probes.antt =====
-- internal/parser/probes.go: the probes and lifecycle blocks of a container.
pub mod Handlers
use kdef.Base.{
  ℕ, ◌+◌, [], ◌∷◌, ◌++◌, List, Bool, true, false, not, nat_eq, ltb, if◌then◌else◌, none, some,
}
use kdef.Base.Dict.{null}
use kdef.Base.Int.{ℤ, pos, ltb_ℤ}
use kdef.Base.Text.{Text, text, is_empty, ◌==◌}
use kdef.Parser.Hcl.{
  Hcl, Parsed, parsed, failure, Block, Content, Schema, pure, report, steps, optional, required,
  labelled, attr_with, required_with, opt_attr, as_text, as_int32, as_list, with_content, on_block,
  each_block, switch,
}
use kdef.Types.{ProbeConfig, ProbesConfig, LifecycleHandler, LifecycleConfig}

abbrev pub empty_probe : ProbeConfig
empty_probe = record {
  http_path = [];
  http_port = pos 0;
  tcp_port = pos 0;
  exec = [];
  initial_delay = none;
  period = none;
  timeout = none;
  failures = none;
  successes = none;
}

abbrev one_if : Bool → ℕ
one_if true = 1
one_if false = 0

unfoldable pub probe_handlers : ProbeConfig → ℕ
probe_handlers p =
    one_if (not (null p.exec))
    + one_if (ltb_ℤ (pos 0) p.tcp_port)
    + one_if (not (is_empty p.http_path))

unfoldable pub hook_handlers : LifecycleHandler → ℕ
hook_handlers l = one_if (not (null l.exec)) + one_if (not (is_empty l.http_path))

-- The diagnostic of no handler, or of several.
unfoldable pub check_handlers : {A : Type 0} → ℕ → Text → Text → A → Parsed A
check_handlers n what detail a =
    if nat_eq n 0
    then parsed a (failure (what ++ text " has no handler") detail ∷ [])
    else report (ltb 1 n) (failure (what ++ text " has multiple handlers") detail) a

abbrev pub must_define : Text → Text → Text
must_define type rest = type ++ (text " must define exactly one of: http_get {}" ++ rest)

abbrev pub check_probe : Text → ProbeConfig → Parsed ProbeConfig
check_probe type p =
    check_handlers (probe_handlers p) (text "Probe")
      (must_define (type ++ text " probe") (text ", tcp_socket_port, or exec")) p

-- The switch on the type of a probe.
unfoldable pub set_probe : Text → ProbeConfig → ProbesConfig → ProbesConfig
set_probe type p ps =
    if type == text "liveness"
    then record ps { liveness = some p }
    else if type == text "readiness"
    then record ps { readiness = some p }
    else if type == text "startup"
    then record ps { startup = some p }
    else ps

abbrev pub probes_schema : Schema
probes_schema = record {
  attributes = [];
  blocks = labelled 0 ("liveness" ∷ "readiness" ∷ "startup" ∷ []);
}

abbrev pub empty_probes : ProbesConfig
empty_probes = record { liveness = none; readiness = none; startup = none }

abbrev pub probe_schema : Schema
probe_schema = record {
  attributes = optional (
      "exec" ∷ "tcp_socket_port" ∷ "initial_delay" ∷ "period" ∷ "timeout" ∷ "failure_threshold"
      ∷ "success_threshold" ∷ []);
  blocks = labelled 0 ("http_get" ∷ []);
}

module _ (h : Hcl) (ctx : h.Context) where
  open h use {Body, Expr}

  -- The path and the port.
  unfoldable pub parse_http_get_block : Block Body → Parsed (Text × ℤ)
  parse_http_get_block b =
      with_content h ctx (record { attributes = required ("path" ∷ "port" ∷ []); blocks = [] })
        b.body ([], pos 0)
        λ c. steps (
          required_with h ctx c "path" (as_text h ctx (λ s (path, port). (s, port)))
          ∷ required_with h ctx c "port" (as_int32 h ctx (λ n (path, port). (path, n)))
          ∷ [])

  unfoldable pub parse_probe_tuning_attrs : Content Body Expr → ProbeConfig → Parsed ProbeConfig
  parse_probe_tuning_attrs c = steps (
      opt_attr h ctx c "initial_delay" (λ n p. record p { initial_delay = n })
      ∷ opt_attr h ctx c "period" (λ n p. record p { period = n })
      ∷ opt_attr h ctx c "timeout" (λ n p. record p { timeout = n })
      ∷ opt_attr h ctx c "failure_threshold" (λ n p. record p { failures = n })
      ∷ opt_attr h ctx c "success_threshold" (λ n p. record p { successes = n })
      ∷ [])

  -- What is read before the handlers are counted.
  unfoldable pub probe_content : Content Body Expr → ProbeConfig → Parsed ProbeConfig
  unfolding parse_http_get_block parse_probe_tuning_attrs
  probe_content c = steps (
      attr_with h ctx c "exec" (as_list h ctx (λ ss p. record p { exec = ss }))
      ∷ attr_with h ctx c "tcp_socket_port" (as_int32 h ctx (λ n p. record p { tcp_port = n }))
      ∷ parse_probe_tuning_attrs c
      ∷ each_block
          (switch (
            (
              "http_get",
              on_block parse_http_get_block
                  (λ (path, port) p. record p { http_path = path; http_port = port }),
            )
            ∷ []))
          c.blocks
      ∷ [])

  unfoldable pub parse_probe_block : Block Body → Parsed ProbeConfig
  unfolding probe_content probe_handlers check_handlers
  parse_probe_block b =
      with_content h ctx probe_schema b.body empty_probe
        λ c. steps (probe_content c ∷ check_probe b.type ∷ [])

  unfoldable pub parse_probes_block : Block Body → Parsed ProbesConfig
  unfolding parse_probe_block set_probe
  parse_probes_block b =
      with_content h ctx probes_schema b.body empty_probes
        λ c. each_block (λ b. on_block parse_probe_block (set_probe b.type) b) c.blocks

  abbrev empty_handler : LifecycleHandler
  empty_handler = record { exec = []; http_path = []; http_port = pos 0 }

  unfoldable pub parse_lifecycle_handler_block : Block Body → Parsed LifecycleHandler
  unfolding hook_handlers check_handlers parse_http_get_block
  parse_lifecycle_handler_block b =
      with_content h ctx
        (record { attributes = optional ("exec" ∷ []); blocks = labelled 0 ("http_get" ∷ []) })
        b.body empty_handler
        λ c. steps (
          attr_with h ctx c "exec" (as_list h ctx (λ ss l. record l { exec = ss }))
          ∷ each_block
              (switch (
                (
                  "http_get",
                  on_block parse_http_get_block
                      (λ (path, port) l. record l { http_path = path; http_port = port }),
                )
                ∷ []))
              c.blocks
          ∷ (λ l.
              check_handlers (hook_handlers l) (text "Lifecycle hook")
                (must_define (b.type ++ text " hook") (text " or exec")) l)
          ∷ [])

  unfoldable pub parse_lifecycle_block : Block Body → Parsed LifecycleConfig
  unfolding parse_lifecycle_handler_block
  parse_lifecycle_block b =
      with_content h ctx
        (record { attributes = []; blocks = labelled 0 ("pre_stop" ∷ "post_start" ∷ []) }) b.body
        (record { pre_stop = none; post_start = none })
        λ c.
          each_block
            (λ b.
              on_block parse_lifecycle_handler_block
                (λ l ls.
                  if b.type == text "pre_stop"
                  then record ls { pre_stop = some l }
                  else if b.type == text "post_start"
                  then record ls { post_start = some l }
                  else ls)
                b)
            c.blocks
