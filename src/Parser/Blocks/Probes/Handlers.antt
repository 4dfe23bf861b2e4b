-- ===== src/Parser/Blocks/Probes/Handlers.antt =====
-- internal/parser/probes.go: the handlers of the probes.
use kdef.Base.{Option, none, some, ℕ, [], ◌∷◌, ◌++◌, ◌≡◌, nat_eq, ltb, inl, inr, Bool-cases, arith}
use kdef.Base.Text.{Text, text, ◌==◌}
use kdef.Parser.Blocks.Probes.{
  probe_handlers, check_handlers, parse_probe_block, probe_content, probe_schema, empty_probe,
  check_probe, must_define, set_probe, empty_probes, probes_schema, parse_probes_block,
}
use kdef.Parser.Hcl.Valid.{
  Valid, Valid-report, Valid-with_content, Valid-bind, Valid-then, Holds-on_block_sound,
}
use kdef.Parser.Hcl.Laws.{Holds, Holds-with_content, Holds-each_block}
use kdef.Parser.Hcl.{Hcl, Block, pure, steps, has_errors}
use kdef.Types.{ProbeConfig, ProbesConfig}

Valid-check_handlers :
    {A : Type 0} (P : A → Type 0) (n : ℕ) (what detail : Text) (a : A)
    → (n ≡ 1 → P a)
    → Valid P (check_handlers n what detail a)
unfolding check_handlers has_errors
Valid-check_handlers P n what detail a p = elim (Bool-cases (nat_eq n 0)) [
  | inl e ↦ rw e (λ f. cc)
  | inr e ↦ rw e (Valid-report P (ltb 1 n) _ detail a (λ f. p (ground (arith, e, f))))
]

abbrev HasHandler : ProbeConfig → Type 0
HasHandler p = probe_handlers p ≡ 1

abbrev OptionHandler : Option ProbeConfig → Type 0
OptionHandler none = Unit
OptionHandler (some p) = HasHandler p

-- Each probe that is there has exactly one handler.
abbrev pub HaveHandlers : ProbesConfig → Type 0
HaveHandlers ps = OptionHandler ps.liveness × OptionHandler ps.readiness × OptionHandler ps.startup

module _ (h : Hcl) (ctx : h.Context) where
  open h use {Body}

  parse_probe_block-HasHandler : (b : Block Body) → Valid HasHandler (parse_probe_block h ctx b)
  unfolding parse_probe_block
  parse_probe_block-HasHandler b =
      Valid-with_content h ctx HasHandler probe_schema b.body
        (λ c. steps (probe_content h ctx c ∷ check_probe b.type ∷ [])) empty_probe
        (λ c.
          Valid-bind HasHandler (probe_content h ctx c empty_probe)
            (steps (check_probe b.type ∷ []))
            (λ p.
              Valid-then HasHandler HasHandler (check_probe b.type p) (λ q. pure q)
                (Valid-check_handlers HasHandler (probe_handlers p) (text "Probe")
                  (must_define (b.type ++ text " probe") (text ", tcp_socket_port, or exec")) p
                  (λ e. e))
                (λ q e. e)))

  Holds-set_probe :
      (type : Text) (p : ProbeConfig) (ps : ProbesConfig)
      → HasHandler p
      → HaveHandlers ps
      → HaveHandlers (set_probe type p ps)
  unfolding set_probe
  Holds-set_probe type p ps e (l, r, s) = elim (Bool-cases (type == text "liveness")) [
    | inl t ↦ rw t (e, r, s)
    | inr t ↦ rw t (elim (Bool-cases (type == text "readiness")) [
      | inl t ↦ rw t (l, e, s)
      | inr t ↦ rw t (elim (Bool-cases (type == text "startup")) [
        | inl t ↦ rw t (l, r, e)
        | inr t ↦ rw t (l, r, s)
      ])
    ])
  ]

  pub parse_probes_block-HaveHandlers :
      (b : Block Body) → Holds HaveHandlers (parse_probes_block h ctx b)
  unfolding parse_probes_block
  parse_probes_block-HaveHandlers b =
      Holds-with_content h ctx HaveHandlers probes_schema b.body _ empty_probes (tt, tt, tt)
        (λ c.
          Holds-each_block HaveHandlers _
            (λ b.
              Holds-on_block_sound HaveHandlers HasHandler (parse_probe_block h ctx)
                (set_probe b.type) parse_probe_block-HasHandler
                (λ x ps e k. Holds-set_probe b.type x ps e k) b)
            c.blocks empty_probes (tt, tt, tt))
