-- ===== src/Parser/Blocks/Crds/Storage.antt =====
-- internal/parser/crd.go: the names and the storage version of a crd block.
use kdef.Base.Lists.{All}
use kdef.Base.Text.{Text, is_empty, ◌==◌, eq_sound}
use kdef.Base.{
  [], ◌∷◌, List, Bool, true, false, not, ◌||◌, ◌≡◌, ap, nat_eq, arith, Result, inl, inr, Bool-cases,
}
use kdef.Parser.Blocks.Crds.{
  Versions, set_storage, count_storage, check_storage, cut_dot, name_crd, finish_crd, crd_body,
  crd_attrs, crd_schema, crd_versions, default_names, new_crd, parse_crd_block, crd_body,
}
use kdef.Parser.Hcl.Attributes.{Holds-text, Holds-if_list}
use kdef.Parser.Hcl.Laws.{
  Holds, Holds-with_content, Holds-any, Holds-bind, Holds-steps, Holds-report, Preserves,
}
use kdef.Parser.Hcl.Valid.{Valid, Valid-report, Valid-then, Valid-label, Valid-after}
use kdef.Parser.Hcl.{Hcl, Parsed, panic, parsed, has_errors, Block, Content, steps, pure}
use kdef.Types.{CrdConfig, CrdVersionConfig, Fields}

Valid-check_storage :
    (P : CrdConfig → Type 0) (vs : Versions) (crd : CrdConfig)
    → ((versions : List CrdVersionConfig) → P (record crd { versions = versions }))
    → Valid (λ c. (count_storage c.versions ≡ 1) × P c) (check_storage vs crd)
unfolding check_storage has_errors
Valid-check_storage P [] crd p = λ e. cc
Valid-check_storage P (v ∷ vs) crd p =
    Valid-report _ (not (nat_eq (count_storage (set_storage (v ∷ vs))) 1)) _ _
      (record crd { versions = set_storage (v ∷ vs) })
      (λ e. (ground (arith, e), p (set_storage (v ∷ vs))))

Valid-finish_crd :
    (P : CrdConfig → Type 0) (m : Parsed (CrdConfig × Versions))
    → Valid
        (λ (crd, vs). (versions : List CrdVersionConfig) → P (record crd { versions = versions }))
        m
    → Valid (λ c. (count_storage c.versions ≡ 1) × P c) (finish_crd m)
unfolding finish_crd
Valid-finish_crd P panic p = tt
Valid-finish_crd P (parsed (crd, vs) ds) p = elim (Bool-cases (has_errors ds)) [
  | inl e ↦ rw e (λ f. cc)
  | inr e ↦ rw e (Valid-after _ ds (check_storage vs crd) (Valid-check_storage P vs crd (p e)))
]

four :
    (a b c d : Bool)
    → not a || (b || (c || not d)) ≡ false
    → (a ≡ true) × (b ≡ false) × (c ≡ false) × (d ≡ true)
four a b c d e = ground (arith, e)

-- The name is the plural and the group with a dot between them, and the plural is in lower case.
abbrev pub IsNamed : (Text → Text) → CrdConfig → Type 0
IsNamed to_lower c =
    (cut_dot c.name ≡ (c.plural, (c.group, true)))
    × (is_empty c.plural ≡ false)
    × (is_empty c.group ≡ false)
    × (c.plural ≡ to_lower c.plural)

module _ (h : Hcl) (ctx : h.Context) (marshal_json : h.Value → Result Text)
    (unmarshal : Text → Result Fields) (to_lower : Text → Text) where
  open h use {Body, Expr}

  abbrev Named : CrdConfig → Type 0
  Named c = IsNamed to_lower c

  Valid-name_crd :
      (crd : CrdConfig) → Valid Named (name_crd h ctx marshal_json unmarshal to_lower crd)
  unfolding name_crd
  Valid-name_crd crd = Valid-report Named _ _ _ _ (λ e.
      let (plural, (group, found)) = cut_dot crd.name in
      let (f, p, g, l) =
        four found (is_empty plural) (is_empty group) (plural == to_lower plural) e in
      (ap (λ x. (plural, (group, x))) f, p, g, eq_sound plural (to_lower plural) l))

  Holds-default_names : Preserves Named (default_names h ctx marshal_json unmarshal to_lower)
  unfolding default_names
  Holds-default_names crd p = Holds-report Named _ _ _ p

  Holds-crd_attrs :
      (c : Content Body Expr)
      → All (Preserves Named) (crd_attrs h ctx marshal_json unmarshal to_lower c)
  Holds-crd_attrs c = (
    Holds-text h ctx Named c "kind" (λ s x. record x { kind = s }) (λ s a p. p),
    (
      Holds-text h ctx Named c "singular" (λ s x. record x { singular = s }) (λ s a p. p),
      (
        Holds-text h ctx Named c "list_kind" (λ s x. record x { list_kind = s }) (λ s a p. p),
        (
          Holds-text h ctx Named c "scope" (λ s x. record x { scope = s }) (λ s a p. p),
          (
            Holds-if_list h ctx Named c "short_names" (λ s x. record x { short_names = s })
                (λ s a p. p),
            (
              Holds-if_list h ctx Named c "categories" (λ s x. record x { categories = s })
                  (λ s a p. p),
              (Holds-default_names, tt),
            ),
          ),
        ),
      ),
    ),
  )

  abbrev BodyNamed : CrdConfig × Versions → Type 0
  BodyNamed (crd, vs) =
      (versions : List CrdVersionConfig) → Named (record crd { versions = versions })

  Holds-crd_body :
      (b : Block Body) (crd : CrdConfig)
      → Named crd
      → Holds BodyNamed (crd_body h ctx marshal_json unmarshal to_lower b crd)
  unfolding crd_body
  Holds-crd_body b crd p =
      Holds-with_content h ctx BodyNamed crd_schema b.body _ (crd, []) (λ versions. p)
        (λ c.
          Holds-bind Named BodyNamed (steps (crd_attrs h ctx marshal_json unmarshal to_lower c) crd)
            _
            (Holds-steps Named (crd_attrs h ctx marshal_json unmarshal to_lower c)
              (Holds-crd_attrs c) crd p)
            (λ crd' q.
              Holds-bind (λ vs. Unit) BodyNamed
                (crd_versions h ctx marshal_json unmarshal to_lower c.blocks)
                (λ vs'. pure (crd', vs')) (Holds-any _) (λ vs u versions. q)))

  -- A crd block that is parsed without an error has exactly one storage version, and a name that
  -- is its plural and its group, both not empty, with the first dot between them, where the
  -- plural is in lower case.
  pub parse_crd_block-IsNamed :
      (b : Block Body)
      → Valid
          (λ c. (count_storage c.versions ≡ 1) × IsNamed to_lower c)
          (parse_crd_block h ctx marshal_json unmarshal to_lower b)
  unfolding parse_crd_block
  parse_crd_block-IsNamed b = Valid-label _ 0 b.labels _ (λ name. Valid-finish_crd Named _ (
      Valid-then BodyNamed Named (name_crd h ctx marshal_json unmarshal to_lower (new_crd name))
        (crd_body h ctx marshal_json unmarshal to_lower b) (Valid-name_crd (new_crd name))
        (Holds-crd_body b)))
