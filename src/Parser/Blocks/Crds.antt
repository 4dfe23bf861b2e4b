-- ===== src/Parser/Blocks/Crds.antt =====
-- internal/parser/crd.go: the crd block. strings.ToLower, which depends on Unicode's tables, is a
-- parameter.
pub mod Storage
use kdef.Base.{
  ℕ, zero, suc, ◌+◌, [], ◌∷◌, ◌++◌, List, map, Bool, true, false, not, ◌&&◌, ◌||◌, nat_eq,
  if◌then◌else◌, Option, some, none, Result, ok, err,
}
use kdef.Base.Dict.{contains}
use kdef.Base.Format.{quote, itoa, join}
use kdef.Base.Int.{pos}
use kdef.Base.Lists.{mem}
use kdef.Base.Text.{Text, text, is_empty, ◌==◌}
use kdef.Parser.Blocks.CrdVersions.{parse_crd_version_block}
use kdef.Parser.Hcl.{
  Hcl, Parsed, panic, parsed, Diagnostic, failure, has_errors, Block, Content, Schema, pure, after,
  report, label, steps, optional, required, labelled, attr_with, required_with, as_text, as_int64,
  as_bool, if_list, expect, with_content, on_block, keep_valid, each_block, ◌>>=◌,
}
use kdef.Types.{CrdConfig, CrdVersionConfig, CrdColumnConfig, Fields, end, field}

abbrev pub new_crd : Text → CrdConfig
new_crd name = record {
  name = name;
  group = [];
  plural = [];
  kind = [];
  singular = [];
  list_kind = [];
  short_names = [];
  categories = [];
  scope = text "Namespaced";
  versions = [];
}

-- strings.Cut(name, "."): without a dot the whole text comes first.
unfoldable pub cut_dot : Text → Text × (Text × Bool)
cut_dot [] = ([], ([], false))
cut_dot (c ∷ s) =
    let (plural, (group, found)) = cut_dot s in
    if nat_eq c b'.' then ([], (s, true)) else (c ∷ plural, (group, found))

abbrev pub Versions : Type 0
Versions = List (CrdVersionConfig × Bool)

abbrev pub versions_of : Versions → List CrdVersionConfig
versions_of vs = map {A = CrdVersionConfig × Bool} (λ (v, set). v) vs

-- The versions that were parsed, each with whether its storage was set: a single one that was not is
-- the storage version.
unfoldable pub set_storage : Versions → List CrdVersionConfig
set_storage [] = []
set_storage ((v, set) ∷ []) = (if set then v else record v { storage = true }) ∷ []
set_storage ((v, set) ∷ w ∷ rest) = v ∷ versions_of (w ∷ rest)

unfoldable pub count_storage : List CrdVersionConfig → ℕ
count_storage [] = 0
count_storage (v ∷ vs) = let n = count_storage vs in if v.storage then suc n else n

-- The versions, unless there is none, with the storage of a single one.
unfoldable pub check_storage : Versions → CrdConfig → Parsed CrdConfig
unfolding set_storage count_storage
check_storage [] crd = parsed crd (
    failure (text "CRD has no versions")
      (text "crd " ++ (quote crd.name ++ text " needs at least one version block"))
    ∷ [])
check_storage (v ∷ vs) crd =
    let versions = set_storage (v ∷ vs) in
    report (not (nat_eq (count_storage versions) 1))
      (failure (text "CRD needs exactly one storage version") (
        text "crd "
        ++ (quote crd.name
            ++ (text " has "
                ++ (itoa (count_storage versions) ++ text " versions with storage = true")))))
      (record crd { versions = versions })

abbrev pub crd_schema : Schema
crd_schema = record {
  attributes =
      required ("kind" ∷ [])
      ++ optional ("singular" ∷ "list_kind" ∷ "short_names" ∷ "categories" ∷ "scope" ∷ []);
  blocks = labelled 1 ("version" ∷ []);
}

-- What was parsed, with the storage checked if there is no error yet.
unfoldable pub finish_crd : Parsed (CrdConfig × Versions) → Parsed CrdConfig
unfolding check_storage
finish_crd panic = panic
finish_crd (parsed (crd, vs) ds) =
    if has_errors ds
    then parsed (record crd { versions = versions_of vs }) ds
    else after ds (check_storage vs crd)

module _ (h : Hcl) (ctx : h.Context) where
  open h use {Body, Expr, Value}

  module _ (marshal_json : Value → Result Text) (unmarshal : Text → Result Fields)
      (to_lower : Text → Text) where
    -- plural, group, ok := strings.Cut(crd.Name, ".")
    unfoldable pub name_crd : CrdConfig → Parsed CrdConfig
    unfolding cut_dot
    name_crd crd =
        let (plural, (group, found)) = cut_dot crd.name in
        report
          (not found || (is_empty plural || (is_empty group || not (plural == to_lower plural))))
          (failure (text "Invalid CRD name") (
            text "crd "
            ++ (quote crd.name
                ++ (text " must be named \"<plural>.<group>\" with a "
                    ++ text "lowercase plural, e.g. \"volumes.example.com\""))))
          (record crd { plural = plural; group = group })

    abbrev valid_scope : Text → Bool
    valid_scope s = s == text "Namespaced" || s == text "Cluster"

    -- The names that follow from the kind, and the check of the scope.
    unfoldable pub default_names : CrdConfig → Parsed CrdConfig
    default_names crd =
        report (not (valid_scope crd.scope))
          (failure (text "Invalid CRD scope") (
            text "scope "
            ++ (quote crd.scope ++ text " must be either \"Namespaced\" or \"Cluster\"")))
          (record crd {
            singular = if is_empty crd.singular then to_lower crd.kind else crd.singular;
            list_kind = if is_empty crd.list_kind then crd.kind ++ text "List" else crd.list_kind;
          })

    abbrev pub crd_attrs : Content Body Expr → List (CrdConfig → Parsed CrdConfig)
    crd_attrs c =
        attr_with h ctx c "kind" (as_text h ctx (λ s x. record x { kind = s }))
        ∷ attr_with h ctx c "singular" (as_text h ctx (λ s x. record x { singular = s }))
        ∷ attr_with h ctx c "list_kind" (as_text h ctx (λ s x. record x { list_kind = s }))
        ∷ attr_with h ctx c "scope" (as_text h ctx (λ s x. record x { scope = s }))
        ∷ attr_with h ctx c "short_names" (if_list h ctx (λ ss x. record x { short_names = ss }))
        ∷ attr_with h ctx c "categories" (if_list h ctx (λ ss x. record x { categories = ss }))
        ∷ default_names
        ∷ []

    unfoldable pub crd_versions : List (Block Body) → Parsed Versions
    crd_versions bs =
        each_block
          (on_block (parse_crd_version_block h ctx marshal_json unmarshal) (λ x vs. vs ++ x ∷ []))
          bs []

    -- The body, with what the name gave.
    unfoldable pub crd_body : Block Body → CrdConfig → Parsed (CrdConfig × Versions)
    unfolding crd_versions default_names
    crd_body b named =
        with_content h ctx crd_schema b.body (named, [])
          λ c (crd, vs).
            steps (crd_attrs c) crd >>= λ crd'. crd_versions c.blocks >>= λ vs'. pure (crd', vs')

    unfoldable pub parse_crd_block : Block Body → Parsed CrdConfig
    unfolding name_crd crd_body finish_crd
    parse_crd_block b =
        label 0 b.labels (λ name. finish_crd (name_crd (new_crd name) >>= crd_body b))
