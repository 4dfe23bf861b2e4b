-- ===== src/Parser/Blocks/CrdVersions.antt =====
-- internal/parser/crd.go: the version and column blocks of a crd block. crdSchemaValue's marshalling
-- to JSON and from YAML are parameters.
use kdef.Base.{
  [], ◌∷◌, ◌++◌, List, Bool, true, false, ◌||◌, if◌then◌else◌, Option, some, none, Result, ok, err,
}
use kdef.Base.Dict.{contains}
use kdef.Base.Format.{quote, join}
use kdef.Base.Int.{pos}
use kdef.Base.Lists.{mem}
use kdef.Base.Text.{Text, text}
use kdef.Parser.Hcl.{
  Hcl, Parsed, panic, parsed, failure, has_errors, Block, Content, Schema, pure, label, steps,
  optional, required, labelled, attr_with, as_text, as_int64, as_bool, with_content, on_block,
  each_block, ◌>>=◌,
}
use kdef.Types.{CrdVersionConfig, CrdColumnConfig, Fields, end, field}

abbrev column_types : List Text
column_types = text "integer" ∷ text "number" ∷ text "string" ∷ text "boolean" ∷ text "date" ∷ []

abbrev new_column : Text → CrdColumnConfig
new_column name = record {
  name = name;
  type = [];
  json_path = [];
  description = [];
  format = [];
  priority = pos 0;
}

abbrev new_version : Text → CrdVersionConfig
new_version name = record {
  name = name;
  served = true;
  storage = false;
  schema = none;
  status_subresource = false;
  columns = [];
}

module _ (h : Hcl) (ctx : h.Context) where
  open h use {Body, Expr, Value}

  abbrev column_schema : Schema
  column_schema = record {
    attributes =
        required ("type" ∷ "json_path" ∷ [])
        ++ optional ("description" ∷ "format" ∷ "priority" ∷ []);
    blocks = [];
  }

  -- Only without an error the type is checked.
  unfoldable pub check_column : Parsed CrdColumnConfig → Parsed CrdColumnConfig
  check_column panic = panic
  check_column (parsed col ds) =
      if mem col.type column_types || has_errors ds
      then parsed col ds
      else parsed col (
          ds
          ++ failure (text "Invalid column type") (
              text "column "
              ++ (quote col.name
                  ++ (text " type "
                      ++ (quote col.type
                          ++ (text " must be one of " ++ join (text ", ") column_types)))))
            ∷ [])

  unfoldable pub parse_crd_column_block : Block Body → Parsed CrdColumnConfig
  unfolding check_column
  parse_crd_column_block b = label 0 b.labels (λ name.
      with_content h ctx column_schema b.body (new_column name) λ c col. check_column (
        steps
          (attr_with h ctx c "type" (as_text h ctx (λ s x. record x { type = s }))
            ∷ attr_with h ctx c "json_path" (as_text h ctx (λ s x. record x { json_path = s }))
            ∷ attr_with h ctx c "description" (as_text h ctx (λ s x. record x { description = s }))
            ∷ attr_with h ctx c "format" (as_text h ctx (λ s x. record x { format = s }))
            ∷ attr_with h ctx c "priority" (as_int64 h ctx (λ n x. record x { priority = n }))
            ∷ [])
          col))

  module _ (marshal_json : Value → Result Text) (unmarshal : Text → Result Fields) where
    unfoldable pub decoded_schema : Result Text → Result Fields
    decoded_schema (err message) = err message
    decoded_schema (ok data_text) = elim (unmarshal data_text) [
      | err message ↦ err (text "schema must be a YAML or JSON object: " ++ message)
      | ok end ↦ err (text "schema is empty")
      | ok (field k v rest) ↦ ok (field k v rest)
    ]

    -- No value: a text that is null or unknown.
    unfoldable pub crd_schema_value : Value → Option (Result Fields)
    unfolding decoded_schema
    crd_schema_value v =
        if h.is_string v
        then elim (h.as_string v) [ none ↦ none | some s ↦ some (decoded_schema (ok s)) ]
        else some (decoded_schema (marshal_json v))

    unfoldable pub schema_attr : Content Body Expr → CrdVersionConfig → Parsed CrdVersionConfig
    unfolding crd_schema_value
    schema_attr c = attr_with h ctx c "schema" (λ v x. elim (crd_schema_value v) [
      | none ↦ panic
      | some (err message) ↦ parsed x (failure (text "Invalid CRD schema") message ∷ [])
      | some (ok s) ↦ pure (record x { schema = some s })
    ])

    abbrev version_schema : Schema
    version_schema = record {
      attributes = optional ("served" ∷ "storage" ∷ "schema" ∷ "status_subresource" ∷ []);
      blocks = labelled 1 ("column" ∷ []);
    }

    -- The version, and whether it has an attribute for its storage.
    unfoldable pub parse_crd_version_block : Block Body → Parsed (CrdVersionConfig × Bool)
    unfolding schema_attr parse_crd_column_block
    parse_crd_version_block b = label 0 b.labels (λ name.
        with_content h ctx version_schema b.body (new_version name, false)
          λ c (start, set).
            steps
              (attr_with h ctx c "served" (as_bool h ctx (λ x v. record v { served = x }))
                ∷ attr_with h ctx c "storage" (as_bool h ctx (λ x v. record v { storage = x }))
                ∷ attr_with h ctx c "status_subresource"
                    (as_bool h ctx (λ x v. record v { status_subresource = x }))
                ∷ schema_attr c
                ∷ each_block
                    (on_block parse_crd_column_block
                      (λ x v. record v { columns = v.columns ++ x ∷ [] }))
                    c.blocks
                ∷ [])
              start
            >>= λ v. pure (v, contains (text "storage") c.attributes))
