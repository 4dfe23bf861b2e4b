-- ===== src/Parser/Blocks/Ingress.antt =====
-- internal/parser/app.go: the ingress blocks, inside a workload and standing alone. The recursion of
-- flattenAnnotations is on fuel: one more than the nesting of the value.
pub mod Annotations
use Prim.Native.String.{String}
use kdef.Base.{
  ℕ, zero, suc, [], ◌∷◌, ◌++◌, List, Bool, true, false, not, ◌||◌, if◌then◌else◌, Option, none,
  some,
}
use kdef.Base.Dict.{Dict, insert, merge, contains}
use kdef.Base.Format.{quote}
use kdef.Base.Int.{pos}
use kdef.Base.Text.{Text, text, is_empty}
use kdef.Parser.Hcl.{
  Hcl, Parsed, panic, failure, Block, Content, Schema, pure, label, report, steps, optional,
  attr_with, as_text, as_int32, as_bool, if_list, with_content, ◌>>=◌,
}
use kdef.Types.{IngressConfig}

abbrev empty_ingress : IngressConfig
empty_ingress = record {
  name = [];
  namespace = [];
  service_name = [];
  port = pos 0;
  host = [];
  hosts = [];
  tls = false;
  tls_secret = [];
  issuer = [];
  class = [];
  annotations = [];
}

abbrev ingress_schema : Bool → Schema
ingress_schema standalone = record {
  attributes =
      optional (
        "host" ∷ "hosts" ∷ "name" ∷ "service_name" ∷ "port" ∷ "tls" ∷ "tls_secret" ∷ "issuer"
        ∷ "class" ∷ "annotations" ∷ [])
      ++ (if standalone then optional ("namespace" ∷ []) else []);
  blocks = [];
}

-- prefix + "/" + key
abbrev pub under : Text → Text → Text
under prefix key = if is_empty prefix then key else prefix ++ (text "/" ++ key)

module _ (h : Hcl) (ctx : h.Context) where
  open h use {Body, Expr, Value}

  -- The loop, with the call for an element that has elements itself. Such a call gives no value where
  -- its fuel is out, and in the value `none` for a panic.
  unfoldable pub flatten_elements :
      (Text → Value → Option (Option (Dict Text)))
      → Text
      → List (Value × Value)
      → Dict Text
      → Option (Option (Dict Text))
  flatten_elements go prefix [] result = some (some result)
  flatten_elements go prefix ((k, v) ∷ kvs) result = elim (h.as_string k) [
    | none ↦ some none
    | some key ↦
        if h.is_object v || h.is_map v
        then elim (go (under prefix key) v) [
          | none ↦ none
          | some none ↦ some none
          | some (some inner) ↦ flatten_elements go prefix kvs (merge result inner)
        ]
        else elim (h.as_string v) [
          | none ↦ some none
          | some s ↦ flatten_elements go prefix kvs (insert (under prefix key) s result)
        ]
  ]

  unfoldable pub flatten_annotations : ℕ → Text → Value → Option (Option (Dict Text))
  unfolding flatten_elements
  flatten_annotations zero prefix v = none
  flatten_annotations (suc fuel) prefix v = elim (h.elements v) [
    | none ↦ some none
    | some kvs ↦ flatten_elements (flatten_annotations fuel) prefix kvs []
  ]

  -- A diagnostic where a standalone ingress leaves the attribute out.
  unfoldable pub require_attr :
      Content Body Expr → String → String → IngressConfig → Parsed IngressConfig
  require_attr c name part i =
      report (not (contains (text name) c.attributes))
        (failure (text "Missing required attribute") (
          text "Top-level ingress "
          ++ (quote i.name
              ++ (text " must set `"
                  ++ (text name
                      ++ (text "`: there is no enclosing workload to default the backend "
                          ++ (text part ++ text " to.")))))))
        i

  abbrev name_attr : Content Body Expr → IngressConfig → Parsed IngressConfig
  name_attr c = attr_with h ctx c "name" (as_text h ctx (λ s i. record i { name = s }))

  -- The label is the name of a standalone ingress, unless it has an attribute for it.
  unfoldable pub ingress_identity :
      Bool → List Text → Content Body Expr → IngressConfig → Parsed IngressConfig
  unfolding require_attr
  ingress_identity true labels c i = label 0 labels (λ name.
      steps
        (name_attr c
          ∷ attr_with h ctx c "namespace" (as_text h ctx (λ s i. record i { namespace = s }))
          ∷ require_attr c "service_name" "service"
          ∷ require_attr c "port" "port"
          ∷ [])
        (record i { name = name }))
  ingress_identity false labels c i = name_attr c i

  unfoldable pub annotations_attr : Content Body Expr → IngressConfig → Parsed IngressConfig
  unfolding flatten_annotations
  annotations_attr c = attr_with h ctx c "annotations" (λ v i.
      if h.can_iterate v
      then elim (flatten_annotations (suc (h.depth v)) [] v) [
        | some (some m) ↦ pure (record i { annotations = m })
        | _ ↦ panic
      ]
      else pure i)

  unfoldable pub parse_ingress_body : Bool → Block Body → Parsed IngressConfig
  unfolding ingress_identity annotations_attr
  parse_ingress_body standalone b =
      with_content h ctx (ingress_schema standalone) b.body empty_ingress λ c. steps (
        ingress_identity standalone b.labels c
        ∷ attr_with h ctx c "service_name" (as_text h ctx (λ s i. record i { service_name = s }))
        ∷ attr_with h ctx c "port" (as_int32 h ctx (λ n i. record i { port = n }))
        ∷ attr_with h ctx c "host" (as_text h ctx (λ s i. record i { host = s }))
        ∷ attr_with h ctx c "hosts" (if_list h ctx (λ ss i. record i { hosts = ss }))
        ∷ attr_with h ctx c "tls" (as_bool h ctx (λ x i. record i { tls = x }))
        ∷ attr_with h ctx c "tls_secret" (as_text h ctx (λ s i. record i { tls_secret = s }))
        ∷ attr_with h ctx c "issuer" (as_text h ctx (λ s i. record i { issuer = s }))
        ∷ attr_with h ctx c "class" (as_text h ctx (λ s i. record i { class = s }))
        ∷ annotations_attr c
        ∷ [])

  abbrev pub parse_ingress_block : Block Body → Parsed IngressConfig
  parse_ingress_block b = parse_ingress_body false b

  abbrev pub parse_standalone_ingress_block : Block Body → Parsed IngressConfig
  parse_standalone_ingress_block b = parse_ingress_body true b
