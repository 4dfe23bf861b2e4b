-- ===== src/Parser/Blocks/Files/Panics.antt =====
-- internal/parser: values of another type than the code expects.
use Prim.Native.String.{String}
use kdef.Base.Dict.{lookup}
use kdef.Base.Text.{Text, text, ◌==◌}
use kdef.Base.{List, [], ◌∷◌, ◌++◌, false, ◌≡◌, refl, ap, none, some, Result}
use kdef.Parser.Blocks.Data.{parse_config_map_block, config_map_schema}
use kdef.Parser.Blocks.Files.{parse_blocks_from_body, top_level_cases, top_level_schema}
use kdef.Parser.FileResult.{FileResult}
use kdef.Parser.Hcl.{
  Hcl, Parsed, panic, parsed, has_errors, Block, Content, ◌>>=◌, after, attr_with, as_text,
  each_block, switch, on_block, on_value, with_content, keep_valid,
}
use kdef.Types.{Fields, ConfigMapConfig}

module _ (h : Hcl) (ctx : h.Context) where
  open h use {Body, Expr}

  attr_text_panics :
      {A : Type 0} (c : Content Body Expr) (name : String) (set : Text → A → A) (a : A) (e : Expr)
      → lookup (text name) c.attributes ≡ some e
      → has_errors (h.value ctx e).1 ≡ false
      → h.as_string (h.value ctx e).0 ≡ none
      → attr_with h ctx c name (as_text h ctx set) a ≡ panic
  unfolding attr_with on_value
  attr_text_panics c name set a e l d s = rw (l, attr_with, d, s) refl

  config_map_panics :
      (b : Block Body) (name : Text) (e : Expr)
      → b.labels ≡ name ∷ []
      → has_errors (h.content config_map_schema b.body).1 ≡ false
      → lookup (text "namespace") (h.content config_map_schema b.body).0.attributes ≡ some e
      → has_errors (h.value ctx e).1 ≡ false
      → h.as_string (h.value ctx e).0 ≡ none
      → parse_config_map_block h ctx b ≡ panic
  unfolding parse_config_map_block with_content
  config_map_panics b name e n d l v s =
      rw
        (
          n,
          d,
          attr_text_panics {A = ConfigMapConfig} (h.content config_map_schema b.body).0 "namespace"
              (λ s x. record x { namespace = s })
              (record { name = name; namespace = []; data_map = [] }) e l v s,
        )
        refl

bind_panics :
    {A B : Type 0} (m : Parsed A) (f : A → Parsed B) → ((a : A) → f a ≡ panic) → (m >>= f) ≡ panic
bind_panics panic f q = refl
bind_panics (parsed a ds) f q = ap (after ds) (q a)

each_block-panic :
    {A C : Type 0} (step : Block C → A → Parsed A) (b : Block C)
    → ((a : A) → step b a ≡ panic)
    → (xs ys : List (Block C)) (a : A) → each_block step (xs ++ b ∷ ys) a ≡ panic
unfolding each_block
each_block-panic step b q [] ys a = rw (q a) refl
each_block-panic step b q (x ∷ xs) ys a = bind_panics (step x a) _ (each_block-panic step b q xs ys)

module _ (h : Hcl) (ctx : h.Context) (marshal_json : h.Value → Result Text)
    (unmarshal : Text → Result Fields) (to_lower : Text → Text) where
  open h use {Body, Expr}

  -- A configmap whose namespace evaluates without an error to a value that is no text, such as a
  -- number or null, ends the parse of the whole body in a panic, whatever the other blocks are.
  pub parse_blocks_from_body-panic :
      (body : Body) (r : FileResult) (xs ys : List (Block Body)) (b : Block Body) (name : Text)
      (e : Expr)
      → has_errors (h.content top_level_schema body).1 ≡ false
      → (h.content top_level_schema body).0.blocks ≡ xs ++ b ∷ ys
      → b.type ≡ text "configmap"
      → b.labels ≡ name ∷ []
      → has_errors (h.content config_map_schema b.body).1 ≡ false
      → lookup (text "namespace") (h.content config_map_schema b.body).0.attributes ≡ some e
      → has_errors (h.value ctx e).1 ≡ false
      → h.as_string (h.value ctx e).0 ≡ none
      → parse_blocks_from_body h marshal_json unmarshal to_lower ctx body r ≡ panic
  unfolding parse_blocks_from_body with_content on_block keep_valid ◌==◌
  parse_blocks_from_body-panic body r xs ys b name e d k t n f l v s =
      rw (d, k)
        (ap (after (h.content top_level_schema body).1) (
          each_block-panic (switch (top_level_cases h marshal_json unmarshal to_lower ctx)) b
            (λ r. rw (config_map_panics h ctx b name e n f l v s, t) refl) xs ys r))
