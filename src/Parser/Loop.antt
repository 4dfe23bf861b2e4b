-- ===== src/Parser/Loop.antt =====
-- internal/parser/loop.go: splitDots, which splits the label of a for block, and the walk of
-- resolveReference. The cty values and their tests are parameters.
pub mod Laws
use kdef.Base.{
  ℕ, List, [], ◌∷◌, ◌++◌, Bool, not, ◌&&◌, nat_eq, if◌then◌else◌, Option, none, some, Result, ok,
  err, ◌>>=◌,
}
use kdef.Base.Dict.{Dict, lookup}
use kdef.Base.Format.{quote}
use kdef.Base.Text.{Text, text, is_empty}

-- if current != "" { parts = append(parts, current) }
abbrev pub flush : List Text → Text → List Text
flush parts [] = parts
flush parts (c ∷ current) = parts ++ (c ∷ current) ∷ []

abbrev pub dot : ℕ
dot = 46

-- The loop, with the variables `parts` and `current`.
unfoldable pub split_from : List Text → Text → Text → List Text
split_from parts current [] = flush parts current
split_from parts current (c ∷ s) =
    let after_dot = split_from (flush parts current) [] s in
    let inside = split_from parts (current ++ c ∷ []) s in
    if nat_eq c dot then after_dot else inside

unfoldable pub split_dots : Text → List Text
split_dots s = split_from [] [] s

module _ {Value : Type 0} (is_object is_map : Value → Bool) (has_attribute : Value → Text → Bool)
    (get_attr : Value → Text → Value) (friendly_name : Value → Text) where
  unfoldable pub walk : List Text → Value → Result Value
  walk [] val = ok val
  walk (attr ∷ attrs) val =
      let rest = walk attrs (get_attr val attr) in
      if not (is_object val) && not (is_map val)
      then err
          (text "cannot access attribute " ++ (quote attr ++ (text " on " ++ friendly_name val)))
      else if is_object val && not (has_attribute val attr)
      then err (text "object has no attribute " ++ quote attr)
      else rest

  -- findVariable, and the walk from the variable that it finds.
  unfoldable pub resolve_parts : List Text → Dict Value → Result Value
  unfolding walk
  resolve_parts [] variables = err (text "empty reference")
  resolve_parts (root_name ∷ attrs) variables = elim (lookup root_name variables) [
    | none ↦ err (text "variable " ++ (quote root_name ++ text " not found"))
    | some val ↦ walk attrs val
  ]

  unfoldable pub resolve_reference : Text → Dict Value → Result Value
  unfolding resolve_parts split_dots
  resolve_reference ref variables = resolve_parts (split_dots ref) variables
