-- ===== src/Parser/Loop/Laws.antt =====
-- splitDots: what its parts are, and how it reads what they were joined from.
use kdef.Base.{
  List, [], ◌∷◌, ◌++◌, Bool, true, false, not, ◌&&◌, nat_eq, ◌≡◌, refl, ap, sym, arith, all,
}
use kdef.Base.Text.{Text, is_empty}
use kdef.Parser.Loop.{flush, dot, split_from, split_dots}
use mathlib.Core.List.{append_assoc, append-nil}

-- A name that a dotted reference can have: it is not empty and has no dot.
unfoldable pub is_name : Text → Bool
is_name s = not (is_empty s) && all (λ c. not (nat_eq c dot)) s

-- The names, each after a dot.
unfoldable pub dotted : List Text → Text
dotted [] = []
dotted (name ∷ names) = dot ∷ (name ++ dotted names)

split_from-name :
    (parts : List Text) (current name s : Text)
    → all (λ c. not (nat_eq c dot)) name ≡ true
    → split_from parts current (name ++ s) ≡ split_from parts (current ++ name) s
unfolding all split_from
split_from-name parts current [] s h = ap (λ t. split_from parts t s) (sym (append-nil current))
split_from-name parts current (c ∷ name) s h =
    ground
      (arith, split_from-name parts (current ++ c ∷ []) name s, append_assoc current (c ∷ []) name)

flush_name : (parts : List Text) (s : Text) → is_empty s ≡ false → flush parts s ≡ parts ++ s ∷ []
flush_name parts [] h = cc
flush_name parts (c ∷ s) h = refl

split_from-dotted :
    (parts names : List Text) (current : Text)
    → is_empty current ≡ false
    → all is_name names ≡ true
    → split_from parts current (dotted names) ≡ parts ++ current ∷ names
unfolding dotted split_from all is_name
split_from-dotted parts [] current e h = flush_name parts current e
split_from-dotted parts (name ∷ names) current e h = grind (
  arith,
  flush_name parts current e,
  split_from-name (flush parts current) [] name (dotted names),
  split_from-dotted (flush parts current) names name,
  append_assoc parts (current ∷ []) (name ∷ names),
)

-- Names without dots, each of them not empty, are what splitDots makes of them joined with dots.
pub split_dots-dotted :
    (first : Text) (names : List Text)
    → all is_name (first ∷ names) ≡ true
    → split_dots (first ++ dotted names) ≡ first ∷ names
unfolding split_dots all is_name
split_dots-dotted first names h =
    grind (arith, split_from-name [] [] first (dotted names), split_from-dotted [] names first)
