-- ===== src/Generator/Merge/Laws.antt =====
-- What a path of keys leads to in a merged map.
use kdef.Base.{
  List, [], ◌∷◌, Bool, true, false, Option, none, some, ◌≡◌, refl, ap, ◌∙◌, if◌then◌else◌, arith,
  Bool-cases, Option-cases, inl, inr,
}
use kdef.Base.Text.{Text, ◌==◌, eq_iff}
use kdef.Generator.Merge.{get, put, deep_merge, merge_value}
use mathlib.Core.Path.{subst}
use kdef.Types.{Value, Fields, scalar, seq, object, end, field}

get-put :
    (k j : Text) (v : Value) (m : Fields) → get j (put k v m) ≡ (if k == j then some v else get j m)
unfolding get put
get-put k j v end = refl
get-put k j v (field i w m) = ground (arith, eq_iff k j, eq_iff i k, eq_iff i j, get-put k j v m)

-- No key stands twice in the map, nor in a map below it (outside sequences).
unfoldable mutual
  pub IsMap : Fields → Type 0
  IsMap end = Unit
  IsMap (field k v m) = (get k m ≡ none) × IsValue v × IsMap m

  pub IsValue : Value → Type 0
  IsValue (scalar s) = Unit
  IsValue (seq vs) = Unit
  IsValue (object m) = IsMap m

abbrev merged : Option Value → Option Value → Option Value
merged old none = old
merged old (some v) = some (merge_value old v)

get-deep_merge :
    (k : Text) (base overlay : Fields)
    → IsMap overlay
    → get k (deep_merge base overlay) ≡ merged (get k base) (get k overlay)
unfolding deep_merge get IsMap
get-deep_merge k base end h = refl
get-deep_merge k base (field j v m) h = ground (
  arith,
  get-put j k (merge_value (get j (deep_merge base m)) v) (deep_merge base m),
  get-deep_merge k base m h.2,
  get-deep_merge j base m h.2,
  eq_iff j k,
)

IsValue-get : (k : Text) (m : Fields) {v : Value} → IsMap m → get k m ≡ some v → IsValue v
unfolding IsMap get
IsValue-get k end h e = cc
IsValue-get k (field j w m) {v} h e = elim (Bool-cases (j == k)) [
  | inl found ↦ subst IsValue (ground (arith, found)) h.1
  | inr other ↦ IsValue-get k m h.2 (ground (arith, other))
]

-- The value that a path of keys leads to.
abbrev and_then : Option Value → (Value → Option Value) → Option Value
and_then none f = none
and_then (some v) f = f v

unfoldable pub at : List Text → Value → Option Value
at [] v = some v
at (k ∷ p) (object m) = and_then (get k m) (at p)
at (k ∷ p) (scalar s) = none
at (k ∷ p) (seq vs) = none

abbrev pub is_object : Value → Bool
is_object (object m) = true
is_object (scalar s) = false
is_object (seq vs) = false

merge_value_leaf :
    (p : List Text) (old : Option Value) (v leaf : Value)
    → IsValue v
    → is_object leaf ≡ false
    → at p v ≡ some leaf
    → at p (merge_value old v) ≡ some leaf
unfolding at merge_value IsValue
merge_value_leaf [] old (scalar s) leaf h l e = e
merge_value_leaf [] old (seq vs) leaf h l e = e
merge_value_leaf [] old (object m) leaf h l e = ground arith
merge_value_leaf (k ∷ p) old (scalar s) leaf h l e = cc
merge_value_leaf (k ∷ p) old (seq vs) leaf h l e = cc
merge_value_leaf (k ∷ p) none (object m) leaf h l e = e
merge_value_leaf (k ∷ p) (some (scalar s)) (object m) leaf h l e = e
merge_value_leaf (k ∷ p) (some (seq vs)) (object m) leaf h l e = e
merge_value_leaf (k ∷ p) (some (object b)) (object m) leaf h l e = elim (Option-cases (get k m)) [
  | inl missing ↦ ground (arith, missing)
  | inr (u, found) ↦
      ap (λ o. and_then o (at p)) (get-deep_merge k b m h ∙ ap (merged (get k b)) found)
      ∙ merge_value_leaf p (get k b) u leaf (IsValue-get k m h found) l (ground (arith, found))
]

-- The path leaves the overlay before it ends: some key of it is missing there.
unfoldable pub misses : List Text → Value → Bool
misses [] v = false
misses (k ∷ p) (scalar s) = false
misses (k ∷ p) (seq vs) = false
misses (k ∷ p) (object m) = elim (get k m) [ none ↦ true | some u ↦ misses p u ]

at-misses : (p : List Text) (v : Value) → misses p v ≡ true → at p v ≡ none
unfolding at misses
at-misses [] v h = cc
at-misses (k ∷ p) (scalar s) h = refl
at-misses (k ∷ p) (seq vs) h = refl
at-misses (k ∷ p) (object m) h = elim (Option-cases (get k m)) [
  | inl missing ↦ ground (arith, missing)
  | inr (u, found) ↦ ground (arith, found, at-misses p u)
]

merge_value-misses :
    (p : List Text) (old : Option Value) (v : Value)
    → IsValue v
    → misses p v ≡ true
    → at p (merge_value old v) ≡ and_then old (at p)
unfolding at misses merge_value IsValue
merge_value-misses [] old v h e = cc
merge_value-misses (k ∷ p) old (scalar s) h e = cc
merge_value-misses (k ∷ p) old (seq vs) h e = cc
merge_value-misses (k ∷ p) none (object m) h e = at-misses (k ∷ p) (object m) e
merge_value-misses (k ∷ p) (some (scalar s)) (object m) h e = at-misses (k ∷ p) (object m) e
merge_value-misses (k ∷ p) (some (seq vs)) (object m) h e = at-misses (k ∷ p) (object m) e
merge_value-misses (k ∷ p) (some (object b)) (object m) h e = elim (Option-cases (get k m)) [
  | inl missing ↦
      ap (λ o. and_then o (at p)) (get-deep_merge k b m h ∙ ap (merged (get k b)) missing)
  | inr (u, found) ↦
      ap (λ o. and_then o (at p)) (get-deep_merge k b m h ∙ ap (merged (get k b)) found)
      ∙ merge_value-misses p (get k b) u (IsValue-get k m h found) (ground (arith, found))
]

module _ (base overlay : Fields) (p : List Text) (h : IsMap overlay) where
  -- Where a path of keys leads to a scalar or a sequence in the overlay, it leads to the same in the
  -- merged map. The overlay's keys are distinct, as in a Go map.
  pub deep_merge_leaf :
      (leaf : Value)
      → is_object leaf ≡ false
      → at p (object overlay) ≡ some leaf
      → at p (object (deep_merge base overlay)) ≡ some leaf
  deep_merge_leaf leaf l e =
      unfold merge_value in
      merge_value_leaf p (some (object base)) (object overlay) leaf (unfold IsValue in h) l e

  -- Where a key of the path is missing in the overlay, the path leads in the merged map to what it
  -- leads to in the base. The overlay's keys are distinct, as in a Go map.
  deep_merge-misses :
      misses p (object overlay) ≡ true
      → at p (object (deep_merge base overlay)) ≡ at p (object base)
  deep_merge-misses e =
      unfold merge_value in
      merge_value-misses p (some (object base)) (object overlay) (unfold IsValue in h) e
