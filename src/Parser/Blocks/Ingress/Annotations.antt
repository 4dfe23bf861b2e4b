-- ===== src/Parser/Blocks/Ingress/Annotations.antt =====
-- internal/parser/app.go: the recursion of flattenAnnotations.
use kdef.Base.{
  ℕ, zero, suc, ◌<◌, ◌≤◌, true, List, [], ◌∷◌, ◌≡◌, refl, ◌||◌, Option, none, some, inl, inr,
  Bool-cases, Option-cases, arith,
}
use kdef.Base.Dict.{Dict, is_some, insert, merge}
use kdef.Base.Lists.{All}
use kdef.Base.Text.{Text}
use kdef.Parser.Blocks.Ingress.{flatten_annotations, flatten_elements, under}
use kdef.Parser.Hcl.{Hcl}

-- The call has a value, whether a map or a panic.
abbrev pub IsDone : Option (Option (Dict Text)) → Type 0
IsDone r = is_some r ≡ true

module _ (h : Hcl) (ctx : h.Context) where
  open h use {Value}

  flatten_elements-IsDone :
      (go : Text → Value → Option (Option (Dict Text))) (prefix : Text) (kvs : List (Value × Value))
      (result : Dict Text)
      → All (λ (k, v). (key : Text) → IsDone (go key v)) kvs
      → IsDone (flatten_elements h ctx go prefix kvs result)
  unfolding flatten_elements
  flatten_elements-IsDone go prefix [] result q = refl
  flatten_elements-IsDone go prefix ((k, v) ∷ kvs) result (q, qs) =
      elim (Option-cases (h.as_string k)) [
        | inl e ↦ rw (e, flatten_elements) refl
        | inr (key, e) ↦
            rw (e, flatten_elements)
              (elim (Bool-cases (h.is_object v || h.is_map v)) [
                | inl b ↦
                    rw (b, flatten_elements)
                      (elim (Option-cases (go (under prefix key) v)) [
                        | inl g ↦ cc (g, q (under prefix key))
                        | inr (none, g) ↦ rw (g, flatten_elements) refl
                        | inr (some inner, g) ↦
                            rw (g, flatten_elements)
                              (flatten_elements-IsDone go prefix kvs (merge result inner) qs)
                      ])
                | inr b ↦
                    rw (b, flatten_elements)
                      (elim (Option-cases (h.as_string v)) [
                        | inl g ↦ rw (g, flatten_elements) refl
                        | inr (s, g) ↦
                            rw (g, flatten_elements)
                              (flatten_elements-IsDone go prefix kvs
                                (insert (under prefix key) s result) qs)
                      ])
              ])
      ]

  -- A value in a call has fewer levels than the fuel of the call.
  All-go :
      (go : Text → Value → Option (Option (Dict Text))) (fuel depth : ℕ)
      → ((key : Text) (v : Value) → h.depth v < fuel → IsDone (go key v))
      → depth ≤ fuel
      → (kvs : List (Value × Value)) → All (λ (k, w). h.depth w < depth) kvs
      → All (λ (k, v). (key : Text) → IsDone (go key v)) kvs
  All-go go fuel depth q le [] ls = tt
  All-go go fuel depth q le ((k, v) ∷ kvs) (l, ls) =
      (λ key. q key v (omega arith), All-go go fuel depth q le kvs ls)

  module _
      (less : (v : Value) (kvs : List (Value × Value))
        → h.elements v ≡ some kvs
        → All (λ (k, w). h.depth w < h.depth v) kvs) where
    -- Where the elements of a value nest less deep than the value, the flattening of annotations
    -- ends, with a map or a panic, on each fuel that is greater than the depth of the value.
    pub flatten_annotations-IsDone :
        (fuel : ℕ) (prefix : Text) (v : Value)
        → h.depth v < fuel
        → IsDone (flatten_annotations h ctx fuel prefix v)
    unfolding flatten_annotations
    flatten_annotations-IsDone zero prefix v e = ground (arith, e)
    flatten_annotations-IsDone (suc fuel) prefix v e = elim (Option-cases (h.elements v)) [
      | inl r ↦ rw (r, flatten_annotations) refl
      | inr (kvs, r) ↦
          rw (r, flatten_annotations)
            (flatten_elements-IsDone (flatten_annotations h ctx fuel) prefix kvs [] (
              All-go (flatten_annotations h ctx fuel) fuel (h.depth v)
                (flatten_annotations-IsDone fuel) (omega arith) kvs (less v kvs r)))
    ]
