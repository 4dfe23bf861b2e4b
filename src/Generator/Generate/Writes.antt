-- ===== src/Generator/Generate/Writes.antt =====
-- What a list of writes to the result map leaves at a key, by the loops that make it.
use kdef.Base.{
  List, [], ◌∷◌, ◌++◌, map, Bool, true, false, not, if◌then◌else◌, ◌≡◌, refl, sym, ap, ◌∙◌, arith,
  all, all-append,
}
use kdef.Base.Dict.{Dict, lookup, lookup-insert}
use kdef.Base.Lists.{mem, mem-append}
use kdef.Base.Text.{Text, ◌==◌, eq_iff}
use kdef.Generator.Generate.{Write, assign, append, manifests_or_nil, write, run}
use kdef.Generator.Order.{Manifest}
use mathlib.Core.List.{append_assoc, append-nil, flat_map}

module _ {O : Type 0} where
  -- The write is no assignment to the key.
  abbrev pub spares : Text → Write O → Bool
  spares k (assign key l) = not (key == k)
  spares k (append key l) = true

  abbrev pub added_by : Text → Write O → List (Manifest O)
  added_by k (assign key l) = []
  added_by k (append key l) = if key == k then l else []

  -- All that the writes append at the key, in their order.
  unfoldable pub appended : Text → List (Write O) → List (Manifest O)
  appended k [] = []
  appended k (w ∷ ws) = added_by k w ++ appended k ws

  lookup-write :
      (k : Text) (w : Write O) (result : Dict (List (Manifest O)))
      → spares k w ≡ true
      → manifests_or_nil (lookup k (write w result))
        ≡ manifests_or_nil (lookup k result) ++ added_by k w
  unfolding write
  lookup-write k (assign key l) result h =
      ground (arith, lookup-insert key k l result, append-nil (manifests_or_nil (lookup k result)))
  lookup-write k (append key l) result h = ground (
    arith,
    lookup-insert key k (manifests_or_nil (lookup key result) ++ l) result,
    eq_iff key k,
    append-nil (manifests_or_nil (lookup k result)),
  )

  pub run_lem :
      (k : Text) (ws : List (Write O)) (result : Dict (List (Manifest O)))
      → all (spares k) ws ≡ true
      → manifests_or_nil (lookup k (run ws result))
        ≡ manifests_or_nil (lookup k result) ++ appended k ws
  unfolding run all appended
  run_lem k [] result h = sym (append-nil (manifests_or_nil (lookup k result)))
  run_lem k (w ∷ ws) result h = ground (
    arith,
    run_lem k ws (write w result),
    lookup-write k w result,
    append_assoc (manifests_or_nil (lookup k result)) (added_by k w) (appended k ws),
  )

  pub appended-append :
      (k : Text) (vs ws : List (Write O)) → appended k (vs ++ ws) ≡ appended k vs ++ appended k ws
  unfolding appended
  appended-append k [] ws = refl
  appended-append k (v ∷ vs) ws =
      ground (
        arith,
        appended-append k vs ws,
        append_assoc (added_by k v) (appended k vs) (appended k ws),
      )

  pub appended-assign :
      {A : Type 0} (k : Text) (key : A → Text) (l : A → List (Manifest O)) (xs : List A)
      → appended k (map (λ x. assign (key x) (l x)) xs) ≡ []
  unfolding appended
  appended-assign k key l [] = refl
  appended-assign k key l (x ∷ xs) = appended-assign k key l xs

  -- The manifests of the elements whose key is `k`, in their order.
  abbrev pub built_at :
      {A : Type 0} → Text → (A → Text) → (A → List (Manifest O)) → List A → List (Manifest O)
  built_at k key l xs = flat_map (λ x. if key x == k then l x else []) xs

  pub appended-map :
      {A : Type 0} (k : Text) (key : A → Text) (l : A → List (Manifest O)) (xs : List A)
      → appended k (map (λ x. append (key x) (l x)) xs) ≡ built_at k key l xs
  unfolding appended flat_map
  appended-map k key l [] = refl
  appended-map k key l (x ∷ xs) =
      ap (λ r. added_by k (append (key x) (l x)) ++ r) (appended-map k key l xs)

  spares-assign :
      {A : Type 0} (k : Text) (key : A → Text) (l : A → List (Manifest O)) (xs : List A)
      → all (spares k) (map (λ x. assign (key x) (l x)) xs) ≡ not (mem k (map key xs))
  unfolding all mem
  spares-assign k key l [] = refl
  spares-assign k key l (x ∷ xs) = ground (arith, spares-assign k key l xs)

  pub spares-map :
      {A : Type 0} (k : Text) (key : A → Text) (l : A → List (Manifest O)) (xs : List A)
      → mem k (map key xs) ≡ false
      → all (spares k) (map (λ x. assign (key x) (l x)) xs) ≡ true
  spares-map k key l xs h = spares-assign k key l xs ∙ ap not h

  pub spares_parts :
      (k : Text) (ks ls : List Text) (vs ws : List (Write O))
      → (mem k ks ≡ false → all (spares k) vs ≡ true)
      → (mem k ls ≡ false → all (spares k) ws ≡ true)
      → mem k (ks ++ ls) ≡ false
      → all (spares k) (vs ++ ws) ≡ true
  spares_parts k ks ls vs ws f g h =
      ground (arith, f, g, all-append (spares k) vs ws, mem-append k ks ls)

  pub spares-append :
      {A : Type 0} (k : Text) (key : A → Text) (l : A → List (Manifest O)) (xs : List A)
      → all (spares k) (map (λ x. append (key x) (l x)) xs) ≡ true
  unfolding all
  spares-append k key l [] = refl
  spares-append k key l (x ∷ xs) = spares-append k key l xs
