-- ===== src/Generator/Order/Laws.antt =====
-- The output order: a sorted permutation of the manifests that does not depend on the map's order.
use mathlib.Core.List.{Perm}
use kdef.Base.{List, [], ◌∷◌, ◌++◌, map, ◌≡◌, ◌≢◌, refl, sym, ap, ◌∙◌}
use kdef.Base.Dict.{Dict}
use kdef.Base.Lists.{All}
use kdef.Base.Text.{Text}
use kdef.Generator.Order.{Manifest, sort_stable, entry_of, entries_of, render_order}
use kdef.Generator.Order.Sorting.{
  IsOrdered, HasKey, sort_stable-IsOrdered, sort_stable-perm, insert_all, sort_stable-append,
  insert_all_comm,
}

-- Two orders in which the same map may be iterated: neighbours with different keys change places.
pub data Reordered {V : Type 0} : Dict V → Dict V → Type 0 where
  same : (m : Dict V) → Reordered m m
  swapped :
      (j k : Text) (v w : V) (m : Dict V)
      → j ≢ k
      → Reordered ((j, v) ∷ (k, w) ∷ m) ((k, w) ∷ (j, v) ∷ m)
  behind : (k : Text) (v : V) {m n : Dict V} → Reordered m n → Reordered ((k, v) ∷ m) ((k, v) ∷ n)
  then_too : {l m n : Dict V} → Reordered l m → Reordered m n → Reordered l n

module _ {O : Type 0} (object_kind object_name : O → Text) where
  entry_of-HasKey :
      (k : Text) (ms : List (Manifest O))
      → All (HasKey k) (map (entry_of object_kind object_name k) ms)
  unfolding entry_of
  entry_of-HasKey k [] = tt
  entry_of-HasKey k (m ∷ ms) = (refl, entry_of-HasKey k ms)

  -- The rendered manifests are ordered: none has a greater rank, or is greater in the whole
  -- comparison by rank, key and name, than one that follows it. And they are the manifests of the
  -- map, each as often.
  pub render_order_lem :
      (ms : Dict (List (Manifest O)))
      → IsOrdered (render_order object_kind object_name ms)
        × Perm (render_order object_kind object_name ms) (entries_of object_kind object_name ms)
  unfolding render_order
  render_order_lem ms = (
    sort_stable-IsOrdered (entries_of object_kind object_name ms),
    sort_stable-perm (entries_of object_kind object_name ms),
  )

  -- The order of the output does not depend on the order in which the map is iterated.
  pub render_order-Reordered :
      {ms ns : Dict (List (Manifest O))}
      → Reordered ms ns
      → render_order object_kind object_name ms ≡ render_order object_kind object_name ns
  unfolding render_order
  render_order-Reordered (same m) = refl
  render_order-Reordered (swapped j k v w m ne) =
      let vs = map (entry_of object_kind object_name j) v in
      let ws = map (entry_of object_kind object_name k) w in
      let es = entries_of object_kind object_name m in
      unfold entries_of in
      (sort_stable-append vs (ws ++ es)
        ∙ ap (insert_all vs) (sort_stable-append ws es)
        ∙ insert_all_comm vs ws (sort_stable es) j k (entry_of-HasKey j v) (entry_of-HasKey k w) ne
        ∙ ap (insert_all ws) (sym (sort_stable-append vs es))
        ∙ sym (sort_stable-append ws (vs ++ es)))
  render_order-Reordered (behind k v {m} {n} r) =
      let vs = map (entry_of object_kind object_name k) v in
      unfold entries_of in
      (sort_stable-append vs (entries_of object_kind object_name m)
        ∙ ap (insert_all vs) (render_order-Reordered r)
        ∙ sym (sort_stable-append vs (entries_of object_kind object_name n)))
  render_order-Reordered (then_too p q) = render_order-Reordered p ∙ render_order-Reordered q
