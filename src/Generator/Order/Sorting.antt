-- ===== src/Generator/Order/Sorting.antt =====
-- The stable insertion sort: sorted, a permutation, and indifferent to where a key's entries stand.
use mathlib.Core.List.{Perm}
use mathlib.Core.List.Perm
use kdef.Base.{
  ◌≤◌, List, [], ◌∷◌, ◌++◌, false, ◌≡◌, ◌≢◌, refl, sym, ap, ◌∙◌, Bool-cases, inl, inr, arith,
}
use kdef.Base.Lists.{All}
use kdef.Base.Text.{Text}
use kdef.Generator.Order.{Entry, less, insert_sorted, sort_stable}
use kdef.Generator.Order.Less.{less_asym, less_cut, less_connex}

module _ {O : Type 0} where
  pub insert_sorted_comm :
      (x y : Entry O) (l : List (Entry O))
      → x.key ≢ y.key
      → insert_sorted x (insert_sorted y l) ≡ insert_sorted y (insert_sorted x l)
  unfolding insert_sorted
  insert_sorted_comm x y [] h = ground (arith, less_asym x y, less_connex x y)
  insert_sorted_comm x y (z ∷ l) h = ground (
    arith,
    less_asym x y,
    less_asym y x,
    less_connex x y,
    less_cut x y z,
    less_cut y x z,
    insert_sorted_comm x y l h,
  )

  -- A manifest that no later one should precede, in rank and in the whole comparison.
  abbrev pub Precedes : Entry O → Entry O → Type 0
  Precedes x y = (x.rank ≤ y.rank) × (less y x ≡ false)

  abbrev pub IsOrdered : List (Entry O) → Type 0
  IsOrdered [] = Unit
  IsOrdered (x ∷ xs) = All (Precedes x) xs × IsOrdered xs

  Precedes-less : (x y : Entry O) → less y x ≡ false → Precedes x y
  unfolding less
  Precedes-less x y h = ground arith

  Precedes-trans : (x y z : Entry O) → Precedes x y → Precedes y z → Precedes x z
  Precedes-trans x y z h k = Precedes-less x z (ground (arith, less_cut x y z, h.1, k.1))

  All-Precedes-trans :
      (x y : Entry O) (l : List (Entry O)) → Precedes x y → All (Precedes y) l → All (Precedes x) l
  All-Precedes-trans x y [] h k = tt
  All-Precedes-trans x y (z ∷ l) h k = (Precedes-trans x y z h k.0, All-Precedes-trans x y l h k.1)

  All-insert_sorted :
      (w x : Entry O) (l : List (Entry O))
      → Precedes w x
      → All (Precedes w) l
      → All (Precedes w) (insert_sorted x l)
  unfolding insert_sorted
  All-insert_sorted w x [] h k = (h, tt)
  All-insert_sorted w x (y ∷ l) h k = elim (Bool-cases (less y x)) [
    | inl before ↦ rw before (k.0, All-insert_sorted w x l h k.1)
    | inr after ↦ rw after (h, k)
  ]

  insert_sorted-IsOrdered :
      (x : Entry O) (l : List (Entry O)) → IsOrdered l → IsOrdered (insert_sorted x l)
  unfolding insert_sorted
  insert_sorted-IsOrdered x [] h = (tt, tt)
  insert_sorted-IsOrdered x (y ∷ l) h = elim (Bool-cases (less y x)) [
    | inl before ↦ rw before (
      All-insert_sorted y x l (Precedes-less y x (less_asym y x before)) h.0,
      insert_sorted-IsOrdered x l h.1,
    )
    | inr after ↦
        let p = Precedes-less x y after in rw after ((p, All-Precedes-trans x y l p h.0), h)
  ]

  pub sort_stable-IsOrdered : (l : List (Entry O)) → IsOrdered (sort_stable l)
  unfolding sort_stable
  sort_stable-IsOrdered [] = tt
  sort_stable-IsOrdered (x ∷ l) =
      insert_sorted-IsOrdered x (sort_stable l) (sort_stable-IsOrdered l)

  insert_sorted-perm : (x : Entry O) (l : List (Entry O)) → Perm (insert_sorted x l) (x ∷ l)
  unfolding insert_sorted
  insert_sorted-perm x [] = Perm.refl (x ∷ [])
  insert_sorted-perm x (y ∷ l) = elim (Bool-cases (less y x)) [
    | inl before ↦ rw before (Perm.trans (Perm.cons y (insert_sorted-perm x l)) (Perm.swap x y l))
    | inr after ↦ rw after (Perm.refl (x ∷ y ∷ l))
  ]

  pub sort_stable-perm : (l : List (Entry O)) → Perm (sort_stable l) l
  unfolding sort_stable
  sort_stable-perm [] = Perm.refl []
  sort_stable-perm (x ∷ l) =
      Perm.trans (insert_sorted-perm x (sort_stable l)) (Perm.cons x (sort_stable-perm l))

  pub insert_all : List (Entry O) → List (Entry O) → List (Entry O)
  insert_all [] l = l
  insert_all (x ∷ xs) l = insert_sorted x (insert_all xs l)

  pub sort_stable-append :
      (xs ys : List (Entry O)) → sort_stable (xs ++ ys) ≡ insert_all xs (sort_stable ys)
  unfolding sort_stable insert_all
  sort_stable-append [] ys = refl
  sort_stable-append (x ∷ xs) ys = ap (insert_sorted x) (sort_stable-append xs ys)

  abbrev pub HasKey : Text → Entry O → Type 0
  HasKey k x = x.key ≡ k

  insert_all-insert_sorted :
      (x : Entry O) (ys l : List (Entry O)) (k : Text)
      → All (HasKey k) ys
      → x.key ≢ k
      → insert_sorted x (insert_all ys l) ≡ insert_all ys (insert_sorted x l)
  unfolding insert_all
  insert_all-insert_sorted x [] l k h ne = refl
  insert_all-insert_sorted x (y ∷ ys) l k h ne =
      insert_sorted_comm x y (insert_all ys l) (λ e. ne (e ∙ h.0))
      ∙ ap (insert_sorted y) (insert_all-insert_sorted x ys l k h.1 ne)

  pub insert_all_comm :
      (xs ys l : List (Entry O)) (j k : Text)
      → All (HasKey j) xs
      → All (HasKey k) ys
      → j ≢ k
      → insert_all xs (insert_all ys l) ≡ insert_all ys (insert_all xs l)
  unfolding insert_all
  insert_all_comm [] ys l j k hx hy ne = refl
  insert_all_comm (x ∷ xs) ys l j k hx hy ne =
      ap (insert_sorted x) (insert_all_comm xs ys l j k hx.1 hy ne)
      ∙ insert_all-insert_sorted x ys (insert_all xs l) k hy (λ e. ne (sym hx.0 ∙ e))
