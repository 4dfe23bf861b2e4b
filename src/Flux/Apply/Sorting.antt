-- ===== src/Flux/Apply/Sorting.antt =====
-- The sort of applyObjects: by rank, and a permutation.
use kdef.Base.{◌≤◌, List, [], ◌∷◌, ltb, arith, Bool-cases, inl, inr}
use kdef.Base.Lists.{All}
use kdef.Flux.Apply.{apply_order, insert_object, sort_objects}
use kdef.Flux.Resources.{Object}
use mathlib.Core.List.{Perm}
use mathlib.Core.List.Perm

abbrev pub Precedes : Object → Object → Type 0
Precedes o p = apply_order o.kind ≤ apply_order p.kind

abbrev pub IsOrdered : List Object → Type 0
IsOrdered [] = Unit
IsOrdered (o ∷ os) = All (Precedes o) os × IsOrdered os

All-insert_object :
    (P : Object → Type 0) (o : Object) (os : List Object)
    → P o
    → All P os
    → All P (insert_object o os)
unfolding insert_object
All-insert_object P o [] h hs = (h, tt)
All-insert_object P o (p ∷ os) h hs =
    elim (Bool-cases (ltb (apply_order p.kind) (apply_order o.kind))) [
      | inl later ↦ rw later (hs.0, All-insert_object P o os h hs.1)
      | inr here ↦ rw here (h, hs)
    ]

All-Precedes_trans :
    (o p : Object) (os : List Object) → Precedes o p → All (Precedes p) os → All (Precedes o) os
All-Precedes_trans o p [] h hs = tt
All-Precedes_trans o p (q ∷ os) h hs = (omega arith, All-Precedes_trans o p os h hs.1)

insert_object-IsOrdered :
    (o : Object) (os : List Object) → IsOrdered os → IsOrdered (insert_object o os)
unfolding insert_object
insert_object-IsOrdered o [] h = (tt, tt)
insert_object-IsOrdered o (p ∷ os) h =
    elim (Bool-cases (ltb (apply_order p.kind) (apply_order o.kind))) [
      | inl later ↦
          rw later (
            All-insert_object (Precedes p) o os (ground arith) h.0,
            insert_object-IsOrdered o os h.1,
          )
      | inr here ↦
          let first : Precedes o p = ground arith in
          rw here ((first, All-Precedes_trans o p os first h.0), h)
    ]

insert_object-perm : (o : Object) (os : List Object) → Perm (insert_object o os) (o ∷ os)
unfolding insert_object
insert_object-perm o [] = Perm.refl (o ∷ [])
insert_object-perm o (p ∷ os) = elim (Bool-cases (ltb (apply_order p.kind) (apply_order o.kind))) [
  | inl later ↦ rw later (Perm.trans (Perm.cons p (insert_object-perm o os)) (Perm.swap o p os))
  | inr here ↦ rw here (Perm.refl (o ∷ p ∷ os))
]

pub sort_objects-IsOrdered : (os : List Object) → IsOrdered (sort_objects os)
unfolding sort_objects
sort_objects-IsOrdered [] = tt
sort_objects-IsOrdered (o ∷ os) =
    insert_object-IsOrdered o (sort_objects os) (sort_objects-IsOrdered os)

pub sort_objects-perm : (os : List Object) → Perm (sort_objects os) os
unfolding sort_objects
sort_objects-perm [] = Perm.refl []
sort_objects-perm (o ∷ os) =
    Perm.trans (insert_object-perm o (sort_objects os)) (Perm.cons o (sort_objects-perm os))
