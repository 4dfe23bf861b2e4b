-- ===== src/Base/Dict.antt =====
-- Go's `map[string]V` as an association list. Iteration over a map has no fixed order in Go, so
-- the copy loops are one order of many, and the laws speak of lookups only.
use mathlib.Core.Path.{◌≡◌, refl}
use mathlib.Core.Bool.{Bool, true, false}
use mathlib.Core.Option.{Option, none, some}
use mathlib.Core.List.{List, [], ◌∷◌}
use native.Mathlib.Omega.{arith}
use kdef.Base.Tests.{if◌then◌else◌}
use kdef.Base.Lists.{mem}
use kdef.Base.Text.{Text, ◌==◌, eq_iff}

abbrev pub Dict {ℓ} : Type ℓ → Type ℓ
Dict V = List (Text × V)

module _ {ℓ} {V : Type ℓ} where
  -- v, ok := m[k]
  unfoldable pub lookup : Text → Dict V → Option V
  lookup key [] = none
  lookup key ((first, value) ∷ rest) = if first == key then some value else lookup key rest

  -- m[k] = v: a new key goes to the end.
  unfoldable pub insert : Text → V → Dict V → Dict V
  insert key value [] = (key, value) ∷ []
  insert key value ((first, old) ∷ rest) =
      if first == key then (key, value) ∷ rest else (first, old) ∷ insert key value rest

  -- for k, v := range over { base[k] = v }
  unfoldable pub merge : Dict V → Dict V → Dict V
  merge base [] = base
  merge base ((k, v) ∷ over) = insert k v (merge base over)

  abbrev pub or_else : Option V → Option V → Option V
  or_else (some v) d = some v
  or_else none d = d

  pub lookup-insert :
      (key other : Text) (value : V) (entries : Dict V)
      → lookup other (insert key value entries)
        ≡ (if key == other then some value else lookup other entries)
  unfolding insert lookup
  lookup-insert key other value [] = refl
  lookup-insert key other value ((first, old) ∷ rest) = ground (
    arith,
    lookup-insert key other value rest,
    eq_iff first key,
    eq_iff key other,
    eq_iff first other,
  )

  -- A copy loop: the copied map wins.
  pub lookup-merge :
      (j : Text) (base over : Dict V)
      → lookup j (merge base over) ≡ or_else (lookup j over) (lookup j base)
  unfolding lookup merge
  lookup-merge j base [] = refl
  lookup-merge j base ((k, v) ∷ over) =
      ground (arith, lookup-insert k j v (merge base over), lookup-merge j base over)

abbrev pub is_some {ℓ} : {A : Type ℓ} → Option A → Bool
is_some none = false
is_some (some a) = true

abbrev pub is_none {ℓ} : {A : Type ℓ} → Option A → Bool
is_none none = true
is_none (some a) = false

abbrev pub null {ℓ} : {A : Type ℓ} → List A → Bool
null [] = true
null (x ∷ xs) = false

-- A membership test against a map of Booleans.
abbrev pub contains {ℓ} : {V : Type ℓ} → Text → Dict V → Bool
contains k m = is_some (lookup k m)

-- for _, x := range xs { set[x] = true }
unfoldable pub set_of : List Text → Dict Bool
set_of [] = []
set_of (x ∷ xs) = insert x true (set_of xs)

pub contains-set_of : (k : Text) (xs : List Text) → contains k (set_of xs) ≡ mem k xs
unfolding set_of lookup mem
contains-set_of k [] = refl
contains-set_of k (x ∷ xs) =
    ground (arith, lookup-insert x k true (set_of xs), contains-set_of k xs)

null-insert : (k : Text) (v : Bool) (m : Dict Bool) → null (insert k v m) ≡ false
unfolding insert
null-insert k v [] = refl
null-insert k v ((j, w) ∷ m) = ground arith

pub null-set_of : (xs : List Text) → null (set_of xs) ≡ null xs
unfolding set_of
null-set_of [] = refl
null-set_of (x ∷ xs) = null-insert x true (set_of xs)
