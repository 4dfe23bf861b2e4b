-- ===== src/Base/Lists.antt =====
-- Predicates and tests over lists.
use mathlib.Core.Path.{◌≡◌, refl, ap, ap₂}
use mathlib.Core.Bool.{Bool, true, false, ◌||◌}
use mathlib.Core.List.{List, [], ◌∷◌, ◌++◌, map}
use native.Mathlib.Omega.{arith}
use kdef.Base.Text.{Text, ◌==◌, eq_iff, eq_sym}
use kdef.Base.Tests.{if◌then◌else◌}

abbrev pub All {ℓ κ} : {A : Type ℓ} → (A → Type κ) → List A → Type κ
All P [] = Unit
All P (x ∷ xs) = P x × All P xs

module _ {ℓ κ} {A : Type ℓ} (P : A → Type κ) where
  pub All-append : (xs ys : List A) → All P xs → All P ys → All P (xs ++ ys)
  All-append [] ys h k = k
  All-append (x ∷ xs) ys h k = (h.0, All-append xs ys h.1 k)

  pub All-append_left : (xs ys : List A) → All P (xs ++ ys) → All P xs
  All-append_left [] ys h = tt
  All-append_left (x ∷ xs) ys h = (h.0, All-append_left xs ys h.1)

  pub All-append_right : (xs ys : List A) → All P (xs ++ ys) → All P ys
  All-append_right [] ys h = h
  All-append_right (x ∷ xs) ys h = All-append_right xs ys h.1

-- `mem a xs`: some element of `xs` is the text `a`.
unfoldable pub mem : Text → List Text → Bool
mem a [] = false
mem a (x ∷ xs) = x == a || mem a xs

-- No text stands twice in the list.
unfoldable pub distinct : List Text → Bool
distinct [] = true
distinct (x ∷ xs) = if mem x xs then false else distinct xs

pub mem-append : (a : Text) (xs ys : List Text) → mem a (xs ++ ys) ≡ (mem a xs || mem a ys)
unfolding mem
mem-append a [] ys = refl
mem-append a (x ∷ xs) ys = ground (arith, mem-append a xs ys)

-- `apart seen xs`: no element of `xs` is in `seen`.
unfoldable pub apart : List Text → List Text → Bool
apart seen [] = true
apart seen (x ∷ xs) = if mem x seen then false else apart seen xs

-- Distinct, and apart from what was seen, checked in one pass.
unfoldable pub distinct_from : List Text → List Text → Bool
distinct_from seen [] = true
distinct_from seen (x ∷ xs) =
    let rest = distinct_from (x ∷ seen) xs in if mem x seen then false else rest

apart-cons :
    (y : Text) (seen xs : List Text)
    → apart (y ∷ seen) xs ≡ (if mem y xs then false else apart seen xs)
unfolding apart mem
apart-cons y seen [] = refl
apart-cons y seen (x ∷ xs) = ground (arith, apart-cons y seen xs, eq_sym x y)

pub distinct_from_lem :
    (seen xs : List Text) → distinct_from seen xs ≡ (if apart seen xs then distinct xs else false)
unfolding distinct_from apart distinct
distinct_from_lem seen [] = refl
distinct_from_lem seen (x ∷ xs) =
    ground (arith, distinct_from_lem (x ∷ seen) xs, apart-cons x seen xs)

apart_nil : (xs : List Text) → apart [] xs ≡ true
unfolding apart mem
apart_nil [] = refl
apart_nil (x ∷ xs) = apart_nil xs

pub distinct_from_nil : (xs : List Text) → distinct_from [] xs ≡ distinct xs
distinct_from_nil xs = ground (arith, distinct_from_lem [] xs, apart_nil xs)

pub map-map {ℓ κ λ₁} :
    {A : Type ℓ} {B : Type κ} {C : Type λ₁} (f : B → C) (g : A → B) (xs : List A)
    → map f (map g xs) ≡ map (λ x. f (g x)) xs
map-map f g [] = refl
map-map f g (x ∷ xs) = ap (λ l. f (g x) ∷ l) (map-map f g xs)

-- A map by a function that changes nothing.
pub map-same {ℓ} : {A : Type ℓ} (f : A → A) (xs : List A) → ((x : A) → f x ≡ x) → map f xs ≡ xs
map-same f [] h = refl
map-same f (x ∷ xs) h = ap₂ ◌∷◌ (h x) (map-same f xs h)

-- The texts of a list, each at its first place, without those in `seen`.
unfoldable pub nub_from : List Text → List Text → List Text
nub_from seen [] = []
nub_from seen (x ∷ xs) =
    let skipped = nub_from seen xs in
    let kept = x ∷ nub_from (x ∷ seen) xs in if mem x seen then skipped else kept

pub nub_from-distinct_from : (seen xs : List Text) → distinct_from seen (nub_from seen xs) ≡ true
unfolding nub_from distinct_from
nub_from-distinct_from seen [] = refl
nub_from-distinct_from seen (x ∷ xs) =
    ground (arith, nub_from-distinct_from seen xs, nub_from-distinct_from (x ∷ seen) xs)

pub mem-nub_from :
    (k : Text) (seen xs : List Text)
    → mem k (nub_from seen xs) ≡ (if mem k seen then false else mem k xs)
unfolding nub_from mem
mem-nub_from k seen [] = ground arith
mem-nub_from k seen (x ∷ xs) =
    ground (arith, mem-nub_from k seen xs, mem-nub_from k (x ∷ seen) xs, eq_iff x k)
