-- ===== src/Base/Errors.antt =====
-- A Go result with an `error`: a value, or the error's message.
use mathlib.Core.Path.{◌≡◌, refl, ap, ap₂, ◌∙◌}
use mathlib.Core.Logic.{◌⊎◌, inl, inr}
use mathlib.Core.Bool.{Bool, true, false, ◌&&◌}
use mathlib.Core.List.{List, [], ◌∷◌, ◌++◌, map}
use native.Mathlib.Omega.{arith}
use kdef.Base.Text.{Text}

-- (value, nil), or (zero value, error)
pub data Result {ℓ} (V : Type ℓ) : Type ℓ where
  err : Text → Result V
  ok : V → Result V

-- if err != nil { return err }, with the value for the rest.
infixl 5 ◌>>=◌ ◌>>◌
abbrev pub ◌>>=◌ {ℓ κ} : {V : Type ℓ} {W : Type κ} → Result V → (V → Result W) → Result W
err message >>= rest = err message
ok value >>= rest = rest value

-- The same, where only the error is returned.
abbrev pub ◌>>◌ {κ} : {W : Type κ} → Result (Unit {0}) → Result W → Result W
err message >> rest = err message
ok _ >> rest = rest

-- Both parts of a chain that succeeded have succeeded.
pub ok_of_bind {ℓ κ} :
    {V : Type ℓ} {W : Type κ} (first : Result V) (rest : V → Result W) {result : W}
    → (first >>= rest) ≡ ok result
    → (value : V) × (first ≡ ok value) × (rest value ≡ ok result)
ok_of_bind (err message) rest e = cc
ok_of_bind (ok value) rest e = (value, refl, e)

pub ok_of_then {κ} :
    {W : Type κ} (first : Result (Unit {0})) (rest : Result W) {result : W}
    → (first >> rest) ≡ ok result
    → (first ≡ ok tt) × (rest ≡ ok result)
ok_of_then (err message) rest e = cc
ok_of_then (ok tt) rest e = (refl, e)

abbrev pub is_ok {ℓ} : {A : Type ℓ} → Result A → Bool
is_ok (ok a) = true
is_ok (err e) = false

-- A loop whose body returns at the first error.
unfoldable pub each {ℓ} : {A : Type ℓ} → (A → Result (Unit {0})) → List A → Result (Unit {0})
each f [] = ok tt
each f (x ∷ xs) = f x >> each f xs

-- A test of every element.
unfoldable pub all {ℓ} : {A : Type ℓ} → (A → Bool) → List A → Bool
all p [] = true
all p (x ∷ xs) = p x && all p xs

pub is_ok->> {ℓ} :
    {B : Type ℓ} (m : Result (Unit {0})) (k : Result B) → is_ok (m >> k) ≡ (is_ok m && is_ok k)
is_ok->> (ok a) k = refl
is_ok->> (err e) k = refl

pub is_ok-each {ℓ} :
    {A : Type ℓ} (f : A → Result (Unit {0})) (p : A → Bool) (xs : List A)
    → ((x : A) → is_ok (f x) ≡ p x)
    → is_ok (each f xs) ≡ all p xs
unfolding each all
is_ok-each f p [] h = refl
is_ok-each f p (x ∷ xs) h = is_ok->> (f x) (each f xs) ∙ ap₂ ◌&&◌ (h x) (is_ok-each f p xs h)

pub all-map {ℓ κ} :
    {A : Type ℓ} {B : Type κ} (p : B → Bool) (f : A → B) (xs : List A)
    → all p (map f xs) ≡ all (λ x. p (f x)) xs
unfolding all
all-map p f [] = refl
all-map p f (x ∷ xs) = ap (λ b. p (f x) && b) (all-map p f xs)

pub all-append {ℓ} :
    {A : Type ℓ} (p : A → Bool) (xs ys : List A) → all p (xs ++ ys) ≡ (all p xs && all p ys)
unfolding all
all-append p [] ys = refl
all-append p (x ∷ xs) ys = ground (arith, all-append p xs ys)

pub all-and {ℓ} :
    {A : Type ℓ} (p q : A → Bool) (xs : List A) → all (λ x. p x && q x) xs ≡ (all p xs && all q xs)
unfolding all
all-and p q [] = refl
all-and p q (x ∷ xs) = ground (arith, all-and p q xs)

-- A split on a result that keeps the equation.
pub Result-cases {ℓ} :
    {V : Type ℓ} (r : Result V)
    → ((message : Text) × (r ≡ err message)) ⊎ ((value : V) × (r ≡ ok value))
Result-cases (err message) = inl (message, refl)
Result-cases (ok value) = inr (value, refl)
