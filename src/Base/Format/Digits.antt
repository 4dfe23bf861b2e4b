-- ===== src/Base/Format/Digits.antt =====
-- `%d` of a number that is not negative.
use kdef.Base.{ℕ, zero, suc, ◌+◌, ◌-◌, ◌*◌, ◌/◌, ◌%◌, ◌<◌, ◌≡◌, refl, sym, ap, ◌∙◌, [], ◌∷◌, ◌++◌}
use kdef.Base.{
  all, all-append, Bool, true, false, ◌&&◌, leb, ltb, if◌then◌else◌, arith, inl, inr, Bool-cases,
}
use kdef.Base.Text.{Text, is_empty}

-- The digits of `n`; the fuel is to be above the number of digits.
unfoldable pub digits : ℕ → ℕ → Text
digits zero n = []
digits (suc f) n =
    let front = digits f (n / 10) in if ltb n 10 then (48 + n) ∷ [] else front ++ (48 + n % 10) ∷ []

unfoldable pub itoa : ℕ → Text
unfolding digits
itoa n = digits (suc n) n

-- The number that a run of digits stands for, after those read so far.
unfoldable pub value_from : ℕ → Text → ℕ
value_from acc [] = acc
value_from acc (d ∷ ds) = value_from (acc * 10 + (d - 48)) ds

value_from-append :
    (acc : ℕ) (s : Text) (d : ℕ) → value_from acc (s ++ d ∷ []) ≡ value_from acc s * 10 + (d - 48)
unfolding value_from
value_from-append acc [] d = refl
value_from-append acc (c ∷ s) d = value_from-append (acc * 10 + (c - 48)) s d

value-digits : (f n : ℕ) → n < f → value_from 0 (digits f n) ≡ n
unfolding digits
value-digits zero n h = elim h [ ]
value-digits (suc f) n h = elim (Bool-cases (ltb n 10)) [
  | inl small ↦ rw small (unfold value_from in omega arith)
  | inr large ↦
      rw (large, value_from-append) (omega (arith, value-digits f (n / 10) (ground arith)))
]

pub value-itoa : (n : ℕ) → value_from 0 (itoa n) ≡ n
unfolding itoa
value-itoa n = value-digits (suc n) n (omega arith)

abbrev pub is_digit : ℕ → Bool
is_digit c = leb 48 c && leb c 57

all-digits : (f n : ℕ) → all is_digit (digits f n) ≡ true
unfolding digits all
all-digits zero n = refl
all-digits (suc f) n = elim (Bool-cases (ltb n 10)) [
  | inl small ↦ rw small (ground arith)
  | inr large ↦ rw (large, all-append is_digit) (ground (arith, all-digits f (n / 10)))
]

pub all-itoa : (n : ℕ) → all is_digit (itoa n) ≡ true
unfolding itoa
all-itoa n = all-digits (suc n) n

pub is_empty-append : (s : Text) (c : ℕ) → is_empty (s ++ c ∷ []) ≡ false
is_empty-append [] c = refl
is_empty-append (d ∷ s) c = refl

pub is_empty-itoa : (n : ℕ) → is_empty (itoa n) ≡ false
unfolding itoa digits
is_empty-itoa n = elim (Bool-cases (ltb n 10)) [
  | inl small ↦ rw small refl
  | inr large ↦ rw (large, is_empty-append (digits n (n / 10)) (48 + n % 10)) refl
]

-- Two numbers that print alike are equal.
pub itoa_injective : (m n : ℕ) → itoa m ≡ itoa n → m ≡ n
unfolding itoa
itoa_injective m n e =
    sym (value-digits (suc m) m (omega arith))
    ∙ ap (value_from 0) e
    ∙ value-digits (suc n) n (omega arith)
