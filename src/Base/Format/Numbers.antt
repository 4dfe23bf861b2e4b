-- ===== src/Base/Format/Numbers.antt =====
-- strings.TrimSpace and strconv.ParseInt of base 10 and 64 bits, and the wrap-around of `int64`.
use kdef.Base.{
  ℕ, zero, suc, ◌+◌, ◌-◌, ◌*◌, ◌%◌, [], ◌∷◌, ◌++◌, Bool, true, false, ◌&&◌, ◌||◌, if◌then◌else◌,
  Option, none, some, ltb, leb, nat_eq, all, ◌≡◌, refl, ap, ◌∙◌, ◌<◌, arith,
}
use kdef.Base.Int.{ℤ, pos, negsuc}
use kdef.Base.Text.{Text, is_empty}
use kdef.Base.Format.Digits.{
  itoa, is_digit, value_from, value-itoa, all-itoa, is_empty-itoa, is_empty-append,
}

-- unicode.IsSpace
unfoldable pub is_space : ℕ → Bool
is_space c =
    leb 9 c && leb c 13
    || (nat_eq c 32
        || (nat_eq c 133
            || (nat_eq c 160
                || (nat_eq c 5760
                    || (leb 8192 c && leb c 8202
                        || (nat_eq c 8232
                            || (nat_eq c 8233
                                || (nat_eq c 8239 || (nat_eq c 8287 || nat_eq c 12288)))))))))

unfoldable pub trim_left : Text → Text
unfolding is_space
trim_left [] = []
trim_left (c ∷ s) = let rest = trim_left s in if is_space c then rest else c ∷ s

unfoldable pub trim_right : Text → Text
unfolding is_space
trim_right [] = []
trim_right (c ∷ s) = let rest = trim_right s in if is_empty rest && is_space c then [] else c ∷ rest

-- strings.TrimSpace
unfoldable pub trim_space : Text → Text
unfolding trim_left trim_right
trim_space s = trim_left (trim_right s)

unfoldable pub parse_digits : ℕ → Text → Option ℕ
parse_digits acc [] = some acc
parse_digits acc (c ∷ s) =
    let rest = parse_digits (acc * 10 + (c - 48)) s in if is_digit c then rest else none

unfoldable pub parse_uint : Text → Option ℕ
unfolding parse_digits
parse_uint s = if is_empty s then none else parse_digits 0 s

-- 2 ^ 63
abbrev pub cutoff : ℕ
cutoff = 9223372036854775808

abbrev pub negated : ℕ → ℤ
negated zero = pos 0
negated (suc n) = negsuc n

abbrev pub positive : Option ℕ → Option ℤ
positive none = none
positive (some n) = if ltb n cutoff then some (pos n) else none

abbrev pub negative : Option ℕ → Option ℤ
negative none = none
negative (some n) = if leb n cutoff then some (negated n) else none

-- strconv.ParseInt(s, 10, 64): no value where the text is no number or does not fit.
unfoldable pub parse_int : Text → Option ℤ
unfolding parse_uint
parse_int [] = none
parse_int (c ∷ s) =
    if nat_eq c 45
    then negative (parse_uint s)
    else if nat_eq c 43
    then positive (parse_uint s)
    else positive (parse_uint (c ∷ s))

-- The `int64` of 64 bits.
unfoldable pub int64 : ℕ → ℤ
int64 r = if ltb r cutoff then pos r else negsuc (2 * cutoff - 1 - r)

-- The product of an `int64` and a positive constant.
unfoldable pub times : ℤ → ℕ → ℤ
unfolding int64
times (pos n) k = int64 (n * k % (2 * cutoff))
times (negsuc n) k = int64 ((2 * cutoff - suc n * k % (2 * cutoff)) % (2 * cutoff))

parse_digits-value :
    (acc : ℕ) (s : Text) → all is_digit s ≡ true → parse_digits acc s ≡ some (value_from acc s)
unfolding parse_digits value_from all
parse_digits-value acc [] h = refl
parse_digits-value acc (c ∷ s) h = ground (arith, parse_digits-value (acc * 10 + (c - 48)) s)

digit_no_sign : (c : ℕ) → is_digit c ≡ true → (nat_eq c 45 ≡ false) × (nat_eq c 43 ≡ false)
digit_no_sign c h = ground (arith, h)

all_first : (c : ℕ) (s : Text) → all is_digit (c ∷ s) ≡ true → is_digit c ≡ true
unfolding all
all_first c s h = ground arith

parse_int-digits :
    (s : Text)
    → all is_digit s ≡ true
    → is_empty s ≡ false
    → parse_int s ≡ positive (some (value_from 0 s))
unfolding parse_int parse_uint all
parse_int-digits [] h e = cc
parse_int-digits (c ∷ s) h e =
    let (minus, plus) = digit_no_sign c (all_first c s h) in
    rw (minus, plus) (ap positive (parse_digits-value 0 (c ∷ s) h))

pub parse_int-itoa : (n : ℕ) → n < cutoff → parse_int (itoa n) ≡ some (pos n)
parse_int-itoa n h =
    parse_int-digits (itoa n) (all-itoa n) (is_empty-itoa n) ∙ rw (value-itoa n) (ground (arith, h))

-- A text that ends with a character that is no space stays as it is.
trim_right-append : (s : Text) (u : ℕ) → is_space u ≡ false → trim_right (s ++ u ∷ []) ≡ s ++ u ∷ []
unfolding trim_right
trim_right-append [] u h = rw h refl
trim_right-append (c ∷ s) u h = rw (trim_right-append s u h, is_empty-append s u) refl

digit_no_space : (c : ℕ) → is_digit c ≡ true → is_space c ≡ false
unfolding is_space
digit_no_space c h = ground (arith, h)

trim_left-digits :
    (s t : Text) → all is_digit s ≡ true → is_empty s ≡ false → trim_left (s ++ t) ≡ s ++ t
unfolding trim_left
trim_left-digits [] t h e = cc
trim_left-digits (c ∷ s) t h e = rw (digit_no_space c (all_first c s h)) refl

pub trim_space-itoa :
    (n u : ℕ) → is_space u ≡ false → trim_space (itoa n ++ u ∷ []) ≡ itoa n ++ u ∷ []
unfolding trim_space
trim_space-itoa n u h =
    ap trim_left (trim_right-append (itoa n) u h)
    ∙ trim_left-digits (itoa n) (u ∷ []) (all-itoa n) (is_empty-itoa n)
