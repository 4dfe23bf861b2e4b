-- ===== src/Base/Format/Quote.antt =====
-- `%q`: strconv.Quote, and the proof that a quoted string can be read off the front of a text.
use kdef.Base.{ℕ, ◌+◌, ◌-◌, ◌*◌, ◌/◌, ◌%◌, ◌<◌, ◌≡◌, refl, sym, ap, ap₂, ◌∙◌, [], ◌∷◌, ◌++◌}
use kdef.Base.{ltb, nat_eq, if◌then◌else◌, arith, Option, none, some, ◌||◌}
use kdef.Base.Text.{Text}
use mathlib.Core.List.{append_assoc}

hex : ℕ → ℕ
hex n = if ltb n 10 then 48 + n else 87 + n

abbrev backslashed : ℕ → Text
backslashed c = b'\\' ∷ c ∷ []

escape_char : ℕ → Text
unfolding hex
escape_char c =
    if nat_eq c b'"'
    then backslashed b'"'
    else if nat_eq c b'\\'
    then backslashed b'\\'
    else if nat_eq c 7
    then backslashed b'a'
    else if nat_eq c 8
    then backslashed b'b'
    else if nat_eq c 12
    then backslashed b'f'
    else if nat_eq c 10
    then backslashed b'n'
    else if nat_eq c 13
    then backslashed b'r'
    else if nat_eq c 9
    then backslashed b't'
    else if nat_eq c 11
    then backslashed b'v'
    else if ltb c 32 || nat_eq c 127
    then b'\\' ∷ b'x' ∷ hex (c / 16) ∷ hex (c % 16) ∷ []
    else c ∷ []

-- The quoted characters with the closing quote, before a rest.
quote_onto : Text → Text → Text
quote_onto [] rest = b'"' ∷ rest
quote_onto (c ∷ s) rest = escape_char c ++ quote_onto s rest

unfoldable pub quote : Text → Text
unfolding quote_onto escape_char
quote s = b'"' ∷ quote_onto s []

-- One character read back.
unhex : ℕ → ℕ
unhex d = if ltb d 58 then d - 48 else d - 87

unescape_code : ℕ → ℕ
unescape_code e =
    if nat_eq e b'a'
    then 7
    else if nat_eq e b'b'
    then 8
    else if nat_eq e b'f'
    then 12
    else if nat_eq e b'n'
    then 10
    else if nat_eq e b'r'
    then 13
    else if nat_eq e b't'
    then 9
    else if nat_eq e b'v'
    then 11
    else e

take_hex : Text → Option (ℕ × Text)
take_hex (h ∷ l ∷ s) = some (16 * unhex h + unhex l, s)
take_hex s = none

take_escape : Text → Option (ℕ × Text)
take_escape [] = none
take_escape (e ∷ s) = if nat_eq e b'x' then take_hex s else some (unescape_code e, s)

take_char : Text → Option (ℕ × Text)
take_char [] = none
take_char (c ∷ s) =
    if nat_eq c b'"' then none else if nat_eq c b'\\' then take_escape s else some (c, s)

unhex-hex : (n : ℕ) → n < 16 → unhex (hex n) ≡ n
unfolding unhex hex
unhex-hex n h = ground arith

take_char-escape_char : (c : ℕ) (rest : Text) → take_char (escape_char c ++ rest) ≡ some (c, rest)
unfolding take_char take_escape take_hex unescape_code escape_char
take_char-escape_char c rest = ground (arith, unhex-hex (c / 16), unhex-hex (c % 16))

take_char-close : (u : Text) → take_char (b'"' ∷ u) ≡ none
unfolding take_char
take_char-close u = refl

-- A quoted string ends where it ends: both the string and what follows can be read back.
quote_onto_injective : (s t u v : Text) → quote_onto s u ≡ quote_onto t v → (s ≡ t) × (u ≡ v)
unfolding quote_onto
quote_onto_injective [] [] u v e = ground arith
quote_onto_injective [] (d ∷ t) u v e =
    cc (take_char-escape_char d (quote_onto t v), take_char-close u)
quote_onto_injective (c ∷ s) [] u v e =
    cc (take_char-escape_char c (quote_onto s u), take_char-close v)
quote_onto_injective (c ∷ s) (d ∷ t) u v e =
    let read : some (c, quote_onto s u) ≡ some (d, quote_onto t v) =
      sym (take_char-escape_char c (quote_onto s u))
      ∙ ap take_char e
      ∙ take_char-escape_char d (quote_onto t v) in
    let later = quote_onto_injective s t u v (cc read) in (ap₂ ◌∷◌ (cc read) later.0, later.1)

quote_onto-append : (s u : Text) → quote_onto s [] ++ u ≡ quote_onto s u
unfolding quote_onto
quote_onto-append [] u = refl
quote_onto-append (c ∷ s) u =
    append_assoc (escape_char c) _ u ∙ ap (λ r. escape_char c ++ r) (quote_onto-append s u)

pub quote-append_injective : (s t u v : Text) → quote s ++ u ≡ quote t ++ v → (s ≡ t) × (u ≡ v)
unfolding quote
quote-append_injective s t u v e =
    quote_onto_injective s t u v (sym (quote_onto-append s u) ∙ cc e ∙ quote_onto-append t v)
