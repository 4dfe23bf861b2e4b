-- ===== src/Base/Format.antt =====
-- What the code uses of fmt, strconv and strings: `%d`, `%q`, ReplaceAll of one character, Join.
-- `%q` leaves a character from 0x80 on as it is, where Go escapes those that do not print.
pub mod Digits
pub mod Quote
pub mod Numbers
pub use Digits.{itoa, itoa_injective, is_empty-itoa, is_empty-append}
unfoldable pub use Numbers.{is_space, trim_space, parse_int, int64, times}
pub use Numbers.{cutoff, parse_int-itoa, trim_space-itoa}
pub use Quote.{quote, quote-append_injective}
use kdef.Base.{ℕ, List, [], ◌∷◌, ◌++◌, nat_eq, if◌then◌else◌}
use kdef.Base.Text.{Text}

-- strings.ReplaceAll(s, old, new) for strings of one character
unfoldable pub replace_all : ℕ → ℕ → Text → Text
replace_all old new [] = []
replace_all old new (c ∷ s) = (if nat_eq c old then new else c) ∷ replace_all old new s

-- strings.Join
unfoldable pub join : Text → List Text → Text
join sep [] = []
join sep (x ∷ []) = x
join sep (x ∷ y ∷ xs) = x ++ (sep ++ join sep (y ∷ xs))
