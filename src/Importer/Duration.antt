-- ===== src/Importer/Duration.antt =====
-- internal/importer/mapper.go: formatDuration.
pub mod Laws
use kdef.Base.{ℕ, suc, ◌/◌, ◌%◌, ◌++◌, if◌then◌else◌, nat_eq}
use kdef.Base.Format.{itoa}
use kdef.Base.Int.{ℤ, pos, negsuc}
use kdef.Base.Text.{Text, text}

-- The largest unit that divides the seconds.
unfoldable pub format_seconds : ℕ → Text
format_seconds n =
    if nat_eq (n % 3600) 0
    then itoa (n / 3600) ++ text "h"
    else if nat_eq (n % 60) 0
    then itoa (n / 60) ++ text "m"
    else itoa n ++ text "s"

-- Go's division and remainder truncate toward 0, so that a negative number has the digits of its
-- absolute value.
unfoldable pub format_duration : ℤ → Text
unfolding format_seconds
format_duration (pos n) = format_seconds n
format_duration (negsuc n) = text "-" ++ format_seconds (suc n)
