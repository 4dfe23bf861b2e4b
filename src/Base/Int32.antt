-- ===== src/Base/Int32.antt =====
-- Go's conversion `int32(n)` of an `int64`: the low 32 bits, read as a signed number.
use kdef.Base.Int.{ℤ, pos, negsuc}
use kdef.Base.{ℕ, suc, ◌-◌, ◌*◌, ◌%◌, ◌<◌, ◌≡◌, if◌then◌else◌, ltb, arith}

-- 2 ^ 31
abbrev pub half : ℕ
half = 2147483648

low_bits : ℕ → ℤ
low_bits r = if ltb r half then pos r else negsuc (2 * half - 1 - r)

unfoldable pub int32 : ℤ → ℤ
unfolding low_bits
int32 (pos n) = low_bits (n % (2 * half))
int32 (negsuc n) = low_bits ((2 * half - suc n % (2 * half)) % (2 * half))

-- From -(2 ^ 31) to 2 ^ 31 - 1.
unfoldable pub IsInt32 : ℤ → Type 0
IsInt32 (pos n) = n < half
IsInt32 (negsuc n) = n < half

small : (n : ℕ) → n < half → n % (2 * half) ≡ n
small n h = omega arith

complement : (n : ℕ) → n < half → (2 * half - suc n % (2 * half)) % (2 * half) ≡ 2 * half - 1 - n
complement n h = omega arith

pub int32-same : (n : ℤ) → IsInt32 n → int32 n ≡ n
unfolding int32 low_bits IsInt32
int32-same (pos n) h = rw (small n h) (ground (arith, h))
int32-same (negsuc n) h = rw (complement n h) (ground (arith, h))
