-- ===== src/Parser/Overrides/Laws.antt =====
-- Applying the overrides.
use kdef.Base.{Option, ◌≡◌, arith}
use kdef.Base.Int.{ℤ}
use kdef.Base.Lists.{map-map}
use kdef.Parser.Overrides.{AppOverride, OverrideResult, overridden, apply_overrides}
use kdef.Types.{KdefConfig}

overridden_twice : (o : Option AppOverride) (n : ℤ) → overridden o (overridden o n) ≡ overridden o n
unfolding overridden
overridden_twice o n = ground arith

-- To apply the same overrides again changes nothing.
apply_overrides_twice :
    (c : KdefConfig) (o : OverrideResult)
    → apply_overrides (apply_overrides c o) o ≡ apply_overrides c o
unfolding apply_overrides
apply_overrides_twice c o = simp (map-map, overridden_twice)
