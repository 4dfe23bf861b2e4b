-- ===== src/Parser/Overrides.antt =====
-- internal/parser/override.go: the overrides of an environment file, applied to a config.
pub mod Laws
use kdef.Base.{List, map, Option, none, some}
use kdef.Base.Dict.{Dict, lookup}
use kdef.Base.Int.{ℤ}
use kdef.Base.Text.{Text}
use kdef.Types.{ResourcesConfig, KdefConfig, DeploymentConfig, StatefulSetConfig}

pub record AppOverride : Type 0 where
  pub replicas : Option ℤ
  pub resources : Option ResourcesConfig

pub record OverrideResult : Type 0 where
  pub var_overrides : Dict Text
  pub app_overrides : Dict AppOverride

-- The replicas of a workload under the override that names it, if any does.
unfoldable pub overridden : Option AppOverride → ℤ → ℤ
overridden none replicas = replicas
overridden (some o) replicas = elim o.replicas [ none ↦ replicas | some n ↦ n ]

unfoldable pub apply_overrides : KdefConfig → OverrideResult → KdefConfig
unfolding overridden
apply_overrides config o = record config {
  deployments =
      map {A = DeploymentConfig}
        (λ d. record d { replicas = overridden (lookup d.name o.app_overrides) d.replicas })
        config.deployments;
  stateful_sets =
      map {A = StatefulSetConfig}
        (λ d. record d { replicas = overridden (lookup d.name o.app_overrides) d.replicas })
        config.stateful_sets;
}
