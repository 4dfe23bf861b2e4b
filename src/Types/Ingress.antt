-- ===== src/Types/Ingress.antt =====
-- internal/types/app.go and config.go: ingress blocks and their defaults.
use kdef.Base.{Bool, List, Option}
use kdef.Base.Int.{ℤ}
use kdef.Base.Dict.{Dict}
use kdef.Base.Text.{Text}

pub record IngressConfig : Type 0 where
  pub name : Text
  pub namespace : Text
  pub service_name : Text
  pub port : ℤ
  pub host : Text
  pub hosts : List Text
  pub tls : Bool
  pub tls_secret : Text
  pub issuer : Text
  pub class : Text
  pub annotations : Dict Text

pub record IngressDefaults : Type 0 where
  pub annotations : Dict Text
  pub tls : Option Bool
  pub tls_secret : Text
  pub issuer : Text
  pub class : Text
  pub mode : Text
  pub gateway : Text
  pub gateway_namespace : Text
